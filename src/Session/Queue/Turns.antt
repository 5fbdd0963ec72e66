-- ===== src/Session/Queue/Turns.antt =====
-- Progress: when `Dequeue` returns nothing, and how long a bulk message can wait.
use mathlib.Core.Path.{subst}
use kvm_infrastructure_manag.Base.{
  ℕ, zero, suc, ◌+◌, ◌≤◌, ◌<◌, ◌≡◌, refl, sym, ap, ◌∙◌, ◌⊎◌, inl, inr, ◌↔◌, true, Option, none,
  some, List, [], ◌∷◌, arith, length,
}
use kvm_infrastructure_manag.Session.Envelope.{Envelope}
use kvm_infrastructure_manag.Session.Queue.{PriorityQueue, dequeue, is_bulk}
use kvm_infrastructure_manag.Session.Queue.Sums.{bulk_sum, bulk_sum-update_priority}
use kvm_infrastructure_manag.Session.Queue.Attempt.{Outcome, idle, bulk, priority, dequeue-Outcome}
use kvm_infrastructure_manag.Session.Queue.Valid.{
  IsValid, taken-IsHome, taken_sums, dequeue-IsValid,
}

-- What `n` calls of `Dequeue` return, in order, and the queue after them.
abbrev pub keep : Option Envelope → List Envelope → List Envelope
keep none es = es
keep (some e) es = e ∷ es

pub serve : ℕ → PriorityQueue → List Envelope × PriorityQueue
serve zero q = ([], q)
serve (suc n) q = let rest = serve n (dequeue q).1 in (keep (dequeue q).0 rest.0, rest.1)

Outcome-none_iff :
    {q : PriorityQueue} {o : Option Envelope} {r : PriorityQueue}
    → IsValid q
    → Outcome q o r
    → (o ≡ none) ↔ (q.total_count ≡ 0)
Outcome-none_iff v (idle c (a, b, d, e) (f, g)) = (
  λ _. omega (
    arith,
    v.counted,
    ap length c,
    ap length a,
    ap length b,
    ap length d,
    ap length e,
    ap length f,
    ap length g,
  ),
  λ _. refl,
)
Outcome-none_iff v (bulk t b k turn) =
    (λ h. cc, λ h. absurd (omega (arith, v.counted, h, (taken_sums v t).0)))
Outcome-none_iff v (priority t b k turn) =
    (λ h. cc, λ h. absurd (omega (arith, v.counted, h, (taken_sums v t).0)))

-- From a valid queue `Dequeue` returns nothing exactly if the queue is empty.
pub dequeue-none_iff :
    (q : PriorityQueue) → IsValid q → ((dequeue q).0 ≡ none) ↔ (q.total_count ≡ 0)
dequeue-none_iff q v = Outcome-none_iff v (dequeue-Outcome q)

Outcome-drops :
    {q : PriorityQueue} {o : Option Envelope} {r : PriorityQueue} (n : ℕ) (es : List Envelope)
    → IsValid q
    → Outcome q o r
    → q.total_count ≡ suc n
    → (r.total_count ≡ n) × (length (keep o es) ≡ suc (length es))
Outcome-drops n es v (idle c a b) h =
    absurd (omega (arith, h, (Outcome-none_iff v (idle c a b)).0 refl))
Outcome-drops n es v (bulk t b k turn) h = (omega (arith, t.count, h), refl)
Outcome-drops n es v (priority t b k turn) h = (omega (arith, t.count, h), refl)

-- From a valid queue with n messages, n calls of `Dequeue` return n messages and empty it.
pub serve_all :
    (n : ℕ) (q : PriorityQueue)
    → IsValid q
    → q.total_count ≡ n
    → ((serve n q).1.total_count ≡ 0) × (length (serve n q).0 ≡ n)
unfolding serve
serve_all zero q v h = (h, refl)
serve_all (suc n) q v h =
    let (c, l) = Outcome-drops n (serve n (dequeue q).1).0 v (dequeue-Outcome q) h in
    let (a, b) = serve_all n (dequeue q).1 (dequeue-IsValid q v) c in (a, l ∙ ap suc b)

-- A bulk message is among those returned.
abbrev pub HasBulk : List Envelope → Type 0
HasBulk [] = ⊥
HasBulk (e ∷ es) = (is_bulk e.stream ≡ true) ⊎ HasBulk es

Outcome-HasBulk :
    {q : PriorityQueue} {o : Option Envelope} {r : PriorityQueue} (es : List Envelope)
    → IsValid q
    → Outcome q o r
    → 0 < bulk_sum length q.lanes
    → (q.consecutive_priority < q.limits.max_consecutive_priority
        → 0 < bulk_sum length r.lanes
        → r.consecutive_priority ≡ q.consecutive_priority + 1
        → r.limits ≡ q.limits
        → HasBulk es)
    → HasBulk (keep o es)
Outcome-HasBulk es v (idle c a (f, g)) w later = absurd (omega (arith, ap length f, ap length g, w))
Outcome-HasBulk es v (bulk t b k turn) w later =
    inl (subst (λ s. is_bulk s ≡ true) (sym (taken-IsHome v t).0) b.0)
Outcome-HasBulk es v (priority t b k (inr (f, g))) w later =
    absurd (omega (arith, ap length f, ap length g, w))
Outcome-HasBulk {q} es v (priority t b k (inl early)) w later = inr (
    later early
      (rw t.lanes (omega (arith, bulk_sum-update_priority length q.lanes t.rest t.from b.0, w))) k
      t.limits)

bulk_within :
    (d : ℕ) (q : PriorityQueue)
    → IsValid q
    → 0 < bulk_sum length q.lanes
    → q.limits.max_consecutive_priority ≤ q.consecutive_priority + d
    → HasBulk (serve (suc d) q).0
unfolding serve
bulk_within zero q v w h =
    Outcome-HasBulk [] v (dequeue-Outcome q) w (λ early _ _ _. absurd (omega (arith, early, h)))
bulk_within (suc d) q v w h =
    Outcome-HasBulk (serve (suc d) (dequeue q).1).0 v (dequeue-Outcome q) w (λ early more k m.
      bulk_within d (dequeue q).1 (dequeue-IsValid q v) more (rw (k, m) (omega (arith, h))))

-- If a valid queue holds a bulk message, one of the next `MaxConsecutivePriority` + 1 calls of
-- `Dequeue` returns a bulk message.
pub bulk_turn :
    (q : PriorityQueue)
    → IsValid q
    → 0 < bulk_sum length q.lanes
    → HasBulk (serve (suc q.limits.max_consecutive_priority) q).0
bulk_turn q v w = bulk_within q.limits.max_consecutive_priority q v w (omega arith)
