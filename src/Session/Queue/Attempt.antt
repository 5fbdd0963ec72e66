-- ===== src/Session/Queue/Attempt.antt =====
-- Each attempt of `Dequeue`, and the outcome of the whole: which message it takes, and when none.
use kvm_infrastructure_manag.Base.{
  ℕ, ◌+◌, ◌<◌, ◌≤◌, ◌≡◌, refl, ap, ◌∙◌, Option, none, some, [], arith, ◌⊎◌, inl, inr, leb,
  Bool-cases,
}
use kvm_infrastructure_manag.Session.Envelope.{
  Stream, control, command, result, heartbeat, credential, inventory, resync, Envelope,
}
use kvm_infrastructure_manag.Session.Queue.{
  PriorityQueue, pop_first, pop_bulk, pop_control, pop_authority, attempts, dequeue, or_else,
  control_streams, authority_streams, bulk_streams,
}
use kvm_infrastructure_manag.Session.Queue.Take.{
  Taken, IsPriority, IsBulk, IsBulk-IsTake, control-IsTake, authority-IsTake, bulk_none,
  control_none, authority_none,
}

abbrev pub NoBulk : PriorityQueue → Type 0
NoBulk q = (q.lanes inventory ≡ []) × (q.lanes resync ≡ [])

abbrev pub NoAuthority : PriorityQueue → Type 0
NoAuthority q =
    (q.lanes command ≡ [])
    × (q.lanes result ≡ [])
    × (q.lanes heartbeat ≡ [])
    × (q.lanes credential ≡ [])

-- One attempt: it takes a message of its class, or its lanes are empty.
abbrev Attempt :
    PriorityQueue → Type 0 → (Stream → Type 0) → ℕ → Option (Envelope × PriorityQueue) → Type 0
Attempt q none_left P count none = none_left
Attempt q none_left P count (some (e, r)) =
    (t : Taken q e r) × P t.from × (r.consecutive_priority ≡ count)

Option3-cases :
    (o : Option (Envelope × ℕ × PriorityQueue))
    → (o ≡ none) ⊎ ((e : Envelope) × (c : ℕ) × (r : PriorityQueue) × (o ≡ some (e, c, r)))
Option3-cases none = inl refl
Option3-cases (some (e, c, r)) = inr (e, c, r, refl)

-- The cursors and the count of consecutive priority messages do not matter to `Taken`.
retarget :
    {q r r' : PriorityQueue} {e : Envelope}
    → r'.lanes ≡ r.lanes
    → r'.total_count ≡ r.total_count
    → r'.total_bytes ≡ r.total_bytes
    → r'.limits ≡ r.limits
    → Taken q e r
    → Taken q e r'
retarget l c b m t = record {
  from = t.from;
  known = t.known;
  rest = t.rest;
  head = t.head;
  lanes = l ∙ t.lanes;
  count = c ∙ t.count;
  bytes = b ∙ t.bytes;
  limits = m ∙ t.limits;
}

IsBulk-Attempt : (q : PriorityQueue) → Attempt q (NoBulk q) IsBulk 0 (pop_bulk q)
unfolding pop_bulk retarget
IsBulk-Attempt q = elim (Option3-cases (pop_first bulk_streams q.bulk_cursor q)) [
  | inl h ↦ rw (h, pop_bulk) (bulk_none q h 0 (omega arith), bulk_none q h 1 (omega arith))
  | inr (e, c, r, h) ↦
      let (t, p, k) = rw h at (IsBulk-IsTake q) in
      rw (h, pop_bulk) (retarget refl refl refl refl t, p, refl)
]

control-Attempt :
    (q : PriorityQueue)
    → Attempt q (q.lanes control ≡ []) IsPriority (q.consecutive_priority + 1) (pop_control q)
unfolding pop_control retarget
control-Attempt q = elim (Option3-cases (pop_first control_streams 0 q)) [
  | inl h ↦ rw (h, pop_control) (control_none q h)
  | inr (e, c, r, h) ↦
      let (t, p, k) = rw h at (control-IsTake q) in
      rw (h, pop_control) (retarget refl refl refl refl t, p, ap (λ n. n + 1) k)
]

authority-Attempt :
    (q : PriorityQueue)
    → Attempt q (NoAuthority q) IsPriority (q.consecutive_priority + 1) (pop_authority q)
unfolding pop_authority retarget
authority-Attempt q = elim (Option3-cases (pop_first authority_streams q.authority_cursor q)) [
  | inl h ↦
      rw (h, pop_authority)
        (
          authority_none q h 0 (omega arith),
          authority_none q h 1 (omega arith),
          authority_none q h 2 (omega arith),
          authority_none q h 3 (omega arith),
        )
  | inr (e, c, r, h) ↦
      let (t, p, k) = rw h at (authority-IsTake q) in
      rw (h, pop_authority) (retarget refl refl refl refl t, p, ap (λ n. n + 1) k)
]

-- What a call of `Dequeue` on `q` may return.
pub data Outcome (q : PriorityQueue) : Option Envelope → PriorityQueue → Type 0 where
  -- nothing, from a queue whose known lanes are all empty
  idle : q.lanes control ≡ [] → NoAuthority q → NoBulk q → Outcome q none q
  -- a bulk message: its turn has come, or no priority message waits
  bulk :
      {e : Envelope} {r : PriorityQueue}
      → (t : Taken q e r) → IsBulk t.from
      → r.consecutive_priority ≡ 0
      → (q.limits.max_consecutive_priority ≤ q.consecutive_priority)
        ⊎ ((q.lanes control ≡ []) × NoAuthority q)
      → Outcome q (some e) r
  -- a priority message: it is not the turn of the bulk messages, or none waits
  priority :
      {e : Envelope} {r : PriorityQueue}
      → (t : Taken q e r) → IsPriority t.from
      → r.consecutive_priority ≡ q.consecutive_priority + 1
      → (q.consecutive_priority < q.limits.max_consecutive_priority) ⊎ NoBulk q
      → Outcome q (some e) r

-- The outcome of a list of attempts.
abbrev Answer : PriorityQueue → Option (Envelope × PriorityQueue) → Type 0
Answer q none = Outcome q none q
Answer q (some (e, r)) = Outcome q (some e) r

in_order-Answer :
    (q : PriorityQueue) (c a b : Option (Envelope × PriorityQueue))
    → Attempt q (q.lanes control ≡ []) IsPriority (q.consecutive_priority + 1) c
    → Attempt q (NoAuthority q) IsPriority (q.consecutive_priority + 1) a
    → Attempt q (NoBulk q) IsBulk 0 b
    → (q.consecutive_priority < q.limits.max_consecutive_priority) ⊎ NoBulk q
    → Answer q (or_else c (or_else a b))
in_order-Answer q (some (e, r)) a b (t, p, k) ha hb turn = priority t p k turn
in_order-Answer q none (some (e, r)) b hc (t, p, k) hb turn = priority t p k turn
in_order-Answer q none none (some (e, r)) hc ha (t, p, k) turn = bulk t p k (inr (hc, ha))
in_order-Answer q none none none hc ha hb turn = idle hc ha hb

turn-Answer :
    (q : PriorityQueue) (c a b : Option (Envelope × PriorityQueue))
    → Attempt q (q.lanes control ≡ []) IsPriority (q.consecutive_priority + 1) c
    → Attempt q (NoAuthority q) IsPriority (q.consecutive_priority + 1) a
    → Attempt q (NoBulk q) IsBulk 0 b
    → q.limits.max_consecutive_priority ≤ q.consecutive_priority
    → Answer q (or_else b (or_else c (or_else a b)))
turn-Answer q c a (some (e, r)) hc ha (t, p, k) due = bulk t p k (inl due)
turn-Answer q c a none hc ha hb due = in_order-Answer q c a none hc ha hb (inr hb)

attempts-Answer : (q : PriorityQueue) → Answer q (attempts q)
unfolding attempts
attempts-Answer q =
    let c = control-Attempt q in
    let a = authority-Attempt q in
    let b = IsBulk-Attempt q in
    elim (Bool-cases (leb q.limits.max_consecutive_priority q.consecutive_priority)) [
      | inl due ↦
          rw due (turn-Answer q (pop_control q) (pop_authority q) (pop_bulk q) c a b (ground arith))
      | inr early ↦ rw early (
          in_order-Answer q (pop_control q) (pop_authority q) (pop_bulk q) c a b
            (inl (ground arith)))
    ]

Answer-Outcome :
    (q : PriorityQueue) (o : Option (Envelope × PriorityQueue))
    → attempts q ≡ o
    → Answer q o
    → Outcome q (dequeue q).0 (dequeue q).1
unfolding dequeue
Answer-Outcome q none h a = rw (h, dequeue) a
Answer-Outcome q (some (e, r)) h a = rw (h, dequeue) a

pub dequeue-Outcome : (q : PriorityQueue) → Outcome q (dequeue q).0 (dequeue q).1
dequeue-Outcome q = Answer-Outcome q (attempts q) refl (attempts-Answer q)
