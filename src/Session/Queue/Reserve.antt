-- ===== src/Session/Queue/Reserve.antt =====
-- What the reserved capacity promises, and what a message that is put back can rely on.
use mathlib.Core.Path.{subst}
use mathlib.Core.Option.{some-injective}
use kvm_infrastructure_manag.Base.{
  ℕ, ◌+◌, ◌≤◌, ◌<◌, ◌≡◌, refl, sym, ap, ◌∙◌, ◌↔◌, ◌≢◌, ◌++◌, true, false, Option, none, some, List,
  [], ◌∷◌, arith, length,
}
use kvm_infrastructure_manag.Base.Ints.{ℤ, pos, negsuc, pos_part, neg_part}
use kvm_infrastructure_manag.Session.Error.{Error}
use kvm_infrastructure_manag.Session.Envelope.{Envelope, is_known, stream_eq_refl}
use kvm_infrastructure_manag.Session.Queue.{PriorityQueue, enqueue, dequeue, is_bulk}
use kvm_infrastructure_manag.Session.Queue.Sums.{payload_bytes, bulk_sum, priority_sum}
use kvm_infrastructure_manag.Session.Queue.Take.{Taken}
use kvm_infrastructure_manag.Session.Queue.Attempt.{Outcome, idle, bulk, priority, dequeue-Outcome}
use kvm_infrastructure_manag.Session.Queue.Entry.{
  Fits, add, Entry, accepted, refused, enqueue-Entry,
}
use kvm_infrastructure_manag.Session.Queue.Valid.{IsValid, taken-IsHome, taken_sums}

Entry-none :
    {q : PriorityQueue} {e : Envelope} {x : Option Error} {r : PriorityQueue}
    → Entry q e x r
    → (x ≡ none) ↔ Fits q e
Entry-none (accepted f) = (λ _. f, λ _. refl)
Entry-none (refused x n) = (λ h. cc, λ f. absurd (n f))

-- `Enqueue` accepts a message exactly if it fits.
pub enqueue-none_iff : (q : PriorityQueue) (e : Envelope) → ((enqueue q e).0 ≡ none) ↔ Fits q e
enqueue-none_iff q e = Entry-none (enqueue-Entry q e)

-- Bulk traffic and a reserve `r` of a total `m`: `p` more within the reserve are within the total.
within_reserve :
    (r : ℤ) (m b p : ℕ) → b + pos_part r ≤ m + neg_part r → b ≤ m → p ≤ pos_part r → b + p ≤ m
within_reserve (pos r) m b p h k l = omega arith
within_reserve (negsuc r) m b p h k l = omega arith

-- A valid queue accepts a priority message, whatever bulk traffic it holds, if the message is within
-- the message limit, its lane has room, and the priority messages stay within the reserve in number
-- and in bytes.
pub reserve_accepts :
    (q : PriorityQueue) (e : Envelope)
    → IsValid q
    → is_bulk e.stream ≡ false
    → length e.payload ≤ q.limits.max_message_bytes
    → length (q.lanes e.stream) < q.limits.per_stream_messages e.stream
    → priority_sum length q.lanes + 1 ≤ pos_part q.limits.reserved_priority_msgs
    → priority_sum payload_bytes q.lanes + length e.payload
      ≤ pos_part q.limits.reserved_priority_bytes
    → (enqueue q e).0 ≡ none
reserve_accepts q e v b small lane count bytes =
    let m = q.limits in
    (enqueue-none_iff q e).1 (record {
      message = small;
      lane = lane;
      count = omega (
        arith,
        v.counted,
        within_reserve m.reserved_priority_msgs m.max_total_messages (bulk_sum length q.lanes)
            (priority_sum length q.lanes + 1) v.count_reserve
            (omega (arith, v.counted, v.count_fits)) count,
      );
      bytes = omega (
        arith,
        v.sized,
        within_reserve m.reserved_priority_bytes m.max_total_bytes (bulk_sum payload_bytes q.lanes)
            (priority_sum payload_bytes q.lanes + length e.payload) v.bytes_reserve
            (omega (arith, v.sized, v.bytes_fit)) bytes,
      );
      count_reserve = λ k. cc;
      bytes_reserve = λ k. cc;
    })

-- A taken message is out of the queue, and its own lane is one shorter.
taken_lane :
    {q r : PriorityQueue} {e : Envelope}
    → IsValid q
    → (t : Taken q e r) → q.lanes e.stream ≡ e ∷ r.lanes e.stream
taken_lane {q} {r} {e} v t =
    let at = (taken-IsHome v t).0 in
    subst (λ s. q.lanes s ≡ e ∷ r.lanes s) (sym at)
      (t.head ∙ ap (λ l. e ∷ l) (rw (t.lanes, stream_eq_refl t.from)))

outcome_taken :
    {q : PriorityQueue} {o : Option Envelope} {r : PriorityQueue} (e : Envelope)
    → Outcome q o r
    → o ≡ some e
    → Taken q e r
outcome_taken e (idle a b c) h = absurd (cc)
outcome_taken {q} {r = r} e (bulk t b k turn) h = subst (λ x. Taken q x r) (some-injective _ _ h) t
outcome_taken {q} {r = r} e (priority t b k turn) h =
    subst (λ x. Taken q x r) (some-injective _ _ h) t

cons_rest : {a b : Envelope} {xs ys : List Envelope} → a ∷ xs ≡ b ∷ ys → xs ≡ ys
cons_rest h = cc

-- The totals leave the reserve free.
abbrev pub SparesReserve : PriorityQueue → Type 0
SparesReserve q =
    (q.total_count + pos_part q.limits.reserved_priority_msgs
      ≤ q.limits.max_total_messages + neg_part q.limits.reserved_priority_msgs)
    × (q.total_bytes + pos_part q.limits.reserved_priority_bytes
        ≤ q.limits.max_total_bytes + neg_part q.limits.reserved_priority_bytes)

module _ {q r : PriorityQueue} {e : Envelope} (v : IsValid q) (k : is_known e.stream ≡ true)
    (t : Taken q e r) where
  back_count : r.total_count + 1 ≡ q.total_count
  back_count = omega (arith, t.count, v.counted, (taken_sums v t).0)

  back_bytes : r.total_bytes + length e.payload ≡ q.total_bytes
  back_bytes = omega (arith, t.bytes, v.sized, (taken_sums v t).1)

  back-Fits : (is_bulk e.stream ≡ true → SparesReserve q) → Fits r e
  back-Fits spare = record {
    message = rw t.limits ((taken-IsHome v t).1);
    lane = rw t.limits (omega (arith, v.lane_fits e.stream k, ap length (taken_lane v t)));
    count = rw (t.limits, back_count) v.count_fits;
    bytes = rw (t.limits, back_bytes) v.bytes_fit;
    count_reserve = λ b. rw (t.limits, back_count) ((spare b).0);
    bytes_reserve = λ b. rw (t.limits, back_bytes) ((spare b).1);
  }

  back_spares : Fits r e → is_bulk e.stream ≡ true → SparesReserve q
  back_spares f b = (
    rw (t.limits, back_count) at (f.count_reserve b),
    rw (t.limits, back_bytes) at (f.bytes_reserve b),
  )

pub requeue_iff :
    (q : PriorityQueue) (e : Envelope)
    → IsValid q
    → is_known e.stream ≡ true
    → (dequeue q).0 ≡ some e
    → ((enqueue (dequeue q).1 e).0 ≡ none) ↔ (is_bulk e.stream ≡ true → SparesReserve q)
requeue_iff q e v k h =
    let t = outcome_taken e (dequeue-Outcome q) h in
    let accepts = enqueue-none_iff (dequeue q).1 e in
    (λ x. back_spares v k t (accepts.0 x), λ s. accepts.1 (back-Fits v k t s))

Entry-accepted :
    {q : PriorityQueue} {e : Envelope} {x : Option Error} {r : PriorityQueue}
    → Entry q e x r
    → x ≡ none
    → r ≡ add q e
Entry-accepted (accepted f) h = refl
Entry-accepted (refused y n) h = cc

Entry-refused :
    {q : PriorityQueue} {e : Envelope} {x : Option Error} {r : PriorityQueue}
    → Entry q e x r
    → x ≢ none
    → r ≡ q
Entry-refused (accepted f) h = absurd (h refl)
Entry-refused (refused y n) h = refl

module _ (q : PriorityQueue) (e : Envelope) (v : IsValid q) (k : is_known e.stream ≡ true)
    (h : (dequeue q).0 ≡ some e) where
  -- A message that is put back stands last in its lane, and the totals are what they were.
  pub requeue_kept :
      (rest : List Envelope)
      → q.lanes e.stream ≡ e ∷ rest
      → (is_bulk e.stream ≡ true → SparesReserve q)
      → let r = (enqueue (dequeue q).1 e).1 in
        (r.total_count ≡ q.total_count)
        × (r.total_bytes ≡ q.total_bytes)
        × (r.lanes e.stream ≡ rest ++ e ∷ [])
  requeue_kept rest at spare =
      let t = outcome_taken e (dequeue-Outcome q) h in
      let same = Entry-accepted (enqueue-Entry (dequeue q).1 e) ((requeue_iff q e v k h).1 spare) in
      rw same (
        back_count v k t,
        back_bytes v k t,
        rw (stream_eq_refl e.stream)
            (ap (λ l. l ++ e ∷ []) (cons_rest (sym (taken_lane v t) ∙ at))),
      )

  -- A bulk message that may not use the reserve is gone.
  pub requeue_lost :
      (rest : List Envelope)
      → q.lanes e.stream ≡ e ∷ rest
      → is_bulk e.stream ≡ true
      → ¬ SparesReserve q
      → let r = (enqueue (dequeue q).1 e).1 in
        (r.total_count + 1 ≡ q.total_count) × (r.lanes e.stream ≡ rest)
  requeue_lost rest at b full =
      let t = outcome_taken e (dequeue-Outcome q) h in
      let same =
        Entry-refused (enqueue-Entry (dequeue q).1 e) (λ x. full ((requeue_iff q e v k h).0 x b)) in
      rw same (back_count v k t, cons_rest (sym (taken_lane v t) ∙ at))
