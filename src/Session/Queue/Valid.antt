-- ===== src/Session/Queue/Valid.antt =====
-- The invariant of the scheduler: its counters are those of its lanes, within every limit.
use mathlib.Core.Path.{subst}
use kvm_infrastructure_manag.Base.{
  ◌+◌, ◌≤◌, ◌≡◌, refl, sym, ap, true, inl, inr, Option, List, [], ◌∷◌, ◌++◌, arith, length,
  length-append, All, All-append, Bool-cases, ok,
}
use kvm_infrastructure_manag.Base.Ints.{pos_part, neg_part}
use kvm_infrastructure_manag.Session.Error.{Error}
use kvm_infrastructure_manag.Session.Envelope.{Stream, Envelope, stream_eq, is_known, stream_eq→eq}
use kvm_infrastructure_manag.Session.Queue.{
  PriorityQueue, QueueLimits, update, new_priority_queue, empty_queue, enqueue, dequeue, is_bulk,
}
use kvm_infrastructure_manag.Session.Queue.Sums.{
  payload_bytes, payload_bytes-append, sum, bulk_sum, sum-update, bulk_sum-update,
  bulk_sum-update_priority,
}
use kvm_infrastructure_manag.Session.Queue.Take.{Taken}
use kvm_infrastructure_manag.Session.Queue.Attempt.{Outcome, idle, bulk, priority, dequeue-Outcome}
use kvm_infrastructure_manag.Session.Queue.Entry.{
  Fits, add, Entry, accepted, refused, enqueue-Entry,
}

abbrev pub IsHome : QueueLimits → Stream → Envelope → Type 0
IsHome m s e = (e.stream ≡ s) × (length e.payload ≤ m.max_message_bytes)

pub record IsValid (q : PriorityQueue) : Type 0 where
  pub counted : q.total_count ≡ sum length q.lanes
  pub sized : q.total_bytes ≡ sum payload_bytes q.lanes
  pub count_fits : q.total_count ≤ q.limits.max_total_messages
  pub bytes_fit : q.total_bytes ≤ q.limits.max_total_bytes
  pub lane_fits :
      (s : Stream) → is_known s ≡ true → length (q.lanes s) ≤ q.limits.per_stream_messages s
  pub count_reserve :
      bulk_sum length q.lanes + pos_part q.limits.reserved_priority_msgs
      ≤ q.limits.max_total_messages + neg_part q.limits.reserved_priority_msgs
  pub bytes_reserve :
      bulk_sum payload_bytes q.lanes + pos_part q.limits.reserved_priority_bytes
      ≤ q.limits.max_total_bytes + neg_part q.limits.reserved_priority_bytes
  -- every message stands in the lane of its stream, within the message limit
  pub home : (s : Stream) → All (IsHome q.limits s) (q.lanes s)

-- What holds of a new lane at its stream and of the old lanes holds of the written map.
pub update-all {ℓ} :
    (P : Stream → List Envelope → Type ℓ) (l : Stream → List Envelope) (s : Stream)
    (v : List Envelope)
    → P s v
    → (t : Stream) → P t (l t)
    → P t (update l s v t)
update-all P l s v hs t ht = elim (Bool-cases (stream_eq s t)) [
  | inl e ↦ rw e (subst (λ u. P u v) (stream_eq→eq s t e) hs)
  | inr e ↦ rw e ht
]

module _ {q r : PriorityQueue} {e : Envelope} (v : IsValid q) (t : Taken q e r) where
  pub taken_sums :
      (sum length (update q.lanes t.from t.rest) + 1 ≡ sum length q.lanes)
      × (sum payload_bytes (update q.lanes t.from t.rest) + length e.payload
          ≡ sum payload_bytes q.lanes)
  taken_sums = (
    omega (arith, sum-update length q.lanes t.rest t.from t.known, ap length t.head),
    omega (arith, sum-update payload_bytes q.lanes t.rest t.from t.known, ap payload_bytes t.head),
  )

  taken_bulk :
      (bulk_sum length (update q.lanes t.from t.rest) ≤ bulk_sum length q.lanes)
      × (bulk_sum payload_bytes (update q.lanes t.from t.rest) ≤ bulk_sum payload_bytes q.lanes)
  taken_bulk = elim (Bool-cases (is_bulk t.from)) [
    | inl b ↦ (
      omega (arith, bulk_sum-update length q.lanes t.rest t.from b, ap length t.head),
      omega (arith, bulk_sum-update payload_bytes q.lanes t.rest t.from b, ap payload_bytes t.head),
    )
    | inr b ↦ (
      omega (arith, bulk_sum-update_priority length q.lanes t.rest t.from b),
      omega (arith, bulk_sum-update_priority payload_bytes q.lanes t.rest t.from b),
    )
  ]

  -- The message that is taken was in the lane of its stream.
  pub taken-IsHome : IsHome q.limits t.from e
  taken-IsHome = (subst (All (IsHome q.limits t.from)) t.head (v.home t.from)).0

  pub Taken-IsValid : IsValid r
  Taken-IsValid = record {
    counted = rw (t.count, t.lanes) (omega (arith, v.counted, taken_sums.0));
    sized = rw (t.bytes, t.lanes) (omega (arith, v.sized, taken_sums.1));
    count_fits = rw (t.count, t.limits) (omega (arith, v.count_fits));
    bytes_fit = rw (t.bytes, t.limits) (omega (arith, v.bytes_fit));
    lane_fits = λ s k.
        rw (t.lanes, t.limits)
          (update-all (λ u l. is_known u ≡ true → length l ≤ q.limits.per_stream_messages u) q.lanes
            t.from t.rest (λ h. omega (arith, v.lane_fits t.from t.known, ap length t.head)) s
            (v.lane_fits s) k);
    count_reserve = rw (t.lanes, t.limits) (omega (arith, v.count_reserve, taken_bulk.0));
    bytes_reserve = rw (t.lanes, t.limits) (omega (arith, v.bytes_reserve, taken_bulk.1));
    home = λ s.
        rw (t.lanes, t.limits)
          (update-all (λ u l. All (IsHome q.limits u) l) q.lanes t.from t.rest
            ((subst (All (IsHome q.limits t.from)) t.head (v.home t.from)).1) s (v.home s));
  }

module _ {q : PriorityQueue} {e : Envelope} (v : IsValid q) (f : Fits q e)
    (k : is_known e.stream ≡ true) where
  abbrev longer : List Envelope
  longer = q.lanes e.stream ++ e ∷ []

  added_sums :
      (sum length (add q e).lanes ≡ sum length q.lanes + 1)
      × (sum payload_bytes (add q e).lanes ≡ sum payload_bytes q.lanes + length e.payload)
  added_sums = (
    omega (
      arith,
      sum-update length q.lanes longer e.stream k,
      length-append (q.lanes e.stream) (e ∷ []),
    ),
    omega (
      arith,
      sum-update payload_bytes q.lanes longer e.stream k,
      payload_bytes-append (q.lanes e.stream) (e ∷ []),
    ),
  )

  -- The bulk messages leave the reserve free.
  added_reserve :
      (bulk_sum length (add q e).lanes + pos_part q.limits.reserved_priority_msgs
        ≤ q.limits.max_total_messages + neg_part q.limits.reserved_priority_msgs)
      × (bulk_sum payload_bytes (add q e).lanes + pos_part q.limits.reserved_priority_bytes
          ≤ q.limits.max_total_bytes + neg_part q.limits.reserved_priority_bytes)
  added_reserve = elim (Bool-cases (is_bulk e.stream)) [
    | inl b ↦ (
      omega (
        arith,
        v.counted,
        f.count_reserve b,
        bulk_sum-update length q.lanes longer e.stream b,
        length-append (q.lanes e.stream) (e ∷ []),
      ),
      omega (
        arith,
        v.sized,
        f.bytes_reserve b,
        bulk_sum-update payload_bytes q.lanes longer e.stream b,
        payload_bytes-append (q.lanes e.stream) (e ∷ []),
      ),
    )
    | inr b ↦ (
      omega (arith, v.count_reserve, bulk_sum-update_priority length q.lanes longer e.stream b),
      omega (
        arith,
        v.bytes_reserve,
        bulk_sum-update_priority payload_bytes q.lanes longer e.stream b,
      ),
    )
  ]

  pub add-IsValid : IsValid (add q e)
  add-IsValid = record {
    counted = omega (arith, v.counted, added_sums.0);
    sized = omega (arith, v.sized, added_sums.1);
    count_fits = f.count;
    bytes_fit = f.bytes;
    lane_fits = λ s h.
        update-all (λ u l. is_known u ≡ true → length l ≤ q.limits.per_stream_messages u) q.lanes
          e.stream longer (λ _. omega (arith, f.lane, length-append (q.lanes e.stream) (e ∷ []))) s
          (v.lane_fits s) h;
    count_reserve = added_reserve.0;
    bytes_reserve = added_reserve.1;
    home = λ s.
        update-all (λ u l. All (IsHome q.limits u) l) q.lanes e.stream longer
          (All-append (IsHome q.limits e.stream) (q.lanes e.stream) (e ∷ []) (v.home e.stream)
            ((refl, f.message), tt))
          s (v.home s);
  }

Entry-IsValid :
    {q : PriorityQueue} {e : Envelope} {x : Option Error} {r : PriorityQueue}
    → IsValid q
    → is_known e.stream ≡ true
    → Entry q e x r
    → IsValid r
Entry-IsValid v k (accepted f) = add-IsValid v f k
Entry-IsValid v k (refused x n) = v

pub enqueue-IsValid :
    (q : PriorityQueue) (e : Envelope)
    → IsValid q
    → is_known e.stream ≡ true
    → IsValid (enqueue q e).1
enqueue-IsValid q e v k = Entry-IsValid v k (enqueue-Entry q e)

Outcome-IsValid :
    {q r : PriorityQueue} {o : Option Envelope} → IsValid q → Outcome q o r → IsValid r
Outcome-IsValid v (idle c a b) = v
Outcome-IsValid v (bulk t b k turn) = Taken-IsValid v t
Outcome-IsValid v (priority t b k turn) = Taken-IsValid v t

pub dequeue-IsValid : (q : PriorityQueue) → IsValid q → IsValid (dequeue q).1
dequeue-IsValid q v = Outcome-IsValid v (dequeue-Outcome q)

empty_queue-IsValid :
    (limits : QueueLimits)
    → pos_part limits.reserved_priority_msgs
      ≤ limits.max_total_messages + neg_part limits.reserved_priority_msgs
    → pos_part limits.reserved_priority_bytes
      ≤ limits.max_total_bytes + neg_part limits.reserved_priority_bytes
    → IsValid (empty_queue limits)
empty_queue-IsValid limits h k = record {
  counted = refl;
  sized = refl;
  count_fits = omega arith;
  bytes_fit = omega arith;
  lane_fits = λ s _. omega arith;
  count_reserve = omega (arith, h);
  bytes_reserve = omega (arith, k);
  home = λ s. tt;
}

new_priority_queue-eq-ok :
    (limits : QueueLimits) (q : PriorityQueue)
    → new_priority_queue limits ≡ ok q
    → (q ≡ empty_queue limits)
      × (pos_part limits.reserved_priority_msgs
          ≤ limits.max_total_messages + neg_part limits.reserved_priority_msgs)
      × (pos_part limits.reserved_priority_bytes
          ≤ limits.max_total_bytes + neg_part limits.reserved_priority_bytes)
unfolding new_priority_queue
new_priority_queue-eq-ok limits q h = ground arith

-- A queue that the constructor returns is valid.
pub new_priority_queue-IsValid :
    (limits : QueueLimits) (q : PriorityQueue) → new_priority_queue limits ≡ ok q → IsValid q
new_priority_queue-IsValid limits q h =
    let (e, a, b) = new_priority_queue-eq-ok limits q h in
    subst IsValid (sym e) (empty_queue-IsValid limits a b)
