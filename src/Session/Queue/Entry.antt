-- ===== src/Session/Queue/Entry.antt =====
-- When `Enqueue` accepts an envelope, and the queue that it leaves.
use kvm_infrastructure_manag.Base.{
  ◌+◌, ◌≤◌, ◌<◌, ◌≡◌, true, ◌&&◌, ◌||◌, Option, none, some, [], ◌∷◌, ◌++◌, arith, length, ltb, leb,
  inl, inr, Bool-cases,
}
use kvm_infrastructure_manag.Base.Ints.{pos_part, neg_part}
use kvm_infrastructure_manag.Session.Error.{Error, queue_full, message_too_large}
use kvm_infrastructure_manag.Session.Envelope.{Envelope}
use kvm_infrastructure_manag.Session.Queue.{
  PriorityQueue, update, enqueue, is_bulk, over_unreserved,
}

-- There is room for the envelope: in the message limit, in its lane, in both totals, and for a bulk
-- message in what the totals leave beside the reserve.
pub record Fits (q : PriorityQueue) (e : Envelope) : Type 0 where
  pub message : length e.payload ≤ q.limits.max_message_bytes
  pub lane : length (q.lanes e.stream) < q.limits.per_stream_messages e.stream
  pub count : q.total_count + 1 ≤ q.limits.max_total_messages
  pub bytes : q.total_bytes + length e.payload ≤ q.limits.max_total_bytes
  pub count_reserve :
      is_bulk e.stream ≡ true
      → q.total_count + 1 + pos_part q.limits.reserved_priority_msgs
        ≤ q.limits.max_total_messages + neg_part q.limits.reserved_priority_msgs
  pub bytes_reserve :
      is_bulk e.stream ≡ true
      → q.total_bytes + length e.payload + pos_part q.limits.reserved_priority_bytes
        ≤ q.limits.max_total_bytes + neg_part q.limits.reserved_priority_bytes

abbrev pub add : PriorityQueue → Envelope → PriorityQueue
add q e = record q {
  lanes = update q.lanes e.stream (q.lanes e.stream ++ e ∷ []);
  total_count = q.total_count + 1;
  total_bytes = q.total_bytes + length e.payload;
}

pub data Entry (q : PriorityQueue) (e : Envelope) : Option Error → PriorityQueue → Type 0 where
  accepted : Fits q e → Entry q e none (add q e)
  refused : (x : Error) → ¬ Fits q e → Entry q e (some x) q

pub enqueue-Entry : (q : PriorityQueue) (e : Envelope) → Entry q e (enqueue q e).0 (enqueue q e).1
unfolding enqueue
enqueue-Entry q e =
    let n = length e.payload in
    let m = q.limits in
    elim (Bool-cases (ltb m.max_message_bytes n)) [
      | inl a ↦ rw a (refused message_too_large (λ f. let h = f.message in ground arith))
      | inr a ↦
          rw a
            (elim (Bool-cases (leb (m.per_stream_messages e.stream) (length (q.lanes e.stream)))) [
              | inl b ↦ rw b (refused queue_full (λ f. let h = f.lane in ground arith))
              | inr b ↦
                  rw b
                    (elim (Bool-cases (
                      ltb m.max_total_messages (q.total_count + 1)
                      || ltb m.max_total_bytes (q.total_bytes + n))) [
                        | inl c ↦ rw c (
                            refused queue_full
                              (λ f. let h = f.count in let k = f.bytes in ground arith))
                        | inr c ↦
                            rw c
                              (elim (Bool-cases (
                                is_bulk e.stream
                                && (over_unreserved (q.total_count + 1) m.max_total_messages
                                      m.reserved_priority_msgs
                                    || over_unreserved (q.total_bytes + n) m.max_total_bytes
                                        m.reserved_priority_bytes))) [
                                          | inl d ↦ rw d (
                                              refused queue_full (λ f.
                                                ground (arith, f.count_reserve, f.bytes_reserve)))
                                          | inr d ↦ rw d (
                                              accepted (record {
                                                message = ground arith;
                                                lane = ground arith;
                                                count = ground arith;
                                                bytes = ground arith;
                                                count_reserve = λ k. ground arith;
                                                bytes_reserve = λ k. ground arith;
                                              }))
                                        ])
                      ])
            ])
    ]
