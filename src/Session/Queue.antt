-- ===== src/Session/Queue.antt =====
-- internal/agent/session/queue.go: the bounded scheduler that one transport session shares.
-- A Go `int` that the code refuses below 1 is a ℕ, where 0 stands for all refused values; the
-- reserved capacities, which may be 0, are integers. `lanes` is the map, whose missing key is the
-- empty lane. The mutex makes each method one step. The counts of messages and bytes do not wrap:
-- they are bounded by the limits, which are `int` values. `consecutive_priority` is an `int` too, and
-- not bounded by them; the model does not wrap it.
pub mod Take
pub mod Sums
pub mod Attempt
pub mod Valid
pub mod Order
pub mod Reserve
pub mod Turns
pub mod Entry
use kvm_infrastructure_manag.Base.{
  ℕ, zero, suc, ◌+◌, ◌-◌, ◌%◌, ◌≤◌, ◌<◌, String, ◌≡◌, refl, Bool, true, false, ◌&&◌, ◌||◌, not,
  Option, none, some, List, [], ◌∷◌, ◌++◌, arith, length, get_or, ltb, leb, ◌==◌, if◌then◌else◌,
  Result, ok, err,
}
use kvm_infrastructure_manag.Base.Ints.{ℤ, pos, pos_part, neg_part, is_negative, lt_int}
use kvm_infrastructure_manag.Session.Error.{
  Error, limits_invalid, reserved_messages_invalid, reserved_bytes_invalid, consecutive_invalid,
  stream_limit_missing, queue_full, message_too_large,
}
use kvm_infrastructure_manag.Session.Envelope.{
  Stream, control, command, result, heartbeat, credential, inventory, resync, other, stream_eq,
  Envelope,
}

pub record QueueLimits : Type 0 where
  pub max_message_bytes : ℕ
  pub max_total_messages : ℕ
  pub max_total_bytes : ℕ
  pub reserved_priority_msgs : ℤ
  pub reserved_priority_bytes : ℤ
  pub max_consecutive_priority : ℕ
  pub per_stream_messages : Stream → ℕ

pub record PriorityQueue : Type 0 where
  pub limits : QueueLimits
  pub lanes : Stream → List Envelope
  pub total_count : ℕ
  pub total_bytes : ℕ
  pub authority_cursor : ℕ
  pub bulk_cursor : ℕ
  pub consecutive_priority : ℕ

abbrev pub control_streams : List Stream
control_streams = control ∷ []

abbrev pub authority_streams : List Stream
authority_streams = command ∷ result ∷ heartbeat ∷ credential ∷ []

abbrev pub bulk_streams : List Stream
bulk_streams = inventory ∷ resync ∷ []

abbrev pub known_streams : List Stream
known_streams = control ∷ command ∷ result ∷ heartbeat ∷ credential ∷ inventory ∷ resync ∷ []

abbrev pub is_bulk : Stream → Bool
is_bulk inventory = true
is_bulk resync = true
is_bulk _ = false

-- A write to the map `lanes`.
abbrev pub update : (Stream → List Envelope) → Stream → List Envelope → Stream → List Envelope
update lanes s lane t = if stream_eq s t then lane else lanes t

limit_missing : (Stream → ℕ) → List Stream → Bool
limit_missing limit [] = false
limit_missing limit (s ∷ rest) = ltb (limit s) 1 || limit_missing limit rest

abbrev pub empty_queue : QueueLimits → PriorityQueue
empty_queue limits = record {
  limits = limits;
  lanes = λ s. [];
  total_count = 0;
  total_bytes = 0;
  authority_cursor = 0;
  bulk_cursor = 0;
  consecutive_priority = 0;
}

unfoldable pub new_priority_queue : QueueLimits → Result Error PriorityQueue
unfolding limit_missing
new_priority_queue limits =
    if ltb limits.max_message_bytes 1
      || ltb limits.max_total_messages 1
      || ltb limits.max_total_bytes 1
    then err limits_invalid
    else if is_negative limits.reserved_priority_msgs
        || not (lt_int limits.reserved_priority_msgs (pos limits.max_total_messages))
    then err reserved_messages_invalid
    else if is_negative limits.reserved_priority_bytes
        || not (lt_int limits.reserved_priority_bytes (pos limits.max_total_bytes))
    then err reserved_bytes_invalid
    else if ltb limits.max_consecutive_priority 1
    then err consecutive_invalid
    else if limit_missing limits.per_stream_messages known_streams
    then err stream_limit_missing
    else ok (empty_queue limits)

-- The test on `MaxTotalMessages - ReservedPriorityMsgs` and its like: total > limit - reserved.
abbrev pub over_unreserved : ℕ → ℕ → ℤ → Bool
over_unreserved total limit reserved = ltb (limit + neg_part reserved) (total + pos_part reserved)

-- The error, and the queue afterwards.
unfoldable pub enqueue : PriorityQueue → Envelope → Option Error × PriorityQueue
enqueue q e =
    if ltb q.limits.max_message_bytes (length e.payload)
    then (some message_too_large, q)
    else if leb (q.limits.per_stream_messages e.stream) (length (q.lanes e.stream))
    then (some queue_full, q)
    else if ltb q.limits.max_total_messages (q.total_count + 1)
        || ltb q.limits.max_total_bytes (q.total_bytes + length e.payload)
    then (some queue_full, q)
    else if is_bulk e.stream
        && (over_unreserved (q.total_count + 1) q.limits.max_total_messages
              q.limits.reserved_priority_msgs
            || over_unreserved (q.total_bytes + length e.payload) q.limits.max_total_bytes
                q.limits.reserved_priority_bytes)
    then (some queue_full, q)
    else (
      none,
      record q {
        lanes = update q.lanes e.stream (q.lanes e.stream ++ e ∷ []);
        total_count = q.total_count + 1;
        total_bytes = q.total_bytes + length e.payload;
      },
    )

-- `popFirst` from offset `offset` on, with `rounds` streams to look at: the envelope, the cursor
-- that it writes, and the queue.
pop_scan : List Stream → ℕ → ℕ → ℕ → PriorityQueue → Option (Envelope × ℕ × PriorityQueue)
pop_scan streams start offset zero q = none
pop_scan streams start offset (suc rounds) q =
    let index = (start + offset) % length streams in
    let stream = get_or streams index control in
    let rest = pop_scan streams start (offset + 1) rounds q in
    elim (q.lanes stream) [
      | [] ↦ rest
      | e ∷ lane ↦ some (
        e,
        (index + 1) % length streams,
        record q {
          lanes = update q.lanes stream lane;
          total_count = q.total_count - 1;
          total_bytes = q.total_bytes - length e.payload;
        },
      )
    ]

unfoldable pub pop_first : List Stream → ℕ → PriorityQueue → Option (Envelope × ℕ × PriorityQueue)
unfolding pop_scan
pop_first streams cursor q = pop_scan streams (cursor % length streams) 0 (length streams) q

pop_bulk : PriorityQueue → Option (Envelope × PriorityQueue)
unfolding pop_first
pop_bulk q = elim (pop_first bulk_streams q.bulk_cursor q) [
  | none ↦ none
  | some (e, cursor, q') ↦ some (e, record q' { bulk_cursor = cursor; consecutive_priority = 0 })
]

-- Control messages have no cursor.
pop_control : PriorityQueue → Option (Envelope × PriorityQueue)
unfolding pop_first
pop_control q = elim (pop_first control_streams 0 q) [
  | none ↦ none
  | some (e, cursor, q') ↦
      some (e, record q' { consecutive_priority = q'.consecutive_priority + 1 })
]

pop_authority : PriorityQueue → Option (Envelope × PriorityQueue)
unfolding pop_first
pop_authority q = elim (pop_first authority_streams q.authority_cursor q) [
  | none ↦ none
  | some (e, cursor, q') ↦ some (
    e,
    record q' { authority_cursor = cursor; consecutive_priority = q'.consecutive_priority + 1 },
  )
]

-- What the first of three attempts that finds an envelope gives.
abbrev pub or_else :
    Option (Envelope × PriorityQueue)
    → Option (Envelope × PriorityQueue)
    → Option (Envelope × PriorityQueue)
or_else none b = b
or_else (some r) b = some r

-- The order of the attempts: bulk comes first once enough priority messages have gone in a row.
pub attempts : PriorityQueue → Option (Envelope × PriorityQueue)
unfolding pop_bulk pop_control pop_authority
attempts q =
    let in_order = or_else (pop_control q) (or_else (pop_authority q) (pop_bulk q)) in
    if leb q.limits.max_consecutive_priority q.consecutive_priority
    then or_else (pop_bulk q) in_order
    else in_order

unfoldable pub dequeue : PriorityQueue → Option Envelope × PriorityQueue
unfolding attempts
dequeue q = elim (attempts q) [ none ↦ (none, q) | some (e, q') ↦ (some e, q') ]

unfoldable pub stats : PriorityQueue → ℕ × ℕ
stats q = (q.total_count, q.total_bytes)
