-- ===== src/Session/Tests.antt =====
-- The session's theorems at concrete inputs, and runs of its functions.
use kvm_infrastructure_manag.Base.{
  ℕ, ◌+◌, ◌≤◌, ◌↔◌, ◌≡◌, refl, String, false, Option, none, some, List, [], ◌∷◌, ◌++◌, arith, ok,
  err, inl, length,
}
use kvm_infrastructure_manag.Base.Ints.{pos}
use kvm_infrastructure_manag.Session.Error.{Error, transport, schema_ambiguous}
use kvm_infrastructure_manag.Session.Envelope.{
  Envelope, Stream, command, inventory, new_envelope, validate,
}
use kvm_infrastructure_manag.Session.Authority.{
  AuthoritySnapshot, AuthorityState, current, fenced, is_current, apply, apply_all,
}
use kvm_infrastructure_manag.Session.Authority.Monotone.{apply_all-generation-le, fenced_stays}
use kvm_infrastructure_manag.Session.Queue.{
  QueueLimits, PriorityQueue, empty_queue, new_priority_queue, enqueue, dequeue,
}
use kvm_infrastructure_manag.Session.Queue.Valid.{
  IsValid, new_priority_queue-IsValid, enqueue-IsValid,
}
use kvm_infrastructure_manag.Session.Queue.Order.{
  Call, offer, take, run, run-InOrder, run-IsValid, on_stream,
}
use kvm_infrastructure_manag.Session.Queue.Reserve.{reserve_accepts}
use kvm_infrastructure_manag.Session.Queue.Turns.{
  serve, serve_all, bulk_turn, HasBulk, dequeue-none_iff,
}
use kvm_infrastructure_manag.Session.Manager.{
  Manager, Module, Handshake, flush_one, validate_current, receive_and_route, register_module,
  select, open_begin,
}
use kvm_infrastructure_manag.Session.Manager.Fencing.{
  IsCurrent, flush_one-IsCurrent, receive_and_route-IsCurrent, fenced_manager,
}
use kvm_infrastructure_manag.Session.Manager.Routing.{
  count, routing, repeated_schema, register_module-IsRegistry, IsRegistry,
}
use kvm_infrastructure_manag.Session.Manager.Delivery.{flush_keeps, flush_loses}
use kvm_infrastructure_manag.Session.Manager.Opening.{
  one_connection, World, Reach, here, next, begin, finish, begins, finishes, held,
}

abbrev digest : List ℕ → String
digest p = "d"

abbrev message : Stream → String → Envelope
message s id = record {
  host_identity = "h";
  session_generation = 3;
  stream = s;
  message_id = id;
  schema_version = "v1";
  sequence_scope = "scope";
  sequence = 1;
  resource_generation = 0;
  payload_digest = "d";
  correlation_key = "";
  payload = 1 ∷ 2 ∷ [];
}

new_envelope-digest :
    (new_envelope digest "h" 3 command "c" "v1" "scope" 1 (1 ∷ 2 ∷ [])) ≡ message command "c"
unfolding new_envelope
new_envelope-digest = refl

abbrev limits : QueueLimits
limits = record {
  max_message_bytes = 4;
  max_total_messages = 3;
  max_total_bytes = 20;
  reserved_priority_msgs = pos 1;
  reserved_priority_bytes = pos 4;
  max_consecutive_priority = 1;
  per_stream_messages = λ s. 3;
}

abbrev none_yet : PriorityQueue
none_yet = empty_queue limits

none_yet-IsValid : IsValid none_yet
unfolding new_priority_queue
none_yet-IsValid = new_priority_queue-IsValid limits none_yet refl

-- Two bulk messages wait.
abbrev bulk_waiting : PriorityQueue
bulk_waiting = (enqueue (enqueue none_yet (message inventory "a")).1 (message inventory "b")).1

bulk_waiting-IsValid : IsValid bulk_waiting
bulk_waiting-IsValid =
    enqueue-IsValid _ (message inventory "b")
      (enqueue-IsValid none_yet (message inventory "a") none_yet-IsValid refl) refl

-- And a command beside them: the queue uses its reserve, and the bulk messages have their turn.
abbrev full : PriorityQueue
full = record (enqueue bulk_waiting (message command "c")).1 { consecutive_priority = 1 }

full-IsValid : IsValid full
full-IsValid =
    let v = enqueue-IsValid bulk_waiting (message command "c") bulk_waiting-IsValid refl in
    record {
      counted = v.counted;
      sized = v.sized;
      count_fits = v.count_fits;
      bytes_fit = v.bytes_fit;
      lane_fits = v.lane_fits;
      count_reserve = v.count_reserve;
      bytes_reserve = v.bytes_reserve;
      home = v.home;
    }

-- The queue.
abbrev calls : List Call
calls =
    offer (message inventory "a")
    ∷ offer (message command "c")
    ∷ take
    ∷ offer (message inventory "b")
    ∷ take
    ∷ []

run-InOrder_example :
    on_stream inventory (run none_yet calls).accepted
    ≡ on_stream inventory (run none_yet calls).served ++ (run none_yet calls).queue.lanes inventory
run-InOrder_example =
    run-InOrder inventory none_yet calls none_yet-IsValid (refl, (refl, (tt, (refl, (tt, tt)))))

run-IsValid_example : IsValid (run none_yet calls).queue
run-IsValid_example =
    run-IsValid none_yet calls none_yet-IsValid (refl, (refl, (tt, (refl, (tt, tt)))))

reserve_accepts_example : (enqueue bulk_waiting (message command "c")).0 ≡ none
unfolding enqueue
reserve_accepts_example =
    reserve_accepts bulk_waiting (message command "c") bulk_waiting-IsValid refl (omega arith)
      (omega arith) (omega arith) (omega arith)

dequeue-none_iff_example : ((dequeue none_yet).0 ≡ none) ↔ (none_yet.total_count ≡ 0)
dequeue-none_iff_example = dequeue-none_iff none_yet none_yet-IsValid

serve_all_example : ((serve 3 full).1.total_count ≡ 0) × (length (serve 3 full).0 ≡ 3)
unfolding enqueue
serve_all_example = serve_all 3 full full-IsValid refl

bulk_turn_example : HasBulk (serve 2 full).0
unfolding enqueue
bulk_turn_example = bulk_turn full full-IsValid (omega arith)

-- The authority.
abbrev at_generation : ℕ → AuthorityState → AuthoritySnapshot
at_generation n s = record { host_identity = "h"; session_generation = n; state = s }

apply_all-generation-le_example :
    ((apply_all (at_generation 3 current) (at_generation 2 current ∷ [])).host_identity ≡ "h")
    × (3 ≤ (apply_all (at_generation 3 current) (at_generation 2 current ∷ [])).session_generation)
apply_all-generation-le_example =
    apply_all-generation-le (at_generation 3 current) (at_generation 2 current ∷ [])

fenced_view :
    is_current (apply_all (at_generation 3 fenced) (at_generation 3 current ∷ [])).state ≡ false
unfolding apply_all apply
fenced_view = fenced_stays (at_generation 3 fenced) (at_generation 3 current ∷ []) refl refl

-- The Manager, over connections that are numbers.
abbrev echo : Module
echo = record {
  descriptor = record {
    name = "echo";
    capabilities = "echo" ∷ [];
    min_schema_version = "v1";
    max_schema_version = "v1";
    message_schemas = "v1" ∷ [];
  };
  handle = λ e. none;
}

abbrev twice : Module
twice = record {
  descriptor = record {
    name = "twice";
    capabilities = "twice" ∷ [];
    min_schema_version = "v1";
    max_schema_version = "v1";
    message_schemas = "v1" ∷ "v1" ∷ [];
  };
  handle = λ e. none;
}

abbrev hello : Handshake
hello = record {
  host_identity = "h";
  session_generation = 3;
  protocol_version = "p1";
  capabilities = [];
  session_attempt_id = "s";
  connection_instance_id = "c";
  agent_artifact_digest = "d";
  credential_binding_revision = pos 1;
}

abbrev manager : PriorityQueue → AuthorityState → Option ℕ → Manager ℕ
manager q s c = record {
  handshake = hello;
  queue = q;
  authority = at_generation 3 s;
  modules = echo ∷ [];
  connection = c;
  opening = false;
  sealed = false;
}

abbrev refuses : ℕ → Envelope → Option Error
refuses c e = some (transport "down")

flush_one-IsCurrent_example :
    IsCurrent digest (manager bulk_waiting current (some 7)) (message inventory "a")
unfolding flush_one dequeue enqueue validate_current validate
flush_one-IsCurrent_example =
    flush_one-IsCurrent digest (manager bulk_waiting current (some 7)) (λ q. q) refuses
      (message inventory "a") refl

receive_and_route-IsCurrent_example :
    IsCurrent digest (manager none_yet current (some 7)) (message command "c")
    × (select "v1" (echo ∷ []) none ≡ ok (some echo))
unfolding receive_and_route select validate_current validate
receive_and_route-IsCurrent_example =
    receive_and_route-IsCurrent digest (manager none_yet current (some 7))
      (λ c. ok (message command "c")) echo (message command "c") refl

fenced_manager_example :
    (flush_one digest (manager full fenced (some 7)) (λ q. q) refuses).0.offered ≡ none
fenced_manager_example =
    (fenced_manager digest (manager full fenced (some 7)) (message command "c") "echo" (λ q. q)
      refuses refl).3

echo_once : (s : String) → count s echo.descriptor.message_schemas ≤ 1
echo_once s = ground arith

register_module-IsRegistry_example :
    IsRegistry
      (register_module (record (manager none_yet current none) { modules = [] }) echo).1.modules
register_module-IsRegistry_example =
    register_module-IsRegistry (record (manager none_yet current none) { modules = [] }) echo
      echo_once (λ s. omega arith)

routing_example :
    receive_and_route digest (manager none_yet current (some 7)) (λ c. ok (message command "c"))
    ≡ record { error = none; handled = some (echo, message command "c") }
unfolding validate_current validate
routing_example =
    routing digest (manager none_yet current (some 7)) (λ c. ok (message command "c")) 7
      (message command "c") echo refl refl refl (λ s. ground arith) (inl refl) (omega arith)

repeated_schema_run : select "v1" (twice ∷ []) none ≡ err schema_ambiguous
repeated_schema_run = repeated_schema "v1" twice (twice ∷ []) (inl refl) (omega arith)

flush_keeps_example :
    (flush_one digest (manager bulk_waiting current (some 7)) (λ q. q) refuses).1.queue.total_count
    ≡ 2
unfolding flush_one dequeue enqueue validate_current validate
flush_keeps_example =
    (flush_keeps digest (manager bulk_waiting current (some 7)) 7 (message inventory "a")
      (message inventory "b" ∷ []) refuses bulk_waiting-IsValid refl refl refl refl refl
      (λ b. (omega arith, omega arith))).0

flush_loses_example :
    (flush_one digest (manager full current (some 7)) (λ q. q) refuses).1.queue.total_count + 1 ≡ 3
unfolding flush_one dequeue enqueue validate_current validate
flush_loses_example =
    (flush_loses digest (manager full current (some 7)) 7 (message inventory "a")
      (message inventory "b" ∷ []) refuses full-IsValid refl refl refl refl refl refl
      (λ s. omega arith)).0

-- If another message is accepted between the steps of `FlushOne`, then a priority message can be lost
-- as well: it is taken, the other one fills the queue, and it is refused when it is put back.
abbrev publishes_meanwhile : PriorityQueue → PriorityQueue
publishes_meanwhile q = (enqueue q (message command "d")).1

lost_meanwhile :
    let q = (enqueue bulk_waiting (message command "c")).1 in
    let after =
      (flush_one digest (manager q current (some 7)) publishes_meanwhile refuses).1.queue in
    (q.lanes command ≡ message command "c" ∷ [])
    × (after.lanes command ≡ message command "d" ∷ [])
    × (after.total_count ≡ 3)
unfolding flush_one dequeue enqueue validate_current validate
lost_meanwhile = (refl, refl, refl)

abbrev closed : World ℕ
closed = record { manager = manager none_yet current none; dialling = 0; live = 0 }

abbrev opened : World ℕ
opened = finishes (begins closed) hello (at_generation 3 current) (λ h. ok 7)

opened-Reach : Reach closed opened
unfolding open_begin
opened-Reach =
    next (next here (begin closed))
      (finish (begins closed) hello (at_generation 3 current) (λ h. ok 7) (omega arith))

one_connection_example :
    (opened.live + opened.dialling ≤ 1) × (opened.live ≡ held opened.manager.connection)
one_connection_example =
    one_connection (manager none_yet current none) opened refl refl opened-Reach
