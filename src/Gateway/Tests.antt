-- ===== src/Gateway/Tests.antt =====
-- The theorems on the registry and the limiter at concrete inputs.
use kvm_infrastructure_manag.Base.{ℕ, ◌≡◌, refl, String, Option, none, some, List, [], ◌∷◌}
use kvm_infrastructure_manag.Session.Envelope.{Envelope, command}
use kvm_infrastructure_manag.Gateway.Admission.{Limiter, Phase, System}
use kvm_infrastructure_manag.Gateway.Registry.{
  RegisteredSink, stale_session, no_current_session, register, release, send, new_outbound_registry,
}
use kvm_infrastructure_manag.Gateway.Registry.Calls.{Call, registers, releases, current, IsUpheld}
use kvm_infrastructure_manag.Gateway.Registry.History.{World, run, Shows, run-Shows, send-current}
use kvm_infrastructure_manag.Base.Maps.{find}

abbrev message : ℕ → Envelope
message generation = record {
  host_identity = "h";
  session_generation = generation;
  stream = command;
  message_id = "m";
  schema_version = "v1";
  sequence_scope = "scope";
  sequence = 1;
  resource_generation = 0;
  payload_digest = "d";
  correlation_key = "";
  payload = 1 ∷ [];
}

-- A session, its successor, and then the removal by the function of the first.
abbrev calls : List (Call ℕ)
calls = registers "h" 1 "a" (some 10) ∷ registers "h" 2 "b" (some 20) ∷ releases "h" 1 "a" ∷ []

abbrev start : World ℕ
start = record { sessions = new_outbound_registry ℕ; history = [] }

-- Every sink takes what it is given.
abbrev takes : ℕ → Envelope → Option String
takes sink e = none

start-Shows : Shows start
start-Shows h = refl

run-Shows_example :
    Shows (run calls start)
    × ((h : String) (s : RegisteredSink ℕ)
        → find h (run calls start).sessions ≡ some s
        → IsUpheld h s (run calls start).history)
run-Shows_example = run-Shows calls start start-Shows

send-current_example :
    (s : RegisteredSink ℕ) × (current "h" (run calls start).history ≡ some s)
    × (s.sink ≡ 20)
    × (s.generation ≡ 2)
    × ((message 2).host_identity ≡ "h")
    × ((message 2).session_generation ≡ 2)
unfolding send register release
send-current_example = send-current calls takes "h" 2 (message 2) 20 refl

-- The first session is no longer routed to, and an older one is not registered again.
stale_sent : send takes "h" 1 (message 1) (run calls start).sessions ≡ (some stale_session, none)
unfolding send register release
stale_sent = refl

stale_registered : (register "h" 2 "c" (some 30) (run calls start).sessions).0 ≡ some stale_session
unfolding register release
stale_registered = refl

removed_by_own :
    send takes "h" 2
      (message 2)
      (run (registers "h" 2 "b" (some 20) ∷ releases "h" 2 "b" ∷ []) start).sessions
    ≡ (some no_current_session, none)
unfolding send register release
removed_by_own = refl

abbrev limiter : ℕ → ℕ → ℕ → Limiter
limiter permits active peak = record {
  capacity = 1;
  permits = permits;
  active = active;
  peak = peak;
  rejected = 0;
}

abbrev system : Limiter → List Phase → System
system l ps = record { limiter = l; callers = ps }
