-- ===== src/Gateway/Registry.antt =====
-- internal/agent/gateway/outbound_registry.go. `Register` returns the function that removes the
-- session again; a call of it is `release`. What a sink does in `Send` is an argument of the call.
pub mod Calls
pub mod History
use kvm_infrastructure_manag.Base.{
  ℕ, ◌≡◌, String, Bool, true, false, ◌&&◌, ◌||◌, not, Option, none, some, List, [], ◌∷◌, leb, ◌==◌,
  if◌then◌else◌, str_eq,
}
use kvm_infrastructure_manag.Base.Maps.{find, put, remove}
use kvm_infrastructure_manag.Session.Envelope.{Envelope}

pub data Error : Type 0 where
  identity_incomplete no_current_session stale_session : Error
  -- The error of a sink.
  sink_failed : String → Error

pub record RegisteredSink (Sink : Type 0) : Type 0 where
  pub generation : ℕ
  pub connection_id : String
  pub sink : Sink

abbrev pub Sessions : Type 0 → Type 0
Sessions Sink = List (String × RegisteredSink Sink)

abbrev pub new_outbound_registry : (Sink : Type 0) → Sessions Sink
new_outbound_registry Sink = []

module _ {Sink : Type 0} where
  -- A session of this host that is no older.
  abbrev pub is_stale : Option (RegisteredSink Sink) → ℕ → Bool
  is_stale none generation = false
  is_stale (some current) generation = leb generation current.generation

  unfoldable pub register :
      String → ℕ → String → Option Sink → Sessions Sink → Option Error × Sessions Sink
  register host_id generation connection_id none sessions = (some identity_incomplete, sessions)
  register host_id generation connection_id (some sink) sessions =
      if str_eq host_id "" || generation == 0 || str_eq connection_id ""
      then (some identity_incomplete, sessions)
      else if is_stale (find host_id sessions) generation
      then (some stale_session, sessions)
      else (
        none,
        put host_id (record { generation = generation; connection_id = connection_id; sink = sink })
            sessions,
      )

  -- The session is the one that was registered with this generation and connection.
  abbrev pub is_own : Option (RegisteredSink Sink) → ℕ → String → Bool
  is_own none generation connection_id = false
  is_own (some current) generation connection_id =
      current.generation == generation && str_eq current.connection_id connection_id

  unfoldable pub release : String → ℕ → String → Sessions Sink → Sessions Sink
  release host_id generation connection_id sessions =
      if is_own (find host_id sessions) generation connection_id
      then remove host_id sessions
      else sessions

  -- The sink that `Send` calls, or its error.
  abbrev pub routed :
      Option (RegisteredSink Sink) → String → ℕ → Envelope → Option Error × Option Sink
  routed none host_id generation e = (some no_current_session, none)
  routed (some current) host_id generation e =
      if not (current.generation == generation)
        || not (str_eq e.host_identity host_id)
        || not (e.session_generation == generation)
      then (some stale_session, none)
      else (none, some current.sink)

  abbrev pub called :
      (Sink → Envelope → Option String)
      → Envelope
      → Option Error × Option Sink
      → Option Error × Option Sink
  called deliver e (error, none) = (error, none)
  called deliver e (error, some sink) = elim (deliver sink e) [
    | none ↦ (none, some sink)
    | some x ↦ (some (sink_failed x), some sink)
  ]

  -- The error, and the sink that was given the message.
  unfoldable pub send :
      (Sink → Envelope → Option String)
      → String
      → ℕ
      → Envelope
      → Sessions Sink
      → Option Error × Option Sink
  send deliver host_id generation e sessions =
      called deliver e (routed (find host_id sessions) host_id generation e)
