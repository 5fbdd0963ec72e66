-- ===== src/Session/Manager.antt =====
-- internal/agent/session/manager.go: the Session Manager. A method takes the state and returns what
-- the Go method returns, with the state after it. What a transport does in a call is an argument
-- of the call: `send`, `receive` and `close` of the connection, `dial` for the adapter's `Open`.
-- `authority` is the shared view at the time of the call. `modules` lists the map's values, each
-- under its descriptor's name and none nil; the code's loops over the map do not depend on the order but for the
-- choice between errors.
pub mod Fencing
pub mod Routing
pub mod Delivery
pub mod Opening
use kvm_infrastructure_manag.Base.{
  ℕ, ◌≡◌, String, Bool, true, false, ◌&&◌, ◌||◌, not, Option, none, some, List, [], ◌∷◌, ◌++◌,
  length, ◌==◌, if◌then◌else◌, str_eq, Result, ok, err,
}
use kvm_infrastructure_manag.Base.Ints.{ℤ}
use kvm_infrastructure_manag.Session.Error.{
  Error, authority_incomplete, session_fenced, session_already_open, session_not_open,
  module_set_sealed, stale_session, handshake_incomplete, descriptor_incomplete, module_registered,
  schema_empty, schema_registered, schema_ambiguous, schema_unrouted, module_unregistered, joined,
}
use kvm_infrastructure_manag.Session.Envelope.{Envelope, validate}
use kvm_infrastructure_manag.Session.Authority.{
  AuthoritySnapshot, is_current, new_memory_authority_view,
}
use kvm_infrastructure_manag.Session.Queue.{PriorityQueue, enqueue, dequeue}

pub record ModuleDescriptor : Type 0 where
  pub name : String
  pub capabilities : List String
  pub min_schema_version : String
  pub max_schema_version : String
  pub message_schemas : List String

-- A module: its descriptor, which does not change, and its handler.
pub record Module : Type 0 where
  pub descriptor : ModuleDescriptor
  pub handle : Envelope → Option Error

pub record Handshake : Type 0 where
  pub host_identity : String
  pub session_generation : ℕ
  pub protocol_version : String
  pub capabilities : List String
  pub session_attempt_id : String
  pub connection_instance_id : String
  pub agent_artifact_digest : String
  pub credential_binding_revision : ℤ

pub record Manager (Conn : Type 0) : Type 0 where
  pub handshake : Handshake
  pub queue : PriorityQueue
  pub authority : AuthoritySnapshot
  pub modules : List Module
  pub connection : Option Conn
  pub opening : Bool
  pub sealed : Bool

abbrev pub contains : String → List String → Bool
contains s [] = false
contains s (t ∷ ts) = str_eq s t || contains s ts

abbrev pub find_module : String → List Module → Option Module
find_module name [] = none
find_module name (m ∷ ms) = if str_eq m.descriptor.name name then some m else find_module name ms

-- Some registered module advertises the schema.
abbrev pub advertised : String → List Module → Bool
advertised s [] = false
advertised s (m ∷ ms) = contains s m.descriptor.message_schemas || advertised s ms

-- The check of each schema of a new module.
schemas_error : List String → List Module → Option Error
schemas_error [] ms = none
schemas_error (s ∷ ss) ms =
    if str_eq s ""
    then some schema_empty
    else if advertised s ms
    then some schema_registered
    else schemas_error ss ms

abbrev is_some : Option Module → Bool
is_some none = false
is_some (some m) = true

abbrev is_empty : List String → Bool
is_empty [] = true
is_empty (s ∷ ss) = false

-- The scan of `ReceiveAndRoute` over one module's schemas, and over the modules.
select_in : String → Module → List String → Option Module → Result Error (Option Module)
select_in s m [] selected = ok selected
select_in s m (t ∷ ts) selected =
    if str_eq t s
    then (if is_some selected then err schema_ambiguous else select_in s m ts (some m))
    else select_in s m ts selected

abbrev and_then :
    Result Error (Option Module)
    → (Option Module → Result Error (Option Module))
    → Result Error (Option Module)
and_then (err e) f = err e
and_then (ok m) f = f m

unfoldable pub select : String → List Module → Option Module → Result Error (Option Module)
unfolding select_in
select s [] selected = ok selected
select s (m ∷ ms) selected =
    and_then (select_in s m m.descriptor.message_schemas selected) (select s ms)

unfoldable pub validate_authority : AuthoritySnapshot → String → ℕ → Option Error
validate_authority a host generation =
    if not (is_current a.state)
    then some session_fenced
    else if not (str_eq host a.host_identity) || not (generation == a.session_generation)
    then some stale_session
    else none

-- What the connection was given, beside the results of `FlushOne`.
pub record Flushed : Type 0 where
  pub sent : Bool
  pub error : Option Error
  pub offered : Option Envelope

-- The module that handled a message, and the message, beside the error.
pub record Routed : Type 0 where
  pub error : Option Error
  pub handled : Option (Module × Envelope)

-- `errors.Join` of the send error and the error of putting the message back.
abbrev after_send : Error → Option Error → Error
after_send x none = x
after_send x (some y) = joined x y

module _ {Conn : Type 0} where
  -- The adapter is given to `dial`; the authority and the queue are values, so never nil.
  unfoldable pub new_manager_with_authority :
      Handshake → PriorityQueue → AuthoritySnapshot → Result Error (Manager Conn)
  new_manager_with_authority h queue authority =
      if str_eq h.host_identity "" || h.session_generation == 0 || str_eq h.protocol_version ""
      then err handshake_incomplete
      else ok (record {
        handshake = h;
        queue = queue;
        authority = authority;
        modules = [];
        connection = none;
        opening = false;
        sealed = false;
      })

  unfoldable pub new_manager : Handshake → PriorityQueue → Result Error (Manager Conn)
  new_manager h queue = elim (new_memory_authority_view h.host_identity h.session_generation) [
    | none ↦ err authority_incomplete
    | some authority ↦ new_manager_with_authority h queue authority
  ]

  -- The checks of `RegisterModule` behind its guards.
  unfoldable pub register_module : Manager Conn → Module → Option Error × Manager Conn
  unfolding schemas_error
  register_module m mod' =
      let d = mod'.descriptor in
      if str_eq d.name "" || is_empty d.capabilities
      then (some descriptor_incomplete, m)
      else if m.sealed
      then (some module_set_sealed, m)
      else if is_some (find_module d.name m.modules)
      then (some module_registered, m)
      else elim (schemas_error d.message_schemas m.modules) [
        | some e ↦ (some e, m)
        | none ↦ (
          none,
          record m {
            modules = m.modules ++ mod' ∷ [];
            handshake = record m.handshake {
              capabilities = m.handshake.capabilities ++ d.capabilities;
            };
          },
        )
      ]

  -- `Open` up to its first unlock.
  unfoldable pub open_begin : Manager Conn → Result Error Handshake × Manager Conn
  open_begin m = elim m.connection [
    | some c ↦ (err session_already_open, m)
    | none ↦
        if m.opening
        then (err session_already_open, m)
        else (ok m.handshake, record m { opening = true; sealed = true })
  ]

  -- The rest of `Open`: other calls may have come between.
  unfoldable pub open_finish :
      Manager Conn → Handshake → (Handshake → Result Error Conn) → Option Error × Manager Conn
  unfolding validate_authority
  open_finish m h dial =
      elim (validate_authority m.authority h.host_identity h.session_generation) [
        | some e ↦ (some e, record m { opening = false })
        | none ↦ elim (dial h) [
          | err e ↦ (some e, record m { opening = false })
          | ok c ↦ (none, record m { opening = false; connection = some c })
        ]
      ]

  unfoldable pub close : Manager Conn → (Conn → Option Error) → Option Error × Manager Conn
  close m close_connection = elim m.connection [
    | none ↦ (some session_not_open, m)
    | some c ↦ (close_connection c, record m { connection = none })
  ]

module _ {Conn : Type 0} (digest : List ℕ → String) where
  unfoldable pub validate_current : Manager Conn → Envelope → Option Error
  unfolding validate_authority
  validate_current m e =
      elim (validate_authority m.authority e.host_identity e.session_generation) [
        | some x ↦ some x
        | none ↦ validate digest e m.queue.limits.max_message_bytes
      ]

  unfoldable pub publish : Manager Conn → Envelope → Option Error × Manager Conn
  publish m e = elim (validate_current m e) [
    | some x ↦ (some x, m)
    | none ↦ ((enqueue m.queue e).0, record m { queue = (enqueue m.queue e).1 })
  ]

  unfoldable pub accept_inbound : Manager Conn → String → Envelope → Routed
  accept_inbound m name e = elim (validate_current m e) [
    | some x ↦ record { error = some x; handled = none }
    | none ↦ elim (find_module name m.modules) [
      | none ↦ record { error = some module_unregistered; handled = none }
      | some target ↦ record { error = target.handle e; handled = some (target, e) }
    ]
  ]

  unfoldable pub receive_and_route : Manager Conn → (Conn → Result Error Envelope) → Routed
  receive_and_route m receive = elim m.connection [
    | none ↦ record { error = some session_not_open; handled = none }
    | some c ↦ elim (receive c) [
      | err x ↦ record { error = some x; handled = none }
      | ok e ↦ elim (validate_current m e) [
        | some x ↦ record { error = some x; handled = none }
        | none ↦ elim (select e.schema_version m.modules none) [
          | err x ↦ record { error = some x; handled = none }
          | ok none ↦ record { error = some schema_unrouted; handled = none }
          | ok (some target) ↦ record { error = target.handle e; handled = some (target, e) }
        ]
      ]
    ]
  ]

  -- The code holds no lock from `Dequeue` to `Enqueue`: `others` is what the calls that come between
  -- do to the queue, so `λ q. q` where there are none.
  unfoldable pub flush_one :
      Manager Conn
      → (PriorityQueue → PriorityQueue)
      → (Conn → Envelope → Option Error)
      → Flushed × Manager Conn
  flush_one m others send = elim m.connection [
    | none ↦ (record { sent = false; error = some session_not_open; offered = none }, m)
    | some c ↦ elim (dequeue m.queue).0 [
      | none ↦ (record { sent = false; error = none; offered = none }, m)
      | some e ↦
          let rest = others (dequeue m.queue).1 in
          elim (validate_current m e) [
            | some x ↦ (
              record { sent = false; error = some x; offered = none },
              record m { queue = (enqueue rest e).1 },
            )
            | none ↦ elim (send c e) [
              | some x ↦ (
                record {
                  sent = false;
                  error = some (after_send x (enqueue rest e).0);
                  offered = some e;
                },
                record m { queue = (enqueue rest e).1 },
              )
              | none ↦ (
                record { sent = true; error = none; offered = some e },
                record m { queue = rest },
              )
            ]
          ]
    ]
  ]
