-- ===== src/Session/Manager/Fencing.antt =====
-- Fencing: the Manager neither sends nor hands to a module a message that is not current.
use kvm_infrastructure_manag.Base.{
  ℕ, ◌≡◌, String, true, false, inl, inr, Option, none, some, List, arith, eq_iff, Option-cases,
  Result, ok,
}
use kvm_infrastructure_manag.Session.Error.{Error, session_fenced}
use kvm_infrastructure_manag.Session.Envelope.{Envelope, validate}
use kvm_infrastructure_manag.Session.Authority.{is_current}
use kvm_infrastructure_manag.Session.Queue.{PriorityQueue}
use kvm_infrastructure_manag.Session.Manager.{
  Manager, Module, find_module, select, validate_current, publish, accept_inbound,
  receive_and_route, flush_one,
}

module _ {Conn : Type 0} (digest : List ℕ → String) where
  -- The message carries the Host and the generation of a current authority, and validates.
  pub record IsCurrent (m : Manager Conn) (e : Envelope) : Type 0 where
    pub state : is_current m.authority.state ≡ true
    pub host : e.host_identity ≡ m.authority.host_identity
    pub generation : e.session_generation ≡ m.authority.session_generation
    pub whole : validate digest e m.queue.limits.max_message_bytes ≡ none

  pub validate_current-none :
      (m : Manager Conn) (e : Envelope) → validate_current digest m e ≡ none → IsCurrent m e
  unfolding validate_current
  validate_current-none m e h = record {
    state = ground arith;
    host = ground (arith, eq_iff e.host_identity m.authority.host_identity);
    generation = ground arith;
    whole = ground arith;
  }

  validate_current-fenced :
      (m : Manager Conn) (e : Envelope)
      → is_current m.authority.state ≡ false
      → validate_current digest m e ≡ some session_fenced
  unfolding validate_current
  validate_current-fenced m e h = ground arith

  -- What `FlushOne` gives to the connection is current, whatever other calls do to the queue meanwhile.
  pub flush_one-IsCurrent :
      (m : Manager Conn) (others : PriorityQueue → PriorityQueue)
      (send : Conn → Envelope → Option Error) (e : Envelope)
      → (flush_one digest m others send).0.offered ≡ some e
      → IsCurrent m e
  unfolding flush_one
  flush_one-IsCurrent m others send e h = validate_current-none m e (ground arith)

  flush_one-fenced :
      (m : Manager Conn) (others : PriorityQueue → PriorityQueue)
      (send : Conn → Envelope → Option Error)
      → is_current m.authority.state ≡ false
      → (flush_one digest m others send).0.offered ≡ none
  flush_one-fenced m others send h =
      elim (Option-cases (flush_one digest m others send).0.offered) [
        | inl e ↦ e
        | inr (e, k) ↦ let c = (flush_one-IsCurrent m others send e k).state in cc
      ]

  -- A received message reaches a module only if it is current, and then the module that the routing
  -- by its schema selects.
  pub receive_and_route-IsCurrent :
      (m : Manager Conn) (receive : Conn → Result Error Envelope) (t : Module) (e : Envelope)
      → (receive_and_route digest m receive).handled ≡ some (t, e)
      → IsCurrent m e × (select e.schema_version m.modules none ≡ ok (some t))
  unfolding receive_and_route
  receive_and_route-IsCurrent m receive t e h =
      (validate_current-none m e (ground arith), ground arith)

  pub accept_inbound-IsCurrent :
      (m : Manager Conn) (name : String) (sent : Envelope) (t : Module) (e : Envelope)
      → (accept_inbound digest m name sent).handled ≡ some (t, e)
      → (e ≡ sent) × IsCurrent m e × (find_module name m.modules ≡ some t)
  unfolding accept_inbound
  accept_inbound-IsCurrent m name sent t e h =
      (ground arith, validate_current-none m e (ground arith), ground arith)

  -- Under an authority that is not current `Publish` and `AcceptInbound` return the fenced error, and
  -- change or hand on nothing; `FlushOne` gives nothing to the connection, whatever other
  -- calls do to the queue meanwhile.
  pub fenced_manager :
      (m : Manager Conn) (e : Envelope) (name : String) (others : PriorityQueue → PriorityQueue)
      (send : Conn → Envelope → Option Error)
      → is_current m.authority.state ≡ false
      → (publish digest m e ≡ (some session_fenced, m))
        × ((accept_inbound digest m name e).error ≡ some session_fenced)
        × ((accept_inbound digest m name e).handled ≡ none)
        × ((flush_one digest m others send).0.offered ≡ none)
  unfolding publish accept_inbound flush_one
  fenced_manager m e name others send h = (
    rw (validate_current-fenced m e h, publish),
    rw (validate_current-fenced m e h, accept_inbound),
    rw (validate_current-fenced m e h, accept_inbound),
    flush_one-fenced m others send h,
  )
