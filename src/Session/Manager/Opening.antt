-- ===== src/Session/Manager/Opening.antt =====
-- `Open` in its two halves, with other calls of `Open` and `Close` between them.
use kvm_infrastructure_manag.Base.{
  ℕ, ◌+◌, ◌-◌, ◌≤◌, ◌<◌, ◌≢◌, ◌≡◌, Bool, true, false, Option, none, some, arith, Result, ok, err,
}
use kvm_infrastructure_manag.Session.Error.{Error, session_already_open}
use kvm_infrastructure_manag.Session.Authority.{AuthoritySnapshot}
use kvm_infrastructure_manag.Session.Manager.{
  Manager, Handshake, Module, open_begin, open_finish, close, register_module,
}

-- Several callers share a Manager. `dialling` counts the calls of `Open` that are between their
-- halves, and `live` the connections that were dialled with success and not yet closed.
pub record World (Conn : Type 0) : Type 0 where
  pub manager : Manager Conn
  pub dialling : ℕ
  pub live : ℕ

abbrev pub started : Result Error Handshake → ℕ → ℕ
started (ok h) n = n + 1
started (err e) n = n

abbrev pub dialled : Option Error → ℕ → ℕ
dialled none n = n + 1
dialled (some e) n = n

abbrev pub bit : Bool → ℕ
bit false = 0
bit true = 1

module _ {Conn : Type 0} where
  abbrev pub held : Option Conn → ℕ
  held none = 0
  held (some c) = 1

  abbrev pub begins : World Conn → World Conn
  begins w = record {
    manager = (open_begin w.manager).1;
    dialling = started (open_begin w.manager).0 w.dialling;
    live = w.live;
  }

  -- One of the calls of `Open` goes on, under whatever authority holds by then.
  abbrev pub finishes :
      World Conn → Handshake → AuthoritySnapshot → (Handshake → Result Error Conn) → World Conn
  finishes w h authority dial =
      let done = open_finish (record w.manager { authority = authority }) h dial in
      record { manager = done.1; dialling = w.dialling - 1; live = dialled done.0 w.live }

  abbrev pub shuts : World Conn → (Conn → Option Error) → World Conn
  shuts w close_connection = record {
    manager = (close w.manager close_connection).1;
    dialling = w.dialling;
    live = w.live - held w.manager.connection;
  }

  pub data Step : World Conn → World Conn → Type 0 where
    begin : (w : World Conn) → Step w (begins w)
    finish :
        (w : World Conn) (h : Handshake) (authority : AuthoritySnapshot)
        (dial : Handshake → Result Error Conn)
        → 0 < w.dialling
        → Step w (finishes w h authority dial)
    shut :
        (w : World Conn) (close_connection : Conn → Option Error)
        → Step w (shuts w close_connection)
    register :
        (w : World Conn) (x : Module)
        → Step w (record w { manager = (register_module w.manager x).1 })

  pub data Reach (v : World Conn) : World Conn → Type 0 where
    here : Reach v v
    next : {w u : World Conn} → Reach v w → Step w u → Reach v u

  -- The Manager holds every live connection, and a dial is under way exactly while it says so.
  pub record IsSingle (w : World Conn) : Type 0 where
    pub owned : w.live ≡ held w.manager.connection
    pub marked : w.dialling ≡ bit w.manager.opening
    pub single : w.live + w.dialling ≤ 1

  begins-IsSingle : (w : World Conn) → IsSingle w → IsSingle (begins w)
  unfolding open_begin
  begins-IsSingle w s = ground arith

  finishes-IsSingle :
      (w : World Conn) (h : Handshake) (authority : AuthoritySnapshot)
      (dial : Handshake → Result Error Conn)
      → 0 < w.dialling
      → IsSingle w
      → IsSingle (finishes w h authority dial)
  unfolding open_finish
  finishes-IsSingle w h authority dial d s = ground arith

  shuts-IsSingle :
      (w : World Conn) (close_connection : Conn → Option Error)
      → IsSingle w
      → IsSingle (shuts w close_connection)
  unfolding close
  shuts-IsSingle w close_connection s = ground arith

  register-IsSingle :
      (w : World Conn) (x : Module)
      → IsSingle w
      → IsSingle (record w { manager = (register_module w.manager x).1 })
  unfolding register_module
  register-IsSingle w x s = ground arith

  Step-IsSingle : {w u : World Conn} → Step w u → IsSingle w → IsSingle u
  Step-IsSingle (begin w) s = begins-IsSingle w s
  Step-IsSingle (finish w h a dial d) s = finishes-IsSingle w h a dial d s
  Step-IsSingle (shut w c) s = shuts-IsSingle w c s
  Step-IsSingle (register w x) s = register-IsSingle w x s

  Reach-IsSingle : {v w : World Conn} → IsSingle v → Reach v w → IsSingle w
  Reach-IsSingle s here = s
  Reach-IsSingle s (next r t) = Step-IsSingle t (Reach-IsSingle s r)

  -- From a Manager with no connection and no dial under way, whatever the order of calls of `Open`,
  -- `Close` and `RegisterModule`, at most one connection is live or being dialled, and the Manager
  -- holds every live one.
  pub one_connection :
      (m : Manager Conn) (w : World Conn)
      → m.connection ≡ none
      → m.opening ≡ false
      → Reach (record { manager = m; dialling = 0; live = 0 }) w
      → (w.live + w.dialling ≤ 1) × (w.live ≡ held w.manager.connection)
  one_connection m w c o r =
      let s = Reach-IsSingle (record { owned = rw c; marked = rw o; single = omega arith }) r in
      (s.single, s.owned)

  -- Once an `Open` has begun, no module can be added.
  pub sealed_after_open :
      (m : Manager Conn) (h : Handshake) (x : Module)
      → (open_begin m).0 ≡ ok h
      → ((register_module (open_begin m).1 x).0 ≢ none)
        × ((register_module (open_begin m).1 x).1 ≡ (open_begin m).1)
        × ((open_begin (open_begin m).1).0 ≡ err session_already_open)
  unfolding open_begin register_module
  sealed_after_open m h x e = ground arith
