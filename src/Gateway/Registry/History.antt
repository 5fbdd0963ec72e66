-- ===== src/Gateway/Registry/History.antt =====
-- The registry against the calls that it got: which session of each host they leave.
use kvm_infrastructure_manag.Base.{
  option_branches, ℕ, ◌≡◌, refl, ap, sym, ◌∙◌, String, Bool, true, false, ◌&&◌, ◌||◌, Option, none,
  some, List, [], ◌∷◌, ◌==◌, if◌then◌else◌, str_eq, eq_iff, arith,
}
use kvm_infrastructure_manag.Base.Maps.{find, put, remove, find-put, find-remove, both_branches}
use kvm_infrastructure_manag.Session.Envelope.{Envelope}
use kvm_infrastructure_manag.Gateway.Registry.Calls.{
  Call, registers, releases, counts, spared, current, IsUpheld, current-IsUpheld,
}
use kvm_infrastructure_manag.Gateway.Registry.{
  Error, RegisteredSink, Sessions, identity_incomplete, stale_session, is_stale, is_own, register,
  release, routed, called, send, sink_failed, new_outbound_registry,
}

-- The registry, and the calls that it got, with the last one first.
pub record World (Sink : Type 0) : Type 0 where
  pub sessions : Sessions Sink
  pub history : List (Call Sink)

kept :
    {A : Type 0} (e acc : Bool) (x : A) {f c : A}
    → f ≡ c
    → (e ≡ true → acc ≡ false)
    → f ≡ (if e && acc then x else c)
kept true true x h k = absurd (ground (arith, k refl))
kept true false x h k = h
kept false acc x h k = h

replaced :
    {A : Type 0} (e acc : Bool) (x : A) {f c : A}
    → f ≡ c
    → (e ≡ true → acc ≡ true)
    → (if e then x else f) ≡ (if e && acc then x else c)
replaced true true x h k = refl
replaced true false x h k = absurd (ground (arith, k refl))
replaced false acc x h k = h

branches :
    {A : Type 0} (e : Bool) {f g x y : A}
    → (e ≡ true → f ≡ x)
    → (e ≡ false → g ≡ y)
    → (if e then f else g) ≡ (if e then x else y)
branches true h k = h refl
branches false h k = k refl

chosen :
    {A : Type 0} (e : Bool) {f x y : A}
    → (e ≡ true → f ≡ x)
    → (e ≡ false → f ≡ y)
    → f ≡ (if e then x else y)
chosen true h k = h refl
chosen false h k = k refl

module _ {Sink : Type 0} where
  abbrev pub step : Call Sink → World Sink → World Sink
  step (registers h g c s) w = record {
    sessions = (register h g c s w.sessions).1;
    history = registers h g c s ∷ w.history;
  }
  step (releases h g c) w = record {
    sessions = release h g c w.sessions;
    history = releases h g c ∷ w.history;
  }

  abbrev pub run : List (Call Sink) → World Sink → World Sink
  run [] w = w
  run (c ∷ cs) w = run cs (step c w)

  -- The registry shows what the calls say.
  abbrev pub Shows : World Sink → Type 0
  Shows w = (h : String) → find h w.sessions ≡ current h w.history

  -- The guards of `Register` decide whether a registration counts.
  incomplete_out :
      (h c : String) (g : ℕ) (old : Option (RegisteredSink Sink))
      → (str_eq h "" || g == 0 || str_eq c "") ≡ true
      → counts h g c old ≡ false
  incomplete_out h c g old k = ground arith

  stale_out :
      (h c : String) (g : ℕ) (old : Option (RegisteredSink Sink))
      → is_stale old g ≡ true
      → counts h g c old ≡ false
  stale_out h c g none k = absurd (ground arith)
  stale_out h c g (some s) k = ground arith

  counts_in :
      (h c : String) (g : ℕ) (old : Option (RegisteredSink Sink))
      → (str_eq h "" || g == 0 || str_eq c "") ≡ false
      → is_stale old g ≡ false
      → counts h g c old ≡ true
  counts_in h c g none k l = ground arith
  counts_in h c g (some s) k l = ground arith

  register-Shows :
      (h : String) (g : ℕ) (c : String) (s : Option Sink) (w : World Sink)
      → Shows w
      → Shows (step (registers h g c s) w)
  unfolding register
  register-Shows h g c none w i k = i k
  register-Shows h g c (some s) w i k =
      let x : RegisteredSink Sink = record { generation = g; connection_id = c; sink = s } in
      let shown = current k w.history in
      let P = λ (z : Option Error × Sessions Sink).
        find k z.1 ≡ (if str_eq h k && counts h g c shown then some x else shown) in
      let stored : Option Error × Sessions Sink = (none, put h x w.sessions) in
      let old = is_stale (find h w.sessions) g in
      let same = λ (e : str_eq h k ≡ true).
        ap (counts h g c) (sym (i k) ∙ ap (λ z. find z w.sessions) (sym ((eq_iff h k).0 e))) in
      both_branches {A = Option Error × Sessions Sink} P (str_eq h "" || g == 0 || str_eq c "")
        (some identity_incomplete, w.sessions)
        (if old then (some stale_session, w.sessions) else stored)
        (λ j.
          kept (str_eq h k) (counts h g c shown) (some x) (i k) (λ e. incomplete_out h c g shown j))
        (λ j.
          both_branches {A = Option Error × Sessions Sink} P old (some stale_session, w.sessions)
            stored
            (λ l.
              kept (str_eq h k) (counts h g c shown) (some x) (i k)
                (λ e. same e ∙ stale_out h c g (find h w.sessions) l))
            (λ l.
              find-put k h x w.sessions
              ∙ replaced (str_eq h k) (counts h g c shown) (some x) (i k)
                  (λ e. same e ∙ counts_in h c g (find h w.sessions) j l)))

  -- The test of the function that `Register` returns decides what is left.
  own_out :
      (g : ℕ) (c : String) (old : Option (RegisteredSink Sink))
      → is_own old g c ≡ true
      → spared old g c ≡ none
  own_out g c none k = refl
  own_out g c (some s) k = ground arith

  other_left :
      (g : ℕ) (c : String) (old : Option (RegisteredSink Sink))
      → is_own old g c ≡ false
      → spared old g c ≡ old
  other_left g c none k = refl
  other_left g c (some s) k = ground arith

  release-Shows :
      (h : String) (g : ℕ) (c : String) (w : World Sink) → Shows w → Shows (step (releases h g c) w)
  unfolding release
  release-Shows h g c w i k =
      let shown = current k w.history in
      let same = λ (e : str_eq h k ≡ true).
        sym (i k) ∙ ap (λ z. find z w.sessions) (sym ((eq_iff h k).0 e)) in
      both_branches {A = Sessions Sink}
        (λ z. find k z ≡ (if str_eq h k then spared shown g c else shown))
        (is_own (find h w.sessions) g c) (remove h w.sessions) w.sessions
        (λ o.
          find-remove k h w.sessions
          ∙ branches (str_eq h k)
              (λ e. sym (ap (λ z. spared z g c) (same e) ∙ own_out g c (find h w.sessions) o))
              (λ e. i k))
        (λ o.
          chosen (str_eq h k)
            (λ e.
              i k
              ∙ same e
              ∙ sym (ap (λ z. spared z g c) (same e) ∙ other_left g c (find h w.sessions) o))
            (λ e. i k))

  run_keeps : (cs : List (Call Sink)) (w : World Sink) → Shows w → Shows (run cs w)
  run_keeps [] w i = i
  run_keeps (registers h g c s ∷ cs) w i =
      run_keeps cs (step (registers h g c s) w) (register-Shows h g c s w i)
  run_keeps (releases h g c ∷ cs) w i =
      run_keeps cs (step (releases h g c) w) (release-Shows h g c w i)

  -- If a registry shows for each host the session that its calls so far say, as it does when it is
  -- new, then it does so after any further calls of `Register` and of the functions that it returned.
  -- What the calls say: a call of `Register` with a host, a connection and a sink sets the session of
  -- the host if its generation is above that of the session before it, or above 0 if there was none; a
  -- function takes away the session that has its host, its generation and its connection; nothing
  -- else changes a session. So a session that is shown was registered for its host, and no call since
  -- was its function or registered one of a greater generation there.
  pub run-Shows :
      (cs : List (Call Sink)) (w : World Sink)
      → Shows w
      → Shows (run cs w)
        × ((h : String) (s : RegisteredSink Sink)
            → find h (run cs w).sessions ≡ some s
            → IsUpheld h s (run cs w).history)
  run-Shows cs w i = (
    run_keeps cs w i,
    λ h s e. current-IsUpheld h (run cs w).history s (sym (run_keeps cs w i h) ∙ e),
  )

  called-some :
      (deliver : Sink → Envelope → Option String) (e : Envelope) (r : Option Error × Option Sink)
      (s : Sink)
      → (called deliver e r).1 ≡ some s
      → r.1 ≡ some s
  called-some deliver e (x, none) s h = h
  called-some deliver e (x, some t) s h =
      option_branches (λ (z : Option Error × Option Sink). z.1 ≡ some s → some t ≡ some s)
        (deliver t e) (none, some t) (λ y. (some (sink_failed y), some t)) (λ k. k) (λ y k. k) h

  routed-some :
      (o : Option (RegisteredSink Sink)) (h : String) (g : ℕ) (e : Envelope) (sink : Sink)
      → (routed o h g e).1 ≡ some sink
      → (s : RegisteredSink Sink) × (o ≡ some s)
        × (s.sink ≡ sink)
        × (s.generation ≡ g)
        × (e.host_identity ≡ h)
        × (e.session_generation ≡ g)
  routed-some none h g e sink k = absurd (ground arith)
  routed-some (some s) h g e sink k = (
    s,
    refl,
    ground arith,
    ground arith,
    (eq_iff e.host_identity h).0 (ground arith),
    ground arith,
  )

  -- If `Send` gives a message to a sink, then that sink was registered for the host of the message
  -- with the generation of the message, which are those that it was called for, and has not been
  -- removed since by its own function.
  pub send-current :
      (cs : List (Call Sink)) (deliver : Sink → Envelope → Option String) (h : String) (g : ℕ)
      (e : Envelope) (sink : Sink)
      → let w = run cs (record { sessions = new_outbound_registry Sink; history = [] }) in
        (send deliver h g e w.sessions).1 ≡ some sink
        → (s : RegisteredSink Sink) × (current h w.history ≡ some s)
          × (s.sink ≡ sink)
          × (s.generation ≡ g)
          × (e.host_identity ≡ h)
          × (e.session_generation ≡ g)
  unfolding send
  send-current cs deliver h g e sink k =
      let w = run cs (record { sessions = new_outbound_registry Sink; history = [] }) in
      let shows =
        run-Shows cs (record { sessions = new_outbound_registry Sink; history = [] }) (λ x. refl) in
      let r = called-some deliver e (routed (find h w.sessions) h g e) sink k in
      routed-some (current h w.history) h g e sink
        (ap (λ z. (routed z h g e).1) (sym (shows.0 h)) ∙ r)
