-- ===== src/Gateway/Registry/Calls.antt =====
-- The specification of the registry of internal/agent/gateway/outbound_registry.go: which session of
-- a host the calls of `Register` and of the functions that it returned leave.
use kvm_infrastructure_manag.Base.{
  ℕ, ◌≡◌, ◌≢◌, ◌<◌, ◌⊎◌, inl, inr, Bool-cases, sym, ◌∙◌, String, Bool, true, false, ◌&&◌, Option,
  none, some, List, [], ◌∷◌, ◌==◌, not, ltb, if◌then◌else◌, if_true, if_false, str_eq, eq_iff,
  arith,
}
use kvm_infrastructure_manag.Gateway.Registry.{RegisteredSink}

-- The calls that a registry gets.
pub data Call (Sink : Type 0) : Type 0 where
  registers : String → ℕ → String → Option Sink → Call Sink
  releases : String → ℕ → String → Call Sink

-- A registration names a host and a connection.
abbrev pub is_named : String → String → Bool
is_named host connection = not (str_eq host "") && not (str_eq connection "")

text_named : (t : String) → t ≢ "" → str_eq t "" ≡ false
text_named t n = elim (Bool-cases (str_eq t "")) [
  | inl e ↦ absurd (n ((eq_iff t "").0 e))
  | inr e ↦ e
]

module _ {Sink : Type 0} where
  -- The generation that the next session of a host has to exceed.
  abbrev pub floor : Option (RegisteredSink Sink) → ℕ
  floor none = 0
  floor (some s) = s.generation

  -- A registration counts: it has a host and a connection, and its generation is above.
  abbrev pub counts : String → ℕ → String → Option (RegisteredSink Sink) → Bool
  counts h g c old = is_named h c && ltb (floor old) g

  -- What is left of a session behind the function of a generation and a connection.
  abbrev pub spared : Option (RegisteredSink Sink) → ℕ → String → Option (RegisteredSink Sink)
  spared none g c = none
  spared (some s) g c = if s.generation == g && str_eq s.connection_id c then none else some s

  -- The session of a host, by the calls alone: a registration with a sink, a host and a connection
  -- counts if its generation is above that of the session before it; a function takes away the
  -- session with its own generation and connection, and no other.
  abbrev pub current : String → List (Call Sink) → Option (RegisteredSink Sink)
  current h [] = none
  current h (registers k g c none ∷ calls) = current h calls
  current h (registers k g c (some s) ∷ calls) =
      let rest = current h calls in
      if str_eq k h && counts k g c rest
      then some (record { generation = g; connection_id = c; sink = s })
      else rest
  current h (releases k g c ∷ calls) =
      let rest = current h calls in if str_eq k h then spared rest g c else rest

  -- The call registers this session of the host.
  abbrev pub IsRegistration : String → RegisteredSink Sink → Call Sink → Type 0
  IsRegistration h s (registers k g c none) = ⊥
  IsRegistration h s (registers k g c (some x)) =
      (k ≡ h) × (g ≡ s.generation) × (c ≡ s.connection_id) × (x ≡ s.sink)
  IsRegistration h s (releases k g c) = ⊥

  -- The call is not the function of this session of the host, and registers none above it there.
  abbrev pub Spares : String → RegisteredSink Sink → Call Sink → Type 0
  Spares h s (registers k g c none) = Unit
  Spares h s (registers k g c (some x)) = ¬ ((k ≡ h) × (k ≢ "") × (c ≢ "") × (s.generation < g))
  Spares h s (releases k g c) = ¬ ((k ≡ h) × (g ≡ s.generation) × (c ≡ s.connection_id))

  -- The session was registered for the host, and all calls since have spared it.
  abbrev pub IsUpheld : String → RegisteredSink Sink → List (Call Sink) → Type 0
  IsUpheld h s [] = ⊥
  IsUpheld h s (c ∷ calls) = IsRegistration h s c ⊎ (Spares h s c × IsUpheld h s calls)

  own_test :
      (r s : RegisteredSink Sink) (g : ℕ) (c : String)
      → some r ≡ some s
      → g ≡ s.generation
      → c ≡ s.connection_id
      → (r.generation == g && str_eq r.connection_id c) ≡ true
  own_test r s g c e n m = ground (arith, eq_iff r.connection_id c)

  above_counts :
      (h k : String) (g : ℕ) (c : String) (rest : Option (RegisteredSink Sink))
      (s : RegisteredSink Sink)
      → rest ≡ some s
      → k ≡ h
      → k ≢ ""
      → c ≢ ""
      → s.generation < g
      → (str_eq k h && counts k g c rest) ≡ true
  above_counts h k g c rest s e a n m l =
      simp (e, text_named k n, text_named c m, (eq_iff k h).1 a) (ground arith)

  shown_parts :
      (g : ℕ) (c : String) (x : Sink) (s : RegisteredSink Sink)
      → some (record { generation = g; connection_id = c; sink = x }) ≡ some s
      → (g ≡ s.generation) × (c ≡ s.connection_id) × (x ≡ s.sink)
  shown_parts g c x s e = (ground arith, ground arith, ground arith)

  registered-IsUpheld :
      (h k : String) (g : ℕ) (c : String) (x : Sink) (rest : Option (RegisteredSink Sink))
      (s : RegisteredSink Sink)
      → (if str_eq k h && counts k g c rest
          then some (record { generation = g; connection_id = c; sink = x })
          else rest)
        ≡ some s
      → IsRegistration h s (registers k g c (some x))
        ⊎ (Spares h s (registers k g c (some x)) × (rest ≡ some s))
  registered-IsUpheld h k g c x rest s e =
      let set : Option (RegisteredSink Sink) =
        some (record { generation = g; connection_id = c; sink = x }) in
      elim (Bool-cases (str_eq k h && counts k g c rest)) [
        | inl b ↦ inl (
          (eq_iff k h).0 (ground arith),
          (shown_parts g c x s (sym (if_true _ set rest b) ∙ e)).0,
          (shown_parts g c x s (sym (if_true _ set rest b) ∙ e)).1,
          (shown_parts g c x s (sym (if_true _ set rest b) ∙ e)).2,
        )
        | inr b ↦
            let r = sym (if_false _ set rest b) ∙ e in
            inr
              (λ (a, n, m, l). absurd (ground (arith, b, above_counts h k g c rest s r a n m l)), r)
      ]

  released_here :
      (h k : String) (g : ℕ) (c : String) (rest : Option (RegisteredSink Sink))
      (s : RegisteredSink Sink)
      → spared rest g c ≡ some s
      → Spares h s (releases k g c) × (rest ≡ some s)
  released_here h k g c none s e = absurd (ground arith)
  released_here h k g c (some r) s e =
      elim (Bool-cases (r.generation == g && str_eq r.connection_id c)) [
        | inl b ↦ absurd (ground arith)
        | inr b ↦
            let same : some r ≡ some s = ground arith in
            (λ (a, n, m). absurd (ground (arith, b, own_test r s g c same n m)), same)
      ]

  released-IsUpheld :
      (h k : String) (g : ℕ) (c : String) (rest : Option (RegisteredSink Sink))
      (s : RegisteredSink Sink)
      → (if str_eq k h then spared rest g c else rest) ≡ some s
      → Spares h s (releases k g c) × (rest ≡ some s)
  released-IsUpheld h k g c rest s e = elim (Bool-cases (str_eq k h)) [
    | inl b ↦ released_here h k g c rest s (sym (if_true _ _ rest b) ∙ e)
    | inr b ↦ (
      λ (a, n, m). absurd (ground (arith, b, (eq_iff k h).1 a)),
      sym (if_false _ (spared rest g c) rest b) ∙ e,
    )
  ]

  pub current-IsUpheld :
      (h : String) (calls : List (Call Sink)) (s : RegisteredSink Sink)
      → current h calls ≡ some s
      → IsUpheld h s calls
  current-IsUpheld h [] s e = absurd (ground arith)
  current-IsUpheld h (registers k g c none ∷ calls) s e = inr (tt, current-IsUpheld h calls s e)
  current-IsUpheld h (registers k g c (some x) ∷ calls) s e =
      elim (registered-IsUpheld h k g c x (current h calls) s e) [
        | inl r ↦ inl r
        | inr (o, r) ↦ inr (o, current-IsUpheld h calls s r)
      ]
  current-IsUpheld h (releases k g c ∷ calls) s e =
      let (o, r) = released-IsUpheld h k g c (current h calls) s e in
      inr (o, current-IsUpheld h calls s r)
