-- ===== src/Session/Manager/Routing.antt =====
-- Routing: which module gets a message, by how often its schema is advertised.
use mathlib.Core.Path.{subst}
use kvm_infrastructure_manag.Base.{
  ℕ, zero, suc, ◌+◌, ◌≤◌, ◌<◌, ◌≡◌, refl, sym, ap, String, false, ◌⊎◌, inl, inr, none, some, List,
  [], ◌∷◌, ◌++◌, arith, eq_iff, str_eq, if◌then◌else◌, Bool-cases, Result, ok, err,
}
use kvm_infrastructure_manag.Session.Error.{Error, schema_ambiguous}
use kvm_infrastructure_manag.Session.Envelope.{Envelope}
use kvm_infrastructure_manag.Session.Manager.{
  Manager, Module, contains, advertised, select, select_in, schemas_error, register_module,
  validate_current, receive_and_route,
}

-- How often a schema stands in a list, and in the descriptors of a list of modules.
abbrev pub count : String → List String → ℕ
count s [] = 0
count s (t ∷ ts) = if str_eq t s then suc (count s ts) else count s ts

abbrev pub occurrences : String → List Module → ℕ
occurrences s [] = 0
occurrences s (m ∷ ms) = count s m.descriptor.message_schemas + occurrences s ms

abbrev pub IsMember : Module → List Module → Type 0
IsMember t [] = ⊥
IsMember t (m ∷ ms) = (t ≡ m) ⊎ IsMember t ms

-- One descriptor: a second hit is an error.
module _ (s : String) (m : Module) where
  select_in_taken :
      (ts : List String) (x : Module)
      → select_in s m ts (some x)
        ≡ (elim (count s ts) [ zero ↦ ok (some x) | suc n ↦ err schema_ambiguous ])
  unfolding select_in
  select_in_taken [] x = refl
  select_in_taken (t ∷ ts) x = elim (Bool-cases (str_eq t s)) [
    | inl e ↦ rw e
    | inr e ↦ rw e (select_in_taken ts x)
  ]

  select_in_free :
      (ts : List String)
      → select_in s m ts none ≡ (elim (count s ts) [
        | zero ↦ ok none
        | suc n ↦ elim n [ zero ↦ ok (some m) | suc k ↦ err schema_ambiguous ]
      ])
  unfolding select_in
  select_in_free [] = refl
  select_in_free (t ∷ ts) = elim (Bool-cases (str_eq t s)) [
    | inl e ↦ rw e (select_in_taken ts m)
    | inr e ↦ rw e (select_in_free ts)
  ]

zero_or_suc : (n : ℕ) → (n ≡ 0) ⊎ ((k : ℕ) × (n ≡ suc k))
zero_or_suc zero = inl refl
zero_or_suc (suc k) = inr (k, refl)

module _ (s : String) where
  select_taken :
      (ms : List Module) (x : Module) → occurrences s ms ≡ 0 → select s ms (some x) ≡ ok (some x)
  unfolding select
  select_taken [] x h = refl
  select_taken (m ∷ ms) x h =
      let c : count s m.descriptor.message_schemas ≡ 0 = omega arith in
      rw (select_in_taken s m m.descriptor.message_schemas x, c) (select_taken ms x (omega arith))

  select_taken_twice :
      (ms : List Module) (x : Module)
      → 0 < occurrences s ms
      → select s ms (some x) ≡ err schema_ambiguous
  unfolding select
  select_taken_twice [] x h = elim h [ ]
  select_taken_twice (m ∷ ms) x h =
      let hit = select_in_taken s m m.descriptor.message_schemas x in
      elim (zero_or_suc (count s m.descriptor.message_schemas)) [
        | inl c ↦ rw (hit, c) (select_taken_twice ms x (omega arith))
        | inr (k, c) ↦ rw (hit, c)
      ]

  -- A schema that nobody advertises.
  pub select-unrouted : (ms : List Module) → occurrences s ms ≡ 0 → select s ms none ≡ ok none
  unfolding select
  select-unrouted [] h = refl
  select-unrouted (m ∷ ms) h =
      let c : count s m.descriptor.message_schemas ≡ 0 = omega arith in
      rw (select_in_free s m m.descriptor.message_schemas, c) (select-unrouted ms (omega arith))

  -- A schema that is advertised twice, by one module or by two.
  pub select-ambiguous :
      (ms : List Module) → 1 < occurrences s ms → select s ms none ≡ err schema_ambiguous
  unfolding select
  select-ambiguous [] h = absurd (omega arith)
  select-ambiguous (m ∷ ms) h =
      let hit = select_in_free s m m.descriptor.message_schemas in
      elim (zero_or_suc (count s m.descriptor.message_schemas)) [
        | inl c ↦ rw (hit, c) (select-ambiguous ms (omega arith))
        | inr (k, c) ↦ elim (zero_or_suc k) [
          | inl z ↦ rw (hit, c, z) (select_taken_twice ms m (omega arith))
          | inr (j, z) ↦ rw (hit, c, z)
        ]
      ]

  member_occurs :
      (t : Module) (ms : List Module)
      → IsMember t ms
      → count s t.descriptor.message_schemas ≤ occurrences s ms
  member_occurs t [] h = elim h [ ]
  member_occurs t (m ∷ ms) (inl e) = rw e (omega arith)
  member_occurs t (m ∷ ms) (inr i) = omega (arith, member_occurs t ms i)

  -- A schema that is advertised once goes to the module that advertises it.
  pub select-found :
      (t : Module) (ms : List Module)
      → IsMember t ms
      → 0 < count s t.descriptor.message_schemas
      → occurrences s ms ≡ 1
      → select s ms none ≡ ok (some t)
  unfolding select
  select-found t [] h c o = elim h [ ]
  select-found t (m ∷ ms) (inl e) c o =
      let here : count s m.descriptor.message_schemas ≡ 1 =
        omega (arith, ap (λ x. count s x.descriptor.message_schemas) e, c, o) in
      rw (select_in_free s m m.descriptor.message_schemas, here)
        (subst (λ x. select s ms (some m) ≡ ok (some x)) (sym e)
          (select_taken ms m (omega (arith, here, o))))
  select-found t (m ∷ ms) (inr i) c o =
      let here : count s m.descriptor.message_schemas ≡ 0 =
        omega (arith, member_occurs t ms i, c, o) in
      rw (select_in_free s m m.descriptor.message_schemas, here)
        (select-found t ms i c (omega (arith, here, o)))

  -- What the registration of a module checks.
  contains-count : (ts : List String) → contains s ts ≡ false → count s ts ≡ 0
  contains-count [] h = refl
  contains-count (t ∷ ts) h = ground (arith, eq_iff s t, eq_iff t s, contains-count ts)

  occurrences-advertised : (ms : List Module) → advertised s ms ≡ false → occurrences s ms ≡ 0
  occurrences-advertised [] h = refl
  occurrences-advertised (m ∷ ms) h = omega (
    arith,
    contains-count m.descriptor.message_schemas (ground arith),
    occurrences-advertised ms (ground arith),
  )

  schemas_checked :
      (ts : List String) (ms : List Module)
      → schemas_error ts ms ≡ none
      → (count s ts ≡ 0) ⊎ (occurrences s ms ≡ 0)
  unfolding schemas_error
  schemas_checked [] ms h = inl refl
  schemas_checked (t ∷ ts) ms h = elim (Bool-cases (str_eq t s)) [
    | inl e ↦ inr (
        occurrences-advertised ms
          (subst (λ u. advertised u ms ≡ false) ((eq_iff t s).0 e) (ground arith)))
    | inr e ↦ rw e (schemas_checked ts ms (ground arith))
  ]

  occurrences-append :
      (ms ns : List Module) → occurrences s (ms ++ ns) ≡ occurrences s ms + occurrences s ns
  occurrences-append [] ns = omega arith
  occurrences-append (m ∷ ms) ns = omega (arith, occurrences-append ms ns)

-- No schema is advertised twice.
abbrev pub IsRegistry : List Module → Type 0
IsRegistry ms = (s : String) → occurrences s ms ≤ 1

-- A registration adds the module behind a passed check, or changes no module.
register_module-modules :
    {Conn : Type 0} (m : Manager Conn) (x : Module)
    → ((register_module m x).1.modules ≡ m.modules)
      ⊎ (((register_module m x).1.modules ≡ m.modules ++ x ∷ [])
          × (schemas_error x.descriptor.message_schemas m.modules ≡ none))
unfolding register_module
register_module-modules m x = ground arith

-- Registering modules, none of which lists a schema twice, never has a schema advertised twice.
pub register_module-IsRegistry :
    {Conn : Type 0} (m : Manager Conn) (x : Module)
    → ((s : String) → count s x.descriptor.message_schemas ≤ 1)
    → IsRegistry m.modules
    → IsRegistry (register_module m x).1.modules
register_module-IsRegistry m x once reg s = elim (register_module-modules m x) [
  | inl e ↦ rw e (reg s)
  | inr (e, checked) ↦ rw e (
      ground (
        arith,
        occurrences-append s m.modules (x ∷ []),
        schemas_checked s x.descriptor.message_schemas m.modules checked,
        reg s,
        once s,
      ))
]

-- Where no schema is advertised twice, the module that advertises a schema is selected for it.
select_registered :
    (s : String) (t : Module) (ms : List Module)
    → IsRegistry ms
    → IsMember t ms
    → 0 < count s t.descriptor.message_schemas
    → select s ms none ≡ ok (some t)
select_registered s t ms reg i c =
    select-found s t ms i c (omega (arith, member_occurs s t ms i, c, reg s))

-- If the connection gives a message that is current and well formed, no schema is advertised twice,
-- and a registered module advertises the schema of the message, then `ReceiveAndRoute` hands the
-- message to this module and returns what its handler returns.
pub routing :
    {Conn : Type 0} (digest : List ℕ → String) (m : Manager Conn)
    (receive : Conn → Result Error Envelope) (c : Conn) (e : Envelope) (t : Module)
    → m.connection ≡ some c
    → receive c ≡ ok e
    → validate_current digest m e ≡ none
    → IsRegistry m.modules
    → IsMember t m.modules
    → 0 < count e.schema_version t.descriptor.message_schemas
    → receive_and_route digest m receive ≡ record { error = t.handle e; handled = some (t, e) }
unfolding receive_and_route
routing digest m receive c e t hc hr hv reg i n =
    ground (arith, select_registered e.schema_version t m.modules reg i n)

-- A module that lists one schema twice makes every message of that schema fail as ambiguous.
pub repeated_schema :
    (s : String) (t : Module) (ms : List Module)
    → IsMember t ms
    → 1 < count s t.descriptor.message_schemas
    → select s ms none ≡ err schema_ambiguous
repeated_schema s t ms i c = select-ambiguous s ms (omega (arith, member_occurs s t ms i, c))
