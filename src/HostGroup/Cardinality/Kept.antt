-- ===== src/HostGroup/Cardinality/Kept.antt =====
-- How many groups a host is in, once a set is accepted.
use kvm_infrastructure_manag.Base.{
  or_zero, ℕ, ◌≡◌, refl, ap, sym, ◌∙◌, ◌⊎◌, inl, inr, ◌+◌, ◌≤◌, String, Bool, true, false, ◌&&◌,
  ◌||◌, not, none, some, List, [], ◌∷◌, ltb, ◌==◌, if◌then◌else◌, str_eq, eq_iff, arith, Result, ok,
  err, All, Bool-cases,
}
use kvm_infrastructure_manag.Base.Maps.{find, put, find-put, find-put_same}
use kvm_infrastructure_manag.HostGroup.Tables.{Error}
use kvm_infrastructure_manag.HostGroup.Members.{Membership}
use kvm_infrastructure_manag.HostGroup.Cardinality.{
  Counts, is_some, count_members, counts_refused, unless_counted, validate_cardinality,
}

-- The active memberships of a host among these.
abbrev pub active_of : String → List Membership → ℕ
active_of h [] = 0
active_of h (m ∷ ms) =
    let rest = active_of h ms in
    if str_eq m.host_id h && str_eq m.state "ACTIVE" then rest + 1 else rest

-- The groups that a host is in: the others, and this one.
abbrev pub occupancy : String → Counts → List Membership → ℕ
occupancy h elsewhere ms = or_zero (find h elsewhere) + active_of h ms

abbrev Counted : String → List Membership → Counts → Result Error Counts → Type 0
Counted cardinality ms c (err e) = Unit
Counted cardinality ms c (ok d) =
    ((h : String) → or_zero (find h d) ≡ occupancy h c ms)
    × ((h : String) → is_some (find h c) ≡ true → is_some (find h d) ≡ true)
    × (str_eq cardinality "EXACTLY_ONE" ≡ true
        → All (λ (m : Membership). is_some (find m.host_id d) ≡ true) ms)

Counted-active :
    (cardinality : String) (m : Membership) (ms : List Membership) (c : Counts)
    (r : Result Error Counts)
    → str_eq m.state "ACTIVE" ≡ true
    → Counted cardinality ms (put m.host_id (or_zero (find m.host_id c) + 1) c) r
    → Counted cardinality (m ∷ ms) c r
Counted-active cardinality m ms c (err e) a k = tt
Counted-active cardinality m ms c (ok d) a k =
    let more = or_zero (find m.host_id c) + 1 in
    (
      λ h. elim (Bool-cases (str_eq m.host_id h)) [
        | inl e ↦
            let same = (eq_iff m.host_id h).0 e in
            let put_here : or_zero (find h (put m.host_id more c)) ≡ more =
              ap or_zero (find-put h m.host_id more c)
              ∙ ap (λ b. or_zero (if b then some more else find h c)) e in
            let moved = ap (λ z. or_zero (find z c)) same in
            let count : active_of h (m ∷ ms) ≡ active_of h ms + 1 = rw (e, a) refl in
            omega (arith, k.0 h, put_here, moved, count)
        | inr e ↦
            let put_there : or_zero (find h (put m.host_id more c)) ≡ or_zero (find h c) =
              ap or_zero (find-put h m.host_id more c)
              ∙ ap (λ b. or_zero (if b then some more else find h c)) e in
            let count : active_of h (m ∷ ms) ≡ active_of h ms = rw e refl in
            omega (arith, k.0 h, put_there, count)
      ],
      λ h s. k.1 h (kept h (str_eq m.host_id h) more (find-put h m.host_id more c) s),
      λ x. (k.1 m.host_id (ap is_some (find-put_same m.host_id more c)), k.2 x),
    )
  where
    kept :
        (h : String) (b : Bool) (n : ℕ)
        → find h (put m.host_id n c) ≡ (if b then some n else find h c)
        → is_some (find h c) ≡ true
        → is_some (find h (put m.host_id n c)) ≡ true
    kept h true n e s = ap is_some e
    kept h false n e s = ap is_some e ∙ s

Counted-passed :
    (cardinality : String) (m : Membership) (ms : List Membership) (c : Counts)
    (r : Result Error Counts)
    → str_eq m.state "ACTIVE" ≡ false
    → (str_eq cardinality "EXACTLY_ONE" && not (is_some (find m.host_id c))) ≡ false
    → Counted cardinality ms c r
    → Counted cardinality (m ∷ ms) c r
Counted-passed cardinality m ms c (err e) a b k = tt
Counted-passed cardinality m ms c (ok d) a b k = (
  λ h.
      let count : active_of h (m ∷ ms) ≡ active_of h ms =
        same (str_eq m.host_id h) (active_of h ms) in
      omega (arith, k.0 h, count),
  k.1,
  λ x. (
    k.1 m.host_id (there (str_eq cardinality "EXACTLY_ONE") (is_some (find m.host_id c)) b x),
    k.2 x,
  ),
)
  where
    same : (e : Bool) (n : ℕ) → (if e && str_eq m.state "ACTIVE" then n + 1 else n) ≡ n
    same true n = rw a refl
    same false n = refl

    there : (p q : Bool) → (p && not q) ≡ false → p ≡ true → q ≡ true
    there p q h k = ground (arith, h, k)

members-Counted :
    (cardinality : String) (ms : List Membership) (c : Counts)
    → Counted cardinality ms c (count_members cardinality ms c)
unfolding count_members
members-Counted cardinality [] c = (λ h. omega arith, λ h s. s, λ x. tt)
members-Counted cardinality (m ∷ ms) c = elim (Bool-cases (str_eq m.state "ACTIVE")) [
  | inl a ↦
      let more = put m.host_id (or_zero (find m.host_id c) + 1) c in
      rw a (
        Counted-active cardinality m ms c (count_members cardinality ms more) a
          (members-Counted cardinality ms more))
  | inr a ↦
      elim (Bool-cases (str_eq cardinality "EXACTLY_ONE" && not (is_some (find m.host_id c)))) [
        | inl b ↦ rw (a, b) tt
        | inr b ↦
            rw (a, b)
              (Counted-passed cardinality m ms c (count_members cardinality ms c) a b
                (members-Counted cardinality ms c))
      ]
]

counts-bounded :
    (cardinality : String) (d : Counts) (h : String)
    → counts_refused cardinality d ≡ false
    → (or_zero (find h d) ≤ 1)
      × (str_eq cardinality "EXACTLY_ONE" ≡ true
          → is_some (find h d) ≡ true
          → or_zero (find h d) ≡ 1)
unfolding counts_refused
counts-bounded cardinality [] h r = (omega arith, λ x s. absurd (ground (arith, s)))
counts-bounded cardinality ((k, n) ∷ d) h r =
    let exact = str_eq cardinality "EXACTLY_ONE" in
    let rest = counts_refused cardinality d in
    let later = counts-bounded cardinality d h (tail exact rest r) in
    elim (Bool-cases (str_eq k h)) [ inl e ↦ rw e (first exact rest r) | inr e ↦ rw e later ]
  where
    tail : (x b : Bool) → (ltb 1 n || x && not (n == 1) || b) ≡ false → b ≡ false
    tail x b q = ground (arith, q)

    first :
        (x b : Bool)
        → (ltb 1 n || x && not (n == 1) || b) ≡ false
        → (n ≤ 1) × (x ≡ true → true ≡ true → n ≡ 1)
    first x b q = (ground (arith, q), λ y s. ground (arith, q, y))

-- If the members that are proposed for a group pass the check, under a cardinality other than MANY,
-- then each host has at most one active membership, those in the other groups that the check was
-- given counted with the proposed ones; under EXACTLY_ONE, each host that is proposed, to be added or
-- removed, has exactly one.
pub occupancy_le :
    (cardinality : String) (elsewhere : Counts) (proposed : List Membership) (h : String)
    → validate_cardinality cardinality elsewhere proposed ≡ none
    → str_eq cardinality "MANY" ≡ false
    → (occupancy h elsewhere proposed ≤ 1)
      × ((str_eq cardinality "EXACTLY_ONE" ≡ false)
          ⊎ All (λ (m : Membership). occupancy m.host_id elsewhere proposed ≡ 1) proposed)
unfolding validate_cardinality
occupancy_le cardinality elsewhere proposed h v n =
    go (count_members cardinality proposed elsewhere)
      (members-Counted cardinality proposed elsewhere) (ground (arith, v, n))
  where
    each :
        (d : Counts) (ms : List Membership)
        → ((k : String) → or_zero (find k d) ≡ occupancy k elsewhere proposed)
        → counts_refused cardinality d ≡ false
        → str_eq cardinality "EXACTLY_ONE" ≡ true
        → All (λ (m : Membership). is_some (find m.host_id d) ≡ true) ms
        → All (λ (m : Membership). occupancy m.host_id elsewhere proposed ≡ 1) ms
    each d [] k r x a = tt
    each d (m ∷ ms) k r x a = (
      sym (k m.host_id) ∙ (counts-bounded cardinality d m.host_id r).1 x a.0,
      each d ms k r x a.1,
    )

    go :
        (r : Result Error Counts)
        → Counted cardinality proposed elsewhere r
        → unless_counted cardinality r ≡ none
        → (occupancy h elsewhere proposed ≤ 1)
          × ((str_eq cardinality "EXACTLY_ONE" ≡ false)
              ⊎ All (λ (m : Membership). occupancy m.host_id elsewhere proposed ≡ 1) proposed)
    go (err e) k u = absurd (ground (arith, u))
    go (ok d) k u =
        let r : counts_refused cardinality d ≡ false = ground (arith, u) in
        let le = (counts-bounded cardinality d h r).0 in
        (
          omega (arith, le, k.0 h),
          elim (Bool-cases (str_eq cardinality "EXACTLY_ONE")) [
            | inl x ↦ inr (each d proposed k.0 r x (k.2 x))
            | inr x ↦ inl x
          ],
        )
