-- ===== src/HostGroup/Members/Listed.antt =====
-- The members of a request, against the hosts that matched; and the guards of its validation.
use kvm_infrastructure_manag.Base.{
  ◌≡◌, refl, inl, inr, String, Bool, true, false, ◌||◌, not, none, some, List, [], ◌∷◌,
  if◌then◌else◌, str_eq, eq_iff, eq_refl, arith, All, Bool-cases,
}
use kvm_infrastructure_manag.HostGroup.Tables.{Error, HostResult}
use kvm_infrastructure_manag.HostGroup.Evaluation.{candidates}
use kvm_infrastructure_manag.HostGroup.Members.{
  Membership, selected, has_key, keys, members_accepted,
}

-- An active member of a selector, whose host is among these.
abbrev pub Listed : String → List String → Membership → Type 0
Listed revision hosts m =
    (has_key m.host_id hosts ≡ true)
    × (m.state ≡ "ACTIVE")
    × (m.source_type ≡ "SELECTOR")
    × (m.source_revision ≡ revision)

Listed-grow :
    (revision k : String) (hosts : List String) (ms : List Membership)
    → All (Listed revision hosts) ms
    → All (Listed revision (k ∷ hosts)) ms
Listed-grow revision k hosts [] a = a
Listed-grow revision k hosts (m ∷ ms) a =
    let h = a.0.0 in ((ground (arith, h), a.0.1, a.0.2, a.0.3), Listed-grow revision k hosts ms a.1)

-- The members that an evaluation gives.
pub selected-Listed :
    (group revision : String) (before : List Membership) (hs : List HostResult)
    → All (Listed revision (candidates hs)) (selected group revision before hs)
unfolding selected candidates
selected-Listed group revision before [] = tt
selected-Listed group revision before (h ∷ hs) =
    let rest = selected-Listed group revision before hs in
    elim (Bool-cases (str_eq h.state "MATCHED")) [
      | inl e ↦ rw e (
        (rw (eq_refl h.host_id) refl, refl, refl, refl),
        Listed-grow revision h.host_id (candidates hs) (selected group revision before hs) rest,
      )
      | inr e ↦ rw e rest
    ]

keys-has_key : (k : String) (ks : List String) → has_key k (keys ks) ≡ true → has_key k ks ≡ true
unfolding keys
keys-has_key k [] h = h
keys-has_key k (x ∷ ks) h =
    let ih = keys-has_key k ks in
    elim (Bool-cases (has_key x (keys ks))) [
      | inl e ↦ let t = ih (ground (arith, e, h)) in ground (arith, t)
      | inr e ↦ elim (Bool-cases (str_eq x k)) [
        | inl f ↦ ground (arith, f)
        | inr f ↦ let t = ih (ground (arith, e, f, h)) in ground (arith, t)
      ]
    ]

pub accepted-Listed :
    (revision : String) (hosts : List String) (ms : List Membership)
    → members_accepted revision (keys hosts) ms ≡ true
    → All (Listed revision hosts) ms
unfolding members_accepted
accepted-Listed revision hosts [] h = tt
accepted-Listed revision hosts (m ∷ ms) h =
    let rest = accepted-Listed revision hosts ms (ground (arith, h)) in
    (
      (
        keys-has_key m.host_id hosts (ground (arith, h)),
        (eq_iff m.state "ACTIVE").0 (ground (arith, h)),
        (eq_iff m.source_type "SELECTOR").0 (ground (arith, h)),
        (eq_iff m.source_revision revision).0 (ground (arith, h)),
      ),
      rest,
    )

pub denied : (b : Bool) → not b ≡ false → b ≡ true
denied true h = refl
denied false h = ground arith

pub none_of_four :
    (a b c d : Bool) (e : Error)
    → (if a || b || c || d then some e else none) ≡ none
    → (a ≡ false) × (c ≡ false) × (d ≡ false)
none_of_four a b c d e h = (ground arith, ground arith, ground arith)

pub last_of_three : (a b c : Bool) → (a || b || not c) ≡ false → c ≡ true
last_of_three a b c h = ground arith

pub last_of_ten :
    (a b c d e f g h i j : Bool)
    → (a || b || c || d || e || f || g || h || i || j) ≡ false
    → j ≡ false
last_of_ten a b c d e f g h i j k = ground arith
