-- ===== src/Base/Maps.antt =====
-- Maps with string keys, as lists with one entry for a key.
use Prim.Native.String.{String}
use mathlib.Core.Path.{◌≡◌, refl, sym, ap, ◌∙◌}
use mathlib.Core.Logic.{inl, inr}
use mathlib.Core.Bool.{Bool, true, false}
use mathlib.Core.Option.{Option, none, some}
use mathlib.Core.List.{List, [], ◌∷◌}
use native.Mathlib.Omega.{arith}
use text.Mathlib.Text.{◌==◌ as str_eq}
use text.Mathlib.TextEquality.{eq_iff}
use kvm_infrastructure_manag.Base.Tests.{if◌then◌else◌, Bool-cases}

-- A map with string keys.
abbrev pub find {ℓ} : {A : Type ℓ} → String → List (String × A) → Option A
find k [] = none
find k ((n, x) ∷ rest) = if str_eq n k then some x else find k rest

abbrev pub put {ℓ} : {A : Type ℓ} → String → A → List (String × A) → List (String × A)
put k x [] = (k, x) ∷ []
put k x ((n, y) ∷ rest) = if str_eq n k then (n, x) ∷ rest else (n, y) ∷ put k x rest

abbrev pub remove {ℓ} : {A : Type ℓ} → String → List (String × A) → List (String × A)
remove k [] = []
remove k ((n, x) ∷ rest) = if str_eq n k then remove k rest else (n, x) ∷ remove k rest

if_twice :
    {A : Type 0} (b : Bool) (x y z : A)
    → (if b then x else z) ≡ (if b then x else if b then y else z)
if_twice true x y z = refl
if_twice false x y z = refl

if_swap :
    {A : Type 0} (p q : Bool) (x y z : A)
    → (p ≡ true → q ≡ true → ⊥)
    → (if p then y else if q then x else z) ≡ (if q then x else if p then y else z)
if_swap true true x y z h = absurd (h refl refl)
if_swap true false x y z h = refl
if_swap false true x y z h = refl
if_swap false false x y z h = refl

if_same : {A : Type 0} (b : Bool) (x : A) → x ≡ (if b then x else x)
if_same true x = refl
if_same false x = refl

absurd_of : (n key : String) → str_eq n key ≡ false → n ≡ key → ⊥
absurd_of n key h e = let t = (eq_iff n key).1 e in ground arith

pub find-put :
    {A : Type 0} (k key : String) (x : A) (rs : List (String × A))
    → find k (put key x rs) ≡ (if str_eq key k then some x else find k rs)
find-put k key x [] = refl
find-put k key x ((n, y) ∷ rs) =
    let a = eq_iff n key in
    elim (Bool-cases (str_eq n key)) [
      | inl h ↦
          simp (h, ap (λ z. str_eq z k) (a.0 h))
            (if_twice (str_eq key k) (some x) (some y) (find k rs))
      | inr h ↦
          simp (h, find-put k key x rs)
            (if_swap (str_eq n k) (str_eq key k) (some x) (some y) (find k rs)
              (λ p q. absurd_of n key h ((eq_iff n k).0 p ∙ sym ((eq_iff key k).0 q))))
    ]

pub both_branches :
    {A : Type 0} (P : A → Type 0) (c : Bool) (x y : A)
    → (c ≡ true → P x)
    → (c ≡ false → P y)
    → P (if c then x else y)
both_branches P true x y f g = f refl
both_branches P false x y f g = g refl

pub find-remove :
    {A : Type 0} (k key : String) (rs : List (String × A))
    → find k (remove key rs) ≡ (if str_eq key k then none else find k rs)
find-remove k key [] = if_same (str_eq key k) none
find-remove k key ((n, y) ∷ rs) = elim (Bool-cases (str_eq n key)) [
  | inl h ↦
      simp (h, find-remove k key rs, ap (λ z. str_eq z k) ((eq_iff n key).0 h))
        (if_twice (str_eq key k) none (some y) (find k rs))
  | inr h ↦
      simp (h, find-remove k key rs)
        (if_swap (str_eq n k) (str_eq key k) none (some y) (find k rs)
          (λ p q. absurd_of n key h ((eq_iff n k).0 p ∙ sym ((eq_iff key k).0 q))))
]

pub find-put_same :
    {A : Type 0} (k : String) (x : A) (rs : List (String × A)) → find k (put k x rs) ≡ some x
find-put_same k x rs = rw (find-put k k x rs, (eq_iff k k).1 refl) refl
