-- ===== src/Base/Sort.antt =====
-- `sort.Slice`, as an insertion sort by the same comparison. The library's sort leaves the order of
-- equal elements open; the program uses it where equal keys are refused or do not matter.
use mathlib.Core.Path.{◌≡◌}
use mathlib.Core.Logic.{inl, inr, ◌↔◌}
use mathlib.Core.Bool.{Bool, true, false}
use mathlib.Core.List.{List, [], ◌∷◌, Perm}
use mathlib.Core.List.Perm
use kvm_infrastructure_manag.Base.Tests.{if◌then◌else◌, Bool-cases}
use kvm_infrastructure_manag.Base.Lists.{All}

module _ {ℓ} {A : Type ℓ} (less : A → A → Bool) where
  pub insert : A → List A → List A
  insert x [] = x ∷ []
  insert x (y ∷ ys) = if less y x then y ∷ insert x ys else x ∷ y ∷ ys

  unfoldable pub sort : List A → List A
  unfolding insert
  sort [] = []
  sort (x ∷ xs) = insert x (sort xs)

  pub insert-perm : (x : A) (ys : List A) → Perm (insert x ys) (x ∷ ys)
  unfolding insert
  insert-perm x [] = Perm.refl (x ∷ [])
  insert-perm x (y ∷ ys) = elim (Bool-cases (less y x)) [
    | inl h ↦ rw h (Perm.trans (Perm.cons y (insert-perm x ys)) (Perm.swap x y ys))
    | inr h ↦ rw h (Perm.refl (x ∷ y ∷ ys))
  ]

  pub sort-perm : (xs : List A) → Perm (sort xs) xs
  unfolding sort
  sort-perm [] = Perm.refl []
  sort-perm (x ∷ xs) = Perm.trans (insert-perm x (sort xs)) (Perm.cons x (sort-perm xs))

  -- Nothing stands directly behind an element that it comes before.
  abbrev pub Follows : A → List A → Type 0
  Follows x [] = Unit
  Follows x (y ∷ ys) = less y x ≡ false

  abbrev pub IsSorted : List A → Type 0
  IsSorted [] = Unit
  IsSorted (x ∷ xs) = Follows x xs × IsSorted xs

  module _ (asym : (x y : A) → less x y ≡ true → less y x ≡ false) where
    insert-IsSorted : (x : A) (ys : List A) → IsSorted ys → IsSorted (insert x ys)
    unfolding insert
    insert-IsSorted x [] h = (tt, tt)
    insert-IsSorted x (y ∷ []) h = elim (Bool-cases (less y x)) [
      | inl e ↦ rw e (asym y x e, (tt, tt))
      | inr e ↦ rw e (e, (tt, tt))
    ]
    insert-IsSorted x (y ∷ z ∷ zs) h =
        let ih : IsSorted (insert x (z ∷ zs)) = insert-IsSorted x (z ∷ zs) h.1 in
        elim (Bool-cases (less y x)) [
          | inr e ↦ rw e (e, h)
          | inl e ↦ rw e (elim (Bool-cases (less z x)) [
            | inl k ↦ rw k (h.0, rw k at ih)
            | inr k ↦ rw k (asym y x e, (k, h.1))
          ])
        ]

    pub sort-IsSorted : (xs : List A) → IsSorted (sort xs)
    unfolding sort
    sort-IsSorted [] = tt
    sort-IsSorted (x ∷ xs) = insert-IsSorted x (sort xs) (sort-IsSorted xs)

module _ {ℓ κ} {A : Type ℓ} (less : A → A → Bool) (P : A → Type κ) where
  insert-All_iff : (x : A) (ys : List A) → All P (insert less x ys) ↔ (P x × All P ys)
  unfolding insert
  insert-All_iff x [] = (λ h. h, λ h. h)
  insert-All_iff x (y ∷ ys) = elim (Bool-cases (less y x)) [
    | inl h ↦
        let ih = insert-All_iff x ys in
        rw h (λ a. let b = ih.0 a.1 in (b.0, (a.0, b.1)), λ b. (b.1.0, ih.1 (b.0, b.1.1)))
    | inr h ↦ rw h (λ a. a, λ a. a)
  ]

  -- Sorting changes no statement about all elements.
  pub sort-All_iff : (xs : List A) → All P (sort less xs) ↔ All P xs
  unfolding sort
  sort-All_iff [] = (λ h. h, λ h. h)
  sort-All_iff (x ∷ xs) =
      let one = insert-All_iff x (sort less xs) in
      let ih = sort-All_iff xs in
      (λ a. let b = one.0 a in (b.0, ih.0 b.1), λ a. one.1 (a.0, ih.1 a.1))

module _ {ℓ} {A : Type ℓ} (less : A → A → Bool)
    (stays : (x y z : A) → less y x ≡ false → less z y ≡ false → less z x ≡ false) where
  beyond :
      (x y : A) (zs : List A)
      → less y x ≡ false
      → All (λ z. less z y ≡ false) zs
      → All (λ z. less z x ≡ false) zs
  beyond x y [] h a = tt
  beyond x y (z ∷ zs) h a = (stays x y z h a.0, beyond x y zs h a.1)

  -- In a sorted list nothing at all behind an element comes before it.
  pub IsSorted-All : (x : A) (ys : List A) → IsSorted less (x ∷ ys) → All (λ y. less y x ≡ false) ys
  IsSorted-All x [] h = tt
  IsSorted-All x (y ∷ ys) h = (h.0, beyond x y ys h.0 (IsSorted-All y ys h.1))
