-- ===== src/Placement/Conditions.antt =====
-- How an empty list of reason codes reads: each list of conditions as what it asks for.
use kvm_infrastructure_manag.Base.{
  ℕ, ◌≤◌, ◌≡◌, refl, String, Bool, true, false, ◌&&◌, ◌||◌, not, ◌↔◌, ◌≢◌, Option, none, some, List,
  [], ◌∷◌, ◌++◌, arith, ltb, ◌==◌, str_eq, eq_iff, All,
}
use kvm_infrastructure_manag.Base.Ints.{ℤ, eq_int}
use kvm_infrastructure_manag.Placement.Reasons.{reason, add_reasons, each, numa_mismatch}

module _ {b c : Bool} {B C : Type 0} where
  pub or_iff : (b ≡ false) ↔ B → (c ≡ false) ↔ C → ((b || c) ≡ false) ↔ (B × C)
  or_iff f g = (
    λ h. (f.0 (ground arith), g.0 (ground arith)),
    λ h. let x = f.1 h.0 in let y = g.1 h.1 in ground arith,
  )

pub text_iff : (s t : String) → (not (str_eq s t) ≡ false) ↔ (s ≡ t)
text_iff s t = ground (arith, eq_iff s t)

pub either_iff :
    (s t u : String)
    → ((not (str_eq s t) && not (str_eq s u)) ≡ false) ↔ ((str_eq s t || str_eq s u) ≡ true)
either_iff s t u = ground arith

pub num_iff : (a b : ℕ) → (not (a == b) ≡ false) ↔ (a ≡ b)
num_iff a b = ground arith

pub true_iff : (b : Bool) → (not b ≡ false) ↔ (b ≡ true)
true_iff b = ground arith

pub false_iff : (b : Bool) → (b ≡ false) ↔ (b ≡ false)
false_iff b = (λ h. h, λ h. h)

pub lt_iff : (a b : ℕ) → (ltb a b ≡ false) ↔ (b ≤ a)
lt_iff a b = ground arith

pub named_iff : (s : String) → (str_eq s "" ≡ false) ↔ (s ≢ "")
named_iff s = ground (arith, eq_iff s "")

-- A condition that stands under a guard.
pub guarded_iff : (b c : Bool) → ((b && not c) ≡ false) ↔ (b ≡ true → c ≡ true)
guarded_iff b c = ground arith

pub reason_iff : {c : Bool} {C : Type 0} (s : String) → (c ≡ false) ↔ C → (reason c s ≡ []) ↔ C
reason_iff s f = (λ h. f.0 (ground arith), λ x. let y = f.1 x in ground arith)

pub append_iff :
    {l r : List String} {L R : Type 0} → (l ≡ []) ↔ L → (r ≡ []) ↔ R → ((l ++ r) ≡ []) ↔ (L × R)
append_iff {l} {r} f g =
    (λ h. (f.0 (left l r h), g.0 (right l r h)), λ h. join l r (f.1 h.0) (g.1 h.1))
  where
    left : (l r : List String) → l ++ r ≡ [] → l ≡ []
    left [] r h = refl
    left (x ∷ l) r h = cc

    right : (l r : List String) → l ++ r ≡ [] → r ≡ []
    right [] r h = h
    right (x ∷ l) r h = cc

    join : (l r : List String) → l ≡ [] → r ≡ [] → l ++ r ≡ []
    join [] r h k = k
    join (x ∷ l) r h k = cc

pub end_iff : (add_reasons [] ≡ []) ↔ Unit {0}
unfolding add_reasons
end_iff = (λ _. tt, λ _. refl)

-- One call of `addReason`, and those behind it.
pub add_iff :
    {c : Bool} {C R : Type 0} (s : String) (rest : List (Bool × String))
    → (c ≡ false) ↔ C
    → (add_reasons rest ≡ []) ↔ R
    → (add_reasons ((c, s) ∷ rest) ≡ []) ↔ (C × R)
unfolding add_reasons
add_iff s rest f g = append_iff (reason_iff s f) g

module _ {b₁ b₂ b₃ : Bool} {B₁ B₂ B₃ : Type 0} (f₁ : (b₁ ≡ false) ↔ B₁) (f₂ : (b₂ ≡ false) ↔ B₂)
    (f₃ : (b₃ ≡ false) ↔ B₃) where
  pub or3_iff : ((b₁ || b₂ || b₃) ≡ false) ↔ (B₁ × B₂ × B₃)
  or3_iff =
      let f = or_iff (or_iff f₁ f₂) f₃ in
      (λ h. let x = f.0 h in (x.0.0, x.0.1, x.1), λ x. f.1 ((x.0, x.1), x.2))

  module _ {b₄ : Bool} {B₄ : Type 0} (f₄ : (b₄ ≡ false) ↔ B₄) where
    pub or4_iff : ((b₁ || b₂ || b₃ || b₄) ≡ false) ↔ (B₁ × B₂ × B₃ × B₄)
    or4_iff =
        let f = or_iff or3_iff f₄ in
        (λ h. let x = f.0 h in (x.0.0, x.0.1, x.0.2, x.1), λ x. f.1 ((x.0, x.1, x.2), x.3))

    module _ {b₅ : Bool} {B₅ : Type 0} (f₅ : (b₅ ≡ false) ↔ B₅) where
      pub or5_iff : ((b₁ || b₂ || b₃ || b₄ || b₅) ≡ false) ↔ (B₁ × B₂ × B₃ × B₄ × B₅)
      or5_iff =
          let f = or_iff or4_iff f₅ in
          (
            λ h. let x = f.0 h in (x.0.0, x.0.1, x.0.2, x.0.3, x.1),
            λ x. f.1 ((x.0, x.1, x.2, x.3), x.4),
          )

-- The nine conditions on a storage class.
module _ {b₁ b₂ b₃ b₄ b₅ b₆ b₇ b₈ b₉ : Bool} {B₁ B₂ B₃ B₄ B₅ B₆ B₇ B₈ B₉ : Type 0} where
  pub or9_iff :
      (b₁ ≡ false) ↔ B₁
      → (b₂ ≡ false) ↔ B₂
      → (b₃ ≡ false) ↔ B₃
      → (b₄ ≡ false) ↔ B₄
      → (b₅ ≡ false) ↔ B₅
      → (b₆ ≡ false) ↔ B₆
      → (b₇ ≡ false) ↔ B₇
      → (b₈ ≡ false) ↔ B₈
      → (b₉ ≡ false) ↔ B₉
      → ((b₁ || b₂ || b₃ || b₄ || b₅ || b₆ || b₇ || b₈ || b₉) ≡ false)
        ↔ (B₁ × B₂ × B₃ × B₄ × B₅ × B₆ × B₇ × B₈ × B₉)
  or9_iff f₁ f₂ f₃ f₄ f₅ f₆ f₇ f₈ f₉ =
      let f = or5_iff (or5_iff f₁ f₂ f₃ f₄ f₅) f₆ f₇ f₈ f₉ in
      (
        λ h. let x = f.0 h in (x.0.0, x.0.1, x.0.2, x.0.3, x.0.4, x.1, x.2, x.3, x.4),
        λ x. f.1 ((x.0, x.1, x.2, x.3, x.4), x.5, x.6, x.7, x.8),
      )

pub each_iff :
    {A : Type 0} (f : A → List String) {P : A → Type 0}
    → ((x : A) → (f x ≡ []) ↔ P x)
    → (xs : List A) → (each f xs ≡ []) ↔ All P xs
unfolding each
each_iff f h [] = (λ _. tt, λ _. refl)
each_iff f h (x ∷ xs) = append_iff (h x) (each_iff f h xs)

abbrev pub OnNode : Option ℤ → ℤ → Type 0
OnNode none node = Unit
OnNode (some n) node = node ≡ n

eq_int_iff : (a b : ℤ) → (not (eq_int a b) ≡ false) ↔ (a ≡ b)
eq_int_iff a b = ground arith

pub node_iff : (o : Option ℤ) (node : ℤ) → (numa_mismatch o node ≡ false) ↔ OnNode o node
node_iff none node = (λ _. tt, λ _. refl)
node_iff (some n) node = eq_int_iff node n
