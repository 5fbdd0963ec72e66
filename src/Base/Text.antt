-- ===== src/Base/Text.antt =====
-- The order of texts, which is Go's order of strings.
use Prim.Native.Nat.{ℕ, Ordering, compare as compare_ℕ}
use Prim.Native.Char.{code}
use Prim.Native.String.{String, [], ◌∷◌, len, then, compare}
use Prim.Native.String.compare
use mathlib.Core.Path.{◌≡◌, refl, sym, ap, ap₂, ◌∙◌}
use mathlib.Core.Bool.{Bool, true, false, ◌&&◌, ◌||◌}
use kvm_infrastructure_manag.Base.Tests.{leb}
use native.Mathlib.Omega.{arith}

abbrev is_lt : Ordering → Bool
is_lt Ordering.lt = true
is_lt Ordering.eq = false
is_lt Ordering.gt = false

-- s < t.
abbrev pub str_lt : String → String → Bool
str_lt s t = elim (compare s t) [ Ordering.lt ↦ true | _ ↦ false ]

abbrev flip : Ordering → Ordering
flip Ordering.lt = Ordering.gt
flip Ordering.eq = Ordering.eq
flip Ordering.gt = Ordering.lt

flip-then : (a b : Ordering) → flip (then a b) ≡ then (flip a) (flip b)
flip-then Ordering.lt b = refl
flip-then Ordering.eq b = refl
flip-then Ordering.gt b = refl

flip-compare_ℕ : (m n : ℕ) → flip (compare_ℕ m n) ≡ compare_ℕ n m
flip-compare_ℕ m n = ground arith

flip-compare : (s t : String) → flip (compare s t) ≡ compare t s
flip-compare [] [] = ap flip compare.nil-nil ∙ sym compare.nil-nil
flip-compare [] (d ∷ t) = ap flip (compare.nil-cons d t) ∙ sym (compare.cons-nil d t)
flip-compare (c ∷ s) [] = ap flip (compare.cons-nil c s) ∙ sym (compare.nil-cons c s)
flip-compare (c ∷ s) (d ∷ t) =
    ap flip (compare.cons-cons c d s t)
    ∙ flip-then (compare_ℕ (code c) (code d)) (compare s t)
    ∙ ap₂ then (flip-compare_ℕ (code c) (code d)) (flip-compare s t)
    ∙ sym (compare.cons-cons d c t s)

pub str_lt_asym : (s t : String) → str_lt s t ≡ true → str_lt t s ≡ false
str_lt_asym s t h = ground (arith, flip-compare s t)

str_cons_trans :
    (c d b : ℕ) (x y z : Ordering)
    → (is_lt x ≡ false → is_lt y ≡ false → is_lt z ≡ false)
    → is_lt (then (compare_ℕ d c) x) ≡ false
    → is_lt (then (compare_ℕ b d) y) ≡ false
    → is_lt (then (compare_ℕ b c) z) ≡ false
str_cons_trans c d b x y z f h k = ground arith

-- If t is not before s, and u not before t, then u is not before s.
pub str_lt_stays : (s t u : String) → str_lt t s ≡ false → str_lt u t ≡ false → str_lt u s ≡ false
str_lt_stays [] t [] h k = ap is_lt compare.nil-nil
str_lt_stays [] t (b ∷ u) h k = ap is_lt (compare.cons-nil b u)
str_lt_stays (c ∷ s) [] u h k = absurd (ground (arith, sym (ap is_lt (compare.nil-cons c s)) ∙ h))
str_lt_stays (c ∷ s) (d ∷ t) [] h k =
    absurd (ground (arith, sym (ap is_lt (compare.nil-cons d t)) ∙ k))
str_lt_stays (c ∷ s) (d ∷ t) (b ∷ u) h k =
    ap is_lt (compare.cons-cons b c u s)
    ∙ str_cons_trans (code c) (code d) (code b) (compare t s) (compare u t) (compare u s)
        (str_lt_stays s t u) (sym (ap is_lt (compare.cons-cons d c t s)) ∙ h)
        (sym (ap is_lt (compare.cons-cons b d u t)) ∙ k)

-- Go's `len` of a string: its bytes.
abbrev pub text_bytes : String → ℕ
text_bytes s = len s

-- Only digits and the letters from a to f.
unfoldable pub is_lower_hex : String → Bool
is_lower_hex [] = true
is_lower_hex (c ∷ s) =
    (leb 48 (code c) && leb (code c) 57 || leb 97 (code c) && leb (code c) 102) && is_lower_hex s
