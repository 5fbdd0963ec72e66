-- ===== src/Placement/Ranking.antt =====
-- `Select`: the eligible evaluations, each as often as given, best first.
use mathlib.Core.List.{Perm, perm_middle}
use mathlib.Core.List.Perm
use kvm_infrastructure_manag.Base.{
  ◌≡◌, refl, Bool, true, false, not, List, [], ◌∷◌, arith, if◌then◌else◌, All, All-map, ◌++◌, ◌⊎◌,
  inl, inr,
}
use kvm_infrastructure_manag.Base.Ints.{ℤ, pos, negsuc, eq_int, lt_int}
use kvm_infrastructure_manag.Base.Sort.{
  sort-perm, IsSorted, sort-IsSorted, sort-All_iff, IsSorted-All,
}
use kvm_infrastructure_manag.Base.Text.{str_lt, str_lt_asym, str_lt_stays}
use kvm_infrastructure_manag.Placement.Types.{Evaluation}
use kvm_infrastructure_manag.Placement.Evaluate.{eligible_only, ranks_before, select}

abbrev pub IsEligibleOne : Evaluation → Type 0
IsEligibleOne e = e.eligible ≡ true

keep_head :
    (b : Bool) (e : Evaluation) (es : List Evaluation)
    → e.eligible ≡ b
    → All IsEligibleOne es
    → All IsEligibleOne (if b then e ∷ es else es)
keep_head true e es h k = (h, k)
keep_head false e es h k = k

eligible_only-All : (es : List Evaluation) → All IsEligibleOne (eligible_only es)
unfolding eligible_only
eligible_only-All [] = tt
eligible_only-All (e ∷ es) = keep_head e.eligible e (eligible_only es) refl (eligible_only-All es)

int_order : (a b : ℤ) → not (eq_int a b) ≡ true → lt_int b a ≡ true → lt_int a b ≡ false
int_order a b h k = ground arith

int_sym : (a b : ℤ) → eq_int a b ≡ eq_int b a
int_sym a b = ground arith

ranks_before_asym : (a b : Evaluation) → ranks_before a b ≡ true → ranks_before b a ≡ false
ranks_before_asym a b h =
    ground
      (arith, int_sym a.score b.score, int_order a.score b.score, str_lt_asym a.host_id b.host_id)

ranks_before_stays :
    (a b c : Evaluation)
    → ranks_before b a ≡ false
    → ranks_before c b ≡ false
    → ranks_before c a ≡ false
ranks_before_stays a b c h k = ground (arith, str_lt_stays a.host_id b.host_id c.host_id)

-- The rule of the ranking: `a` may stand before `b` if its score is greater, or if the scores are
-- equal and the Host of `b` does not come before that of `a`.
abbrev pub MayPrecede : Evaluation → Evaluation → Type 0
MayPrecede a b =
    (lt_int b.score a.score ≡ true) ⊎ ((a.score ≡ b.score) × (str_lt b.host_id a.host_id ≡ false))

-- Every evaluation may stand before all that come behind it.
abbrev pub IsRanked : List Evaluation → Type 0
IsRanked [] = Unit
IsRanked (e ∷ es) = All (MayPrecede e) es × IsRanked es

int_equal : (a b : ℤ) → a ≡ b → not (eq_int b a) ≡ false
int_equal a b e = ground arith

int_above : (a b : ℤ) → lt_int a b ≡ true → not (eq_int b a) ≡ true
int_above a b h = ground arith

int_cases : (a b : ℤ) → (a ≡ b) ⊎ (lt_int b a ≡ true) ⊎ (lt_int a b ≡ true)
int_cases (pos a) (pos b) = ground arith
int_cases (pos a) (negsuc b) = ground arith
int_cases (negsuc a) (pos b) = ground arith
int_cases (negsuc a) (negsuc b) = ground arith

not_before : (a b : Evaluation) → ranks_before b a ≡ false → MayPrecede a b
not_before a b h = elim (int_cases a.score b.score) [
  | inl e ↦ inr (e, ground (arith, int_equal a.score b.score e))
  | inr (inl l) ↦ inl l
  | inr (inr g) ↦ absurd (ground (arith, int_above a.score b.score g))
]

sorted-IsRanked : (es : List Evaluation) → IsSorted ranks_before es → IsRanked es
sorted-IsRanked [] h = tt
sorted-IsRanked (e ∷ es) h = (
  All-map (λ y. ranks_before y e ≡ false) (MayPrecede e) es (λ y. not_before e y)
      (IsSorted-All ranks_before ranks_before_stays e es h),
  sorted-IsRanked es h.1,
)

-- What is not eligible.
abbrev pub IsRefusedOne : Evaluation → Type 0
IsRefusedOne e = e.eligible ≡ false

-- The given evaluations are the eligible ones and some others.
abbrev Splits : List Evaluation → List Evaluation → Type 0
Splits es kept = (refused : List Evaluation) × All IsRefusedOne refused × Perm (kept ++ refused) es

split_head :
    (b : Bool) (e : Evaluation) (es kept : List Evaluation)
    → e.eligible ≡ b
    → Splits es kept
    → Splits (e ∷ es) (if b then e ∷ kept else kept)
split_head true e es kept h (refused, all, split) = (refused, all, Perm.cons e split)
split_head false e es kept h (refused, all, split) =
    (e ∷ refused, (h, all), Perm.trans (perm_middle kept refused) (Perm.cons e split))

eligible_only-Splits : (es : List Evaluation) → Splits es (eligible_only es)
unfolding eligible_only
eligible_only-Splits [] = ([], tt, Perm.refl [])
eligible_only-Splits (e ∷ es) =
    split_head e.eligible e es (eligible_only es) refl (eligible_only-Splits es)

-- The selection and some evaluations that are not eligible are together the given ones, each as
-- often as it was given; every selected one is eligible; and every selected one has a greater score
-- than each one behind it, or an equal score and a Host that does not come after that one's.
pub select_lem :
    (es : List Evaluation)
    → ((refused : List Evaluation) × All IsRefusedOne refused × Perm (select es ++ refused) es)
      × All IsEligibleOne (select es)
      × IsRanked (select es)
unfolding select
select_lem es =
    let (refused, all, split) = eligible_only-Splits es in
    (
      (
        refused,
        all,
        Perm.trans (Perm.append_right refused (sort-perm ranks_before (eligible_only es))) split,
      ),
      (sort-All_iff ranks_before IsEligibleOne (eligible_only es)).1 (eligible_only-All es),
      sorted-IsRanked (select es) (sort-IsSorted ranks_before ranks_before_asym (eligible_only es)),
    )
