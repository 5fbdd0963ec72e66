-- ===== src/Placement/Accepted.antt =====
-- What a request that `Evaluate` accepts guarantees.
use kvm_infrastructure_manag.Base.{
  ◌≡◌, refl, String, false, Option, none, some, List, [], ◌∷◌, str_eq, eq_iff, All, ok, arith,
}
use kvm_infrastructure_manag.Placement.Types.{
  Request, AuthoritySnapshot, StorageRequirement, Evaluation,
}
use kvm_infrastructure_manag.Placement.Requirements.{member, check_storage, ordered, check}
use kvm_infrastructure_manag.Placement.Evaluate.{evaluate}

abbrev pub Distinct : List String → Type 0
Distinct [] = Unit
Distinct (s ∷ ss) = (member s ss ≡ false) × Distinct ss

abbrev pub attachments : List StorageRequirement → List String
attachments [] = []
attachments (r ∷ rs) = r.attachment_id ∷ attachments rs

abbrev New : List String → StorageRequirement → Type 0
New seen r = member r.attachment_id seen ≡ false

str_eq_swap : (s t : String) → str_eq s t ≡ false → str_eq t s ≡ false
str_eq_swap s t h = ground (arith, eq_iff s t, eq_iff t s)

New-tail :
    (s : String) (seen : List String) (rs : List StorageRequirement)
    → All (New (s ∷ seen)) rs
    → All (New seen) rs
New-tail s seen [] h = tt
New-tail s seen (r ∷ rs) h = (ground (arith, h.0), New-tail s seen rs h.1)

New-head :
    (s : String) (seen : List String) (rs : List StorageRequirement)
    → All (New (s ∷ seen)) rs
    → member s (attachments rs) ≡ false
New-head s seen [] h = refl
New-head s seen (r ∷ rs) h =
    let a = str_eq_swap r.attachment_id s (ground (arith, h.0)) in
    let b = New-head s seen rs h.1 in ground (arith, a, b)

first_check :
    (before : Option String) (seen : List String) (r : StorageRequirement)
    (rs : List StorageRequirement)
    → check_storage before seen (r ∷ rs) ≡ none
    → New seen r × (check_storage (some r.volume_id) (r.attachment_id ∷ seen) rs ≡ none)
unfolding check_storage
first_check before seen r rs h = (ground arith, ground arith)

check_storage-Distinct :
    (before : Option String) (seen : List String) (rs : List StorageRequirement)
    → check_storage before seen rs ≡ none
    → All (New seen) rs × Distinct (attachments rs)
check_storage-Distinct before seen [] h = (tt, tt)
check_storage-Distinct before seen (r ∷ rs) h =
    let f = first_check before seen r rs h in
    let (new, distinct) =
      check_storage-Distinct (some r.volume_id) (r.attachment_id ∷ seen) rs f.1 in
    ((f.0, New-tail r.attachment_id seen rs new), (New-head r.attachment_id seen rs new, distinct))

check-none : (r : Request) → check r ≡ none → check_storage none [] r.storage ≡ none
unfolding check
check-none r h = ground arith

module _ (request_digest : Request → String) (evaluation_digest : Evaluation → String) where
  evaluate-check :
      (r : Request) (a : AuthoritySnapshot) (e : Evaluation)
      → evaluate request_digest evaluation_digest r a ≡ ok e
      → check (ordered r) ≡ none
  unfolding evaluate
  evaluate-check r a e h = ground arith

  -- If `evaluate` returns an evaluation, eligible or not, then no two volumes of the ordered request
  -- have the same attachment.
  pub evaluate-Distinct :
      (r : Request) (a : AuthoritySnapshot) (e : Evaluation)
      → evaluate request_digest evaluation_digest r a ≡ ok e
      → Distinct (attachments (ordered r).storage)
  evaluate-Distinct r a e h =
      (check_storage-Distinct none [] (ordered r).storage
        (check-none (ordered r) (evaluate-check r a e h))).1
