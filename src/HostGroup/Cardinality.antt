-- ===== src/HostGroup/Cardinality.antt =====
-- internal/persistence/postgres/host_group.go: the members that a published set proposes, with those
-- that it removes, and the check of how many groups a host is in. `elsewhere` is the answer of the
-- query on the active memberships in the other groups, a count for each host.
pub mod Kept
mod Tests
use kvm_infrastructure_manag.Base.{
  or_zero, ℕ, ◌≡◌, ◌+◌, String, Bool, true, false, ◌&&◌, ◌||◌, not, Option, none, some, List, [],
  ◌∷◌, ◌++◌, ◌==◌, ltb, if◌then◌else◌, str_eq, Result, ok, err,
}
use kvm_infrastructure_manag.Base.Words.{add64}
use kvm_infrastructure_manag.Base.Maps.{find, put}
use kvm_infrastructure_manag.Base.Sort.{sort}
use kvm_infrastructure_manag.Base.Text.{str_lt}
use kvm_infrastructure_manag.HostGroup.Tables.{Error, conflict}
use kvm_infrastructure_manag.HostGroup.Members.{Membership, MembershipSetRequest, member_of}

abbrev pub Counts : Type 0
Counts = List (String × ℕ)

abbrev pub is_some : {A : Type 0} → Option A → Bool
is_some none = false
is_some (some n) = true

-- The loop over the members.
unfoldable pub count_members : String → List Membership → Counts → Result Error Counts
count_members cardinality [] c = ok c
count_members cardinality (m ∷ ms) c =
    let counted = count_members cardinality ms (put m.host_id (or_zero (find m.host_id c) + 1) c) in
    let passed = count_members cardinality ms c in
    if str_eq m.state "ACTIVE"
    then counted
    else if str_eq cardinality "EXACTLY_ONE" && not (is_some (find m.host_id c))
    then err conflict
    else passed

unfoldable pub counts_refused : String → Counts → Bool
counts_refused cardinality [] = false
counts_refused cardinality ((h, n) ∷ c) =
    ltb 1 n || str_eq cardinality "EXACTLY_ONE" && not (n == 1) || counts_refused cardinality c

abbrev pub unless_counted : String → Result Error Counts → Option Error
unless_counted cardinality (err e) = some e
unless_counted cardinality (ok c) = if counts_refused cardinality c then some conflict else none

unfoldable pub validate_cardinality : String → Counts → List Membership → Option Error
validate_cardinality cardinality elsewhere proposed =
    if str_eq cardinality "MANY"
    then none
    else unless_counted cardinality (count_members cardinality proposed elsewhere)

-- A member goes back behind the current one.
unfoldable pub goes_back : List Membership → List Membership → Bool
goes_back before [] = false
goes_back before (m ∷ ms) = behind (member_of m.host_id before) || goes_back before ms
  where
    behind : Option Membership → Bool
    behind none = false
    behind (some c) = ltb m.generation c.generation

abbrev pub removed : MembershipSetRequest → Membership → Membership
removed r old =
    if not (str_eq old.state "REMOVED")
    then record old {
      generation = add64 old.generation 1;
      state = "REMOVED";
      source_type = r.source_type;
      source_revision = r.source_revision;
    }
    else old

-- The current members that are not provided.
unfoldable pub left_out : MembershipSetRequest → List Membership → List Membership
left_out r [] = []
left_out r (old ∷ olds) =
    let rest = left_out r olds in
    if is_some (member_of old.host_id r.members) then rest else removed r old ∷ rest

unfoldable pub propose : MembershipSetRequest → List Membership → Result Error (List Membership)
propose r before =
    if goes_back before r.members
    then err conflict
    else ok
        (sort (λ (a b : Membership). str_lt a.host_id b.host_id) (r.members ++ left_out r before))
