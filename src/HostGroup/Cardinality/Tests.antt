-- ===== src/HostGroup/Cardinality/Tests.antt =====
-- The theorem on cardinalities at a concrete input, and the members that a set proposes.
use kvm_infrastructure_manag.Base.{
  ℕ, ◌≡◌, ◌≤◌, ◌⊎◌, refl, String, false, none, some, List, [], ◌∷◌, str_eq, ok, All,
}
use kvm_infrastructure_manag.Base.Words.{add64}
use kvm_infrastructure_manag.Base.Sort.{sort}
use kvm_infrastructure_manag.HostGroup.Tables.{conflict}
use kvm_infrastructure_manag.HostGroup.Members.{Membership, MembershipSetRequest, member_of}
use kvm_infrastructure_manag.HostGroup.Cardinality.{
  count_members, counts_refused, validate_cardinality, propose, goes_back, left_out,
}
use kvm_infrastructure_manag.HostGroup.Cardinality.Kept.{occupancy, occupancy_le}

abbrev member : String → String → ℕ → Membership
member host state generation = record {
  host_group_id = "g";
  host_id = host;
  state = state;
  source_type = "EXPLICIT";
  source_revision = "r";
  generation = generation;
}

-- Host a is added, host b is removed and stays in another group.
abbrev proposed : List Membership
proposed = member "a" "ACTIVE" 1 ∷ member "b" "REMOVED" 2 ∷ []

occupancy_le_example :
    (occupancy "a" (("b", 1) ∷ []) proposed ≤ 1)
    × ((str_eq "EXACTLY_ONE" "EXACTLY_ONE" ≡ false)
        ⊎ All (λ (m : Membership). occupancy m.host_id (("b", 1) ∷ []) proposed ≡ 1) proposed)
unfolding validate_cardinality count_members counts_refused
occupancy_le_example = occupancy_le "EXACTLY_ONE" (("b", 1) ∷ []) proposed "a" refl refl

-- A host that is nowhere else may not be removed, and one that is elsewhere may not be added.
refusals :
    (validate_cardinality "EXACTLY_ONE" [] proposed ≡ some conflict)
    × (validate_cardinality "ZERO_OR_ONE" (("a", 1) ∷ []) proposed ≡ some conflict)
    × (validate_cardinality "MANY" (("a", 1) ∷ []) proposed ≡ none)
unfolding validate_cardinality count_members counts_refused
refusals = (refl, refl, refl)

abbrev request : List Membership → MembershipSetRequest
request members = record {
  publish_request_id = "q";
  host_group_id = "g";
  source_type = "EXPLICIT";
  source_revision = "r";
  based_on_host_group_generation = 1;
  expected_current_set_generation = 1;
  selector_id = "";
  selector_evaluation_id = "";
  selector_generation = none;
  selector_evaluation_generation = none;
  hierarchy_generation = none;
  members = members;
}

-- A current member that a set leaves out is proposed as removed.
removes : propose (request (member "a" "ACTIVE" 1 ∷ [])) (member "b" "ACTIVE" 1 ∷ []) ≡ ok proposed
unfolding propose goes_back left_out member_of sort add64
removes = refl
