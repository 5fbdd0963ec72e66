-- ===== src/HostGroup/Members.antt =====
-- internal/persistence/postgres/host_group_selector.go: what `MaterializeHostGroupSelectorEvaluation`
-- asks to publish, and what `validateSelectorMembershipSetRequestTx` asks of a set that is published.
-- `MembershipSet` stands for the rows of a set that is published before. The fields of a request that
-- are for external assertions, which stay empty here, are left out.
pub mod Listed
pub mod Accepted
mod Tests
use Prim.Native.String.{◌++◌ as str_append}
use kvm_infrastructure_manag.Base.{
  ℕ, ◌≡◌, String, Bool, true, false, ◌&&◌, ◌||◌, not, Option, none, some, List, [], ◌∷◌, ◌==◌, ltb,
  if◌then◌else◌, str_eq, Result, ok, err, length,
}
use kvm_infrastructure_manag.Base.Words.{add64}
use kvm_infrastructure_manag.HostGroup.Selector.{SelectorRevision}
use kvm_infrastructure_manag.HostGroup.Tables.{
  Error, conflict, request_incomplete, no_authority, HostResult, Evaluation, Projection, Policy,
  Hierarchy, Tables, Libraries,
}
use kvm_infrastructure_manag.HostGroup.Evaluation.{load_evaluation, candidates}

pub record Membership : Type 0 where
  pub host_group_id : String
  pub host_id : String
  pub state : String
  pub source_type : String
  pub source_revision : String
  pub generation : ℕ

pub record MembershipSetRequest : Type 0 where
  pub publish_request_id : String
  pub host_group_id : String
  pub source_type : String
  pub source_revision : String
  pub based_on_host_group_generation : ℕ
  pub expected_current_set_generation : ℕ
  pub selector_id : String
  pub selector_evaluation_id : String
  pub selector_generation : Option ℕ
  pub selector_evaluation_generation : Option ℕ
  pub hierarchy_generation : Option ℕ
  pub members : List Membership

pub record MaterializationRequest : Type 0 where
  pub publish_request_id : String
  pub evaluation_id : String
  pub expected_current_set_generation : ℕ

-- The sets that are published, with the evaluation that each was made of.
pub record Sets (MembershipSet : Type 0) : Type 0 where
  pub by_request : String → Option (MembershipSet × String)
  pub of_evaluation : Evaluation → Option MembershipSet
  pub memberships : String → List Membership

pub data Outcome (MembershipSet : Type 0) : Type 0 where
  refused : Error → Outcome MembershipSet
  -- No error, and the zero value of a set.
  nothing : Outcome MembershipSet
  already : MembershipSet → Outcome MembershipSet
  -- The call of `publishHostGroupMembershipSetTx`.
  publishes : MembershipSetRequest → Outcome MembershipSet

abbrev pub undecided : String → Bool
undecided state = str_eq state "UNKNOWN" || str_eq state "UNSUPPORTED"

-- The last member with this host in the map by hosts.
unfoldable pub member_of : String → List Membership → Option Membership
member_of host [] = none
member_of host (m ∷ ms) = elim (member_of host ms) [
  | some x ↦ some x
  | none ↦ if str_eq m.host_id host then some m else none
]

-- The generation of a host's membership.
unfoldable pub next_generation : Option Membership → String → ℕ
next_generation none revision = 1
next_generation (some m) revision =
    if not (str_eq m.state "ACTIVE")
      || not (str_eq m.source_type "SELECTOR")
      || not (str_eq m.source_revision revision)
    then add64 m.generation 1
    else m.generation

unfoldable pub selected : String → String → List Membership → List HostResult → List Membership
selected group revision before [] = []
selected group revision before (h ∷ hs) =
    let rest = selected group revision before hs in
    if not (str_eq h.state "MATCHED")
    then rest
    else record {
      host_group_id = group;
      host_id = h.host_id;
      state = "ACTIVE";
      source_type = "SELECTOR";
      source_revision = revision;
      generation = next_generation (member_of h.host_id before) revision;
    }
      ∷ rest

abbrev pub has_key : String → List String → Bool
has_key k [] = false
has_key k (x ∷ xs) = str_eq x k || has_key k xs

-- The keys of a map that is filled with these.
unfoldable pub keys : List String → List String
keys [] = []
keys (k ∷ ks) = let rest = keys ks in if has_key k rest then rest else k ∷ rest

abbrev pub member_accepted : String → List String → Membership → Bool
member_accepted revision expected m =
    has_key m.host_id expected
    && str_eq m.state "ACTIVE"
    && str_eq m.source_type "SELECTOR"
    && str_eq m.source_revision revision

unfoldable pub members_accepted : String → List String → List Membership → Bool
members_accepted revision expected [] = true
members_accepted revision expected (m ∷ ms) =
    member_accepted revision expected m && members_accepted revision expected ms

abbrev pub is_none : {A : Type 0} → Option A → Bool
is_none none = true
is_none (some x) = false

abbrev pub selector_moved : Evaluation → Option SelectorRevision → Bool
selector_moved x none = true
selector_moved x (some v) =
    not (v.generation == x.selector_generation)
    || not (str_eq v.host_group_id x.host_group_id)
    || not (str_eq v.lifecycle_state "ACTIVE")

abbrev pub evaluation_differs :
    MembershipSetRequest → ℕ → ℕ → ℕ → Policy → Hierarchy → Evaluation → Bool
evaluation_differs q selector_generation evaluation_generation group_generation p h x =
    not (str_eq x.selector_id q.selector_id)
    || not (x.selector_generation == selector_generation)
    || not (x.evaluation_generation == evaluation_generation)
    || not (str_eq x.host_group_id q.host_group_id)
    || not (x.host_group_generation == group_generation)
    || not (str_eq x.policy_id p.policy_id)
    || not (x.policy_generation == p.generation)
    || not (str_eq x.hierarchy_id h.hierarchy_id)
    || not (x.hierarchy_generation == h.generation)
    || undecided x.result_state

abbrev pub selector_differs : MembershipSetRequest → ℕ → Evaluation → Option SelectorRevision → Bool
selector_differs q group_generation x none = true
selector_differs q group_generation x (some v) =
    not (v.generation == x.selector_generation)
    || not (str_eq v.host_group_id q.host_group_id)
    || not (v.based_on_host_group_generation == group_generation)
    || not (str_eq v.lifecycle_state "ACTIVE")

module _ {Payload : Type 0} (lib : Libraries Payload) where
  -- The projection is the one that was evaluated.
  abbrev pub still_projected : HostResult → Option (Projection Payload) → Bool
  still_projected h none = false
  still_projected h (some p) =
      p.observation_generation == h.observation_generation
      && str_eq p.snapshot_digest h.snapshot_digest
      && str_eq p.projection_state "CURRENT"

  unfoldable pub revalidated : Tables Payload → List HostResult → Bool
  revalidated t [] = true
  revalidated t (h ∷ hs) =
      not (h.observation_generation == 0)
      && still_projected h (t.projections h.host_id)
      && revalidated t hs

  unfoldable pub source_revision_of : Evaluation → String
  source_revision_of x = str_append "selector:" (
      str_append x.selector_id (
        str_append "/" (
          str_append (lib.decimal x.selector_generation)
            (str_append "/evaluation/" (lib.decimal x.evaluation_generation)))))

  unfoldable pub set_request :
      MaterializationRequest → Evaluation → List Membership → MembershipSetRequest
  set_request r x before = record {
    publish_request_id = r.publish_request_id;
    host_group_id = x.host_group_id;
    source_type = "SELECTOR";
    source_revision = source_revision_of x;
    based_on_host_group_generation = x.host_group_generation;
    expected_current_set_generation = r.expected_current_set_generation;
    selector_id = x.selector_id;
    selector_evaluation_id = x.evaluation_id;
    selector_generation = some x.selector_generation;
    selector_evaluation_generation = some x.evaluation_generation;
    hierarchy_generation =
        if ltb 0 x.hierarchy_generation then some x.hierarchy_generation else none;
    members = selected x.host_group_id (source_revision_of x) before x.hosts;
  }

  module _ {MembershipSet : Type 0} where
    abbrev pub unless_published :
        MaterializationRequest
        → Evaluation
        → Sets MembershipSet
        → Option MembershipSet
        → Outcome MembershipSet
    unless_published r x s (some old) = already old
    unless_published r x s none = publishes (set_request r x (s.memberships x.host_group_id))

    abbrev pub from_evaluation :
        MaterializationRequest
        → Tables Payload
        → Sets MembershipSet
        → Evaluation
        → Option (MembershipSet × String)
        → Outcome MembershipSet
    from_evaluation r t s x (some (old, evaluation)) =
        if not (str_eq evaluation r.evaluation_id) then refused conflict else already old
    from_evaluation r t s x none =
        if selector_moved x (t.selectors x.selector_id)
        then refused conflict
        else if not (revalidated t x.hosts)
        then refused conflict
        else unless_published r x s (s.of_evaluation x)

    abbrev pub from_loaded :
        MaterializationRequest
        → Tables Payload
        → Sets MembershipSet
        → Result Error (Option Evaluation)
        → Outcome MembershipSet
    from_loaded r t s (err e) = refused e
    from_loaded r t s (ok none) = nothing
    from_loaded r t s (ok (some x)) =
        if undecided x.result_state
        then refused conflict
        else from_evaluation r t s x (s.by_request r.publish_request_id)

    unfoldable pub materialize :
        MaterializationRequest → Tables Payload → Sets MembershipSet → Outcome MembershipSet
    materialize r t s =
        if str_eq r.publish_request_id "" || str_eq r.evaluation_id ""
        then refused request_incomplete
        else if not t.authority_active
        then refused no_authority
        else from_loaded r t s (load_evaluation lib t r.evaluation_id "")

  abbrev pub members_differ : MembershipSetRequest → Evaluation → Bool
  members_differ q x =
      let expected = keys (candidates x.hosts) in
      not (length expected == length q.members)
      || not (str_eq q.source_revision (source_revision_of x))
      || not (members_accepted (source_revision_of x) expected q.members)

  abbrev pub checked :
      Tables Payload
      → MembershipSetRequest
      → ℕ
      → ℕ
      → ℕ
      → Policy
      → Hierarchy
      → Result Error (Option Evaluation)
      → Option Error
  checked t q selector_generation evaluation_generation group_generation p h (err e) = some conflict
  checked t q selector_generation evaluation_generation group_generation p h (ok none) =
      some conflict
  checked t q selector_generation evaluation_generation group_generation p h (ok (some x)) =
      if evaluation_differs q selector_generation evaluation_generation group_generation p h x
        || selector_differs q group_generation x (t.selectors q.selector_id)
        || not (revalidated t x.hosts)
        || members_differ q x
      then some conflict
      else none

  abbrev pub validate_selected :
      Tables Payload
      → MembershipSetRequest
      → ℕ
      → Policy
      → Hierarchy
      → Option ℕ
      → Option ℕ
      → Option Error
  validate_selected t q group_generation p h (some selector) (some evaluation) =
      if str_eq q.selector_id "" || str_eq q.selector_evaluation_id ""
      then some conflict
      else checked t q selector evaluation group_generation p h
          (load_evaluation lib t q.selector_evaluation_id "")
  validate_selected t q group_generation p h (some selector) none = some conflict
  validate_selected t q group_generation p h none evaluation = some conflict

  unfoldable pub validate_request :
      Tables Payload → MembershipSetRequest → ℕ → Policy → Hierarchy → Option Error
  validate_request t q group_generation p h =
      if not (str_eq q.source_type "SELECTOR")
      then (if not (str_eq q.selector_id "")
            || not (is_none q.selector_generation)
            || not (str_eq q.selector_evaluation_id "")
            || not (is_none q.selector_evaluation_generation)
          then some conflict
          else none)
      else validate_selected t q group_generation p h q.selector_generation
          q.selector_evaluation_generation
