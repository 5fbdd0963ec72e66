-- ===== src/HostGroup/Hierarchy.antt =====
-- internal/persistence/postgres/host_group_hierarchy.go: the checks of a hierarchy of groups that is
-- published. `groups` answers the query on a group; a map with a level or a group as its key is a list.
-- A map with no entry for a level gives the rank 0.
pub mod Rooted
mod Tests
use Prim.Native.String.{◌++◌ as str_append}
use kvm_infrastructure_manag.Base.{
  or_zero, ℕ, ◌≡◌, ◌+◌, String, Bool, true, false, ◌&&◌, ◌||◌, not, Option, none, some, List, [],
  ◌∷◌, ◌==◌, ltb, leb, if◌then◌else◌, str_eq, Result, ok, err, length,
}
use kvm_infrastructure_manag.Base.Maps.{find, put}
use kvm_infrastructure_manag.Base.Sort.{sort}
use kvm_infrastructure_manag.Base.Text.{str_lt}
use kvm_infrastructure_manag.HostGroup.Tables.{Group}

pub data Error : Type 0 where
  request_incomplete level_empty level_repeated node_empty node_repeated : Error
  relation_incomplete relation_repeated not_found conflict : Error

pub record HierarchyRelation : Type 0 where
  pub parent_group_id : String
  pub child_group_id : String

pub record HierarchyRequest : Type 0 where
  pub publish_request_id : String
  pub hierarchy_id : String
  pub group_type : String
  pub dimension : String
  pub scope_type : String
  pub scope_id : String
  pub graph_mode : String
  pub expected_current_generation : ℕ
  pub levels : List String
  pub node_group_ids : List String
  pub relations : List HierarchyRelation

pub record HierarchyNode : Type 0 where
  pub host_group_id : String
  pub level : String
  pub digest : String
  pub generation : ℕ

pub record RelationEvidence : Type 0 where
  pub parent_group_id : String
  pub child_group_id : String
  pub parent_level : String
  pub child_level : String
  pub digest : String

abbrev pub valid_host_group_type : String → Bool
valid_host_group_type v =
    str_eq v "PLACEMENT_POOL" || str_eq v "FAILURE_DOMAIN" || str_eq v "OPERATIONAL_COHORT"

abbrev pub in_list : String → List String → Bool
in_list k [] = false
in_list k (x ∷ xs) = str_eq x k || in_list k xs

-- The error of the first entry that is empty or repeats one before it.
unfoldable pub entries_error : Error → Error → List String → List String → Option Error
entries_error empty repeated seen [] = none
entries_error empty repeated seen (x ∷ xs) =
    let rest = entries_error empty repeated (x ∷ seen) xs in
    if str_eq x "" then some empty else if in_list x seen then some repeated else rest

unfoldable pub relations_error : List String → List HierarchyRelation → Option Error
relations_error seen [] = none
relations_error seen (r ∷ rs) =
    let key = str_append r.parent_group_id (str_append "\n" r.child_group_id) in
    let rest = relations_error (key ∷ seen) rs in
    if str_eq r.parent_group_id "" || str_eq r.child_group_id ""
    then some relation_incomplete
    else if in_list key seen
    then some relation_repeated
    else rest

abbrev pub first_error : Option Error → Option Error → Option Error
first_error none e = e
first_error (some x) e = some x

unfoldable pub validate_hierarchy_request : HierarchyRequest → Option Error
validate_hierarchy_request r =
    if str_eq r.publish_request_id ""
      || str_eq r.hierarchy_id ""
      || not (valid_host_group_type r.group_type)
      || str_eq r.dimension ""
      || not (str_eq r.scope_type "SYSTEM")
      || not (str_eq r.scope_id "system")
      || not (str_eq r.graph_mode "TREE")
      || length r.levels == 0
      || length r.node_group_ids == 0
    then some request_incomplete
    else first_error (entries_error level_empty level_repeated [] r.levels) (
        first_error (entries_error node_empty node_repeated [] r.node_group_ids)
          (relations_error [] r.relations))

-- The rank of a level in the map that the loop over the levels fills, from this rank on.
unfoldable pub rank_from : ℕ → List String → String → Option ℕ
rank_from n [] level = none
rank_from n (l ∷ ls) level = elim (rank_from (n + 1) ls level) [
  | some r ↦ some r
  | none ↦ if str_eq l level then some n else none
]

abbrev pub rank : List String → HierarchyNode → ℕ
rank levels n = or_zero (rank_from 0 levels n.level)

abbrev pub is_known : Option ℕ → Bool
is_known none = false
is_known (some n) = true

-- The node of a group.
unfoldable pub node_of : String → List HierarchyNode → Option HierarchyNode
node_of id [] = none
node_of id (n ∷ ns) = if str_eq n.host_group_id id then some n else node_of id ns

abbrev pub parent_differs : Option String → String → Bool
parent_differs none parent = false
parent_differs (some previous) parent = not (str_eq previous parent)

abbrev pub by_parent : RelationEvidence → RelationEvidence → Bool
by_parent a b =
    if str_eq a.parent_group_id b.parent_group_id
    then str_lt a.child_group_id b.child_group_id
    else str_lt a.parent_group_id b.parent_group_id

abbrev pub has_parent : Option String → Bool
has_parent none = false
has_parent (some p) = true

-- Some node below the first level has no parent.
unfoldable pub orphan : List String → List (String × String) → List HierarchyNode → Bool
orphan levels parents [] = false
orphan levels parents (n ∷ ns) =
    ltb 0 (rank levels n) && not (has_parent (find n.host_group_id parents))
    || orphan levels parents ns

abbrev pub relation_refused :
    List String → HierarchyNode → HierarchyNode → List (String × String) → Bool
relation_refused levels p c parents =
    str_eq p.host_group_id c.host_group_id
    || leb (rank levels c) (rank levels p)
    || parent_differs (find c.host_group_id parents) p.host_group_id

abbrev pub unless_orphan :
    List String
    → List HierarchyNode
    → Result Error (List RelationEvidence × List (String × String))
    → Result Error (List RelationEvidence)
unless_orphan levels nodes (err e) = err e
unless_orphan levels nodes (ok (es, parents)) =
    if orphan levels parents nodes then err conflict else ok (sort by_parent es)

module _ (decimal : ℕ → String) (digest_fields : List String → String) where
  abbrev pub node_from : String → Group → HierarchyNode
  node_from id g = record {
    host_group_id = id;
    level = g.level;
    digest = digest_fields (id ∷ decimal g.generation ∷ g.level ∷ []);
    generation = g.generation;
  }

  abbrev pub checked_node : HierarchyRequest → String → Option Group → Result Error HierarchyNode
  checked_node r id none = err not_found
  checked_node r id (some g) =
      if not (str_eq g.group_type r.group_type)
        || not (str_eq g.dimension r.dimension)
        || not (str_eq g.lifecycle "ACTIVE")
        || not (is_known (rank_from 0 r.levels g.level))
      then err conflict
      else ok (node_from id g)

  unfoldable pub load_nodes :
      HierarchyRequest → (String → Option Group) → List String → Result Error (List HierarchyNode)
  load_nodes r groups [] = ok []
  load_nodes r groups (id ∷ ids) = elim (checked_node r id (groups id)) [
    | err e ↦ err e
    | ok n ↦ elim (load_nodes r groups ids) [ err e ↦ err e | ok ns ↦ ok (n ∷ ns) ]
  ]

  abbrev pub evidence_of : HierarchyNode → HierarchyNode → RelationEvidence
  evidence_of p c = record {
    parent_group_id = p.host_group_id;
    child_group_id = c.host_group_id;
    parent_level = p.level;
    child_level = c.level;
    digest = digest_fields (p.host_group_id ∷ c.host_group_id ∷ p.level ∷ c.level ∷ []);
  }

  -- The evidence of the relations, and the parent of each child, in the order of the loop.
  unfoldable pub relate :
      List String
      → List HierarchyNode
      → List HierarchyRelation
      → List (String × String)
      → Result Error (List RelationEvidence × List (String × String))
  relate levels nodes [] parents = ok ([], parents)
  relate levels nodes (r ∷ rs) parents = elim (node_of r.parent_group_id nodes) [
    | none ↦ err conflict
    | some p ↦ elim (node_of r.child_group_id nodes) [
      | none ↦ err conflict
      | some c ↦ elim (relate levels nodes rs (put c.host_group_id p.host_group_id parents)) [
        | err e ↦ err e
        | ok (es, all) ↦
            if relation_refused levels p c parents
            then err conflict
            else ok (evidence_of p c ∷ es, all)
      ]
    ]
  ]

  unfoldable pub normalize_relations :
      HierarchyRequest → List HierarchyNode → Result Error (List RelationEvidence)
  normalize_relations r nodes = unless_orphan r.levels nodes (relate r.levels nodes r.relations [])
