-- ===== src/HostGroup/Hierarchy/Tests.antt =====
-- The theorem on hierarchies at a concrete input, and relations that are refused.
use kvm_infrastructure_manag.Base.{◌≡◌, refl, String, none, some, List, [], ◌∷◌, err}
use kvm_infrastructure_manag.Base.Sort.{sort}
use kvm_infrastructure_manag.HostGroup.Hierarchy.{
  HierarchyRelation, HierarchyRequest, HierarchyNode, RelationEvidence, conflict,
  validate_hierarchy_request, entries_error, relations_error, rank_from, rank, node_of, orphan,
  relate, normalize_relations,
}
use kvm_infrastructure_manag.HostGroup.Hierarchy.Rooted.{climb, accepted-root}

-- A region with one zone, in which there are two racks.
abbrev node : String → String → HierarchyNode
node id level = record { host_group_id = id; level = level; digest = "digest"; generation = 1 }

abbrev nodes : List HierarchyNode
nodes = node "r1" "rack" ∷ node "r2" "rack" ∷ node "top" "region" ∷ node "z" "zone" ∷ []

abbrev relation : String → String → HierarchyRelation
relation parent child = record { parent_group_id = parent; child_group_id = child }

abbrev hierarchy : List HierarchyRelation → HierarchyRequest
hierarchy relations = record {
  publish_request_id = "q";
  hierarchy_id = "h";
  group_type = "FAILURE_DOMAIN";
  dimension = "d";
  scope_type = "SYSTEM";
  scope_id = "system";
  graph_mode = "TREE";
  expected_current_generation = 0;
  levels = "region" ∷ "zone" ∷ "rack" ∷ [];
  node_group_ids = "top" ∷ "z" ∷ "r1" ∷ "r2" ∷ [];
  relations = relations;
}

abbrev tree : HierarchyRequest
tree = hierarchy (relation "z" "r2" ∷ relation "z" "r1" ∷ relation "top" "z" ∷ [])

abbrev edge : String → String → String → String → RelationEvidence
edge parent child parent_level child_level = record {
  parent_group_id = parent;
  child_group_id = child;
  parent_level = parent_level;
  child_level = child_level;
  digest = "digest";
}

abbrev edges : List RelationEvidence
edges =
    edge "top" "z" "region" "zone" ∷ edge "z" "r1" "zone" "rack" ∷ edge "z" "r2" "zone" "rack" ∷ []

complete : validate_hierarchy_request tree ≡ none
unfolding validate_hierarchy_request entries_error relations_error
complete = refl

accepted-root_example :
    (root : HierarchyNode) × (node_of (climb 2 "r2" edges) nodes ≡ some root)
    × (rank tree.levels root ≡ 0)
unfolding normalize_relations relate node_of orphan rank_from sort
accepted-root_example =
    accepted-root (λ n. "1") (λ fs. "digest") tree nodes edges "r2" (node "r2" "rack") refl refl

-- A second parent, a relation that goes up, and a group without a parent are refused.
refusals :
    (normalize_relations
        (λ n. "1")
        (λ fs. "digest")
        (hierarchy
          (relation "z" "r1" ∷ relation "top" "r1" ∷ relation "z" "r2" ∷ relation "top" "z" ∷ []))
        nodes
      ≡ err conflict)
    × (normalize_relations (λ n. "1") (λ fs. "digest") (hierarchy (relation "r1" "z" ∷ [])) nodes
        ≡ err conflict)
    × (normalize_relations (λ n. "1") (λ fs. "digest") (hierarchy (relation "top" "z" ∷ [])) nodes
        ≡ err conflict)
unfolding normalize_relations relate node_of orphan rank_from sort
refusals = (refl, refl, refl)
