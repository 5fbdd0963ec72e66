-- ===== src/HostGroup/Members/Tests.antt =====
-- The theorems on evaluations and on the sets made of them, at concrete inputs.
use kvm_infrastructure_manag.Base.{
  ℕ, ◌≡◌, refl, ◌⊎◌, inl, String, true, false, Option, none, some, [], ◌∷◌, ok, All, if◌then◌else◌,
  str_eq,
}
use kvm_infrastructure_manag.Base.Sort.{sort}
use kvm_infrastructure_manag.Base.Words.{add64}
use kvm_infrastructure_manag.Base.Text.{str_lt, is_lower_hex}
use kvm_infrastructure_manag.Inventory.Payloads.{
  valid_digest, refused, normalize_compute, capability_is_available,
}
use kvm_infrastructure_manag.Inventory.Normalize.{
  decode_snapshot, normalize_and_validate, normalize_fragments, normalize_fragment, source_refused,
  payload_matches, normalize_capabilities, normalize_capability, normalize_payload, add_all,
}
use kvm_infrastructure_manag.Inventory.Model.{availability_valid, domain_known, Snapshot}
use kvm_infrastructure_manag.HostGroup.Selector.{
  SelectorRevision, evaluate_expression, verdict, concluded, reported, architecture,
  architecture_verdict, capability_verdict,
}
use kvm_infrastructure_manag.HostGroup.Tables.{
  Evaluation, EvaluationRequest, Tables, Libraries, Projection,
}
use kvm_infrastructure_manag.HostGroup.Evaluation.{
  evaluate_selector, reloaded, load_evaluation, evaluate_hosts, evaluate_host, hosts_refused,
  request_unfinished, candidates, any_matched, worst,
}
use kvm_infrastructure_manag.HostGroup.Evaluation.Again.{evaluate_again}
use kvm_infrastructure_manag.HostGroup.Members.{
  MembershipSetRequest, MaterializationRequest, Sets, nothing, materialize, validate_request,
  undecided, selected, next_generation, member_of, revalidated, set_request, source_revision_of,
  keys, members_accepted,
}
use kvm_infrastructure_manag.HostGroup.Members.Accepted.{Follows, published-Follows}
use kvm_infrastructure_manag.HostGroup.Fixture.{snapshot, expression}

abbrev libraries : Libraries Snapshot
libraries = record {
  decimal = λ n. "1";
  join = λ fs. "joined";
  digest_fields = λ fs. "digest";
  json = record {
    parse = λ s. some (s, true);
    marshal_capabilities = λ cs. "caps";
    marshal_snapshot = λ s. s;
  };
  host_before = str_lt;
}

abbrev revision : SelectorRevision
revision = record {
  selector_id = "s";
  host_group_id = "g";
  schema_version = "kim.host-group.selector/v1";
  lifecycle_state = "ACTIVE";
  evaluator_artifact_digest = "d";
  generation = 1;
  based_on_host_group_generation = 4;
  expression = expression;
}

abbrev projection : String → Option (Projection Snapshot)
projection host = some (record {
  observation_generation = 1;
  snapshot_digest = "d";
  projection_state = "CURRENT";
  payload = snapshot host (if str_eq host "b" then "UNAVAILABLE" else "AVAILABLE");
})

abbrev tables : Tables Snapshot
tables = record {
  authority_active = true;
  groups = λ g. some (record {
    generation = 4;
    group_type = "PLACEMENT";
    dimension = "d";
    level = "l";
    lifecycle = "ACTIVE";
  });
  policies = λ a b c. some (record { policy_id = "p"; generation = 2; state = "ACTIVE" });
  hierarchies = λ a b c. some (record { hierarchy_id = ""; generation = 0 });
  selectors = λ s. some revision;
  projections = projection;
  host_exists = λ h. true;
  evaluations = [];
  current = [];
}

abbrev request : EvaluationRequest
request = record {
  evaluation_id = "e";
  selector_id = "s";
  selector_generation = 1;
  expected_current_generation = 0;
  host_ids = "b" ∷ "a" ∷ [];
}

-- Host a matches and host b does not.
abbrev evaluated : Evaluation
evaluated = record {
  evaluation_id = "e";
  selector_id = "s";
  host_group_id = "g";
  result_state = "MATCHED";
  population_digest = "digest";
  candidate_digest = "digest";
  selector_generation = 1;
  evaluation_generation = 1;
  host_group_generation = 4;
  policy_generation = 2;
  policy_id = "p";
  hierarchy_id = "";
  hierarchy_generation = 0;
  host_count = 2;
  candidate_count = 1;
  hosts =
      record {
        host_id = "a";
        state = "MATCHED";
        reason_code = "all_predicates_matched";
        snapshot_digest = "d";
        observation_generation = 1;
      }
      ∷ record {
        host_id = "b";
        state = "NOT_MATCHED";
        reason_code = "capability_state_mismatch";
        snapshot_digest = "d";
        observation_generation = 1;
      }
      ∷ [];
}

abbrev evaluated_tables : Tables Snapshot
evaluated_tables = record tables {
  evaluations = ("e", record { evaluation = evaluated; request_digest = "digest" }) ∷ [];
  current =
      (
        "s",
        record {
          selector_generation = 1;
          evaluation_generation = 1;
          evaluation_id = "e";
          population_digest = "digest";
          candidate_digest = "digest";
          result_state = "MATCHED";
        },
      )
      ∷ [];
}

evaluate_again_example :
    ((evaluate_selector libraries request evaluated_tables).1 ≡ evaluated_tables)
    × (((evaluate_selector libraries request evaluated_tables).0 ≡ ok (some evaluated))
        ⊎ ((evaluate_selector libraries request evaluated_tables).0
            ≡ ok (some (reloaded libraries evaluated))))
unfolding evaluate_selector load_evaluation evaluate_hosts evaluate_host hosts_refused
    request_unfinished candidates any_matched worst evaluate_expression verdict concluded reported
    architecture architecture_verdict capability_verdict sort add64 decode_snapshot
    normalize_and_validate normalize_fragments normalize_fragment source_refused valid_digest
    domain_known is_lower_hex payload_matches refused normalize_capabilities normalize_capability
    availability_valid normalize_payload normalize_compute capability_is_available add_all
evaluate_again_example = evaluate_again libraries request evaluated tables evaluated_tables refl

abbrev sets : Sets ℕ
sets = record { by_request = λ r. none; of_evaluation = λ x. none; memberships = λ g. [] }

abbrev materialization : MaterializationRequest
materialization = record {
  publish_request_id = "q";
  evaluation_id = "e";
  expected_current_set_generation = 0;
}

abbrev publication : MembershipSetRequest
publication = record {
  publish_request_id = "q";
  host_group_id = "g";
  source_type = "SELECTOR";
  source_revision = "selector:s/1/evaluation/1";
  based_on_host_group_generation = 4;
  expected_current_set_generation = 0;
  selector_id = "s";
  selector_evaluation_id = "e";
  selector_generation = some 1;
  selector_evaluation_generation = some 1;
  hierarchy_generation = none;
  members =
      record {
        host_group_id = "g";
        host_id = "a";
        state = "ACTIVE";
        source_type = "SELECTOR";
        source_revision = "selector:s/1/evaluation/1";
        generation = 1;
      }
      ∷ [];
}

published-Follows_example :
    (id : String) × (x : Evaluation) × (load_evaluation libraries evaluated_tables id ""
      ≡ ok (some x))
    × (undecided x.result_state ≡ false)
    × All (Follows libraries evaluated_tables x) publication.members
unfolding materialize load_evaluation revalidated set_request selected next_generation member_of
    source_revision_of sort
published-Follows_example =
    published-Follows libraries evaluated_tables publication (inl (materialization, sets, refl))

-- What is asked to be published is accepted.
accepted :
    validate_request libraries evaluated_tables publication 4
      (record { policy_id = "p"; generation = 2; state = "ACTIVE" })
      (record { hierarchy_id = ""; generation = 0 })
    ≡ none
unfolding validate_request load_evaluation revalidated source_revision_of keys candidates
    members_accepted sort
accepted = refl

-- An evaluation that is not there gives no error.
unknown_evaluation : materialize libraries materialization tables sets ≡ nothing
unfolding materialize load_evaluation
unknown_evaluation = refl
