-- ===== src/HostGroup/Tests.antt =====
-- The theorem on selectors at a concrete input, and the results of an expression.
use kvm_infrastructure_manag.Base.{◌≡◌, refl, ◌↔◌, none, some, [], ◌∷◌, All}
use kvm_infrastructure_manag.Base.Sort.{sort}
use kvm_infrastructure_manag.Base.Text.{is_lower_hex}
use kvm_infrastructure_manag.HostGroup.Selector.{
  SelectorRevision, evaluate_expression, verdict, concluded, reported, architecture,
  architecture_verdict, capability_verdict, predicates_error, predicate_error, capability_allowed,
  Digests, Normalized, normalize, default_policy, is_sha256, repeats,
}
use kvm_infrastructure_manag.HostGroup.Selector.Holds.{Holds, normalized_iff}
use kvm_infrastructure_manag.HostGroup.Fixture.{snapshot, expression}

abbrev given : SelectorRevision
given = record {
  selector_id = "s";
  host_group_id = "g";
  schema_version = "kim.host-group.selector/v1";
  lifecycle_state = "ACTIVE";
  evaluator_artifact_digest = "0123456789abcdef0123456789abcdef0123456789abcdef0123456789abcdef";
  generation = 1;
  based_on_host_group_generation = 4;
  expression = record {
    match_all =
        record { field = "COMPUTE_ARCHITECTURE"; key = ""; operator = "EQUALS"; value = "x86_64" }
        ∷ record {
          field = "CAPABILITY_STATE";
          key = "kim.host.sriov-observation.v1";
          operator = "EQUALS";
          value = "AVAILABLE";
        }
        ∷ [];
    unknown_policy = "";
  };
}

abbrev digests : Digests
digests = record { decimal = λ n. "1"; digest_fields = λ fs. "digest"; marshal = λ e. some "{}" }

abbrev normalized : Normalized
normalized = record {
  expression = expression;
  payload = "{}";
  selector_digest = "digest";
  revision_digest = "digest";
}

normalized_iff_example :
    ((evaluate_expression expression (snapshot "a" "AVAILABLE")).0 ≡ "MATCHED")
    ↔ All (Holds (snapshot "a" "AVAILABLE")) given.expression.match_all
unfolding normalize default_policy predicates_error predicate_error capability_allowed is_sha256
    is_lower_hex repeats sort
normalized_iff_example = normalized_iff digests given normalized (snapshot "a" "AVAILABLE") refl

-- The three results, and what a deferred predicate hides: nothing that refutes.
results :
    (evaluate_expression expression (snapshot "a" "AVAILABLE")
      ≡ ("MATCHED", "all_predicates_matched"))
    × (evaluate_expression expression (snapshot "a" "UNAVAILABLE")
        ≡ ("NOT_MATCHED", "capability_state_mismatch"))
    × (evaluate_expression expression (snapshot "a" "UNKNOWN") ≡ ("UNKNOWN", "capability_unknown"))
    × (evaluate_expression expression (snapshot "a" "UNSUPPORTED")
        ≡ ("UNSUPPORTED", "capability_unsupported"))
unfolding evaluate_expression verdict concluded reported architecture architecture_verdict
    capability_verdict
results = (refl, refl, refl, refl)

closed : predicates_error expression.match_all ≡ none
unfolding predicates_error predicate_error capability_allowed
closed = refl
