-- ===== src/HostGroup/Selector.antt =====
-- internal/persistence/postgres/host_group_selector.go: the selectors, and their evaluation on one
-- snapshot. A switch on a field is a chain of tests; its verdict on a predicate is a value, which
-- `concluded` carries through the loop. Digests and the JSON text of an expression are parameters.
pub mod Holds
use Prim.Native.String.{◌++◌ as str_append}
use kvm_infrastructure_manag.Base.{
  ℕ, ◌≡◌, String, Bool, true, false, ◌&&◌, ◌||◌, not, Option, none, some, List, [], ◌∷◌, map, ◌==◌,
  if◌then◌else◌, str_eq, Result, ok, err, length,
}
use kvm_infrastructure_manag.Base.Sort.{sort}
use kvm_infrastructure_manag.Base.Text.{str_lt, text_bytes, is_lower_hex}
use kvm_infrastructure_manag.Inventory.Model.{Snapshot, Fragment, Capability, Compute}

abbrev pub selector_schema : String
selector_schema = "kim.host-group.selector/v1"

pub record SelectorPredicate : Type 0 where
  pub field : String
  pub key : String
  pub operator : String
  pub value : String

pub record SelectorExpression : Type 0 where
  pub match_all : List SelectorPredicate
  pub unknown_policy : String

pub record SelectorRevision : Type 0 where
  pub selector_id : String
  pub host_group_id : String
  pub schema_version : String
  pub lifecycle_state : String
  pub evaluator_artifact_digest : String
  pub generation : ℕ
  pub based_on_host_group_generation : ℕ
  pub expression : SelectorExpression

unfoldable pub capability_allowed : String → Bool
capability_allowed k =
    str_eq k "kim.host.cpu-isolation.v1"
    || str_eq k "kim.host.cpu-model.v1"
    || str_eq k "kim.host.cpu-topology.v1"
    || str_eq k "kim.host.hugepages.v1"
    || str_eq k "kim.host.iommu-observation.v1"
    || str_eq k "kim.host.memory.v1"
    || str_eq k "kim.host.numa.v1"
    || str_eq k "kim.host.pci-numa-locality.v1"
    || str_eq k "kim.host.pci-observation.v1"
    || str_eq k "kim.host.sriov-observation.v1"

pub data Verdict : Type 0 where
  satisfied : Verdict
  -- Each with its reason.
  refuted unknown unsupported : String → Verdict

-- The state of a capability in the map that the loop over the list fills.
unfoldable pub reported : String → List Capability → Option String
reported k [] = none
reported k (c ∷ cs) = elim (reported k cs) [
  | some s ↦ some s
  | none ↦ if str_eq c.name k then some c.state else none
]

unfoldable pub architecture : List Fragment → String
architecture [] = ""
architecture (f ∷ fs) = elim f.compute [ some c ↦ c.architecture | none ↦ architecture fs ]

unfoldable pub architecture_verdict : Option String → String → String → Verdict
architecture_verdict none arch value = unknown "architecture_unknown"
architecture_verdict (some state) arch value =
    if str_eq state "UNKNOWN"
    then unknown "architecture_unknown"
    else if str_eq state "UNAVAILABLE"
    then unknown "architecture_unavailable"
    else if str_eq state "UNSUPPORTED"
    then unsupported "architecture_unsupported"
    else if not (str_eq state "AVAILABLE") || not (str_eq arch value)
    then refuted "architecture_mismatch"
    else satisfied

unfoldable pub capability_verdict : Option String → String → Verdict
capability_verdict none value = unknown "capability_unknown"
capability_verdict (some state) value =
    if str_eq state "UNKNOWN"
    then unknown "capability_unknown"
    else if str_eq state "UNSUPPORTED" && not (str_eq value "UNSUPPORTED")
    then unsupported "capability_unsupported"
    else if not (str_eq state value)
    then refuted "capability_state_mismatch"
    else satisfied

unfoldable pub verdict : Snapshot → SelectorPredicate → Verdict
verdict s p =
    if str_eq p.field "HOST_ID"
    then (if not (str_eq s.host_identity p.value)
        then refuted "host_identity_mismatch"
        else satisfied)
    else if str_eq p.field "COMPUTE_ARCHITECTURE"
    then architecture_verdict (reported "kim.host.cpu-topology.v1" s.capabilities)
        (architecture s.fragments) p.value
    else if str_eq p.field "CAPABILITY_STATE"
    then capability_verdict (reported p.key s.capabilities) p.value
    else satisfied

-- The loop, with the state and the reason that were deferred last.
unfoldable pub concluded : String × String → List Verdict → String × String
concluded (state, reason) [] =
    if str_eq state "" then ("MATCHED", "all_predicates_matched") else (state, reason)
concluded d (satisfied ∷ vs) = concluded d vs
concluded d (refuted r ∷ vs) = ("NOT_MATCHED", r)
concluded d (unknown r ∷ vs) = concluded ("UNKNOWN", r) vs
concluded d (unsupported r ∷ vs) = concluded ("UNSUPPORTED", r) vs

unfoldable pub evaluate_expression : SelectorExpression → Snapshot → String × String
evaluate_expression e s = concluded ("", "") (map (verdict s) e.match_all)

pub data Error : Type 0 where
  revision_incomplete not_fail_closed unsupported_operator invalid_host_identity : Error
  invalid_architecture invalid_capability unsupported_field duplicate_predicate marshal_failed :
      Error

unfoldable pub is_sha256 : String → Bool
is_sha256 value = text_bytes value == 64 && is_lower_hex value

abbrev pub revision_unfinished : SelectorRevision → Bool
revision_unfinished r =
    str_eq r.selector_id ""
    || str_eq r.host_group_id ""
    || r.generation == 0
    || r.based_on_host_group_generation == 0
    || not (str_eq r.schema_version selector_schema)
    || not (is_sha256 r.evaluator_artifact_digest)
    || not (
        str_eq r.lifecycle_state "ACTIVE"
        || str_eq r.lifecycle_state "DRAINING"
        || str_eq r.lifecycle_state "RETIRED")

unfoldable pub predicate_error : SelectorPredicate → Option Error
predicate_error p =
    if not (str_eq p.operator "EQUALS")
    then some unsupported_operator
    else if str_eq p.field "HOST_ID"
    then (if not (str_eq p.key "") || str_eq p.value "" then some invalid_host_identity else none)
    else if str_eq p.field "COMPUTE_ARCHITECTURE"
    then (if not (str_eq p.key "") || not (str_eq p.value "x86_64" || str_eq p.value "aarch64")
        then some invalid_architecture
        else none)
    else if str_eq p.field "CAPABILITY_STATE"
    then (if not (capability_allowed p.key)
          || not (
              str_eq p.value "AVAILABLE"
              || str_eq p.value "UNAVAILABLE"
              || str_eq p.value "UNSUPPORTED")
        then some invalid_capability
        else none)
    else some unsupported_field

-- The error of the first predicate that has one.
unfoldable pub predicates_error : List SelectorPredicate → Option Error
predicates_error [] = none
predicates_error (p ∷ ps) = elim (predicate_error p) [
  | some e ↦ some e
  | none ↦ predicates_error ps
]

-- The text that the sort compares, with "\n" between its parts.
abbrev pub predicate_text : SelectorPredicate → String
predicate_text p = str_append p.field (
    str_append "\n"
      (str_append p.key (str_append "\n" (str_append p.operator (str_append "\n" p.value)))))

abbrev pub comes_before : SelectorPredicate → SelectorPredicate → Bool
comes_before p q = str_lt (predicate_text p) (predicate_text q)

abbrev pub same_predicate : SelectorPredicate → SelectorPredicate → Bool
same_predicate p q =
    str_eq p.field q.field
    && str_eq p.key q.key
    && str_eq p.operator q.operator
    && str_eq p.value q.value

-- Two that stand side by side are equal.
unfoldable pub repeats : List SelectorPredicate → Bool
repeats [] = false
repeats (p ∷ []) = false
repeats (p ∷ q ∷ ps) = same_predicate q p || repeats (q ∷ ps)

-- What the digests are made of: a list of texts, and the JSON text of an expression.
pub record Digests : Type 0 where
  pub decimal : ℕ → String
  pub digest_fields : List String → String
  pub marshal : SelectorExpression → Option String

pub record Normalized : Type 0 where
  pub expression : SelectorExpression
  pub payload : String
  pub selector_digest : String
  pub revision_digest : String

unfoldable pub default_policy : String → String
default_policy s = if str_eq s "" then "FAIL_CLOSED" else s

module _ (lib : Digests) where
  abbrev pub with_digests : SelectorRevision → SelectorExpression → String → Normalized
  with_digests r e payload =
      let d = lib.digest_fields (payload ∷ []) in
      record {
        expression = e;
        payload = payload;
        selector_digest = d;
        revision_digest = lib.digest_fields (
            r.selector_id
            ∷ lib.decimal r.generation
            ∷ r.host_group_id
            ∷ lib.decimal r.based_on_host_group_generation
            ∷ r.schema_version
            ∷ d
            ∷ r.evaluator_artifact_digest
            ∷ r.lifecycle_state
            ∷ []);
      }

  abbrev pub marshalled :
      SelectorRevision → SelectorExpression → Option String → Result Error Normalized
  marshalled r e none = err marshal_failed
  marshalled r e (some payload) = ok (with_digests r e payload)

  abbrev pub normalize_predicates :
      SelectorRevision → String → List SelectorPredicate → Option Error → Result Error Normalized
  normalize_predicates r policy ps (some e) = err e
  normalize_predicates r policy ps none =
      let sorted = sort comes_before ps in
      let e : SelectorExpression = record { match_all = sorted; unknown_policy = policy } in
      if repeats sorted then err duplicate_predicate else marshalled r e (lib.marshal e)

  unfoldable pub normalize : SelectorRevision → Result Error Normalized
  normalize r =
      let policy = default_policy r.expression.unknown_policy in
      if revision_unfinished r
      then err revision_incomplete
      else if not (str_eq policy "FAIL_CLOSED") || length r.expression.match_all == 0
      then err not_fail_closed
      else normalize_predicates r policy r.expression.match_all
          (predicates_error r.expression.match_all)
