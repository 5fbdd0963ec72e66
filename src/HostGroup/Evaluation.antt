-- ===== src/HostGroup/Evaluation.antt =====
-- internal/persistence/postgres/host_group_selector.go: `EvaluateHostGroupSelector`. A transaction is
-- one step on `Tables`, which answers the queries by the keys that they select on; the two tables that
-- the transaction writes are lists. `Payload` is the stored text of an inventory.
pub mod Again
use kvm_infrastructure_manag.Base.{
  ℕ, ◌≡◌, String, Bool, true, false, ◌&&◌, ◌||◌, not, Option, none, some, List, [], ◌∷◌, ◌++◌, map,
  ◌==◌, ltb, if◌then◌else◌, str_eq, Result, ok, err, length,
}
use kvm_infrastructure_manag.Base.Words.{add64}
use kvm_infrastructure_manag.Base.Maps.{find, put}
use kvm_infrastructure_manag.Base.Sort.{sort}
use kvm_infrastructure_manag.Base.Text.{str_lt}
use kvm_infrastructure_manag.Inventory.Model.{Snapshot}
use kvm_infrastructure_manag.Inventory.Payloads as inventory
use kvm_infrastructure_manag.Inventory.Normalize.{Json, decode_snapshot}
use kvm_infrastructure_manag.HostGroup.Selector.{
  SelectorExpression, SelectorRevision, evaluate_expression,
}
use kvm_infrastructure_manag.HostGroup.Tables.{
  Error, request_incomplete, hosts_not_unique, no_authority, not_found, conflict, bad_snapshot,
  no_hierarchy, EvaluationRequest, HostResult, Evaluation, Projection, Group, Policy, Hierarchy,
  Recorded, CurrentEvaluation, Tables, Libraries,
}

unfoldable pub hosts_refused : List String → Bool
hosts_refused [] = false
hosts_refused (h ∷ []) = str_eq h ""
hosts_refused (h ∷ k ∷ hs) = str_eq h "" || str_eq k h || hosts_refused (k ∷ hs)

unfoldable pub request_unfinished : EvaluationRequest → Bool
request_unfinished r =
    str_eq r.evaluation_id ""
    || str_eq r.selector_id ""
    || r.selector_generation == 0
    || length r.host_ids == 0

-- The hosts that matched.
unfoldable pub candidates : List HostResult → List String
candidates [] = []
candidates (h ∷ hs) =
    let rest = candidates hs in if str_eq h.state "MATCHED" then h.host_id ∷ rest else rest

unfoldable pub any_matched : List HostResult → String
any_matched [] = "NOT_MATCHED"
any_matched (h ∷ hs) =
    let rest = any_matched hs in if str_eq h.state "MATCHED" then "MATCHED" else rest

-- The second loop, which stops at an unknown host.
unfoldable pub worst : String → List HostResult → String
worst overall [] = overall
worst overall (h ∷ hs) =
    let as_unsupported = worst "UNSUPPORTED" hs in
    let as_before = worst overall hs in
    if str_eq h.state "UNKNOWN"
    then "UNKNOWN"
    else if str_eq h.state "UNSUPPORTED"
    then as_unsupported
    else as_before

abbrev pub overall_state : List HostResult → String
overall_state hs = worst (any_matched hs) hs

-- A host's row as it is read again: without a generation there is no digest.
abbrev pub stored : HostResult → HostResult
stored h = if ltb 0 h.observation_generation then h else record h { snapshot_digest = "" }

abbrev pub current_generation : Option CurrentEvaluation → ℕ
current_generation none = 0
current_generation (some c) = c.evaluation_generation

-- The current evaluation has the same result.
abbrev pub same_result : EvaluationRequest → Evaluation → CurrentEvaluation → Bool
same_result r x c =
    ltb 0 c.evaluation_generation
    && c.selector_generation == r.selector_generation
    && str_eq c.population_digest x.population_digest
    && str_eq c.candidate_digest x.candidate_digest
    && str_eq c.result_state x.result_state

abbrev pub current_of : Evaluation → CurrentEvaluation
current_of x = record {
  selector_generation = x.selector_generation;
  evaluation_generation = x.evaluation_generation;
  evaluation_id = x.evaluation_id;
  population_digest = x.population_digest;
  candidate_digest = x.candidate_digest;
  result_state = x.result_state;
}

module _ {Payload : Type 0} (lib : Libraries Payload) where
  abbrev pub on_snapshot :
      SelectorExpression → HostResult → Result inventory.Error Snapshot → Result Error HostResult
  on_snapshot e h (err x) = err bad_snapshot
  on_snapshot e h (ok s) =
      ok (record h {
        state = (evaluate_expression e s).0;
        reason_code = (evaluate_expression e s).1;
      })

  abbrev pub on_projection :
      SelectorExpression → String → Bool → Option (Projection Payload) → Result Error HostResult
  on_projection e host known none =
      if known
      then ok (record {
        host_id = host;
        state = "UNKNOWN";
        reason_code = "inventory_missing";
        snapshot_digest = "";
        observation_generation = 0;
      })
      else err conflict
  on_projection e host known (some p) =
      let h : HostResult = record {
        host_id = host;
        state = "UNKNOWN";
        reason_code = "projection_not_current";
        snapshot_digest = p.snapshot_digest;
        observation_generation = p.observation_generation;
      } in
      if not (str_eq p.projection_state "CURRENT")
      then ok h
      else on_snapshot e h (decode_snapshot lib.json p.payload)

  unfoldable pub evaluate_host :
      Tables Payload → SelectorExpression → String → Result Error HostResult
  evaluate_host t e host = on_projection e host (t.host_exists host) (t.projections host)

  unfoldable pub evaluate_hosts :
      Tables Payload → SelectorExpression → List String → Result Error (List HostResult)
  evaluate_hosts t e [] = ok []
  evaluate_hosts t e (h ∷ hs) = elim (evaluate_host t e h) [
    | err x ↦ err x
    | ok r ↦ elim (evaluate_hosts t e hs) [ err x ↦ err x | ok rs ↦ ok (r ∷ rs) ]
  ]

  abbrev pub host_fields : List HostResult → List String
  host_fields [] = []
  host_fields (h ∷ hs) =
      h.host_id
      ∷ lib.decimal h.observation_generation
      ∷ h.snapshot_digest
      ∷ h.state
      ∷ h.reason_code
      ∷ host_fields hs

  abbrev pub request_digest_of : EvaluationRequest → String
  request_digest_of r = lib.digest_fields (
      r.selector_id
      ∷ lib.decimal r.selector_generation
      ∷ lib.decimal r.expected_current_generation
      ∷ lib.join (sort str_lt r.host_ids)
      ∷ [])

  -- An evaluation as it is read again.
  abbrev pub reloaded : Evaluation → Evaluation
  reloaded x = record x {
    hosts = sort (λ h k. lib.host_before h.host_id k.host_id) (map stored x.hosts);
  }

  abbrev pub loaded : String → Option Recorded → Result Error (Option Evaluation)
  loaded expected none = ok none
  loaded expected (some r) =
      if not (str_eq expected "") && not (str_eq r.request_digest expected)
      then err conflict
      else ok (some (reloaded r.evaluation))

  unfoldable pub load_evaluation :
      Tables Payload → String → String → Result Error (Option Evaluation)
  load_evaluation t id expected = loaded expected (find id t.evaluations)

  -- A row that is not there any more gives the zero value without an error, here `none`.
  abbrev pub compared :
      EvaluationRequest
      → Evaluation
      → Option CurrentEvaluation
      → Tables Payload
      → Result Error (Option Evaluation)
  compared r x none t = err conflict
  compared r x (some c) t =
      let old = load_evaluation t c.evaluation_id "" in
      if same_result r x c then old else err conflict

  -- The insertion into both tables.
  abbrev pub recorded : EvaluationRequest → Evaluation → Tables Payload → Tables Payload
  recorded r x t = record t {
    evaluations =
        put r.evaluation_id (record { evaluation = x; request_digest = request_digest_of r })
          t.evaluations;
    current = put r.selector_id (current_of x) t.current;
  }

  abbrev pub advanced :
      EvaluationRequest
      → Evaluation
      → Option CurrentEvaluation
      → Tables Payload
      → Result Error (Option Evaluation) × Tables Payload
  advanced r x c t =
      if not (current_generation c == r.expected_current_generation)
      then (compared r x c t, t)
      else (ok (some x), recorded r x t)

  abbrev pub evaluation_of :
      EvaluationRequest
      → SelectorRevision
      → Group
      → Policy
      → Hierarchy
      → ℕ
      → List HostResult
      → Evaluation
  evaluation_of r v g p h generation results = record {
    evaluation_id = r.evaluation_id;
    selector_id = r.selector_id;
    host_group_id = v.host_group_id;
    result_state = overall_state results;
    population_digest = lib.digest_fields (host_fields results);
    candidate_digest = lib.digest_fields (candidates results);
    selector_generation = v.generation;
    evaluation_generation = generation;
    host_group_generation = g.generation;
    policy_generation = p.generation;
    policy_id = p.policy_id;
    hierarchy_id = h.hierarchy_id;
    hierarchy_generation = h.generation;
    host_count = length results;
    candidate_count = length (candidates results);
    hosts = results;
  }

  abbrev pub with_results :
      EvaluationRequest
      → SelectorRevision
      → Group
      → Policy
      → Hierarchy
      → Result Error (List HostResult)
      → Tables Payload
      → Result Error (Option Evaluation) × Tables Payload
  with_results r v g p h (err x) t = (err x, t)
  with_results r v g p h (ok results) t =
      let c = find r.selector_id t.current in
      advanced r (evaluation_of r v g p h (add64 (current_generation c) 1) results) c t

  abbrev pub with_hierarchy :
      EvaluationRequest
      → SelectorRevision
      → Group
      → Policy
      → Option Hierarchy
      → Tables Payload
      → Result Error (Option Evaluation) × Tables Payload
  with_hierarchy r v g p none t = (err no_hierarchy, t)
  with_hierarchy r v g p (some h) t =
      if not (v.generation == r.selector_generation)
        || not (v.based_on_host_group_generation == g.generation)
        || not (str_eq v.lifecycle_state "ACTIVE")
      then (err conflict, t)
      else with_results r v g p h (evaluate_hosts t v.expression (sort str_lt r.host_ids)) t

  abbrev pub with_policy :
      EvaluationRequest
      → SelectorRevision
      → Group
      → Option Policy
      → Tables Payload
      → Result Error (Option Evaluation) × Tables Payload
  with_policy r v g none t = (err conflict, t)
  with_policy r v g (some p) t =
      if not (str_eq p.state "ACTIVE")
      then (err conflict, t)
      else with_hierarchy r v g p (t.hierarchies g.group_type g.dimension v.host_group_id) t

  abbrev pub with_group :
      EvaluationRequest
      → SelectorRevision
      → Option Group
      → Tables Payload
      → Result Error (Option Evaluation) × Tables Payload
  with_group r v none t = (err not_found, t)
  with_group r v (some g) t =
      if not (str_eq g.lifecycle "ACTIVE")
      then (err conflict, t)
      else with_policy r v g (t.policies g.group_type g.dimension g.level) t

  abbrev pub with_selector :
      EvaluationRequest
      → Option SelectorRevision
      → Tables Payload
      → Result Error (Option Evaluation) × Tables Payload
  with_selector r none t = (err not_found, t)
  with_selector r (some v) t = with_group r v (t.groups v.host_group_id) t

  abbrev pub unless_found :
      EvaluationRequest
      → Result Error (Option Evaluation)
      → Tables Payload
      → Result Error (Option Evaluation) × Tables Payload
  unless_found r (err e) t = (err e, t)
  unless_found r (ok (some x)) t = (ok (some x), t)
  unless_found r (ok none) t = with_selector r (t.selectors r.selector_id) t

  unfoldable pub evaluate_selector :
      EvaluationRequest → Tables Payload → Result Error (Option Evaluation) × Tables Payload
  evaluate_selector r t =
      if request_unfinished r
      then (err request_incomplete, t)
      else if hosts_refused (sort str_lt r.host_ids)
      then (err hosts_not_unique, t)
      else if not t.authority_active
      then (err no_authority, t)
      else unless_found r (load_evaluation t r.evaluation_id (request_digest_of r)) t
