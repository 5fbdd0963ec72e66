-- ===== src/HostGroup/Tables.antt =====
-- The tables that internal/persistence/postgres/host_group_selector.go reads and writes, with its
-- requests and results. `Payload` is the stored text of an inventory.
use kvm_infrastructure_manag.Base.{ℕ, String, Bool, Option, List}
use kvm_infrastructure_manag.Inventory.Normalize.{Json}
use kvm_infrastructure_manag.HostGroup.Selector.{SelectorRevision}

pub data Error : Type 0 where
  request_incomplete hosts_not_unique no_authority not_found conflict bad_snapshot no_hierarchy :
      Error

pub record EvaluationRequest : Type 0 where
  pub evaluation_id : String
  pub selector_id : String
  pub selector_generation : ℕ
  pub expected_current_generation : ℕ
  pub host_ids : List String

pub record HostResult : Type 0 where
  pub host_id : String
  pub state : String
  pub reason_code : String
  pub snapshot_digest : String
  pub observation_generation : ℕ

pub record Evaluation : Type 0 where
  pub evaluation_id : String
  pub selector_id : String
  pub host_group_id : String
  pub result_state : String
  pub population_digest : String
  pub candidate_digest : String
  pub selector_generation : ℕ
  pub evaluation_generation : ℕ
  pub host_group_generation : ℕ
  pub policy_generation : ℕ
  pub policy_id : String
  pub hierarchy_id : String
  pub hierarchy_generation : ℕ
  pub host_count : ℕ
  pub candidate_count : ℕ
  pub hosts : List HostResult

pub record Projection (Payload : Type 0) : Type 0 where
  pub observation_generation : ℕ
  pub snapshot_digest : String
  pub projection_state : String
  pub payload : Payload

pub record Group : Type 0 where
  pub generation : ℕ
  pub group_type : String
  pub dimension : String
  pub level : String
  pub lifecycle : String

pub record Policy : Type 0 where
  pub policy_id : String
  pub generation : ℕ
  pub state : String

pub record Hierarchy : Type 0 where
  pub hierarchy_id : String
  pub generation : ℕ

-- A row of the evidence, with its rows of hosts.
pub record Recorded : Type 0 where
  pub evaluation : Evaluation
  pub request_digest : String

pub record CurrentEvaluation : Type 0 where
  pub selector_generation : ℕ
  pub evaluation_generation : ℕ
  pub evaluation_id : String
  pub population_digest : String
  pub candidate_digest : String
  pub result_state : String

pub record Tables (Payload : Type 0) : Type 0 where
  pub authority_active : Bool
  pub groups : String → Option Group
  pub policies : String → String → String → Option Policy
  -- None where the hierarchy cannot be resolved.
  pub hierarchies : String → String → String → Option Hierarchy
  pub selectors : String → Option SelectorRevision
  pub projections : String → Option (Projection Payload)
  pub host_exists : String → Bool
  pub evaluations : List (String × Recorded)
  pub current : List (String × CurrentEvaluation)

pub record Libraries (Payload : Type 0) : Type 0 where
  pub decimal : ℕ → String
  pub join : List String → String
  pub digest_fields : List String → String
  pub json : Json Payload
  -- The order of host identifiers in the database.
  pub host_before : String → String → Bool
