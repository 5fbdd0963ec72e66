-- ===== src/Execution/World.antt =====
-- internal/agent/execution/module.go: the module, the results of its backends, and the world that a
-- call of `Handle` acts on.
use kvm_infrastructure_manag.Base.{ℕ, String, Bool, Option, List}
use kvm_infrastructure_manag.Base.Ints.{ℤ}
use kvm_infrastructure_manag.Session.Envelope.{Envelope}
use kvm_infrastructure_manag.Agent.Journal.{
  CommandRecord, Disk, prepare, complete, evidence, not_found,
}
use kvm_infrastructure_manag.Agent.Journal as journal
use kvm_infrastructure_manag.Agent.Journal.{Fault}
use kvm_infrastructure_manag.Execution.Contract.{
  CommandLease, CommandResult, VerificationRequest, VerificationObservation, Observation,
  decode_command_lease, decode_verification_request, command_lease_schema, command_result_schema,
  verification_request_schema, verification_observation_schema, is_sha,
}
use kvm_infrastructure_manag.Execution.Contract as contract

pub record Libraries (Json : Type 0) : Type 0 where
  pub decimal : ℤ → String
  pub sha : List ℕ → String
  pub sha_text : String → String
  pub encode_record : CommandRecord → List ℕ
  pub decode_record : List ℕ → Option CommandRecord
  -- An object whose members are texts.
  pub object : List (String × String) → Json
  pub marshal_json : Json → Option (List ℕ)
  pub marshal_result : CommandResult Json → Option (List ℕ)
  pub marshal_observation : VerificationObservation Json → Option (List ℕ)
  pub parse_lease : List ℕ → Option (CommandLease × Bool)
  pub parse_request : List ℕ → Option (VerificationRequest × Bool)

pub data Error (E : Type 0) : Type 0 where
  module_incomplete backend_incomplete registry_sealed backend_registered : Error E
  unsupported_message unsupported_schema lease_mismatch payload_mismatch : Error E
  unsupported_command request_mismatch request_payload_mismatch not_observable marshal_failed :
      Error E
  decoding : contract.Error → Error E
  journalled : journal.Error → Error E
  publishing : E → Error E

pub record BackendResult (Json : Type 0) : Type 0 where
  pub outcome : String
  pub result : Json
  pub observation : Observation Json

-- A backend: its names, whether it can observe, and the capabilities that it adds, if it has any.
pub record Backend : Type 0 where
  pub command_type : String
  pub schema_version : String
  pub observes : Bool
  pub capabilities : Option (List String)

pub record Module : Type 0 where
  pub host_id : String
  pub verifier_digest : String
  pub backends : List Backend
  pub sealed : Bool

-- The module, the journal with its directory, the publisher's state, and the calls so far.
pub record World (Json P : Type 0) : Type 0 where
  pub module_ : Module
  pub disk : Disk (List ℕ)
  pub publisher : P
  pub executed : List (CommandLease × Disk (List ℕ))
  pub published : List (Envelope × Disk (List ℕ))
