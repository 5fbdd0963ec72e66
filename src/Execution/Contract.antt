-- ===== src/Execution/Contract.antt =====
-- internal/execution/contract/contract.go. `Json` stands for a decoded JSON object. A strict decoder
-- is given the first JSON value of a text, and whether nothing but white space follows it.
use kvm_infrastructure_manag.Base.{
  ℕ, String, Bool, ◌&&◌, ◌||◌, not, Option, none, some, List, ◌==◌, if◌then◌else◌, str_eq, length,
  Result, ok, err,
}
use kvm_infrastructure_manag.Base.Ints.{ℤ, pos, lt_int}
use kvm_infrastructure_manag.Base.Text.{text_bytes}

pub data Error : Type 0 where
  malformed trailing incomplete_lease incomplete_result incomplete_request incomplete_observation :
      Error
  unsupported_outcome : String → Error

abbrev pub command_lease_schema : String
command_lease_schema = "kim.execution.command-lease/v1"

abbrev pub command_result_schema : String
command_result_schema = "kim.execution.command-result/v1"

abbrev pub verification_request_schema : String
verification_request_schema = "kim.execution.verification-request/v1"

abbrev pub verification_observation_schema : String
verification_observation_schema = "kim.execution.verification-observation/v1"

pub record VerificationRequest : Type 0 where
  pub schema_version : String
  pub command_id : String
  pub attempt_index : ℤ
  pub host_id : String
  pub session_generation : ℤ
  pub command_type : String
  pub command_schema_version : String
  pub target_resource_id : String
  pub command_payload : List ℕ
  pub command_payload_digest : String

pub record Observation (Json : Type 0) : Type 0 where
  pub state : String
  pub digest : String
  pub generation : ℤ
  pub evidence : Json

pub record VerificationObservation (Json : Type 0) : Type 0 where
  pub schema_version : String
  pub command_id : String
  pub attempt_index : ℤ
  pub target_resource_id : String
  pub command_payload_digest : String
  pub observation : Observation Json
  pub verifier_digest : String
  pub journal_digest : String

pub record CommandLease : Type 0 where
  pub schema_version : String
  pub command_id : String
  pub lease_generation : ℤ
  pub attempt_index : ℤ
  pub host_id : String
  pub host_authority_generation : ℤ
  pub session_generation : ℤ
  pub lease_token : String
  pub command_type : String
  pub command_schema_version : String
  pub target_resource_id : String
  pub command_payload : List ℕ
  pub command_payload_digest : String
  pub execution_timeout_millis : ℤ

pub record CommandResult (Json : Type 0) : Type 0 where
  pub schema_version : String
  pub command_id : String
  pub attempt_index : ℤ
  pub lease_token : String
  pub journal_digest : String
  pub result_id : String
  pub outcome : String
  pub result : Json
  pub observation : Observation Json
  pub verifier_digest : String

-- Below one.
abbrev pub unset : ℤ → Bool
unset n = lt_int n (pos 1)

abbrev pub is_sha : String → Bool
is_sha s = text_bytes s == 64

-- `decodeStrict` on what the JSON decoder makes of a text.
abbrev pub strict : {A : Type 0} → Option (A × Bool) → Result Error A
strict none = err malformed
strict (some (x, finished)) = if finished then ok x else err trailing

unfoldable pub lease_incomplete : CommandLease → Bool
lease_incomplete l =
    not (str_eq l.schema_version command_lease_schema)
    || str_eq l.command_id ""
    || unset l.lease_generation
    || unset l.attempt_index
    || str_eq l.host_id ""
    || unset l.host_authority_generation
    || unset l.session_generation
    || str_eq l.lease_token ""
    || str_eq l.command_type ""
    || str_eq l.command_schema_version ""
    || str_eq l.target_resource_id ""
    || length l.command_payload == 0
    || not (is_sha l.command_payload_digest)
    || unset l.execution_timeout_millis
    || lt_int (pos 3600000) l.execution_timeout_millis

unfoldable pub decode_command_lease : Option (CommandLease × Bool) → Result Error CommandLease
unfolding lease_incomplete
decode_command_lease parsed = elim (strict parsed) [
  | err e ↦ err e
  | ok l ↦ if lease_incomplete l then err incomplete_lease else ok l
]

unfoldable pub request_incomplete : VerificationRequest → Bool
request_incomplete r =
    not (str_eq r.schema_version verification_request_schema)
    || str_eq r.command_id ""
    || unset r.attempt_index
    || str_eq r.host_id ""
    || unset r.session_generation
    || str_eq r.command_type ""
    || str_eq r.command_schema_version ""
    || str_eq r.target_resource_id ""
    || length r.command_payload == 0
    || not (is_sha r.command_payload_digest)

unfoldable pub decode_verification_request :
    Option (VerificationRequest × Bool) → Result Error VerificationRequest
unfolding request_incomplete
decode_verification_request parsed = elim (strict parsed) [
  | err e ↦ err e
  | ok r ↦ if request_incomplete r then err incomplete_request else ok r
]

module _ {Json : Type 0} where
  unfoldable pub result_unfinished : CommandResult Json → Bool
  result_unfinished r =
      not (str_eq r.schema_version command_result_schema)
      || str_eq r.command_id ""
      || unset r.attempt_index
      || str_eq r.lease_token ""
      || not (is_sha r.journal_digest)
      || str_eq r.result_id ""
      || not (is_sha r.observation.digest)
      || unset r.observation.generation
      || not (is_sha r.verifier_digest)

  unfoldable pub decode_command_result :
      Option (CommandResult Json × Bool) → Result Error (CommandResult Json)
  unfolding result_unfinished
  decode_command_result parsed = elim (strict parsed) [
    | err e ↦ err e
    | ok r ↦
        if result_unfinished r
        then err incomplete_result
        else if not (str_eq r.outcome "SUCCEEDED")
            && not (str_eq r.outcome "FAILED")
            && not (str_eq r.outcome "UNKNOWN")
        then err (unsupported_outcome r.outcome)
        else ok r
  ]

  unfoldable pub observation_incomplete : VerificationObservation Json → Bool
  observation_incomplete o =
      not (str_eq o.schema_version verification_observation_schema)
      || str_eq o.command_id ""
      || unset o.attempt_index
      || str_eq o.target_resource_id ""
      || not (is_sha o.command_payload_digest)
      || unset o.observation.generation
      || not (is_sha o.observation.digest)
      || not (is_sha o.verifier_digest)
      || not (is_sha o.journal_digest)

  unfoldable pub decode_verification_observation :
      Option (VerificationObservation Json × Bool) → Result Error (VerificationObservation Json)
  unfolding observation_incomplete
  decode_verification_observation parsed = elim (strict parsed) [
    | err e ↦ err e
    | ok o ↦ if observation_incomplete o then err incomplete_observation else ok o
  ]
