-- ===== src/Execution/Tests.antt =====
-- The theorems on the execution module at concrete inputs, and runs of its functions.
use kvm_infrastructure_manag.Base.{
  ◌≡◌, refl, String, true, false, Option, none, some, List, [], ◌∷◌, length,
}
use kvm_infrastructure_manag.Base.Ints.{pos}
use kvm_infrastructure_manag.Session.Envelope.{Envelope, command, new_envelope}
use kvm_infrastructure_manag.Agent.Journal.{
  CommandRecord, create_temp, record_key, prepare, complete, persist, evidence,
}
use kvm_infrastructure_manag.Execution.Contract.{
  CommandLease, VerificationRequest, Observation, decode_command_lease, decode_verification_request,
  lease_incomplete, request_incomplete, command_lease_schema, verification_request_schema,
}
use kvm_infrastructure_manag.Execution.World.{Libraries, Module, World}
use kvm_infrastructure_manag.Execution.Module.{Outside, handle}
use kvm_infrastructure_manag.Execution.Module.Order.{
  IsOrdered, Reads, run, run-IsOrdered, verification-Reads,
}
use kvm_infrastructure_manag.Execution.Module.Redelivery.{Redelivers, completed_again}

abbrev sha_value : String
sha_value = "0123456789abcdef0123456789abcdef0123456789abcdef0123456789abcdef"

abbrev lease : CommandLease
lease = record {
  schema_version = "kim.execution.command-lease/v1";
  command_id = "c";
  lease_generation = pos 1;
  attempt_index = pos 1;
  host_id = "h";
  host_authority_generation = pos 1;
  session_generation = pos 3;
  lease_token = "t";
  command_type = "state";
  command_schema_version = "v1";
  target_resource_id = "vm";
  command_payload = 7 ∷ [];
  command_payload_digest = sha_value;
  execution_timeout_millis = pos 1000;
}

abbrev request : VerificationRequest
request = record {
  schema_version = "kim.execution.verification-request/v1";
  command_id = "c";
  attempt_index = pos 1;
  host_id = "h";
  session_generation = pos 3;
  command_type = "state";
  command_schema_version = "v1";
  target_resource_id = "vm";
  command_payload = 7 ∷ [];
  command_payload_digest = sha_value;
}

-- JSON values are texts, and the text of a record is kept as one number.
abbrev libraries : Libraries String
libraries = record {
  decimal = λ n. "1";
  sha = λ p. sha_value;
  sha_text = λ s. sha_value;
  encode_record = λ r. 0 ∷ [];
  decode_record = λ p. none;
  object = λ members. "object";
  marshal_json = λ j. some (1 ∷ []);
  marshal_result = λ r. some (2 ∷ []);
  marshal_observation = λ o. some (3 ∷ []);
  parse_lease = λ p. some (lease, true);
  parse_request = λ p. some (request, true);
}

abbrev publish : Envelope → List Envelope → Option String × List Envelope
publish e sent = (none, e ∷ sent)

abbrev message : String → Envelope
message schema = record {
  host_identity = "h";
  session_generation = 3;
  stream = command;
  message_id = "m";
  schema_version = schema;
  sequence_scope = "command/c";
  sequence = 1;
  resource_generation = 0;
  payload_digest = sha_value;
  correlation_key = "c";
  payload = 9 ∷ [];
}

abbrev observation : Observation String
observation = record { state = "MATCHED"; digest = sha_value; generation = pos 1; evidence = "e" }

abbrev outside : Outside String
outside = record {
  execution = some (record { outcome = "SUCCEEDED"; result = "r"; observation = observation });
  observation = some observation;
  prepare_fault = none;
  complete_fault = none;
}

abbrev module_ : Module
module_ = record {
  host_id = "h";
  verifier_digest = sha_value;
  backends =
      record { command_type = "state"; schema_version = "v1"; observes = true; capabilities = none }
      ∷ [];
  sealed = false;
}

abbrev world : List (String × CommandRecord) → World String (List Envelope)
world records = record {
  module_ = module_;
  disk = record {
    journal = record { directory = "d"; host_id = "h"; records = records; closed = false };
    files = [];
  };
  publisher = [];
  executed = [];
  published = [];
}

abbrev deliveries : List (Envelope × Outside String)
deliveries =
    (message command_lease_schema, record outside { prepare_fault = some create_temp })
    ∷ (message command_lease_schema, outside)
    ∷ (message verification_request_schema, outside)
    ∷ []

run-IsOrdered_example : IsOrdered libraries publish (run libraries publish deliveries (world []))
run-IsOrdered_example = run-IsOrdered libraries publish deliveries (world []) (tt, tt)

-- The first delivery cannot write its record, so it does not execute; the others do, and answer.
once :
    (length (run libraries publish deliveries (world [])).executed ≡ 1)
    × (length (run libraries publish deliveries (world [])).published ≡ 2)
unfolding handle decode_command_lease decode_verification_request lease_incomplete
    request_incomplete prepare complete persist evidence new_envelope
once = (refl, refl)

verification-Reads_example :
    Reads libraries publish
      (world [])
      (handle libraries publish (message verification_request_schema) outside (world []))
verification-Reads_example =
    verification-Reads libraries publish (message verification_request_schema) outside (world [])
      refl

abbrev ended : CommandRecord
ended = record {
  schema_version = "kim.agent.execution-journal/v1";
  host_id = "h";
  command_id = "c";
  attempt_index = pos 1;
  command_digest = sha_value;
  target_id = "vm";
  state = "COMPLETED";
  result_digest = sha_value;
  outcome = "SUCCEEDED";
}

abbrev key : String
key =
    record_key libraries.decimal libraries.sha_text libraries.sha libraries.encode_record
      libraries.decode_record "c" (pos 1)

redelivered :
    Redelivers libraries publish (message command_lease_schema) lease (world ((key, ended) ∷ []))
unfolding decode_command_lease lease_incomplete
redelivered = record {
  stream = refl;
  schema = refl;
  decoded = refl;
  same = refl;
  payload = refl;
  backend = record {
    command_type = "state";
    schema_version = "v1";
    observes = true;
    capabilities = none;
  };
  registered = refl;
  identity = refl;
  not_closed = refl;
  entry = ended;
  found = refl;
  command_same = refl;
  completed = refl;
}

completed_again_example :
    (handle libraries publish
      (message command_lease_schema)
      outside
      (world ((key, ended) ∷ []))).1.executed
    ≡ (lease, (world ((key, ended) ∷ [])).disk) ∷ []
completed_again_example =
    completed_again libraries publish (message command_lease_schema) lease outside
      (world ((key, ended) ∷ [])) redelivered
