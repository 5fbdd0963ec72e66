-- ===== src/Execution/Module.antt =====
-- internal/agent/execution/module.go. What is not in the repository is a field of `Libraries`: the
-- text of an integer, SHA-256 in hexadecimal, and the JSON texts. What a backend does in a call and
-- which call of the system fails in the journal are arguments of the call. `executed` and `published`
-- are the calls of `Execute` and `Publish` so far, each with the disk at the time of the call.
pub mod Order
pub mod Redelivery
use Prim.Native.String.{◌++◌ as str_append}
use kvm_infrastructure_manag.Base.{
  ℕ, ◌≡◌, String, Bool, true, false, ◌&&◌, ◌||◌, not, Option, none, some, List, [], ◌∷◌, ◌++◌, ◌==◌,
  if◌then◌else◌, str_eq, Result, ok, err,
}
use kvm_infrastructure_manag.Base.Ints.{ℤ, pos}
use kvm_infrastructure_manag.Base.Words.{to_uint64}
use kvm_infrastructure_manag.Base.Sort.{sort}
use kvm_infrastructure_manag.Base.Text.{str_lt}
use kvm_infrastructure_manag.Session.Envelope.{
  Envelope, command, result, resync, new_envelope, stream_eq,
}
use kvm_infrastructure_manag.Session.Manager.{ModuleDescriptor, contains}
use kvm_infrastructure_manag.Agent.Journal.{
  CommandRecord, Disk, prepare, complete, evidence, not_found,
}
use kvm_infrastructure_manag.Agent.Journal as journal
use kvm_infrastructure_manag.Agent.Journal.{Fault}
use kvm_infrastructure_manag.Execution.Contract.{
  CommandLease, CommandResult, VerificationRequest, VerificationObservation, Observation,
  decode_command_lease, decode_verification_request, command_lease_schema, command_result_schema,
  verification_request_schema, verification_observation_schema, is_sha,
}
use kvm_infrastructure_manag.Execution.Contract as contract
use kvm_infrastructure_manag.Execution.World.{
  Libraries, Error, BackendResult, Backend, Module, World, module_incomplete, backend_incomplete,
  registry_sealed, backend_registered, unsupported_message, unsupported_schema, lease_mismatch,
  payload_mismatch, unsupported_command, request_mismatch, request_payload_mismatch, not_observable,
  marshal_failed, decoding, journalled, publishing,
}

-- The key of a backend in the registry.
abbrev pub backend_key : String → String → String
backend_key type schema = str_append type (str_append "\0" schema)

abbrev pub find_backend : String → List Backend → Option Backend
find_backend key [] = none
find_backend key (b ∷ bs) =
    if str_eq (backend_key b.command_type b.schema_version) key then some b else find_backend key bs

abbrev pub is_found : Option Backend → Bool
is_found none = false
is_found (some b) = true

-- Each capability that is not there yet, added at the end.
abbrev pub add_new : List String → List String → List String
add_new seen [] = []
add_new seen (c ∷ cs) =
    let later = add_new (c ∷ seen) cs in
    let rest = add_new seen cs in if str_eq c "" || contains c seen then rest else c ∷ later

abbrev pub backend_capabilities : List Backend → List String
backend_capabilities [] = []
backend_capabilities (b ∷ bs) = elim b.capabilities [
  | none ↦ backend_capabilities bs
  | some cs ↦ cs ++ backend_capabilities bs
]

unfoldable pub descriptor : Module → ModuleDescriptor
descriptor m = record {
  name = "execution";
  capabilities =
      "kim.agent.execution/v1"
      ∷ sort str_lt (add_new ("kim.agent.execution/v1" ∷ []) (backend_capabilities m.backends));
  min_schema_version = command_lease_schema;
  max_schema_version = verification_request_schema;
  message_schemas = command_lease_schema ∷ verification_request_schema ∷ [];
}

-- What happens outside in a call of `Handle`: the backend's results, and the calls of the system that
-- fail in the journal.
pub record Outside (Json : Type 0) : Type 0 where
  pub execution : Option (BackendResult Json)
  pub observation : Option (Observation Json)
  pub prepare_fault : Option Fault
  pub complete_fault : Option Fault

unfoldable pub new_module : {E : Type 0} → String → String → Bool → Bool → Result (Error E) Module
new_module host_id verifier_digest has_journal has_publisher =
    if str_eq host_id "" || not has_journal || not has_publisher || not (is_sha verifier_digest)
    then err module_incomplete
    else ok (record {
      host_id = host_id;
      verifier_digest = verifier_digest;
      backends = [];
      sealed = false;
    })

unfoldable pub register_backend : {E : Type 0} → Module → Option Backend → Option (Error E) × Module
register_backend m none = (some backend_incomplete, m)
register_backend m (some b) =
    if str_eq b.command_type "" || str_eq b.schema_version ""
    then (some backend_incomplete, m)
    else if m.sealed
    then (some registry_sealed, m)
    else if is_found (find_backend (backend_key b.command_type b.schema_version) m.backends)
    then (some backend_registered, m)
    else (none, record m { backends = m.backends ++ b ∷ [] })

module _ {Json P E : Type 0} (lib : Libraries Json) (publish : Envelope → P → Option E × P) where
  abbrev pub seal : World Json P → World Json P
  seal w = record w { module_ = record w.module_ { sealed = true } }

  abbrev pub published_error : Option E → Option (Error E)
  published_error none = none
  published_error (some e) = some (publishing e)

  abbrev pub emit : Envelope → World Json P → Option (Error E) × World Json P
  emit message w = (
    published_error (publish message w.publisher).0,
    record w {
      publisher = (publish message w.publisher).1;
      published = (message, w.disk) ∷ w.published;
    },
  )

  abbrev pub slashed : String → String → ℤ → String
  slashed prefix id n = str_append prefix (str_append id (str_append "/" (lib.decimal n)))

  abbrev pub correlated : String → Envelope → Envelope
  correlated id e = record e { correlation_key = id }

  -- An uncertain execution.
  abbrev pub unknown_result : CommandLease → BackendResult Json
  unknown_result l = record {
    outcome = "UNKNOWN";
    result = lib.object (("reason", "backend_execution_uncertain") ∷ []);
    observation = record {
      state = "UNKNOWN";
      digest = lib.sha_text "unknown";
      generation = l.attempt_index;
      evidence = lib.object (("error_class", "backend_execution") ∷ []);
    };
  }

  abbrev pub backend_result : CommandLease → Option (BackendResult Json) → BackendResult Json
  backend_result l none = unknown_result l
  backend_result l (some r) = r

  abbrev pub command_result :
      Module → CommandLease → BackendResult Json → String → CommandResult Json
  command_result m l r journal_digest = record {
    schema_version = command_result_schema;
    command_id = l.command_id;
    attempt_index = l.attempt_index;
    lease_token = l.lease_token;
    journal_digest = journal_digest;
    result_id = str_append l.command_id (str_append "-result-" (lib.decimal l.attempt_index));
    outcome = r.outcome;
    result = r.result;
    observation = r.observation;
    verifier_digest = m.verifier_digest;
  }

  abbrev pub result_message : Module → CommandLease → Envelope → List ℕ → Envelope
  result_message m l e payload = correlated l.command_id (
      new_envelope lib.sha m.host_id e.session_generation result
        (slashed "command-result/" l.command_id l.attempt_index) command_result_schema
        (str_append "command/" l.command_id) (to_uint64 l.attempt_index) payload)

  -- The result, once the journal has been asked to complete the record.
  abbrev pub answer :
      CommandLease
      → Envelope
      → BackendResult Json
      → String
      → Result journal.Error String × Disk (List ℕ)
      → World Json P
      → Option (Error E) × World Json P
  answer l e r journal_digest (err x, d) w = (some (journalled x), record w { disk = d })
  answer l e r journal_digest (ok s, d) w =
      elim (lib.marshal_result (command_result w.module_ l r journal_digest)) [
        | none ↦ (some marshal_failed, record w { disk = d })
        | some payload ↦ emit (result_message w.module_ l e payload) (record w { disk = d })
      ]

  abbrev pub finish :
      CommandLease
      → Envelope
      → BackendResult Json
      → String
      → Option Fault
      → World Json P
      → Option (Error E) × World Json P
  finish l e r journal_digest fault w = elim (lib.marshal_json r.result) [
    | none ↦ (some marshal_failed, w)
    | some payload ↦
        answer l e r journal_digest
          (complete lib.decimal lib.sha_text lib.sha lib.encode_record lib.decode_record
            l.command_id l.attempt_index (lib.sha payload) r.outcome fault w.disk)
          w
  ]

  -- The execution, once the journal has been asked to prepare the record.
  abbrev pub run_prepared :
      CommandLease
      → Envelope
      → Outside Json
      → Result journal.Error String × Disk (List ℕ)
      → World Json P
      → Option (Error E) × World Json P
  run_prepared l e out (err x, d) w = (some (journalled x), record w { disk = d })
  run_prepared l e out (ok journal_digest, d) w =
      finish l e (backend_result l out.execution) journal_digest out.complete_fault
        (record w { disk = d; executed = (l, d) ∷ w.executed })

  abbrev pub prepared :
      CommandLease → Option Fault → Disk (List ℕ) → Result journal.Error String × Disk (List ℕ)
  prepared l fault d =
      prepare lib.decimal lib.sha_text lib.sha lib.encode_record lib.decode_record l.command_id
        l.attempt_index l.command_payload_digest l.target_resource_id fault d

  abbrev pub handle_backend :
      CommandLease
      → Envelope
      → Outside Json
      → Option Backend
      → World Json P
      → Option (Error E) × World Json P
  handle_backend l e out none w = (some unsupported_command, w)
  handle_backend l e out (some b) w = run_prepared l e out (prepared l out.prepare_fault w.disk) w

  abbrev pub lease_differs : Module → CommandLease → Envelope → Bool
  lease_differs m l e =
      not (str_eq l.host_id m.host_id)
      || not (str_eq e.host_identity m.host_id)
      || not (to_uint64 l.session_generation == e.session_generation)
      || not (str_eq l.command_id e.correlation_key)

  abbrev pub handle_lease :
      Result contract.Error CommandLease
      → Envelope
      → Outside Json
      → World Json P
      → Option (Error E) × World Json P
  handle_lease (err x) e out w = (some (decoding x), w)
  handle_lease (ok l) e out w =
      if lease_differs w.module_ l e
      then (some lease_mismatch, w)
      else if not (str_eq (lib.sha l.command_payload) l.command_payload_digest)
      then (some payload_mismatch, w)
      else handle_backend l e out
          (find_backend (backend_key l.command_type l.command_schema_version) w.module_.backends)
          (seal w)

  abbrev pub unknown_observation :
      VerificationRequest → String → List (String × String) → Observation Json
  unknown_observation r reason evidence_ = record {
    state = "UNKNOWN";
    digest = lib.sha_text reason;
    generation = r.attempt_index;
    evidence = lib.object evidence_;
  }

  abbrev pub read_back : VerificationRequest → Option (Observation Json) → Observation Json
  read_back r none =
      unknown_observation r "verification_unknown" (("error_class", "read_back") ∷ [])
  read_back r (some o) = o

  abbrev pub observation_message : Module → VerificationRequest → Envelope → List ℕ → Envelope
  observation_message m r e payload = correlated r.command_id (
      new_envelope lib.sha m.host_id e.session_generation resync
        (slashed "verification-observation/" r.command_id r.attempt_index)
        verification_observation_schema (str_append "command/" r.command_id)
        (to_uint64 r.attempt_index) payload)

  abbrev pub respond :
      VerificationRequest
      → Envelope
      → Observation Json
      → String
      → World Json P
      → Option (Error E) × World Json P
  respond r e o journal_digest w =
      elim (lib.marshal_observation (record {
        schema_version = verification_observation_schema;
        command_id = r.command_id;
        attempt_index = r.attempt_index;
        target_resource_id = r.target_resource_id;
        command_payload_digest = r.command_payload_digest;
        observation = o;
        verifier_digest = w.module_.verifier_digest;
        journal_digest = journal_digest;
      })) [
        | none ↦ (some marshal_failed, w)
        | some payload ↦ emit (observation_message w.module_ r e payload) w
      ]

  abbrev pub verify :
      VerificationRequest
      → Envelope
      → Outside Json
      → Result journal.Error (CommandRecord × String)
      → World Json P
      → Option (Error E) × World Json P
  verify r e out (err not_found) w =
      respond r e
        (unknown_observation r "verification_journal_absent"
          (("error_class", "journal_evidence_unavailable") ∷ ("journal_state", "ABSENT") ∷ []))
        (lib.sha_text "journal_evidence_absent") w
  verify r e out (err x) w = (some (journalled x), w)
  verify r e out (ok (x, journal_digest)) w =
      respond r e (read_back r out.observation) journal_digest w

  abbrev pub observes : Option Backend → Bool
  observes none = false
  observes (some b) = b.observes

  abbrev pub request_differs : Module → VerificationRequest → Envelope → Bool
  request_differs m r e =
      not (str_eq r.host_id m.host_id)
      || not (str_eq e.host_identity m.host_id)
      || not (to_uint64 r.session_generation == e.session_generation)
      || not (str_eq r.command_id e.correlation_key)
      || not (to_uint64 r.attempt_index == e.sequence)

  abbrev pub handle_request :
      Result contract.Error VerificationRequest
      → Envelope
      → Outside Json
      → World Json P
      → Option (Error E) × World Json P
  handle_request (err x) e out w = (some (decoding x), w)
  handle_request (ok r) e out w =
      if request_differs w.module_ r e
      then (some request_mismatch, w)
      else if not (str_eq (lib.sha r.command_payload) r.command_payload_digest)
      then (some request_payload_mismatch, w)
      else if not (
          observes
            (find_backend (backend_key r.command_type r.command_schema_version) w.module_.backends))
      then (some not_observable, seal w)
      else verify r e out
          (evidence lib.decimal lib.sha_text lib.sha lib.encode_record lib.decode_record
            r.command_id r.attempt_index r.command_payload_digest r.target_resource_id
            w.disk.journal)
          (seal w)

  unfoldable pub handle : Envelope → Outside Json → World Json P → Option (Error E) × World Json P
  handle e out w =
      if not (stream_eq e.stream command)
      then (some unsupported_message, w)
      else if str_eq e.schema_version verification_request_schema
      then handle_request (decode_verification_request (lib.parse_request e.payload)) e out w
      else if not (str_eq e.schema_version command_lease_schema)
      then (some unsupported_schema, w)
      else handle_lease (decode_command_lease (lib.parse_lease e.payload)) e out w
