-- ===== src/Execution/Module/Order.antt =====
-- The order of what the execution module does: the journal, the backend, the result.
use kvm_infrastructure_manag.Base.{
  option_branches, ℕ, ◌≡◌, refl, String, true, not, Option, none, some, List, [], ◌∷◌,
  if◌then◌else◌, str_eq, Result, ok, err, All, arith,
}
use kvm_infrastructure_manag.Base.Ints.{ℤ}
use kvm_infrastructure_manag.Base.Words.{to_uint64}
use kvm_infrastructure_manag.Base.Maps.{find, both_branches}
use kvm_infrastructure_manag.Session.Envelope.{Envelope, result, command, stream_eq, new_envelope}
use kvm_infrastructure_manag.Agent.Journal.{
  CommandRecord, Disk, Fault, not_found, record_key, prepare, complete, evidence,
}
use kvm_infrastructure_manag.Agent.Journal as journal
use kvm_infrastructure_manag.Agent.Journal.Repeat.{prepare-evidence, complete-find}
use kvm_infrastructure_manag.Execution.Contract as contract
use kvm_infrastructure_manag.Execution.Contract.{
  CommandLease, VerificationRequest, VerificationObservation, Observation, decode_command_lease,
  decode_verification_request, command_lease_schema, verification_request_schema,
}
use kvm_infrastructure_manag.Execution.World.{
  Libraries, Error, BackendResult, Backend, World, unsupported_message, unsupported_schema,
  lease_mismatch, payload_mismatch, request_mismatch, request_payload_mismatch, not_observable,
  marshal_failed,
}
use kvm_infrastructure_manag.Execution.Module.{
  Outside, find_backend, backend_key, seal, emit, answer, finish, run_prepared, prepared,
  handle_backend, lease_differs, handle_lease, respond, verify, observes, request_differs,
  handle_request, handle, command_result, observation_message, backend_result, read_back,
}

module _ {Json P E : Type 0} (lib : Libraries Json) (publish : Envelope → P → Option E × P) where
  -- The journal has the record of the lease's command, attempt, digest and target, and the payload
  -- of the lease has this digest.
  pub record Recorded (x : CommandLease × Disk (List ℕ)) : Type 0 where
    pub entry : CommandRecord
    pub digest : String
    pub found :
        evidence lib.decimal lib.sha_text lib.sha lib.encode_record lib.decode_record x.0.command_id
          x.0.attempt_index x.0.command_payload_digest x.0.target_resource_id x.1.journal
        ≡ ok (entry, digest)
    pub payload : str_eq (lib.sha x.0.command_payload) x.0.command_payload_digest ≡ true

  -- If the message is a result, then the journal has a completed record of its command.
  abbrev pub Completed : Envelope × Disk (List ℕ) → Type 0
  Completed (m, d) =
      stream_eq m.stream result ≡ true
      → (a : ℤ) × (r : CommandRecord) × (find
            (record_key lib.decimal lib.sha_text lib.sha lib.encode_record lib.decode_record
              m.correlation_key a)
            d.journal.records
          ≡ some r)
        × (to_uint64 a ≡ m.sequence)
        × (str_eq r.state "COMPLETED" ≡ true)

  -- Every execution came after its record, and every result after its completion.
  abbrev pub IsOrdered : World Json P → Type 0
  IsOrdered w = All Recorded w.executed × All Completed w.published

  abbrev After : Option (Error E) × World Json P → Type 0
  After x = IsOrdered x.1

  emit-IsOrdered :
      (m : Envelope) (w : World Json P)
      → IsOrdered w
      → Completed (m, w.disk)
      → After (emit lib publish m w)
  emit-IsOrdered m w i c = (i.0, (c, i.1))

  answer-IsOrdered :
      (l : CommandLease) (e : Envelope) (r : BackendResult Json) (jd : String) (rd : String)
      (fault : Option Fault) (d : Disk (List ℕ)) (x : Result journal.Error String × Disk (List ℕ))
      (w : World Json P)
      → complete lib.decimal lib.sha_text lib.sha lib.encode_record lib.decode_record l.command_id
          l.attempt_index rd r.outcome fault d
        ≡ x
      → IsOrdered w
      → After (answer lib publish l e r jd x w)
  unfolding new_envelope
  answer-IsOrdered l e r jd rd fault d (err y, d') w h i = i
  answer-IsOrdered l e r jd rd fault d (ok s, d') w h i =
      let c =
        complete-find lib.decimal lib.sha_text lib.sha lib.encode_record lib.decode_record
          l.command_id l.attempt_index rd r.outcome fault d d' s h in
      option_branches After (lib.marshal_result (command_result lib publish w.module_ l r jd)) _ _ i
        (λ p. (i.0, ((λ k. (l.attempt_index, c.0, c.1, refl, c.2)), i.1)))

  finish-IsOrdered :
      (l : CommandLease) (e : Envelope) (r : BackendResult Json) (jd : String)
      (fault : Option Fault) (w : World Json P)
      → IsOrdered w
      → After (finish lib publish l e r jd fault w)
  finish-IsOrdered l e r jd fault w i =
      option_branches After (lib.marshal_json r.result) _ _ i
        (λ p. answer-IsOrdered l e r jd (lib.sha p) fault w.disk _ w refl i)

  run_prepared-IsOrdered :
      (l : CommandLease) (e : Envelope) (out : Outside Json)
      (x : Result journal.Error String × Disk (List ℕ)) (w : World Json P)
      → prepared lib publish l out.prepare_fault w.disk ≡ x
      → str_eq (lib.sha l.command_payload) l.command_payload_digest ≡ true
      → IsOrdered w
      → After (run_prepared lib publish l e out x w)
  run_prepared-IsOrdered l e out (err y, d) w h p i = i
  run_prepared-IsOrdered l e out (ok s, d) w h p i =
      let v =
        prepare-evidence lib.decimal lib.sha_text lib.sha lib.encode_record lib.decode_record
          l.command_id l.attempt_index l.command_payload_digest l.target_resource_id
          out.prepare_fault w.disk d s h in
      finish-IsOrdered l e (backend_result lib publish l out.execution) s out.complete_fault
        (record w { disk = d; executed = (l, d) ∷ w.executed })
        ((record { entry = v.0; digest = s; found = v.1; payload = p }, i.0), i.1)

  backend-IsOrdered :
      (l : CommandLease) (e : Envelope) (out : Outside Json) (b : Option Backend) (w : World Json P)
      → str_eq (lib.sha l.command_payload) l.command_payload_digest ≡ true
      → IsOrdered w
      → After (handle_backend lib publish l e out b w)
  backend-IsOrdered l e out none w p i = i
  backend-IsOrdered l e out (some b) w p i = run_prepared-IsOrdered l e out _ w refl p i

  handle_lease-IsOrdered :
      (x : Result contract.Error CommandLease) (e : Envelope) (out : Outside Json)
      (w : World Json P)
      → IsOrdered w
      → After (handle_lease lib publish x e out w)
  handle_lease-IsOrdered (err y) e out w i = i
  handle_lease-IsOrdered (ok l) e out w i =
      let b =
        find_backend (backend_key l.command_type l.command_schema_version) w.module_.backends in
      let x = handle_backend lib publish l e out b (seal lib publish w) in
      let p = str_eq (lib.sha l.command_payload) l.command_payload_digest in
      both_branches After (lease_differs lib publish w.module_ l e) (some lease_mismatch, w)
        (if not p then (some payload_mismatch, w) else x) (λ _. i)
        (λ _.
          both_branches After (not p) (some payload_mismatch, w) x (λ _. i)
            (λ h. backend-IsOrdered l e out b (seal lib publish w) (ground arith) i))

  respond-IsOrdered :
      (r : VerificationRequest) (e : Envelope) (o : Observation Json) (jd : String)
      (w : World Json P)
      → IsOrdered w
      → After (respond lib publish r e o jd w)
  unfolding new_envelope
  respond-IsOrdered r e o jd w i =
      option_branches After _ (some marshal_failed, w)
        (λ p. emit lib publish (observation_message lib publish w.module_ r e p) w) i
        (λ p. (i.0, ((λ k. ground arith), i.1)))

  verify-IsOrdered :
      (r : VerificationRequest) (e : Envelope) (out : Outside Json)
      (x : Result journal.Error (CommandRecord × String)) (w : World Json P)
      → IsOrdered w
      → After (verify lib publish r e out x w)
  verify-IsOrdered r e out (ok (y, s)) w i =
      respond-IsOrdered r e (read_back lib publish r out.observation) s w i
  verify-IsOrdered r e out (err not_found) w i = respond-IsOrdered r e _ _ w i
  verify-IsOrdered r e out (err y) w i = i

  handle_request-IsOrdered :
      (x : Result contract.Error VerificationRequest) (e : Envelope) (out : Outside Json)
      (w : World Json P)
      → IsOrdered w
      → After (handle_request lib publish x e out w)
  handle_request-IsOrdered (err y) e out w i = i
  handle_request-IsOrdered (ok r) e out w i =
      let o =
        observes lib publish
          (find_backend (backend_key r.command_type r.command_schema_version) w.module_.backends) in
      let x =
        evidence lib.decimal lib.sha_text lib.sha lib.encode_record lib.decode_record r.command_id
          r.attempt_index r.command_payload_digest r.target_resource_id w.disk.journal in
      let p = str_eq (lib.sha r.command_payload) r.command_payload_digest in
      let v = verify lib publish r e out x (seal lib publish w) in
      let g = if not o then (some not_observable, seal lib publish w) else v in
      both_branches After (request_differs lib publish w.module_ r e) (some request_mismatch, w)
        (if not p then (some request_payload_mismatch, w) else g) (λ _. i)
        (λ _.
          both_branches After (not p) (some request_payload_mismatch, w) g (λ _. i)
            (λ _.
              both_branches After (not o) (some not_observable, seal lib publish w) v (λ _. i)
                (λ _. verify-IsOrdered r e out x (seal lib publish w) i)))

  handle-IsOrdered :
      (e : Envelope) (out : Outside Json) (w : World Json P)
      → IsOrdered w
      → After (handle lib publish e out w)
  unfolding handle
  handle-IsOrdered e out w i =
      let l = handle_lease lib publish (decode_command_lease (lib.parse_lease e.payload)) e out w in
      let r =
        handle_request lib publish (decode_verification_request (lib.parse_request e.payload)) e out
          w in
      let schema = not (str_eq e.schema_version command_lease_schema) in
      let x = if schema then (some unsupported_schema, w) else l in
      let request = str_eq e.schema_version verification_request_schema in
      both_branches After (not (stream_eq e.stream command)) (some unsupported_message, w)
        (if request then r else x) (λ _. i)
        (λ _.
          both_branches After request r x
            (λ _.
              handle_request-IsOrdered (decode_verification_request (lib.parse_request e.payload)) e
                out w i)
            (λ _.
              both_branches After schema (some unsupported_schema, w) l (λ _. i)
                (λ _.
                  handle_lease-IsOrdered (decode_command_lease (lib.parse_lease e.payload)) e out w
                    i)))

  abbrev pub run : List (Envelope × Outside Json) → World Json P → World Json P
  run [] w = w
  run ((e, out) ∷ xs) w = run xs (handle lib publish e out w).1

  -- Whatever messages the module handles, whatever the backends do and whichever calls of the system
  -- fail: each execution comes after the journal has the record of its command, attempt, digest and
  -- target, and its payload has this digest; and each result that is published comes after the
  -- journal has a completed record of its command.
  pub run-IsOrdered :
      (xs : List (Envelope × Outside Json)) (w : World Json P) → IsOrdered w → IsOrdered (run xs w)
  run-IsOrdered [] w i = i
  run-IsOrdered ((e, out) ∷ xs) w i =
      run-IsOrdered xs (handle lib publish e out w).1 (handle-IsOrdered e out w i)

  -- The disk and the executions are as before.
  abbrev pub Reads : World Json P → Option (Error E) × World Json P → Type 0
  Reads w x = (x.1.disk ≡ w.disk) × (x.1.executed ≡ w.executed)

  respond-Reads :
      (r : VerificationRequest) (e : Envelope) (o : Observation Json) (jd : String)
      (w : World Json P)
      → Reads w (respond lib publish r e o jd w)
  respond-Reads r e o jd w =
      option_branches (Reads w) _ (some marshal_failed, w)
        (λ p. emit lib publish (observation_message lib publish w.module_ r e p) w) (refl, refl)
        (λ p. (refl, refl))

  verify-Reads :
      (r : VerificationRequest) (e : Envelope) (out : Outside Json)
      (x : Result journal.Error (CommandRecord × String)) (w : World Json P)
      → Reads w (verify lib publish r e out x w)
  verify-Reads r e out (ok (y, s)) w =
      respond-Reads r e (read_back lib publish r out.observation) s w
  verify-Reads r e out (err not_found) w = respond-Reads r e _ _ w
  verify-Reads r e out (err y) w = (refl, refl)

  request-Reads :
      (x : Result contract.Error VerificationRequest) (e : Envelope) (out : Outside Json)
      (w : World Json P)
      → Reads w (handle_request lib publish x e out w)
  request-Reads (err y) e out w = (refl, refl)
  request-Reads (ok r) e out w =
      let o =
        observes lib publish
          (find_backend (backend_key r.command_type r.command_schema_version) w.module_.backends) in
      let x =
        evidence lib.decimal lib.sha_text lib.sha lib.encode_record lib.decode_record r.command_id
          r.attempt_index r.command_payload_digest r.target_resource_id w.disk.journal in
      let p = str_eq (lib.sha r.command_payload) r.command_payload_digest in
      let v = verify lib publish r e out x (seal lib publish w) in
      let g = if not o then (some not_observable, seal lib publish w) else v in
      both_branches (Reads w) (request_differs lib publish w.module_ r e) (some request_mismatch, w)
        (if not p then (some request_payload_mismatch, w) else g) (λ _. (refl, refl))
        (λ _.
          both_branches (Reads w) (not p) (some request_payload_mismatch, w) g (λ _. (refl, refl))
            (λ _.
              both_branches (Reads w) (not o) (some not_observable, seal lib publish w) v
                (λ _. (refl, refl)) (λ _. verify-Reads r e out x (seal lib publish w))))

  -- A message with the schema of a verification request leaves the journal and its directory as they
  -- are, and executes nothing.
  pub verification-Reads :
      (e : Envelope) (out : Outside Json) (w : World Json P)
      → str_eq e.schema_version verification_request_schema ≡ true
      → Reads w (handle lib publish e out w)
  unfolding handle
  verification-Reads e out w h =
      let r =
        handle_request lib publish (decode_verification_request (lib.parse_request e.payload)) e out
          w in
      rw h (
        both_branches (Reads w) (not (stream_eq e.stream command)) (some unsupported_message, w) r
          (λ _. (refl, refl))
          (λ _. request-Reads (decode_verification_request (lib.parse_request e.payload)) e out w))
