-- ===== src/Execution/Module/Redelivery.antt =====
-- A command lease that comes again after its command is completed.
use kvm_infrastructure_manag.Base.{
  option_branches, ℕ, ◌≡◌, refl, ap, ◌∙◌, String, true, false, Option, some, List, ◌∷◌, str_eq,
  eq_iff, Result, ok, err,
}
use kvm_infrastructure_manag.Base.Maps.{find}
use kvm_infrastructure_manag.Session.Envelope.{Envelope, command, stream_eq}
use kvm_infrastructure_manag.Agent.Journal.{
  CommandRecord, Disk, Fault, prepare, record_key, record_digest, identity_incomplete,
  same_identity, started, complete,
}
use kvm_infrastructure_manag.Agent.Journal as journal
use kvm_infrastructure_manag.Execution.Contract.{
  CommandLease, decode_command_lease, command_lease_schema, verification_request_schema,
}
use kvm_infrastructure_manag.Execution.World.{
  Libraries, BackendResult, Backend, World, marshal_failed,
}
use kvm_infrastructure_manag.Execution.Module.{
  Outside, find_backend, backend_key, backend_result, seal, answer, finish, run_prepared, prepared,
  lease_differs, handle, emit, result_message, command_result,
}

module _ {Json P E : Type 0} (lib : Libraries Json) (publish : Envelope → P → Option E × P) where
  -- A message with a lease that passes the checks, for a command whose record is completed.
  pub record Redelivers (e : Envelope) (l : CommandLease) (w : World Json P) : Type 0 where
    pub stream : stream_eq e.stream command ≡ true
    pub schema : str_eq e.schema_version command_lease_schema ≡ true
    pub decoded : decode_command_lease (lib.parse_lease e.payload) ≡ ok l
    pub same : lease_differs lib publish w.module_ l e ≡ false
    pub payload : str_eq (lib.sha l.command_payload) l.command_payload_digest ≡ true
    pub backend : Backend
    pub registered :
        find_backend (backend_key l.command_type l.command_schema_version) w.module_.backends
        ≡ some backend
    pub identity :
        identity_incomplete l.command_id l.attempt_index l.command_payload_digest
          l.target_resource_id
        ≡ false
    pub not_closed : w.disk.journal.closed ≡ false
    pub entry : CommandRecord
    pub found :
        find
          (record_key lib.decimal lib.sha_text lib.sha lib.encode_record lib.decode_record
            l.command_id l.attempt_index)
          w.disk.journal.records
        ≡ some entry
    pub command_same :
        same_identity entry (
          started lib.decimal lib.sha_text lib.sha lib.encode_record lib.decode_record
            w.disk.journal.host_id l.command_id l.attempt_index l.command_payload_digest
            l.target_resource_id)
        ≡ true
    pub completed : str_eq entry.state "COMPLETED" ≡ true

  answer-executed :
      (l : CommandLease) (e : Envelope) (r : BackendResult Json) (jd : String)
      (x : Result journal.Error String × Disk (List ℕ)) (w : World Json P)
      → (answer lib publish l e r jd x w).1.executed ≡ w.executed
  answer-executed l e r jd (err y, d) w = refl
  answer-executed l e r jd (ok s, d) w =
      option_branches (λ z. z.1.executed ≡ w.executed)
        (lib.marshal_result (command_result lib publish w.module_ l r jd))
        (some marshal_failed, record w { disk = d })
        (λ p. emit lib publish (result_message lib publish w.module_ l e p) (record w { disk = d }))
        refl (λ p. refl)

  finish-executed :
      (l : CommandLease) (e : Envelope) (r : BackendResult Json) (jd : String)
      (fault : Option Fault) (w : World Json P)
      → (finish lib publish l e r jd fault w).1.executed ≡ w.executed
  finish-executed l e r jd fault w =
      option_branches (λ z. z.1.executed ≡ w.executed) (lib.marshal_json r.result)
        (some marshal_failed, w)
        (λ p.
          answer lib publish l e r jd
            (complete lib.decimal lib.sha_text lib.sha lib.encode_record lib.decode_record
              l.command_id l.attempt_index (lib.sha p) r.outcome fault w.disk)
            w)
        refl (λ p. answer-executed l e r jd _ w)

  Redelivers-prepared :
      (e : Envelope) (l : CommandLease) (fault : Option Fault) (w : World Json P)
      → (x : Redelivers e l w)
      → prepared lib publish l fault w.disk ≡ (
        ok (
            record_digest lib.decimal lib.sha_text lib.sha lib.encode_record lib.decode_record
              x.entry),
        w.disk,
      )
  unfolding prepare
  Redelivers-prepared e l fault w x = simp (x.identity, x.not_closed, x.found, x.command_same) refl

  Redelivers-handle :
      (e : Envelope) (l : CommandLease) (out : Outside Json) (w : World Json P)
      → Redelivers e l w
      → handle lib publish e out w
        ≡ run_prepared lib publish l e out
            (prepared lib publish l out.prepare_fault w.disk)
            (seal lib publish w)
  unfolding handle
  Redelivers-handle e l out w x =
      let other =
        ap (λ z. str_eq z verification_request_schema)
          ((eq_iff e.schema_version command_lease_schema).0 x.schema) in
      simp (x.stream, other, x.schema, x.decoded, x.same, x.payload, x.registered) refl

  -- A lease that comes again is executed again, although its command is completed.
  pub completed_again :
      (e : Envelope) (l : CommandLease) (out : Outside Json) (w : World Json P)
      → Redelivers e l w
      → (handle lib publish e out w).1.executed ≡ (l, w.disk) ∷ w.executed
  completed_again e l out w x =
      let s =
        record_digest lib.decimal lib.sha_text lib.sha lib.encode_record lib.decode_record
          x.entry in
      ap (λ z. z.1.executed) (Redelivers-handle e l out w x)
      ∙ ap (λ z. (run_prepared lib publish l e out z (seal lib publish w)).1.executed)
          (Redelivers-prepared e l out.prepare_fault w x)
      ∙ finish-executed l e (backend_result lib publish l out.execution) s out.complete_fault
          (record (seal lib publish w) { executed = (l, w.disk) ∷ w.executed })
