-- ===== src/Agent/Tests.antt =====
-- The theorems on the Agent's durable state at concrete inputs, and runs of its functions.
use kvm_infrastructure_manag.Base.{
  ℕ, ◌≤◌, ◌*◌, ◌^◌, ◌-◌, ◌≡◌, refl, String, false, Option, none, some, List, [], ◌∷◌, arith, All,
  ok, err, str_eq, ◌&&◌,
}
use kvm_infrastructure_manag.Base.Words.{u64_mod, add64}
use kvm_infrastructure_manag.Agent.Backoff.{delay, delay_le, min}
use kvm_infrastructure_manag.Agent.Generation.{
  GenerationRecord, Ledger, exhausted, sync_directory, next, close, open_ledger, commit_accepted,
  written,
}
use kvm_infrastructure_manag.Agent.Generation.Fresh.{
  Event, commit, restart, run, start, Above, proposal_fresh, commit_wraps, commit-open_ledger,
}
use kvm_infrastructure_manag.Base.Maps.{find}
use kvm_infrastructure_manag.Base.Ints.{ℤ, pos}
use kvm_infrastructure_manag.Agent.Journal.{
  CommandRecord, Disk, create_temp, conflict, prepare, complete, evidence, persist,
  result_incomplete, record_key,
}
use kvm_infrastructure_manag.Agent.Journal.Evidence.{
  Kept, Call, prepares, completes, closes, run as run_calls, run-Kept,
}
use kvm_infrastructure_manag.Agent.Journal.Repeat.{prepare_again, complete_again, prepare-evidence}

abbrev text : GenerationRecord → GenerationRecord
text r = r

abbrev parsed : GenerationRecord → Option GenerationRecord
parsed r = some r

parsed-text : (r : GenerationRecord) → parsed (text r) ≡ some r
parsed-text r = refl

abbrev ledger_at : ℕ → Ledger
ledger_at n = record { directory = "d"; host_id = "h"; accepted = n; closed = false }

-- The second commit fails after its rename, and the process restarts.
abbrev events : List Event
events = restart none ∷ commit 1 none ∷ commit 2 (some sync_directory) ∷ restart none ∷ []

proposal_fresh_example :
    All (Above 3) (run text parsed "d" "h" events (start text parsed "d" "h")).granted
unfolding next close open_ledger commit_accepted add64
proposal_fresh_example =
    proposal_fresh text parsed "d" "h" parsed-text events (ledger_at 2) 3
      (tt, (ground arith, (ground arith, (tt, tt)))) refl refl

granted_once : (run text parsed "d" "h" events (start text parsed "d" "h")).granted ≡ 1 ∷ []
unfolding next close open_ledger commit_accepted add64
granted_once = refl

commit_wraps_run :
    (next (ledger_at (u64_mod - 1)) ≡ err exhausted)
    × (commit_accepted text parsed (ledger_at (u64_mod - 1)) 0 none none
        ≡ (none, ledger_at 0, some (written text parsed (ledger_at (u64_mod - 1)) 0)))
commit_wraps_run = commit_wraps text parsed (ledger_at (u64_mod - 1)) none refl refl

commit-open_ledger_example :
    open_ledger text parsed "d" "h" none (some (written text parsed (ledger_at 4) 5))
    ≡ ok (ledger_at 5)
unfolding commit_accepted add64
commit-open_ledger_example =
    commit-open_ledger text parsed parsed-text (ledger_at 4) (ledger_at 5) 5 none none
      (some (written text parsed (ledger_at 4) 5)) refl refl refl

abbrev decimal : ℤ → String
decimal a = "1"

abbrev hash : String → String
hash s = s

abbrev json : CommandRecord → CommandRecord
json r = r

abbrev digest : CommandRecord → String
digest r = r.state

abbrev unjson : CommandRecord → Option CommandRecord
unjson r = some r

abbrev sha : String
sha = "0123456789abcdef0123456789abcdef0123456789abcdef0123456789abcdef"

abbrev sha_other : String
sha_other = "1123456789abcdef0123456789abcdef0123456789abcdef0123456789abcdef"

abbrev key : String
key = record_key decimal hash digest json unjson "c" (pos 1)

abbrev blank : Disk CommandRecord
blank = record {
  journal = record { directory = "d"; host_id = "h"; records = []; closed = false };
  files = [];
}

-- After `Prepare`, and after `Complete`.
abbrev begun : Disk CommandRecord
begun = run_calls decimal hash digest json unjson (prepares "c" (pos 1) sha "t" none ∷ []) blank

abbrev ended : Disk CommandRecord
ended =
    run_calls decimal hash digest json unjson (completes "c" (pos 1) sha "FAILED" none ∷ []) begun

-- A completion that fails at its temporary file, one that succeeds, and a close.
abbrev calls : List Call
calls =
    completes "c" (pos 1) sha "FAILED" (some create_temp)
    ∷ completes "c" (pos 1) sha_other "SUCCEEDED" none
    ∷ closes
    ∷ []

run-Kept_example :
    Kept
      (find key begun.journal.records)
      (find key (run_calls decimal hash digest json unjson calls begun).journal.records)
run-Kept_example = run-Kept decimal hash digest json unjson calls key begun

prepare_once_more :
    prepare decimal hash digest json unjson "c" (pos 1) sha "t" (some create_temp) begun
    ≡ (ok "STARTED", begun)
unfolding prepare complete persist
prepare_once_more =
    prepare_again decimal hash digest json unjson "c" (pos 1) sha "t" none (some create_temp) blank
      begun "STARTED" refl

prepare-evidence_example :
    (r : CommandRecord) × (evidence decimal hash digest json unjson "c"
        (pos 1)
        sha
        "t"
        begun.journal
      ≡ ok (r, "STARTED"))
unfolding prepare complete persist
prepare-evidence_example =
    prepare-evidence decimal hash digest json unjson "c" (pos 1) sha "t" none blank begun "STARTED"
      refl

complete_again_example :
    (complete decimal hash digest json unjson "c" (pos 1) sha "FAILED" none ended
      ≡ (ok "COMPLETED", ended))
    × ((rd out : String)
        → result_incomplete rd out ≡ false
        → str_eq sha rd && str_eq "FAILED" out ≡ false
        → complete decimal hash digest json unjson "c" (pos 1) rd out none ended
          ≡ (err conflict, ended))
unfolding prepare complete persist
complete_again_example =
    complete_again decimal hash digest json unjson "c" (pos 1) sha "FAILED" none none begun ended
      "COMPLETED" refl

-- The third attempt waits at most four times the base.
delay_le_example :
    (d : ℕ) × (delay (pos 100) (pos 1000) (pos 3) 7 ≡ ok d) × (d ≤ min (100 * 2 ^ 2) 1000)
delay_le_example = delay_le 100 1000 3 7 (ground arith) (ground arith) (ground arith)
