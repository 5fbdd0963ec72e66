-- ===== src/Agent/Spool/Tests.antt =====
-- The theorems on the spool at concrete inputs, and runs of its functions.
use kvm_infrastructure_manag.Base.{
  ℕ, ◌≡◌, refl, String, Bool, true, false, Option, none, some, List, [], ◌∷◌, All,
}
use kvm_infrastructure_manag.Base.Maps.{find}
use kvm_infrastructure_manag.Session.Envelope.{Envelope, Receipt, command, validate, validate_for}
use kvm_infrastructure_manag.Agent.Spool.{
  Config, Spool, SpoolRecord, Disk, sync_directory, system, write_new_atomic, acknowledge, enqueue,
}
use kvm_infrastructure_manag.Agent.Spool.Load.{open_spool}
use kvm_infrastructure_manag.Agent.Spool.Calls.{Call, offers, acknowledges, run}
use kvm_infrastructure_manag.Agent.Spool.Bounds.{IsBounded, entry_of}
use kvm_infrastructure_manag.Agent.Spool.Retention.{run_keeps, opened_bounds}
use kvm_infrastructure_manag.Agent.Spool.Retry.{Admits, IsFailure, unsynced, retry, enqueue_stuck}

abbrev payload_digest : List ℕ → String
payload_digest p = "digest"

abbrev hash : String → String
hash s = s

abbrev encode : SpoolRecord → List ℕ
encode r = r.envelope.payload

abbrev decode : List ℕ → Option SpoolRecord
decode b = none

abbrev always : String → Bool
always s = true

abbrev message : Envelope
message = record {
  host_identity = "h";
  session_generation = 3;
  stream = command;
  message_id = "m";
  schema_version = "v1";
  sequence_scope = "scope";
  sequence = 1;
  resource_generation = 0;
  payload_digest = "digest";
  correlation_key = "";
  payload = 1 ∷ 2 ∷ [];
}

abbrev receipt : String → Receipt
receipt disposition = record {
  host_identity = "h";
  accepted_session_generation = 3;
  stream = command;
  message_id = "m";
  sequence_scope = "scope";
  sequence = 1;
  payload_digest = "digest";
  disposition = disposition;
}

abbrev config : Config
config = record {
  directory = "d";
  host_identity = "h";
  max_entries = 2;
  max_bytes = 100;
  max_message_bytes = 10;
}

abbrev opened : Spool
opened = record {
  host_identity = "h";
  max_entries = 2;
  max_bytes = 100;
  max_message_bytes = 10;
  entries = [];
  closed = false;
}

abbrev fresh : Disk
fresh = record { spool = opened; files = [] }

abbrev holding : Disk
holding = run payload_digest hash encode decode (offers message none ∷ []) fresh

-- A receipt that does not release the message, a receipt for another one, the message again.
abbrev calls : List Call
calls =
    acknowledges (receipt "STALE") none
    ∷ acknowledges (record (receipt "ACCEPTED") { message_id = "other" }) none
    ∷ offers message (some sync_directory)
    ∷ []

opened_bounds_example :
    IsBounded (run payload_digest hash encode decode (offers message none ∷ calls) fresh).spool
unfolding open_spool
opened_bounds_example =
    opened_bounds payload_digest hash encode decode always always config none none [] [] opened
      (offers message none ∷ calls) refl

run_keeps_example :
    find "m" (run payload_digest hash encode decode calls holding).spool.entries
    ≡ some (entry_of payload_digest hash encode decode message)
unfolding enqueue validate write_new_atomic
run_keeps_example =
    run_keeps payload_digest hash encode decode calls "m"
      (entry_of payload_digest hash encode decode message) holding (refl, (refl, (tt, tt))) refl

-- A receipt that accepts the message releases it.
accepted :
    (run payload_digest hash encode decode
      (acknowledges (receipt "ACCEPTED") none ∷ [])
      holding).spool.entries
    ≡ []
unfolding enqueue validate write_new_atomic acknowledge validate_for
accepted = refl

admitted : Admits payload_digest hash encode decode message opened
unfolding validate
admitted = record { valid = refl; host = refl; not_closed = refl; absent = refl; room = refl }

enqueue_stuck_example :
    (enqueue payload_digest hash encode decode message (some sync_directory) fresh
      ≡ (some system, unsynced payload_digest hash encode decode message fresh))
    × All IsFailure
        (retry payload_digest hash encode decode message
          (none ∷ some sync_directory ∷ none ∷ [])
          (unsynced payload_digest hash encode decode message fresh)).0
    × ((retry payload_digest hash encode decode message
          (none ∷ some sync_directory ∷ none ∷ [])
          (unsynced payload_digest hash encode decode message fresh)).1
        ≡ unsynced payload_digest hash encode decode message fresh)
enqueue_stuck_example =
    enqueue_stuck payload_digest hash encode decode message (none ∷ some sync_directory ∷ none ∷ [])
      fresh admitted refl
