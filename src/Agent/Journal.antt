-- ===== src/Agent/Journal.antt =====
-- internal/agent/executionjournal/journal.go. The records are a list with one entry for a key, and
-- the directory is a list with one entry for a file name. Parameters stand for code that is not in
-- the repository: `decimal` for the text of an `int`, `hash` for the hexadecimal SHA-256 of a text,
-- `encode` and `decode` for the JSON text. The calls of the operating system that can fail are values
-- of `Fault`; the first of them that fails is an argument. Temporary files, which `load`
-- skips, are left out.
pub mod Evidence
pub mod Repeat
use Prim.Native.String.{◌++◌ as str_append, slice}
use kvm_infrastructure_manag.Base.{
  ℕ, ◌+◌, ◌≡◌, String, Bool, true, false, ◌&&◌, ◌||◌, not, Option, none, some, List, [], ◌∷◌, ltb,
  ◌==◌, if◌then◌else◌, str_eq, Result, ok, err,
}
use kvm_infrastructure_manag.Base.Maps.{find, put, find-put, both_branches}
use kvm_infrastructure_manag.Base.Ints.{ℤ, eq_int, lt_int, pos}
use kvm_infrastructure_manag.Base.Sort.{sort}
use kvm_infrastructure_manag.Base.Text.{str_lt, text_bytes}

pub data Error : Type 0 where
  incomplete_identity incomplete_result closed_journal conflict not_found system : Error
  incomplete unexpected_entry not_private unreadable identity_mismatch : Error

pub record CommandRecord : Type 0 where
  pub schema_version : String
  pub host_id : String
  pub command_id : String
  pub attempt_index : ℤ
  pub command_digest : String
  pub target_id : String
  pub state : String
  pub result_digest : String
  pub outcome : String

-- The calls of `persist` before the rename, and those after it.
pub data Fault : Type 0 where
  marshal create_temp chmod write sync close_temp rename open_directory sync_directory
        close_directory :
      Fault

-- Whether the temporary file has got its name.
abbrev pub renamed : Option Fault → Bool
renamed none = true
renamed (some open_directory) = true
renamed (some sync_directory) = true
renamed (some close_directory) = true
renamed (some marshal) = false
renamed (some create_temp) = false
renamed (some chmod) = false
renamed (some write) = false
renamed (some sync) = false
renamed (some close_temp) = false
renamed (some rename) = false

abbrev pub failure : Option Fault → Option Error
failure none = none
failure (some f) = some system

pub record Journal : Type 0 where
  pub directory : String
  pub host_id : String
  pub records : List (String × CommandRecord)
  pub closed : Bool

-- A directory entry: whether it is a directory, whether it is a regular file that only its owner can
-- read, and its text.
pub record File (Text : Type 0) : Type 0 where
  pub is_directory : Bool
  pub private_regular : Bool
  pub text : Text

-- The journal, and the files of its directory.
pub record Disk (Text : Type 0) : Type 0 where
  pub journal : Journal
  pub files : List (String × File Text)

abbrev pub values : List (String × CommandRecord) → List CommandRecord
values [] = []
values ((k, r) ∷ rest) = r ∷ values rest

abbrev pub precedes : CommandRecord → CommandRecord → Bool
precedes a b =
    if not (str_eq a.command_id b.command_id)
    then str_lt a.command_id b.command_id
    else lt_int a.attempt_index b.attempt_index

unfoldable pub sorted_records : Journal → Result Error (List CommandRecord)
sorted_records j = if j.closed then err closed_journal else ok (sort precedes (values j.records))

unfoldable pub close : Journal → Journal
close j = if j.closed then j else record j { closed = true }

abbrev pub outcome_known : String → Bool
outcome_known o = str_eq o "SUCCEEDED" || str_eq o "FAILED" || str_eq o "UNKNOWN"

abbrev pub identity_incomplete : String → ℤ → String → String → Bool
identity_incomplete command_id attempt_index command_digest target_id =
    str_eq command_id ""
    || lt_int attempt_index (pos 1)
    || not (text_bytes command_digest == 64)
    || str_eq target_id ""

abbrev pub result_incomplete : String → String → Bool
result_incomplete result_digest outcome =
    not (text_bytes result_digest == 64) || not (outcome_known outcome)

abbrev pub same_identity : CommandRecord → CommandRecord → Bool
same_identity a b =
    str_eq a.command_id b.command_id
    && eq_int a.attempt_index b.attempt_index
    && str_eq a.command_digest b.command_digest
    && str_eq a.target_id b.target_id

abbrev pub completed : CommandRecord → String → String → CommandRecord
completed r result_digest outcome = record r {
  state = "COMPLETED";
  result_digest = result_digest;
  outcome = outcome;
}

module _ {Text : Type 0} (decimal : ℤ → String) (hash : String → String) (digest : Text → String)
    (encode : CommandRecord → Text) (decode : Text → Option CommandRecord) where
  abbrev pub record_key : String → ℤ → String
  record_key command_id attempt_index =
      str_append command_id (str_append "\0" (decimal attempt_index))

  abbrev pub record_filename : String → ℤ → String
  record_filename command_id attempt_index =
      str_append (hash (record_key command_id attempt_index)) ".json"

  abbrev pub record_digest : CommandRecord → String
  record_digest r = digest (encode r)

  abbrev pub file_of : CommandRecord → File Text
  file_of r = record { is_directory = false; private_regular = true; text = encode r }

  -- The directory after `persist`.
  unfoldable pub persist :
      CommandRecord → Option Fault → List (String × File Text) → List (String × File Text)
  persist r fault files =
      if renamed fault
      then put (record_filename r.command_id r.attempt_index) (file_of r) files
      else files

  -- The write of a record, and its digest; the map changes only if the write has succeeded.
  abbrev pub store :
      String → CommandRecord → Option Fault → Disk Text → Result Error String × Disk Text
  store key r none d = (
    ok (record_digest r),
    record {
      journal = record d.journal { records = put key r d.journal.records };
      files = persist r none d.files;
    },
  )
  store key r (some f) d = (err system, record d { files = persist r (some f) d.files })

  abbrev pub started : String → String → ℤ → String → String → CommandRecord
  started host_id command_id attempt_index command_digest target_id = record {
    schema_version = "kim.agent.execution-journal/v1";
    host_id = host_id;
    command_id = command_id;
    attempt_index = attempt_index;
    command_digest = command_digest;
    target_id = target_id;
    state = "STARTED";
    result_digest = "";
    outcome = "";
  }

  -- Prepare, once the arguments are complete and the journal is open.
  abbrev pub prepare_found :
      String
      → Option CommandRecord
      → CommandRecord
      → Option Fault
      → Disk Text
      → Result Error String × Disk Text
  prepare_found key none r fault d = store key r fault d
  prepare_found key (some existing) r fault d =
      if not (same_identity existing r) then (err conflict, d) else (ok (record_digest existing), d)

  unfoldable pub prepare :
      String → ℤ → String → String → Option Fault → Disk Text → Result Error String × Disk Text
  prepare command_id attempt_index command_digest target_id fault d =
      if identity_incomplete command_id attempt_index command_digest target_id
      then (err incomplete_identity, d)
      else if d.journal.closed
      then (err closed_journal, d)
      else prepare_found (record_key command_id attempt_index)
          (find (record_key command_id attempt_index) d.journal.records)
          (started d.journal.host_id command_id attempt_index command_digest target_id) fault d

  abbrev pub complete_found :
      String
      → Option CommandRecord
      → String
      → String
      → Option Fault
      → Disk Text
      → Result Error String × Disk Text
  complete_found key none result_digest outcome fault d = (err not_found, d)
  complete_found key (some r) result_digest outcome fault d =
      if str_eq r.state "COMPLETED"
      then (if not (str_eq r.result_digest result_digest) || not (str_eq r.outcome outcome)
          then (err conflict, d)
          else (ok (record_digest r), d))
      else store key (completed r result_digest outcome) fault d

  unfoldable pub complete :
      String → ℤ → String → String → Option Fault → Disk Text → Result Error String × Disk Text
  complete command_id attempt_index result_digest outcome fault d =
      if result_incomplete result_digest outcome
      then (err incomplete_result, d)
      else if d.journal.closed
      then (err closed_journal, d)
      else complete_found (record_key command_id attempt_index)
          (find (record_key command_id attempt_index) d.journal.records) result_digest outcome fault
          d

  abbrev pub evidence_found :
      Option CommandRecord → String → String → Result Error (CommandRecord × String)
  evidence_found none command_digest target_id = err not_found
  evidence_found (some r) command_digest target_id =
      if not (str_eq r.command_digest command_digest) || not (str_eq r.target_id target_id)
      then err conflict
      else ok (r, record_digest r)

  unfoldable pub evidence :
      String → ℤ → String → String → Journal → Result Error (CommandRecord × String)
  evidence command_id attempt_index command_digest target_id j =
      if j.closed
      then err closed_journal
      else evidence_found (find (record_key command_id attempt_index) j.records) command_digest
          target_id

  -- What `load` makes of the text of a file.
  abbrev load_record :
      String → String → Option CommandRecord → Result Error (String × CommandRecord)
  load_record host_id name none = err unreadable
  load_record host_id name (some r) =
      if not (str_eq r.schema_version "kim.agent.execution-journal/v1")
        || not (str_eq r.host_id host_id)
        || not (str_eq name (record_filename r.command_id r.attempt_index))
      then err identity_mismatch
      else ok (record_key r.command_id r.attempt_index, r)

  -- `extension` stands for `filepath.Ext`, and `readable` for the success of `ReadFile`.
  module _ (extension : String → String) (readable : String → Bool) where
    -- The key and the record of a file.
    abbrev pub load_file : String → String → File Text → Result Error (String × CommandRecord)
    load_file host_id name f =
        if f.is_directory || not (str_eq (extension name) ".json")
        then err unexpected_entry
        else if not f.private_regular
        then err not_private
        else if not (readable name)
        then err system
        else load_record host_id name (decode f.text)

    abbrev pub skipped : String → Bool
    skipped name =
        str_eq name "lock" || (ltb 5 (text_bytes name) && str_eq (slice name 0 5) ".tmp-")

    abbrev pub with_loaded :
        Result Error (String × CommandRecord)
        → List (String × CommandRecord)
        → Result Error (List (String × CommandRecord))
    with_loaded (err e) records = err e
    with_loaded (ok (k, r)) records = ok (put k r records)

    unfoldable pub load :
        String
        → List (String × File Text)
        → List (String × CommandRecord)
        → Result Error (List (String × CommandRecord))
    load host_id [] records = ok records
    load host_id ((name, f) ∷ files) records =
        let rest = load host_id files in
        if skipped name
        then rest records
        else elim (with_loaded (load_file host_id name f) records) [
          | err e ↦ err e
          | ok rs ↦ rest rs
        ]

    -- `failed` is a failure of a call before `load`, or of `ReadDir`.
    unfoldable pub open_journal :
        String → String → Bool → List (String × File Text) → Result Error Journal
    unfolding load
    open_journal directory host_id failed files =
        if str_eq directory "" || str_eq host_id ""
        then err incomplete
        else if failed
        then err system
        else elim (load host_id files []) [
          | err e ↦ err e
          | ok rs ↦
              ok (record { directory = directory; host_id = host_id; records = rs; closed = false })
        ]
