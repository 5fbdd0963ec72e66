-- ===== src/Agent/Generation.antt =====
-- internal/agent/sessiongeneration/ledger.go. `encode` and `decode` stand for the JSON text of a
-- record. The calls of the operating system that can fail are values of `Fault`; the first of them
-- that fails is an argument. The file current.json is the state beside the ledger.
pub mod Fresh
use kvm_infrastructure_manag.Base.{
  ℕ, ◌+◌, ◌-◌, ◌≡◌, String, Bool, true, false, ◌&&◌, ◌||◌, not, Option, none, some, List, [], ◌∷◌,
  ◌==◌, if◌then◌else◌, str_eq, Result, ok, err,
}
use kvm_infrastructure_manag.Base.Words.{u64_mod, add64}

pub data Error : Type 0 where
  incomplete system not_private identity_conflict closed_ledger exhausted not_next : Error

pub record GenerationRecord : Type 0 where
  pub schema : String
  pub host_id : String
  pub accepted_generation : ℕ

pub record Ledger : Type 0 where
  pub directory : String
  pub host_id : String
  pub accepted : ℕ
  pub closed : Bool

-- current.json: its text, and whether it is a regular file that only its owner can read.
pub record File (Text : Type 0) : Type 0 where
  pub private_regular : Bool
  pub text : Text

-- The calls before the rename, and those after it.
pub data Fault : Type 0 where
  marshal create_temp chmod write sync close_temp rename open_directory sync_directory : Fault

-- Whether the temporary file has got the name current.json.
abbrev pub renamed : Option Fault → Bool
renamed none = true
renamed (some open_directory) = true
renamed (some sync_directory) = true
renamed (some marshal) = false
renamed (some create_temp) = false
renamed (some chmod) = false
renamed (some write) = false
renamed (some sync) = false
renamed (some close_temp) = false
renamed (some rename) = false

-- A failing call of `Open`: `lstat` on the file, or any other.
pub data OpenFault : Type 0 where
  os_error lstat_error : OpenFault

unfoldable pub next : Ledger → Result Error ℕ
unfolding add64
next l =
    if l.closed
    then err closed_ledger
    else if l.accepted == u64_mod - 1
    then err exhausted
    else ok (add64 l.accepted 1)

-- The unlock and the close of the lock's file are outside the state.
unfoldable pub close : Ledger → Ledger
close l = if l.closed then l else record l { closed = true }

module _ {Text : Type 0} (encode : GenerationRecord → Text)
    (decode : Text → Option GenerationRecord) where
  -- The ledger over the record that was read.
  abbrev from_record : String → String → Option GenerationRecord → Result Error Ledger
  from_record directory host_id none = err identity_conflict
  from_record directory host_id (some r) =
      if not (str_eq r.schema "kim.agent.session-generation/v1") || not (str_eq r.host_id host_id)
      then err identity_conflict
      else ok (record {
        directory = directory;
        host_id = host_id;
        accepted = r.accepted_generation;
        closed = false;
      })

  abbrev fresh : String → String → Ledger
  fresh directory host_id = record {
    directory = directory;
    host_id = host_id;
    accepted = 0;
    closed = false;
  }

  -- The checks on the file, once every call before them has succeeded.
  abbrev from_file : String → String → Bool → Option (File Text) → Result Error Ledger
  from_file directory host_id stated none = ok (fresh directory host_id)
  from_file directory host_id stated (some file) =
      if not stated || not file.private_regular
      then err not_private
      else from_record directory host_id (decode file.text)

  abbrev opened : String → String → Option OpenFault → Option (File Text) → Result Error Ledger
  opened directory host_id (some os_error) file = err system
  opened directory host_id (some lstat_error) file = from_file directory host_id false file
  opened directory host_id none file = from_file directory host_id true file

  unfoldable pub open_ledger :
      String → String → Option OpenFault → Option (File Text) → Result Error Ledger
  open_ledger directory host_id fault file =
      if str_eq directory "" || str_eq host_id ""
      then err incomplete
      else opened directory host_id fault file

  -- What `CommitAccepted` writes.
  abbrev pub written : Ledger → ℕ → File Text
  written l generation = record {
    private_regular = true;
    text = encode (record {
      schema = "kim.agent.session-generation/v1";
      host_id = l.host_id;
      accepted_generation = generation;
    });
  }

  -- The error, the ledger and the file afterwards.
  unfoldable pub commit_accepted :
      Ledger → ℕ → Option Fault → Option (File Text) → Option Error × Ledger × Option (File Text)
  unfolding add64
  commit_accepted l generation fault file =
      if l.closed
      then (some closed_ledger, l, file)
      else if not (generation == add64 l.accepted 1)
      then (some not_next, l, file)
      else (
        elim fault [ none ↦ none | some f ↦ some system ],
        elim fault [ none ↦ record l { accepted = generation } | some f ↦ l ],
        if renamed fault then some (written l generation) else file,
      )
