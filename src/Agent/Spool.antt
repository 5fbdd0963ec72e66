-- ===== src/Agent/Spool.antt =====
-- internal/agent/spool/spool.go. The entries are a list with one entry for a message identity, and
-- the queue directory is a list with one entry for a file name. Parameters stand for code that is
-- not in the repository: `payload_digest` and `hash` for SHA-256, `encode` and `decode` for the JSON
-- text. The calls of the operating system that can fail are values of the types of faults; the first
-- of them that fails is an argument. Temporary files, which `load` removes, are left out.
pub mod Load
pub mod Calls
pub mod Bounds
pub mod Retention
pub mod Retry
mod Tests
use Prim.Native.String.{◌++◌ as str_append}
use kvm_infrastructure_manag.Base.{
  ℕ, ◌+◌, ◌≡◌, String, Bool, true, false, ◌&&◌, ◌||◌, not, Option, none, some, List, [], ◌∷◌, ◌++◌,
  ltb, leb, ◌==◌, if◌then◌else◌, str_eq, length, Result, ok, err,
}
use kvm_infrastructure_manag.Base.Maps.{find, put, remove}
use kvm_infrastructure_manag.Base.Sort.{sort}
use kvm_infrastructure_manag.Base.Text.{str_lt}
use kvm_infrastructure_manag.Session.Envelope.{Envelope, Receipt, validate, validate_for, stream_eq}
use kvm_infrastructure_manag.Session.Error as session

pub data Error : Type 0 where
  incomplete_config directory_not_private locked full empty message_conflict non_releasing : Error
  closed_spool host_mismatch system exists unexpected_entry not_private undecodable : Error
  version_mismatch filename_mismatch : Error
  -- An error of the session's validation.
  invalid : session.Error → Error

pub record Config : Type 0 where
  pub directory : String
  pub host_identity : String
  pub max_entries : ℕ
  pub max_bytes : ℕ
  pub max_message_bytes : ℕ

pub record Stats : Type 0 where
  pub queued_entries : ℕ
  pub queued_bytes : ℕ
  pub max_entries : ℕ
  pub max_bytes : ℕ

pub record SpoolRecord : Type 0 where
  pub version : String
  pub envelope : Envelope

pub record Entry : Type 0 where
  pub path : String
  pub envelope : Envelope
  pub size : ℕ

pub record Spool : Type 0 where
  pub host_identity : String
  pub max_entries : ℕ
  pub max_bytes : ℕ
  pub max_message_bytes : ℕ
  pub entries : List (String × Entry)
  pub closed : Bool

-- An entry of the queue directory: whether it is a directory, whether it is a regular file that only
-- its owner can read, and its bytes.
pub record File : Type 0 where
  pub is_directory : Bool
  pub private_regular : Bool
  pub bytes : List ℕ

-- The spool, and the files of its queue directory.
pub record Disk : Type 0 where
  pub spool : Spool
  pub files : List (String × File)

-- The calls of `writeNewAtomic`, in their order.
pub data Fault : Type 0 where
  create_temp chmod write sync close_temp lstat rename open_directory sync_directory : Fault

-- The calls of `Acknowledge`, in their order.
pub data RemoveFault : Type 0 where
  remove_file open_queue sync_queue : RemoveFault

abbrev pub total_size : List (String × Entry) → ℕ
total_size [] = 0
total_size ((k, x) ∷ rest) = x.size + total_size rest

unfoldable pub stats : Spool → Stats
stats s = record {
  queued_entries = length s.entries;
  queued_bytes = total_size s.entries;
  max_entries = s.max_entries;
  max_bytes = s.max_bytes;
}

abbrev pub same_message : Envelope → Envelope → Bool
same_message a b =
    str_eq a.host_identity b.host_identity
    && stream_eq a.stream b.stream
    && str_eq a.message_id b.message_id
    && str_eq a.schema_version b.schema_version
    && str_eq a.sequence_scope b.sequence_scope
    && a.sequence == b.sequence
    && a.resource_generation == b.resource_generation
    && str_eq a.payload_digest b.payload_digest
    && str_eq a.correlation_key b.correlation_key

abbrev pub precedes : Entry → Entry → Bool
precedes a b =
    if not (str_eq a.envelope.sequence_scope b.envelope.sequence_scope)
    then str_lt a.envelope.sequence_scope b.envelope.sequence_scope
    else if not (a.envelope.sequence == b.envelope.sequence)
    then ltb a.envelope.sequence b.envelope.sequence
    else str_lt a.envelope.message_id b.envelope.message_id

abbrev pub items : List (String × Entry) → List Entry
items [] = []
items ((k, x) ∷ rest) = x ∷ items rest

abbrev pub envelopes : List Entry → List Envelope
envelopes [] = []
envelopes (x ∷ rest) = x.envelope ∷ envelopes rest

unfoldable pub pending : Spool → Result Error (List Envelope)
pending s = if s.closed then err closed_spool else ok (envelopes (sort precedes (items s.entries)))

unfoldable pub close : Spool → Spool
close s = if s.closed then s else record s { closed = true }

-- A private regular file with these bytes.
abbrev pub file_of : List ℕ → File
file_of payload = record { is_directory = false; private_regular = true; bytes = payload }

-- The error of a write, given whether the file is there already, and whether the file is written.
abbrev pub write_error : Option Fault → Bool → Option Error
write_error (some create_temp) there = some system
write_error (some chmod) there = some system
write_error (some write) there = some system
write_error (some sync) there = some system
write_error (some close_temp) there = some system
write_error (some lstat) there = some system
write_error (some rename) there = if there then some exists else some system
write_error (some open_directory) there = if there then some exists else some system
write_error (some sync_directory) there = if there then some exists else some system
write_error none there = if there then some exists else none

abbrev pub is_renamed : Option Fault → Bool → Bool
is_renamed (some create_temp) there = false
is_renamed (some chmod) there = false
is_renamed (some write) there = false
is_renamed (some sync) there = false
is_renamed (some close_temp) there = false
is_renamed (some lstat) there = false
is_renamed (some rename) there = false
is_renamed (some open_directory) there = not there
is_renamed (some sync_directory) there = not there
is_renamed none there = not there

abbrev pub is_there : Option File → Bool
is_there none = false
is_there (some f) = true

-- The error of `writeNewAtomic`, and the files afterwards.
unfoldable pub write_new_atomic :
    String → List ℕ → Option Fault → List (String × File) → Option Error × List (String × File)
write_new_atomic name payload fault files =
    let there = is_there (find name files) in
    (
      write_error fault there,
      if is_renamed fault there then put name (file_of payload) files else files,
    )

-- The error of `Acknowledge` from `os.Remove` on, and whether the file is removed.
abbrev pub remove_error : Option RemoveFault → Bool → Option Error
remove_error none there = if there then none else some system
remove_error (some f) there = some system

abbrev pub is_removed : Option RemoveFault → Bool
is_removed none = true
is_removed (some remove_file) = false
is_removed (some open_queue) = true
is_removed (some sync_queue) = true

-- `Acknowledge` from `os.Remove` on.
abbrev pub release : Receipt → Entry → Option RemoveFault → Disk → Option Error × Disk
release receipt x fault d =
    let error = remove_error fault (is_there (find x.path d.files)) in
    (
      error,
      record {
        spool = elim error [
          | none ↦ record d.spool { entries = remove receipt.message_id d.spool.entries }
          | some e ↦ d.spool
        ];
        files = if is_removed fault then remove x.path d.files else d.files;
      },
    )

-- `Acknowledge` once the receipt has been compared with the message.
abbrev pub acknowledge_compared :
    Option session.Error → Receipt → Entry → Option RemoveFault → Disk → Option Error × Disk
acknowledge_compared (some e) receipt x fault d = (some (invalid e), d)
acknowledge_compared none receipt x fault d =
    if not (str_eq receipt.disposition "ACCEPTED")
    then (some non_releasing, d)
    else release receipt x fault d

abbrev pub acknowledge_found :
    Option Entry → Receipt → Option RemoveFault → Disk → Option Error × Disk
acknowledge_found none receipt fault d = (some empty, d)
acknowledge_found (some x) receipt fault d =
    acknowledge_compared (validate_for receipt x.envelope) receipt x fault d

unfoldable pub acknowledge : Receipt → Option RemoveFault → Disk → Option Error × Disk
acknowledge receipt fault d =
    if d.spool.closed
    then (some closed_spool, d)
    else acknowledge_found (find receipt.message_id d.spool.entries) receipt fault d

-- `cancelled` is the cause of a cancelled context.
unfoldable pub handle_receipt :
    Option Error → Receipt → Option RemoveFault → Disk → Option Error × Disk
handle_receipt (some e) receipt fault d = (some e, d)
handle_receipt none receipt fault d =
    let (error, d') = acknowledge receipt fault d in
    (elim error [ none ↦ none | some non_releasing ↦ none | some e ↦ some e ], d')

-- `decimal` stands for the text of a uint64, and `sum` for the hexadecimal SHA-256 of a text.
unfoldable pub digest_text : (ℕ → String) → List Envelope → String
digest_text decimal [] = ""
digest_text decimal (e ∷ es) = str_append e.message_id (
    str_append "\0" (
      str_append e.payload_digest (
        str_append "\0" (
          str_append e.sequence_scope (
            str_append "\0"
              (str_append (decimal e.sequence) (str_append "\n" (digest_text decimal es))))))))

unfoldable pub spool_digest : (ℕ → String) → (String → String) → Spool → Result Error String
unfolding pending digest_text
spool_digest decimal sum s = elim (pending s) [
  | err e ↦ err e
  | ok es ↦ ok (sum (digest_text decimal es))
]

module _ (payload_digest : List ℕ → String) (hash : String → String) (encode : SpoolRecord → List ℕ)
    (decode : List ℕ → Option SpoolRecord) where
  abbrev pub message_filename : String → String
  message_filename message_id = str_append (hash message_id) ".json"

  -- The line of a message in its file.
  abbrev pub line_of : Envelope → List ℕ
  line_of e = encode (record { version = "kim.agent.spool/v1"; envelope = e }) ++ 10 ∷ []

  -- The spool and the files after a write.
  abbrev pub recorded : Envelope → Option Error × List (String × File) → Disk → Option Error × Disk
  recorded e (error, files) d =
      let size = length (line_of e) in
      (
        error,
        record {
          spool = elim error [
            | some x ↦ d.spool
            | none ↦ record d.spool {
              entries =
                  put e.message_id
                    (record { path = message_filename e.message_id; envelope = e; size = size })
                    d.spool.entries;
            }
          ];
          files = files;
        },
      )

  -- The write of a new entry, once there is room for it.
  abbrev pub store : Envelope → Option Fault → Disk → Option Error × Disk
  store e fault d =
      recorded e (write_new_atomic (message_filename e.message_id) (line_of e) fault d.files) d

  abbrev pub enqueue_found : Option Entry → Envelope → Option Fault → Disk → Option Error × Disk
  enqueue_found (some x) e fault d =
      if same_message x.envelope e then (none, d) else (some message_conflict, d)
  enqueue_found none e fault d =
      if ltb d.spool.max_entries (length d.spool.entries + 1)
        || ltb d.spool.max_bytes (total_size d.spool.entries + length (line_of e))
      then (some full, d)
      else store e fault d

  -- `Enqueue` once the message has been validated.
  abbrev pub enqueue_validated :
      Option session.Error → Envelope → Option Fault → Disk → Option Error × Disk
  enqueue_validated (some x) e fault d = (some (invalid x), d)
  enqueue_validated none e fault d =
      if not (str_eq e.host_identity d.spool.host_identity)
      then (some host_mismatch, d)
      else if d.spool.closed
      then (some closed_spool, d)
      else enqueue_found (find e.message_id d.spool.entries) e fault d

  unfoldable pub enqueue : Envelope → Option Fault → Disk → Option Error × Disk
  enqueue e fault d =
      enqueue_validated (validate payload_digest e d.spool.max_message_bytes) e fault d
