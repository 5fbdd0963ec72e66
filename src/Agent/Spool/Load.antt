-- ===== src/Agent/Spool/Load.antt =====
-- internal/agent/spool/spool.go: `load` and `Open`.
use kvm_infrastructure_manag.Base.{
  ℕ, String, Bool, false, ◌||◌, not, Option, none, some, List, [], ◌∷◌, ltb, if◌then◌else◌, str_eq,
  length, Result, ok, err,
}
use kvm_infrastructure_manag.Base.Maps.{find, put}
use kvm_infrastructure_manag.Session.Envelope.{validate}
use kvm_infrastructure_manag.Agent.Spool.{
  Error, incomplete_config, full, message_conflict, system, unexpected_entry, not_private,
  undecodable, version_mismatch, filename_mismatch, invalid, Config, SpoolRecord, Entry, Spool,
  File, total_size, message_filename,
}

module _ (payload_digest : List ℕ → String) (hash : String → String) (encode : SpoolRecord → List ℕ)
    (decode : List ℕ → Option SpoolRecord) where
  -- `readable` stands for the success of `ReadFile`, and `json_suffix` for the test of the suffix.
  module _ (readable json_suffix : String → Bool) where
    abbrev pub load_record :
        String
        → ℕ
        → String
        → File
        → Option SpoolRecord
        → List (String × Entry)
        → Result Error (List (String × Entry))
    load_record host max_message_bytes name f none entries = err undecodable
    load_record host max_message_bytes name f (some r) entries =
        if not (str_eq r.version "kim.agent.spool/v1") || not (str_eq r.envelope.host_identity host)
        then err version_mismatch
        else elim (validate payload_digest r.envelope max_message_bytes) [
          | some e ↦ err (invalid e)
          | none ↦
              if not (
                str_eq (message_filename payload_digest hash encode decode r.envelope.message_id)
                  name)
              then err filename_mismatch
              else elim (find r.envelope.message_id entries) [
                | some x ↦ err message_conflict
                | none ↦ ok (
                    put r.envelope.message_id
                      (record { path = name; envelope = r.envelope; size = length f.bytes })
                      entries)
              ]
        ]

    abbrev pub load_file :
        String → ℕ → String → File → List (String × Entry) → Result Error (List (String × Entry))
    load_file host max_message_bytes name f entries =
        if f.is_directory || not (json_suffix name)
        then err unexpected_entry
        else if not f.private_regular
        then err not_private
        else if not (readable name)
        then err system
        else load_record host max_message_bytes name f (decode f.bytes) entries

    unfoldable pub load_files :
        String
        → ℕ
        → List (String × File)
        → List (String × Entry)
        → Result Error (List (String × Entry))
    load_files host max_message_bytes [] entries = ok entries
    load_files host max_message_bytes ((name, f) ∷ files) entries =
        let rest = load_files host max_message_bytes files in
        elim (load_file host max_message_bytes name f entries) [ err e ↦ err e | ok es ↦ rest es ]

    -- A failure before `load` is an argument, and so is one of its last call, which syncs.
    unfoldable pub open_spool :
        Config → Option Error → Option Error → List (String × File) → Result Error Spool
    unfolding load_files
    open_spool c before last files =
        if str_eq c.directory ""
          || str_eq c.host_identity ""
          || ltb c.max_entries 1
          || ltb c.max_bytes 1
          || ltb c.max_message_bytes 1
        then err incomplete_config
        else elim before [
          | some e ↦ err e
          | none ↦ elim (load_files c.host_identity c.max_message_bytes files []) [
            | err e ↦ err e
            | ok es ↦
                if ltb c.max_entries (length es) || ltb c.max_bytes (total_size es)
                then err full
                else elim last [
                  | some e ↦ err e
                  | none ↦ ok (record {
                    host_identity = c.host_identity;
                    max_entries = c.max_entries;
                    max_bytes = c.max_bytes;
                    max_message_bytes = c.max_message_bytes;
                    entries = es;
                    closed = false;
                  })
                ]
          ]
        ]
