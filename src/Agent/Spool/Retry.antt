-- ===== src/Agent/Spool/Retry.antt =====
-- What the spool does with a message again after its write has failed.
use kvm_infrastructure_manag.Base.{
  ℕ, ◌+◌, ◌≡◌, ◌≢◌, refl, ap, ◌∙◌, String, true, false, ◌||◌, Option, none, some, List, [], ◌∷◌,
  All, ltb, if◌then◌else◌, str_eq, length, arith,
}
use kvm_infrastructure_manag.Base.Maps.{find, put, find-put_same}
use kvm_infrastructure_manag.Session.Envelope.{Envelope, validate}
use kvm_infrastructure_manag.Agent.Spool.{
  Error, system, Spool, SpoolRecord, File, Disk, Fault, sync_directory, total_size, enqueue, store,
  line_of, message_filename, write_new_atomic, write_error, is_renamed, is_there, recorded, file_of,
  create_temp, chmod, write, sync, close_temp, lstat, rename, open_directory,
}

write_error-there : (later : Option Fault) → write_error later true ≢ none
write_error-there none h = ground arith
write_error-there (some create_temp) h = ground arith
write_error-there (some chmod) h = ground arith
write_error-there (some write) h = ground arith
write_error-there (some sync) h = ground arith
write_error-there (some close_temp) h = ground arith
write_error-there (some lstat) h = ground arith
write_error-there (some rename) h = ground arith
write_error-there (some open_directory) h = ground arith
write_error-there (some sync_directory) h = ground arith

-- A file that is there is never renamed over.
is_renamed-there : (later : Option Fault) → is_renamed later true ≡ false
is_renamed-there none = refl
is_renamed-there (some create_temp) = refl
is_renamed-there (some chmod) = refl
is_renamed-there (some write) = refl
is_renamed-there (some sync) = refl
is_renamed-there (some close_temp) = refl
is_renamed-there (some lstat) = refl
is_renamed-there (some rename) = refl
is_renamed-there (some open_directory) = refl
is_renamed-there (some sync_directory) = refl

abbrev pub IsFailure : Option Error → Type 0
IsFailure x = x ≢ none

write_unsynced :
    (name : String) (payload : List ℕ) (files : List (String × File))
    → find name files ≡ none
    → write_new_atomic name payload (some sync_directory) files
      ≡ (some system, put name (file_of payload) files)
unfolding write_new_atomic
write_unsynced name payload files h =
    ap
      (λ o. (
        write_error (some sync_directory) (is_there o),
        if is_renamed (some sync_directory) (is_there o)
            then put name (file_of payload) files
            else files,
      ))
      h

module _ (payload_digest : List ℕ → String) (hash : String → String) (encode : SpoolRecord → List ℕ)
    (decode : List ℕ → Option SpoolRecord) where
  -- The spool has room for the message, and does not hold it.
  pub record Admits (e : Envelope) (s : Spool) : Type 0 where
    pub valid : validate payload_digest e s.max_message_bytes ≡ none
    pub host : str_eq e.host_identity s.host_identity ≡ true
    pub not_closed : s.closed ≡ false
    pub absent : find e.message_id s.entries ≡ none
    pub room :
        ltb s.max_entries (length s.entries + 1)
          || ltb s.max_bytes
              (total_size s.entries + length (line_of payload_digest hash encode decode e))
        ≡ false

  Admits-store :
      (e : Envelope) (fault : Option Fault) (d : Disk)
      → Admits e d.spool
      → enqueue payload_digest hash encode decode e fault d
        ≡ store payload_digest hash encode decode e fault d
  unfolding enqueue
  Admits-store e fault d a = simp (a.valid, a.host, a.not_closed, a.absent, a.room) refl

  -- The spool after a sync of the directory that failed behind the rename.
  abbrev pub unsynced : Envelope → Disk → Disk
  unsynced e d = record d {
    files =
        put (message_filename payload_digest hash encode decode e.message_id)
          (file_of (line_of payload_digest hash encode decode e)) d.files;
  }

  store-unsynced :
      (e : Envelope) (d : Disk)
      → find (message_filename payload_digest hash encode decode e.message_id) d.files ≡ none
      → store payload_digest hash encode decode e (some sync_directory) d
        ≡ (some system, unsynced e d)
  store-unsynced e d h =
      ap (λ w. recorded payload_digest hash encode decode e w d)
        (write_unsynced (message_filename payload_digest hash encode decode e.message_id)
          (line_of payload_digest hash encode decode e) d.files h)

  -- A write finds the file there, and changes nothing.
  write_there :
      (name : String) (payload : List ℕ) (later : Option Fault) (files : List (String × File))
      (f : File)
      → find name files ≡ some f
      → write_new_atomic name payload later files ≡ (write_error later true, files)
  unfolding write_new_atomic
  write_there name payload later files f h =
      ap
        (λ o. (
          write_error later (is_there o),
          if is_renamed later (is_there o) then put name (file_of payload) files else files,
        ))
        h
      ∙ ap (λ b. (write_error later true, if b then put name (file_of payload) files else files))
          (is_renamed-there later)

  recorded_failed :
      (e : Envelope) (x : Option Error) (d : Disk)
      → x ≢ none
      → recorded payload_digest hash encode decode e (x, d.files) d ≡ (x, d)
  recorded_failed e none d h = absurd (h refl)
  recorded_failed e (some x) d h = refl

  enqueue_again :
      (e : Envelope) (later : Option Fault) (d : Disk)
      → Admits e d.spool
      → enqueue payload_digest hash encode decode e later (unsynced e d)
        ≡ (write_error later true, unsynced e d)
  enqueue_again e later d a =
      let name = message_filename payload_digest hash encode decode e.message_id in
      let line = line_of payload_digest hash encode decode e in
      Admits-store e later (unsynced e d) a
      ∙ ap (λ w. recorded payload_digest hash encode decode e w (unsynced e d))
          (write_there name line later (unsynced e d).files (file_of line)
            (find-put_same name (file_of line) d.files))
      ∙ recorded_failed e (write_error later true) (unsynced e d) (write_error-there later)

  -- One retry for each fault, or for none, and the errors that the retries give.
  abbrev pub retry : Envelope → List (Option Fault) → Disk → List (Option Error) × Disk
  retry e [] d = ([], d)
  retry e (later ∷ faults) d =
      let (error, d') = enqueue payload_digest hash encode decode e later d in
      let (errors, d'') = retry e faults d' in (error ∷ errors, d'')

  retry-unsynced :
      (e : Envelope) (faults : List (Option Fault)) (d : Disk)
      → Admits e d.spool
      → All IsFailure (retry e faults (unsynced e d)).0
        × ((retry e faults (unsynced e d)).1 ≡ unsynced e d)
  retry-unsynced e [] d a = (tt, refl)
  retry-unsynced e (later ∷ faults) d a =
      rw (enqueue_again e later d a) (
        (write_error-there later, (retry-unsynced e faults d a).0),
        (retry-unsynced e faults d a).1,
      )

  -- If a spool admits a message that has no file, and the sync of the directory fails behind the
  -- rename, then `Enqueue` fails. If the message is then tried again any number of times, with no
  -- other call between, then every retry fails, whichever call of the system fails in it or none, and
  -- the spool and its files stay as the first call left them.
  pub enqueue_stuck :
      (e : Envelope) (faults : List (Option Fault)) (d : Disk)
      → Admits e d.spool
      → find (message_filename payload_digest hash encode decode e.message_id) d.files ≡ none
      → (enqueue payload_digest hash encode decode e (some sync_directory) d
          ≡ (some system, unsynced e d))
        × All IsFailure (retry e faults (unsynced e d)).0
        × ((retry e faults (unsynced e d)).1 ≡ unsynced e d)
  enqueue_stuck e faults d a h = (
    Admits-store e (some sync_directory) d a ∙ store-unsynced e d h,
    (retry-unsynced e faults d a).0,
    (retry-unsynced e faults d a).1,
  )
