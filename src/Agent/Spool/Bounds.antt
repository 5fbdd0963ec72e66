-- ===== src/Agent/Spool/Bounds.antt =====
-- The bounds of the spool.
use kvm_infrastructure_manag.Base.{
  ℕ, ◌+◌, ◌≤◌, ◌≡◌, refl, String, Bool, true, false, ◌||◌, not, Option, none, some, List, [], ◌∷◌,
  ltb, if◌then◌else◌, str_eq, length, Bool-cases, inl, inr, arith,
}
use kvm_infrastructure_manag.Base.Maps.{find, put, remove, both_branches}
use kvm_infrastructure_manag.Session.Envelope.{Envelope, Receipt, validate, validate_for}
use kvm_infrastructure_manag.Agent.Spool.{
  Error, Spool, SpoolRecord, Entry, Disk, Fault, RemoveFault, total_size, close, same_message,
  release, acknowledge_compared, acknowledge_found, acknowledge, enqueue, enqueue_found,
  enqueue_validated, store, line_of, message_filename, write_new_atomic, write_error, is_there,
  remove_error, full, message_conflict, host_mismatch, closed_spool, non_releasing,
}
use kvm_infrastructure_manag.Session.Error as session
use kvm_infrastructure_manag.Agent.Spool.Calls.{Call, offers, acknowledges, closes, call, run}

-- The number and the bytes of the entries are within the spool's bounds.
pub record IsBounded (s : Spool) : Type 0 where
  pub count : length s.entries ≤ s.max_entries
  pub bytes : total_size s.entries ≤ s.max_bytes

put_new :
    (k : String) (x : Entry) (rs : List (String × Entry))
    → find k rs ≡ none
    → (length (put k x rs) ≡ length rs + 1) × (total_size (put k x rs) ≡ total_size rs + x.size)
put_new k x [] h = (refl, ground arith)
put_new k x ((n, y) ∷ rs) h = elim (Bool-cases (str_eq n k)) [
  | inl e ↦ ground (arith, e)
  | inr e ↦
      let ih = put_new k x rs (ground (arith, e)) in
      simp e (ground (arith, ih.0), ground (arith, ih.1))
]

remove_le :
    (k : String) (rs : List (String × Entry))
    → (length (remove k rs) ≤ length rs) × (total_size (remove k rs) ≤ total_size rs)
remove_le k [] = (ground arith, ground arith)
remove_le k ((n, y) ∷ rs) =
    let ih = remove_le k rs in
    elim (Bool-cases (str_eq n k)) [
      | inl e ↦ simp e (ground (arith, ih.0), ground (arith, ih.1))
      | inr e ↦ simp e (ground (arith, ih.0), ground (arith, ih.1))
    ]

close-IsBounded : (s : Spool) → IsBounded s → IsBounded (close s)
unfolding close
close-IsBounded s b =
    both_branches {A = Spool} IsBounded s.closed _ _ (λ _. b)
      (λ _. record { count = b.count; bytes = b.bytes })

-- The entries after an acknowledgement: as before, or without a message that the receipt accepts.
pub data Acknowledged (r : Receipt) (s : Spool) : Spool → Type 0 where
  unchanged : Acknowledged r s s
  released :
      (x : Entry)
      → find r.message_id s.entries ≡ some x
      → validate_for r x.envelope ≡ none
      → str_eq r.disposition "ACCEPTED" ≡ true
      → Acknowledged r s (record s { entries = remove r.message_id s.entries })

abbrev AcknowledgedIn : Receipt → Disk → Option Error × Disk → Type 0
AcknowledgedIn r d z = Acknowledged r d.spool z.1.spool

release-Acknowledged :
    (r : Receipt) (x : Entry) (fault : Option RemoveFault) (d : Disk)
    → find r.message_id d.spool.entries ≡ some x
    → validate_for r x.envelope ≡ none
    → str_eq r.disposition "ACCEPTED" ≡ true
    → Acknowledged r d.spool (release r x fault d).1.spool
release-Acknowledged r x (some f) d p q a = unchanged
release-Acknowledged r x none d p q a = go (is_there (find x.path d.files))
  where
    go :
        (there : Bool)
        → Acknowledged r d.spool (elim (remove_error none there) [
          | none ↦ record d.spool { entries = remove r.message_id d.spool.entries }
          | some e ↦ d.spool
        ])
    go true = released x p q a
    go false = unchanged

compared-Acknowledged :
    (o : Option session.Error) (r : Receipt) (x : Entry) (fault : Option RemoveFault) (d : Disk)
    → find r.message_id d.spool.entries ≡ some x
    → validate_for r x.envelope ≡ o
    → Acknowledged r d.spool (acknowledge_compared o r x fault d).1.spool
compared-Acknowledged (some e) r x fault d p q = unchanged
compared-Acknowledged none r x fault d p q =
    both_branches (AcknowledgedIn r d) (not (str_eq r.disposition "ACCEPTED"))
      (some non_releasing, d) (release r x fault d) (λ _. unchanged)
      (λ a. release-Acknowledged r x fault d p q (ground arith))

found-Acknowledged :
    (o : Option Entry) (r : Receipt) (fault : Option RemoveFault) (d : Disk)
    → find r.message_id d.spool.entries ≡ o
    → Acknowledged r d.spool (acknowledge_found o r fault d).1.spool
found-Acknowledged none r fault d p = unchanged
found-Acknowledged (some x) r fault d p =
    compared-Acknowledged (validate_for r x.envelope) r x fault d p refl

pub acknowledge-Acknowledged :
    (r : Receipt) (fault : Option RemoveFault) (d : Disk)
    → Acknowledged r d.spool (acknowledge r fault d).1.spool
unfolding acknowledge
acknowledge-Acknowledged r fault d =
    both_branches (AcknowledgedIn r d) d.spool.closed (some closed_spool, d)
      (acknowledge_found (find r.message_id d.spool.entries) r fault d) (λ _. unchanged)
      (λ _. found-Acknowledged (find r.message_id d.spool.entries) r fault d refl)

Acknowledged-IsBounded :
    (r : Receipt) (s t : Spool) → Acknowledged r s t → IsBounded s → IsBounded t
Acknowledged-IsBounded r s t unchanged b = b
Acknowledged-IsBounded r s t (released x p q a) b =
    let l = remove_le r.message_id s.entries in
    record { count = ground (arith, l.0, b.count); bytes = ground (arith, l.1, b.bytes) }

module _ (payload_digest : List ℕ → String) (hash : String → String) (encode : SpoolRecord → List ℕ)
    (decode : List ℕ → Option SpoolRecord) where
  abbrev pub entry_of : Envelope → Entry
  entry_of e = record {
    path = message_filename payload_digest hash encode decode e.message_id;
    envelope = e;
    size = length (line_of payload_digest hash encode decode e);
  }

  -- The entries after an offer: as before, or with the message behind them, where there was room.
  pub data Offered (e : Envelope) (s : Spool) : Spool → Type 0 where
    unmoved : Offered e s s
    stored :
        find e.message_id s.entries ≡ none
        → length s.entries + 1 ≤ s.max_entries
        → total_size s.entries + (entry_of e).size ≤ s.max_bytes
        → Offered e s (record s { entries = put e.message_id (entry_of e) s.entries })

  abbrev OfferedIn : Envelope → Disk → Option Error × Disk → Type 0
  OfferedIn e d z = Offered e d.spool z.1.spool

  store-Offered :
      (e : Envelope) (fault : Option Fault) (d : Disk)
      → find e.message_id d.spool.entries ≡ none
      → length d.spool.entries + 1 ≤ d.spool.max_entries
      → total_size d.spool.entries + (entry_of e).size ≤ d.spool.max_bytes
      → Offered e d.spool (store payload_digest hash encode decode e fault d).1.spool
  unfolding write_new_atomic
  store-Offered e fault d p q a = go (write_error fault (is_there (find (entry_of e).path d.files)))
    where
      go :
          (o : Option Error)
          → Offered e d.spool (elim o [
            | some x ↦ d.spool
            | none ↦ record d.spool { entries = put e.message_id (entry_of e) d.spool.entries }
          ])
      go (some x) = unmoved
      go none = stored p q a

  found-Offered :
      (o : Option Entry) (e : Envelope) (fault : Option Fault) (d : Disk)
      → find e.message_id d.spool.entries ≡ o
      → Offered e d.spool (enqueue_found payload_digest hash encode decode o e fault d).1.spool
  found-Offered (some x) e fault d p =
      both_branches (OfferedIn e d) (same_message x.envelope e) (none, d) (some message_conflict, d)
        (λ _. unmoved) (λ _. unmoved)
  found-Offered none e fault d p =
      both_branches (OfferedIn e d)
        (ltb d.spool.max_entries (length d.spool.entries + 1)
          || ltb d.spool.max_bytes (total_size d.spool.entries + (entry_of e).size))
        (some full, d) (store payload_digest hash encode decode e fault d) (λ _. unmoved)
        (λ h. store-Offered e fault d p (ground (arith, h)) (ground (arith, h)))

  validated-Offered :
      (o : Option session.Error) (e : Envelope) (fault : Option Fault) (d : Disk)
      → Offered e d.spool (enqueue_validated payload_digest hash encode decode o e fault d).1.spool
  validated-Offered (some x) e fault d = unmoved
  validated-Offered none e fault d =
      let x =
        enqueue_found payload_digest hash encode decode (find e.message_id d.spool.entries) e fault
          d in
      both_branches (OfferedIn e d) (not (str_eq e.host_identity d.spool.host_identity))
        (some host_mismatch, d) (if d.spool.closed then (some closed_spool, d) else x)
        (λ _. unmoved)
        (λ _.
          both_branches (OfferedIn e d) d.spool.closed (some closed_spool, d) x (λ _. unmoved)
            (λ _. found-Offered (find e.message_id d.spool.entries) e fault d refl))

  pub enqueue-Offered :
      (e : Envelope) (fault : Option Fault) (d : Disk)
      → Offered e d.spool (enqueue payload_digest hash encode decode e fault d).1.spool
  unfolding enqueue
  enqueue-Offered e fault d =
      validated-Offered (validate payload_digest e d.spool.max_message_bytes) e fault d

  Offered-IsBounded : (e : Envelope) (s t : Spool) → Offered e s t → IsBounded s → IsBounded t
  Offered-IsBounded e s t unmoved b = b
  Offered-IsBounded e s t (stored p q a) b =
      let n = put_new e.message_id (entry_of e) s.entries p in
      record { count = ground (arith, n.0, q); bytes = ground (arith, n.1, a) }

  call-IsBounded :
      (c : Call) (d : Disk)
      → IsBounded d.spool
      → IsBounded (call payload_digest hash encode decode c d).spool
  call-IsBounded (offers e fault) d b = Offered-IsBounded e d.spool _ (enqueue-Offered e fault d) b
  call-IsBounded (acknowledges r fault) d b =
      Acknowledged-IsBounded r d.spool _ (acknowledge-Acknowledged r fault d) b
  call-IsBounded closes d b = close-IsBounded d.spool b

  pub run-IsBounded :
      (cs : List Call) (d : Disk)
      → IsBounded d.spool
      → IsBounded (run payload_digest hash encode decode cs d).spool
  run-IsBounded [] d b = b
  run-IsBounded (c ∷ cs) d b =
      run-IsBounded cs (call payload_digest hash encode decode c d) (call-IsBounded c d b)
