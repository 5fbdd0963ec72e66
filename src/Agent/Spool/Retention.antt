-- ===== src/Agent/Spool/Retention.antt =====
-- What the spool keeps, and what it does after a failed sync.
use kvm_infrastructure_manag.Base.{
  ℕ, ◌≡◌, refl, ap, ◌∙◌, String, Bool, true, false, ◌&&◌, Option, none, some, List, [], ◌∷◌,
  if◌then◌else◌, str_eq, eq_iff, ok, arith, All,
}
use kvm_infrastructure_manag.Base.Maps.{find, find-put, find-remove, both_branches}
use kvm_infrastructure_manag.Session.Envelope.{Envelope, Receipt}
use kvm_infrastructure_manag.Agent.Spool.{
  Error, Config, Spool, SpoolRecord, Entry, File, Disk, close,
}
use kvm_infrastructure_manag.Agent.Spool.Load.{open_spool}
use kvm_infrastructure_manag.Agent.Spool.Calls.{Call, offers, acknowledges, closes, call, run}
use kvm_infrastructure_manag.Agent.Spool.Bounds.{
  IsBounded, run-IsBounded, Acknowledged, unchanged, released, acknowledge-Acknowledged, Offered,
  unmoved, stored, enqueue-Offered, entry_of,
}

-- The call is no acknowledgement of the message with the disposition ACCEPTED.
abbrev pub Spares : String → Call → Type 0
Spares k (offers e fault) = Unit
Spares k (acknowledges r fault) = str_eq r.message_id k && str_eq r.disposition "ACCEPTED" ≡ false
Spares k closes = Unit

Acknowledged-find :
    (k : String) (x : Entry) (r : Receipt) (s t : Spool)
    → str_eq r.message_id k && str_eq r.disposition "ACCEPTED" ≡ false
    → Acknowledged r s t
    → find k s.entries ≡ some x
    → find k t.entries ≡ some x
Acknowledged-find k x r s t h unchanged f = f
Acknowledged-find k x r s t h (released y p q a) f =
    rw (find-remove k r.message_id s.entries)
      (kept (str_eq r.message_id k) (find k s.entries) x (ground (arith, h, a)) f)
  where
    kept :
        (b : Bool) (o : Option Entry) (x : Entry)
        → b ≡ false
        → o ≡ some x
        → (if b then none else o) ≡ some x
    kept true o x h f = ground arith
    kept false o x h f = f

close-find : (k : String) (s : Spool) → find k (close s).entries ≡ find k s.entries
unfolding close
close-find k s =
    both_branches {A = Spool} (λ t. find k t.entries ≡ find k s.entries) s.closed _ _ (λ _. refl)
      (λ _. refl)

not_some : {A : Type 0} {o : Option A} {x : A} → o ≡ none → o ≡ some x → ⊥
not_some h k = ground arith

module _ (payload_digest : List ℕ → String) (hash : String → String) (encode : SpoolRecord → List ℕ)
    (decode : List ℕ → Option SpoolRecord) where
  Offered-find :
      (k : String) (x : Entry) (e : Envelope) (s t : Spool)
      → Offered payload_digest hash encode decode e s t
      → find k s.entries ≡ some x
      → find k t.entries ≡ some x
  Offered-find k x e s t unmoved f = f
  Offered-find k x e s t (stored p q a) f =
      let y = entry_of payload_digest hash encode decode e in
      rw (find-put k e.message_id y s.entries) (
        both_branches (λ o. o ≡ some x) (str_eq e.message_id k) (some y) (find k s.entries)
          (λ h. absurd (not_some p (ap (λ z. find z s.entries) ((eq_iff e.message_id k).0 h) ∙ f)))
          (λ _. f))

  call-find :
      (k : String) (x : Entry) (c : Call) (d : Disk)
      → Spares k c
      → find k d.spool.entries ≡ some x
      → find k (call payload_digest hash encode decode c d).spool.entries ≡ some x
  call-find k x (offers e fault) d h f =
      Offered-find k x e d.spool _ (enqueue-Offered payload_digest hash encode decode e fault d) f
  call-find k x (acknowledges r fault) d h f =
      Acknowledged-find k x r d.spool _ h (acknowledge-Acknowledged r fault d) f
  call-find k x closes d h f = close-find k d.spool ∙ f

  -- Whatever calls come, of which none acknowledges the message with the disposition ACCEPTED, and
  -- whichever calls of the system fail: the spool keeps the entry of the message as it is.
  pub run_keeps :
      (cs : List Call) (k : String) (x : Entry) (d : Disk)
      → All (Spares k) cs
      → find k d.spool.entries ≡ some x
      → find k (run payload_digest hash encode decode cs d).spool.entries ≡ some x
  run_keeps [] k x d h f = f
  run_keeps (c ∷ cs) k x d h f =
      run_keeps cs k x (call payload_digest hash encode decode c d) h.1 (call-find k x c d h.0 f)

  open_spool-IsBounded :
      (readable json_suffix : String → Bool) (c : Config) (before last : Option Error)
      (files : List (String × File)) (s : Spool)
      → open_spool payload_digest hash encode decode readable json_suffix c before last files ≡ ok s
      → IsBounded s
  unfolding open_spool
  open_spool-IsBounded readable json_suffix c before last files s h = record {
    count = ground arith;
    bytes = ground arith;
  }

  -- From a spool that has been opened, whatever calls come: the number of the entries and the sum of
  -- their sizes stay within the bounds of the spool.
  pub opened_bounds :
      (readable json_suffix : String → Bool) (c : Config) (before last : Option Error)
      (files later : List (String × File)) (s : Spool) (cs : List Call)
      → open_spool payload_digest hash encode decode readable json_suffix c before last files ≡ ok s
      → IsBounded
          (run payload_digest hash encode decode cs (record { spool = s; files = later })).spool
  opened_bounds readable json_suffix c before last files later s cs h =
      run-IsBounded payload_digest hash encode decode cs (record { spool = s; files = later })
        (open_spool-IsBounded readable json_suffix c before last files s h)
