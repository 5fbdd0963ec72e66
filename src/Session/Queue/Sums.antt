-- ===== src/Session/Queue/Sums.antt =====
-- Sums over the seven lanes, and what a write to one lane does to them.
use kvm_infrastructure_manag.Base.{
  ℕ, ◌+◌, ◌≡◌, refl, true, false, List, [], ◌∷◌, ◌++◌, arith, length,
}
use kvm_infrastructure_manag.Session.Envelope.{
  Stream, control, command, result, heartbeat, credential, inventory, resync, other, Envelope,
  is_known,
}
use kvm_infrastructure_manag.Session.Queue.{update, is_bulk}

abbrev pub payload_bytes : List Envelope → ℕ
payload_bytes [] = 0
payload_bytes (e ∷ es) = length e.payload + payload_bytes es

pub payload_bytes-append :
    (xs ys : List Envelope) → payload_bytes (xs ++ ys) ≡ payload_bytes xs + payload_bytes ys
payload_bytes-append [] ys = omega arith
payload_bytes-append (x ∷ xs) ys = omega (arith, payload_bytes-append xs ys)

-- A measure of a lane, added up over the priority lanes, the bulk lanes, and all.
module _ (f : List Envelope → ℕ) where
  abbrev pub priority_sum : (Stream → List Envelope) → ℕ
  priority_sum l = f (l control) + f (l command) + f (l result) + f (l heartbeat) + f (l credential)

  abbrev pub bulk_sum : (Stream → List Envelope) → ℕ
  bulk_sum l = f (l inventory) + f (l resync)

  abbrev pub sum : (Stream → List Envelope) → ℕ
  sum l = priority_sum l + bulk_sum l

module _ (f : List Envelope → ℕ) (l : Stream → List Envelope) (v : List Envelope) where
  pub sum-update : (s : Stream) → is_known s ≡ true → sum f (update l s v) + f (l s) ≡ sum f l + f v
  sum-update control h = omega arith
  sum-update command h = omega arith
  sum-update result h = omega arith
  sum-update heartbeat h = omega arith
  sum-update credential h = omega arith
  sum-update inventory h = omega arith
  sum-update resync h = omega arith
  sum-update (other s) h = cc

  pub bulk_sum-update :
      (s : Stream) → is_bulk s ≡ true → bulk_sum f (update l s v) + f (l s) ≡ bulk_sum f l + f v
  bulk_sum-update inventory h = omega arith
  bulk_sum-update resync h = omega arith
  bulk_sum-update control h = cc
  bulk_sum-update command h = cc
  bulk_sum-update result h = cc
  bulk_sum-update heartbeat h = cc
  bulk_sum-update credential h = cc
  bulk_sum-update (other s) h = cc

  pub bulk_sum-update_priority :
      (s : Stream) → is_bulk s ≡ false → bulk_sum f (update l s v) ≡ bulk_sum f l
  bulk_sum-update_priority inventory h = cc
  bulk_sum-update_priority resync h = cc
  bulk_sum-update_priority control h = refl
  bulk_sum-update_priority command h = refl
  bulk_sum-update_priority result h = refl
  bulk_sum-update_priority heartbeat h = refl
  bulk_sum-update_priority credential h = refl
  bulk_sum-update_priority (other s) h = refl
