-- ===== src/Agent/Spool/Calls.antt =====
-- Sequences of calls of the spool, each with the call of the system that fails in it.
use kvm_infrastructure_manag.Base.{String, Option, List, [], ◌∷◌, ℕ}
use kvm_infrastructure_manag.Session.Envelope.{Envelope, Receipt}
use kvm_infrastructure_manag.Agent.Spool.{
  SpoolRecord, Disk, Fault, RemoveFault, close, acknowledge, enqueue,
}

pub data Call : Type 0 where
  offers : Envelope → Option Fault → Call
  acknowledges : Receipt → Option RemoveFault → Call
  closes : Call

module _ (payload_digest : List ℕ → String) (hash : String → String) (encode : SpoolRecord → List ℕ)
    (decode : List ℕ → Option SpoolRecord) where
  abbrev pub call : Call → Disk → Disk
  call (offers e fault) d = (enqueue payload_digest hash encode decode e fault d).1
  call (acknowledges r fault) d = (acknowledge r fault d).1
  call closes d = record d { spool = close d.spool }

  abbrev pub run : List Call → Disk → Disk
  run [] d = d
  run (x ∷ xs) d = run xs (call x d)
