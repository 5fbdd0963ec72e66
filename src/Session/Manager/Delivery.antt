-- ===== src/Session/Manager/Delivery.antt =====
-- What becomes of a queued message that the connection refuses.
use kvm_infrastructure_manag.Base.{
  String, ◌++◌, ℕ, ◌+◌, ◌≡◌, true, false, Option, some, List, [], ◌∷◌, arith,
}
use kvm_infrastructure_manag.Session.Error.{Error}
use kvm_infrastructure_manag.Session.Envelope.{Envelope, is_known}
use kvm_infrastructure_manag.Session.Queue.{enqueue, dequeue, is_bulk}
use kvm_infrastructure_manag.Session.Queue.Valid.{IsValid}
use kvm_infrastructure_manag.Session.Queue.Reserve.{SparesReserve, requeue_kept, requeue_lost}
use kvm_infrastructure_manag.Session.Manager.{Manager, flush_one}

module _ {Conn : Type 0} (digest : List ℕ → String) where
  -- The three ways in which a call ends that has a message at hand.
  flush_one-kept :
      (m : Manager Conn) (c : Conn) (e : Envelope) (send : Conn → Envelope → Option Error)
      → m.connection ≡ some c
      → (dequeue m.queue).0 ≡ some e
      → (flush_one digest m (λ q. q) send).0.sent ≡ false
      → (flush_one digest m (λ q. q) send).1.queue ≡ (enqueue (dequeue m.queue).1 e).1
  unfolding flush_one
  flush_one-kept m c e send hc he hs = ground arith

  module _ (m : Manager Conn) (c : Conn) (e : Envelope) (rest : List Envelope)
      (send : Conn → Envelope → Option Error) where
    -- If no other call comes between the steps of `FlushOne`, then a message that could not be sent is
    -- still queued, behind the others of its stream, with the totals as they were, if it is a priority
    -- message or the totals leave the reserve free. The queue is valid, the stream is known, and the
    -- message was the first of its lane.
    pub flush_keeps :
        IsValid m.queue
        → is_known e.stream ≡ true
        → m.connection ≡ some c
        → (dequeue m.queue).0 ≡ some e
        → m.queue.lanes e.stream ≡ e ∷ rest
        → (flush_one digest m (λ q. q) send).0.sent ≡ false
        → (is_bulk e.stream ≡ true → SparesReserve m.queue)
        → let r = (flush_one digest m (λ q. q) send).1.queue in
          (r.total_count ≡ m.queue.total_count)
          × (r.total_bytes ≡ m.queue.total_bytes)
          × (r.lanes e.stream ≡ rest ++ e ∷ [])
    flush_keeps v k hc he at hs spare =
        rw (flush_one-kept m c e send hc he hs) (requeue_kept m.queue e v k he rest at spare)

    -- If no other call comes between the steps of `FlushOne`, then a bulk message, the first of its
    -- lane in a valid queue, that could not be sent is dropped if the queue was using its reserve.
    pub flush_loses :
        IsValid m.queue
        → is_known e.stream ≡ true
        → m.connection ≡ some c
        → (dequeue m.queue).0 ≡ some e
        → m.queue.lanes e.stream ≡ e ∷ rest
        → (flush_one digest m (λ q. q) send).0.sent ≡ false
        → is_bulk e.stream ≡ true
        → ¬ SparesReserve m.queue
        → let r = (flush_one digest m (λ q. q) send).1.queue in
          (r.total_count + 1 ≡ m.queue.total_count) × (r.lanes e.stream ≡ rest)
    flush_loses v k hc he at hs b full =
        rw (flush_one-kept m c e send hc he hs) (requeue_lost m.queue e v k he rest at b full)
