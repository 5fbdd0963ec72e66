-- ===== src/Session/Queue/Order.antt =====
-- Order: what one stream sends comes out in the order in which it went in, whatever the other
-- streams do.
use mathlib.Core.Path.{subst}
use mathlib.Core.List.{append_assoc, append-nil}
use kvm_infrastructure_manag.Base.{
  ◌≡◌, refl, sym, ap, ◌∙◌, true, inl, inr, Option, none, some, List, [], ◌∷◌, ◌++◌, All, Bool-cases,
  if◌then◌else◌,
}
use kvm_infrastructure_manag.Session.Error.{Error}
use kvm_infrastructure_manag.Session.Envelope.{Stream, Envelope, stream_eq, is_known, stream_eq→eq}
use kvm_infrastructure_manag.Session.Queue.{PriorityQueue, enqueue, dequeue}
use kvm_infrastructure_manag.Session.Queue.Take.{Taken}
use kvm_infrastructure_manag.Session.Queue.Attempt.{Outcome, idle, bulk, priority, dequeue-Outcome}
use kvm_infrastructure_manag.Session.Queue.Entry.{add, Entry, accepted, refused, enqueue-Entry}
use kvm_infrastructure_manag.Session.Queue.Valid.{
  IsValid, taken-IsHome, enqueue-IsValid, dequeue-IsValid,
}

-- A sequence of calls, and what went in and out: the accepted and the returned envelopes in order.
pub data Call : Type 0 where
  offer : Envelope → Call
  take : Call

pub record History : Type 0 where
  pub queue : PriorityQueue
  pub accepted : List Envelope
  pub served : List Envelope

abbrev pub after_offer : Envelope → Option Error → History → History
after_offer e none h = record h { accepted = e ∷ h.accepted }
after_offer e (some x) h = h

abbrev pub after_take : Option Envelope → History → History
after_take none h = h
after_take (some e) h = record h { served = e ∷ h.served }

pub run : PriorityQueue → List Call → History
run q [] = record { queue = q; accepted = []; served = [] }
run q (offer e ∷ calls) = after_offer e (enqueue q e).0 (run (enqueue q e).1 calls)
run q (take ∷ calls) = after_take (dequeue q).0 (run (dequeue q).1 calls)

-- The messages of a sequence that belong to one stream.
abbrev pub on_stream : Stream → List Envelope → List Envelope
on_stream s [] = []
on_stream s (e ∷ es) = if stream_eq e.stream s then e ∷ on_stream s es else on_stream s es

on_stream-cons :
    (s : Stream) (e : Envelope) (es : List Envelope)
    → on_stream s (e ∷ es) ≡ on_stream s (e ∷ []) ++ on_stream s es
on_stream-cons s e es = elim (Bool-cases (stream_eq e.stream s)) [ inl h ↦ rw h | inr h ↦ rw h ]

add-lane :
    (q : PriorityQueue) (e : Envelope) (s : Stream)
    → (add q e).lanes s ≡ q.lanes s ++ on_stream s (e ∷ [])
add-lane q e s = elim (Bool-cases (stream_eq e.stream s)) [
  | inl h ↦ rw h (ap (λ u. q.lanes u ++ e ∷ []) (stream_eq→eq e.stream s h))
  | inr h ↦ rw h (sym (append-nil (q.lanes s)))
]

taken-lane :
    {q r : PriorityQueue} {e : Envelope} (t : Taken q e r)
    → e.stream ≡ t.from
    → (s : Stream) → q.lanes s ≡ on_stream s (e ∷ []) ++ r.lanes s
taken-lane {q} {r} {e} t at s = elim (Bool-cases (stream_eq t.from s)) [
  | inl h ↦
      rw (t.lanes, ap (λ u. stream_eq u s) at, h)
        (ap q.lanes (sym (stream_eq→eq t.from s h)) ∙ t.head)
  | inr h ↦ rw (t.lanes, ap (λ u. stream_eq u s) at, h) refl
]

abbrev pub KnownCall : Call → Type 0
KnownCall (offer e) = is_known e.stream ≡ true
KnownCall take = Unit

-- The order law of a history.
abbrev InOrder : Stream → PriorityQueue → History → Type 0
InOrder s q h = q.lanes s ++ on_stream s h.accepted ≡ on_stream s h.served ++ h.queue.lanes s

offer-InOrder :
    (s : Stream) (q : PriorityQueue) (e : Envelope) (x : Option Error) (r : PriorityQueue)
    (h : History)
    → Entry q e x r
    → InOrder s r h
    → InOrder s q (after_offer e x h)
offer-InOrder s q e x r h (accepted f) ih =
    ap (λ l. q.lanes s ++ l) (on_stream-cons s e h.accepted)
    ∙ sym (append_assoc (q.lanes s) (on_stream s (e ∷ [])) (on_stream s h.accepted))
    ∙ ap (λ l. l ++ on_stream s h.accepted) (sym (add-lane q e s))
    ∙ ih
offer-InOrder s q e x r h (refused y n) ih = ih

taken-InOrder :
    (s : Stream) {q r : PriorityQueue} {e : Envelope} (h : History)
    → (t : Taken q e r) → e.stream ≡ t.from
    → InOrder s r h
    → InOrder s q (after_take (some e) h)
taken-InOrder s {q} {r} {e} h t at ih =
    ap (λ l. l ++ on_stream s h.accepted) (taken-lane t at s)
    ∙ append_assoc (on_stream s (e ∷ [])) (r.lanes s) (on_stream s h.accepted)
    ∙ ap (λ l. on_stream s (e ∷ []) ++ l) ih
    ∙ sym (append_assoc (on_stream s (e ∷ [])) (on_stream s h.served) (h.queue.lanes s))
    ∙ ap (λ l. l ++ h.queue.lanes s) (sym (on_stream-cons s e h.served))

take-InOrder :
    (s : Stream) (q : PriorityQueue) (o : Option Envelope) (r : PriorityQueue) (h : History)
    → IsValid q
    → Outcome q o r
    → InOrder s r h
    → InOrder s q (after_take o h)
take-InOrder s q o r h v (idle a b c) ih = ih
take-InOrder s q o r h v (bulk t b k turn) ih = taken-InOrder s h t (taken-IsHome v t).0 ih
take-InOrder s q o r h v (priority t b k turn) ih = taken-InOrder s h t (taken-IsHome v t).0 ih

-- From a valid queue, on each stream: what was queued and then accepted is what was returned and then
-- what is still queued, in this order. The calls offer only messages of known streams.
pub run-InOrder :
    (s : Stream) (q : PriorityQueue) (calls : List Call)
    → IsValid q
    → All KnownCall calls
    → InOrder s q (run q calls)
unfolding run
run-InOrder s q [] v k = append-nil (q.lanes s)
run-InOrder s q (offer e ∷ calls) v k =
    offer-InOrder s q e (enqueue q e).0 (enqueue q e).1 _ (enqueue-Entry q e)
      (run-InOrder s (enqueue q e).1 calls (enqueue-IsValid q e v k.0) k.1)
run-InOrder s q (take ∷ calls) v k =
    take-InOrder s q (dequeue q).0 (dequeue q).1 _ v (dequeue-Outcome q)
      (run-InOrder s (dequeue q).1 calls (dequeue-IsValid q v) k.1)

-- What a call adds to the history does not change its queue.
queue-after_offer :
    (e : Envelope) (x : Option Error) (h : History) → (after_offer e x h).queue ≡ h.queue
queue-after_offer e none h = refl
queue-after_offer e (some x) h = refl

queue-after_take : (o : Option Envelope) (h : History) → (after_take o h).queue ≡ h.queue
queue-after_take none h = refl
queue-after_take (some e) h = refl

-- Any sequence of calls that offers only messages of known streams keeps a valid queue valid.
pub run-IsValid :
    (q : PriorityQueue) (calls : List Call)
    → IsValid q
    → All KnownCall calls
    → IsValid (run q calls).queue
unfolding run
run-IsValid q [] v k = v
run-IsValid q (offer e ∷ calls) v k =
    subst IsValid (sym (queue-after_offer e (enqueue q e).0 (run (enqueue q e).1 calls)))
      (run-IsValid (enqueue q e).1 calls (enqueue-IsValid q e v k.0) k.1)
run-IsValid q (take ∷ calls) v k =
    subst IsValid (sym (queue-after_take (dequeue q).0 (run (dequeue q).1 calls)))
      (run-IsValid (dequeue q).1 calls (dequeue-IsValid q v) k.1)
