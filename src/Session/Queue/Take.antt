-- ===== src/Session/Queue/Take.antt =====
-- What `popFirst` and `Dequeue` take: the head of one lane of the streams that they look at.
use native.Mathlib.Nat.{mod-lt}
use mathlib.Core.Path.{subst}
use kvm_infrastructure_manag.Base.{
  ℕ, zero, suc, ◌+◌, ◌-◌, ◌%◌, ◌<◌, ◌≡◌, refl, true, false, Option, none, some, List, [], ◌∷◌,
  arith, length, get_or, All, All-get_or, ◌⊎◌, inl, inr,
}
use kvm_infrastructure_manag.Session.Envelope.{Stream, control, Envelope, is_known}
use kvm_infrastructure_manag.Session.Queue.{
  PriorityQueue, update, pop_scan, pop_first, control_streams, authority_streams, bulk_streams,
  is_bulk,
}

-- `r` is `q` less the head `e` of a lane; the cursors and the count of consecutive priority
-- messages may differ.
pub record Taken (q : PriorityQueue) (e : Envelope) (r : PriorityQueue) : Type 0 where
  pub from : Stream
  pub known : is_known from ≡ true
  pub rest : List Envelope
  pub head : q.lanes from ≡ e ∷ rest
  pub lanes : r.lanes ≡ update q.lanes from rest
  pub count : r.total_count ≡ q.total_count - 1
  pub bytes : r.total_bytes ≡ q.total_bytes - length e.payload
  pub limits : r.limits ≡ q.limits

-- A lane, by cases, with the equation.
pub lane_cases :
    (l : List Envelope) → (l ≡ []) ⊎ ((e : Envelope) × (r : List Envelope) × (l ≡ e ∷ r))
lane_cases [] = inl refl
lane_cases (e ∷ r) = inr (e, r, refl)

abbrev pub IsTake :
    (Stream → Type 0) → PriorityQueue → Option (Envelope × ℕ × PriorityQueue) → Type 0
IsTake P q none = Unit
IsTake P q (some (e, c, r)) =
    (t : Taken q e r) × P t.from × (r.consecutive_priority ≡ q.consecutive_priority)

module _ (P : Stream → Type 0) (streams : List Stream) (all : All P streams)
    (some_stream : 0 < length streams) (known : (s : Stream) → P s → is_known s ≡ true) where
  scan-IsTake :
      (start offset rounds : ℕ) (q : PriorityQueue)
      → IsTake P q (pop_scan streams start offset rounds q)
  unfolding pop_scan
  scan-IsTake start offset zero q = tt
  scan-IsTake start offset (suc rounds) q =
      let index = (start + offset) % length streams in
      let s = get_or streams index control in
      let p : P s = All-get_or P streams index control all (mod-lt (start + offset) some_stream) in
      elim (lane_cases (q.lanes s)) [
        | inl e ↦ rw (e, pop_scan) (scan-IsTake start (offset + 1) rounds q)
        | inr (e, r, h) ↦
            rw (h, pop_scan)
              (
                record {
                  from = s;
                  known = known s p;
                  rest = r;
                  head = h;
                  lanes = refl;
                  count = refl;
                  bytes = refl;
                  limits = refl;
                },
                p,
                refl,
              )
      ]

-- The streams of one attempt, as a class.
abbrev pub IsPriority : Stream → Type 0
IsPriority s = (is_bulk s ≡ false) × (is_known s ≡ true)

abbrev pub IsBulk : Stream → Type 0
IsBulk s = (is_bulk s ≡ true) × (is_known s ≡ true)

pub IsBulk-IsTake : (q : PriorityQueue) → IsTake IsBulk q (pop_first bulk_streams q.bulk_cursor q)
unfolding pop_first
IsBulk-IsTake q =
    scan-IsTake IsBulk bulk_streams ((refl, refl), ((refl, refl), tt)) (omega arith) (λ s p. p.1)
      (q.bulk_cursor % 2) 0 2 q

pub control-IsTake : (q : PriorityQueue) → IsTake IsPriority q (pop_first control_streams 0 q)
unfolding pop_first
control-IsTake q =
    scan-IsTake IsPriority control_streams ((refl, refl), tt) (omega arith) (λ s p. p.1) 0 0 1 q

pub authority-IsTake :
    (q : PriorityQueue) → IsTake IsPriority q (pop_first authority_streams q.authority_cursor q)
unfolding pop_first
authority-IsTake q =
    scan-IsTake IsPriority authority_streams
      ((refl, refl), ((refl, refl), ((refl, refl), ((refl, refl), tt)))) (omega arith) (λ s p. p.1)
      (q.authority_cursor % 4) 0 4 q

-- A scan that finds nothing has seen an empty lane at every offset.
scan_none :
    (streams : List Stream) (start offset rounds : ℕ) (q : PriorityQueue)
    → pop_scan streams start offset rounds q ≡ none
    → (i : ℕ) → i < rounds
    → q.lanes (get_or streams ((start + (offset + i)) % length streams) control) ≡ []
unfolding pop_scan
scan_none streams start offset zero q h i lt = elim lt [ ]
scan_none streams start offset (suc rounds) q h zero lt =
    let e : offset + 0 ≡ offset = omega arith in rw e (ground arith)
scan_none streams start offset (suc rounds) q h (suc i) lt =
    let e : offset + suc i ≡ (offset + 1) + i = omega arith in
    rw e (scan_none streams start (offset + 1) rounds q (ground arith) i (omega arith))

-- A full round from any start comes to every index.
reach2 : (c j : ℕ) → j < 2 → (c % 2 + (0 + (j + 2 - c % 2) % 2)) % 2 ≡ j
reach2 c j h = omega arith

reach4 : (c j : ℕ) → j < 4 → (c % 4 + (0 + (j + 4 - c % 4) % 4)) % 4 ≡ j
reach4 c j h = omega arith

pub bulk_none :
    (q : PriorityQueue)
    → pop_first bulk_streams q.bulk_cursor q ≡ none
    → (j : ℕ) → j < 2
    → q.lanes (get_or bulk_streams j control) ≡ []
unfolding pop_first
bulk_none q h j lt =
    let c = q.bulk_cursor in
    subst (λ i. q.lanes (get_or bulk_streams i control) ≡ []) (reach2 c j lt)
      (scan_none bulk_streams (c % 2) 0 2 q h ((j + 2 - c % 2) % 2) (omega arith))

pub authority_none :
    (q : PriorityQueue)
    → pop_first authority_streams q.authority_cursor q ≡ none
    → (j : ℕ) → j < 4
    → q.lanes (get_or authority_streams j control) ≡ []
unfolding pop_first
authority_none q h j lt =
    let c = q.authority_cursor in
    subst (λ i. q.lanes (get_or authority_streams i control) ≡ []) (reach4 c j lt)
      (scan_none authority_streams (c % 4) 0 4 q h ((j + 4 - c % 4) % 4) (omega arith))

pub control_none : (q : PriorityQueue) → pop_first control_streams 0 q ≡ none → q.lanes control ≡ []
unfolding pop_first
control_none q h = scan_none control_streams 0 0 1 q h 0 (omega arith)
