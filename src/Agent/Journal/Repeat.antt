-- ===== src/Agent/Journal/Repeat.antt =====
-- A call of the execution journal that has succeeded, made again.
use kvm_infrastructure_manag.Base.{
  ◌≡◌, refl, ap, sym, ◌∙◌, String, Bool, true, false, ◌&&◌, ◌||◌, not, Option, none, some,
  if◌then◌else◌, if_true, if_false, str_eq, eq_iff, Result, ok, err, arith,
}
use kvm_infrastructure_manag.Base.Maps.{find-put_same, find}
use kvm_infrastructure_manag.Base.Ints.{ℤ, eq_int}
use kvm_infrastructure_manag.Agent.Journal.{
  Error, conflict, incomplete_identity, incomplete_result, closed_journal, identity_incomplete,
  result_incomplete, CommandRecord, Fault, Journal, Disk, same_identity, completed, record_key,
  record_digest, store, started, prepare_found, prepare, complete_found, complete, evidence,
}

eq_int_refl : (a : ℤ) → eq_int a a ≡ true
eq_int_refl a = ground arith

str_eq_refl : (s : String) → str_eq s s ≡ true
str_eq_refl s = (eq_iff s s).1 refl

same_identity_refl : (r : CommandRecord) → same_identity r r ≡ true
same_identity_refl r =
    simp
      (
        str_eq_refl r.command_id,
        eq_int_refl r.attempt_index,
        str_eq_refl r.command_digest,
        str_eq_refl r.target_id,
      )
      refl

neither : {a b : Bool} → a ≡ true → b ≡ true → (not a || not b) ≡ false
neither h k = ground arith

same_digest :
    (x r : CommandRecord)
    → same_identity x r ≡ true
    → (str_eq x.command_digest r.command_digest ≡ true) × (str_eq x.target_id r.target_id ≡ true)
same_digest x r h = (ground arith, ground arith)

module _ {Text : Type 0} (decimal : ℤ → String) (hash : String → String) (digest : Text → String)
    (encode : CommandRecord → Text) (decode : Text → Option CommandRecord) where
  -- The disk after an answered call: the record under the key, what holds of it, its digest, and the
  -- journal's state.
  record Answered (key s : String) (P : CommandRecord → Bool) (d e : Disk Text) : Type 0 where
    entry : CommandRecord
    found : find key e.journal.records ≡ some entry
    fits : P entry ≡ true
    answer : record_digest decimal hash digest encode decode entry ≡ s
    still : e.journal.closed ≡ d.journal.closed

  ok_inj :
      {x y : String} {d e : Disk Text}
      → ◌≡◌ {A = Result Error String × Disk Text} (ok x, d) (ok y, e)
      → x ≡ y
  ok_inj h = ground (arith, ap (λ z. z.0) h)

  not_ok :
      {x : Error} {y : String} {d e : Disk Text}
      → ◌≡◌ {A = Result Error String × Disk Text} (err x, d) (ok y, e)
      → ⊥
  not_ok h = ground (arith, ap (λ z. z.0) h)

  past_guard :
      (b : Bool) (x : Error) (s : String) (d e : Disk Text) (y : Result Error String × Disk Text)
      → (if b then (err x, d) else y) ≡ (ok s, e)
      → (b ≡ false) × (y ≡ (ok s, e))
  past_guard true x s d e y h = absurd (not_ok h)
  past_guard false x s d e y h = (refl, h)

  store-Answered :
      (P : CommandRecord → Bool) (key : String) (r : CommandRecord) (fault : Option Fault)
      (d e : Disk Text) (s : String)
      → P r ≡ true
      → store decimal hash digest encode decode key r fault d ≡ (ok s, e)
      → Answered key s P d e
  store-Answered P key r (some f) d e s p h = absurd (not_ok h)
  store-Answered P key r none d e s p h = record {
    entry = r;
    found = ap (λ z. find key z.1.journal.records) (sym h) ∙ find-put_same key r d.journal.records;
    fits = p;
    answer = ok_inj h;
    still = ap (λ z. z.1.journal.closed) (sym h);
  }

  unchanged-Answered :
      (P : CommandRecord → Bool) (key : String) (r : CommandRecord) (d e : Disk Text) (s : String)
      → find key d.journal.records ≡ some r
      → P r ≡ true
      → ◌≡◌ {A = Result Error String × Disk Text}
          (ok (record_digest decimal hash digest encode decode r), d)
          (ok s, e)
      → Answered key s P d e
  unchanged-Answered P key r d e s f p h = record {
    entry = r;
    found = ap (λ z. find key z.1.journal.records) (sym h) ∙ f;
    fits = p;
    answer = ok_inj h;
    still = ap (λ z. z.1.journal.closed) (sym h);
  }

  prepare_found-Answered :
      (key : String) (o : Option CommandRecord) (r : CommandRecord) (fault : Option Fault)
      (d e : Disk Text) (s : String)
      → find key d.journal.records ≡ o
      → prepare_found decimal hash digest encode decode key o r fault d ≡ (ok s, e)
      → Answered key s (λ x. same_identity x r) d e
  prepare_found-Answered key none r fault d e s f h =
      store-Answered (λ x. same_identity x r) key r fault d e s (same_identity_refl r) h
  prepare_found-Answered key (some x) r fault d e s f h =
      let g = past_guard (not (same_identity x r)) conflict s d e _ h in
      unchanged-Answered (λ y. same_identity y r) key x d e s f (ground (arith, g.0)) g.1

  -- If `Prepare` has succeeded, then the same call made again gives the same digest and changes
  -- nothing, whichever call of the system would fail.
  pub prepare_again :
      (c : String) (a : ℤ) (cd t : String) (fault later : Option Fault) (d e : Disk Text)
      (s : String)
      → prepare decimal hash digest encode decode c a cd t fault d ≡ (ok s, e)
      → prepare decimal hash digest encode decode c a cd t later e ≡ (ok s, e)
  unfolding prepare
  prepare_again c a cd t fault later d e s h =
      let key = record_key decimal hash digest encode decode c a in
      let r = started decimal hash digest encode decode d.journal.host_id c a cd t in
      let g = past_guard (identity_incomplete c a cd t) incomplete_identity s d e _ h in
      let i = past_guard d.journal.closed closed_journal s d e _ g.1 in
      let x = prepare_found-Answered key (find key d.journal.records) r fault d e s refl i.1 in
      simp (x.still ∙ i.0, x.found, x.fits, x.answer) (if_false _ _ _ g.0)

  found_evidence :
      (c : String) (a : ℤ) (cd t : String) (j : Journal) (x r : CommandRecord)
      → j.closed ≡ false
      → find (record_key decimal hash digest encode decode c a) j.records ≡ some x
      → same_identity x r ≡ true
      → r.command_digest ≡ cd
      → r.target_id ≡ t
      → evidence decimal hash digest encode decode c a cd t j
        ≡ ok (x, record_digest decimal hash digest encode decode x)
  unfolding evidence
  found_evidence c a cd t j x r o f g h k =
      let p = same_digest x r g in
      simp (o, f)
        (if_false _ _ _ (
          neither (ap (λ z. str_eq x.command_digest z) (sym h) ∙ p.0)
            (ap (λ z. str_eq x.target_id z) (sym k) ∙ p.1)))

  -- If `Prepare` has succeeded, then `Evidence` of the same command, of the same attempt, digest and
  -- target finds a record, and gives the digest that `Prepare` gave.
  pub prepare-evidence :
      (c : String) (a : ℤ) (cd t : String) (fault : Option Fault) (d e : Disk Text) (s : String)
      → prepare decimal hash digest encode decode c a cd t fault d ≡ (ok s, e)
      → (r : CommandRecord) × (evidence decimal hash digest encode decode c a cd t e.journal
          ≡ ok (r, s))
  unfolding prepare
  prepare-evidence c a cd t fault d e s h =
      let key = record_key decimal hash digest encode decode c a in
      let r = started decimal hash digest encode decode d.journal.host_id c a cd t in
      let g = past_guard (identity_incomplete c a cd t) incomplete_identity s d e _ h in
      let i = past_guard d.journal.closed closed_journal s d e _ g.1 in
      let x = prepare_found-Answered key (find key d.journal.records) r fault d e s refl i.1 in
      (
        x.entry,
        found_evidence c a cd t e.journal x.entry r (x.still ∙ i.0) x.found x.fits refl refl
            ∙ ap (λ z. ok (x.entry, z)) x.answer,
      )

  abbrev holds : String → String → CommandRecord → Bool
  holds rd out r = str_eq r.state "COMPLETED" && str_eq r.result_digest rd && str_eq r.outcome out

  holds-completed : (r : CommandRecord) (rd out : String) → holds rd out (completed r rd out) ≡ true
  holds-completed r rd out = simp (str_eq_refl rd, str_eq_refl out) refl

  complete_branch :
      (key : String) (r : CommandRecord) (rd out : String) (fault : Option Fault) (d e : Disk Text)
      (s : String) (b : Bool)
      → find key d.journal.records ≡ some r
      → str_eq r.state "COMPLETED" ≡ b
      → (if b
          then (if not (str_eq r.result_digest rd) || not (str_eq r.outcome out)
              then (err conflict, d)
              else (ok (record_digest decimal hash digest encode decode r), d))
          else store decimal hash digest encode decode key (completed r rd out) fault d)
        ≡ (ok s, e)
      → Answered key s (holds rd out) d e
  complete_branch key r rd out fault d e s true f k h =
      let g =
        past_guard (not (str_eq r.result_digest rd) || not (str_eq r.outcome out)) conflict s d e _
          h in
      unchanged-Answered (holds rd out) key r d e s f (ground (arith, k, g.0)) g.1
  complete_branch key r rd out fault d e s false f k h =
      store-Answered (holds rd out) key (completed r rd out) fault d e s (holds-completed r rd out)
        h

  complete_found-Answered :
      (key : String) (o : Option CommandRecord) (rd out : String) (fault : Option Fault)
      (d e : Disk Text) (s : String)
      → find key d.journal.records ≡ o
      → complete_found decimal hash digest encode decode key o rd out fault d ≡ (ok s, e)
      → Answered key s (holds rd out) d e
  complete_found-Answered key none rd out fault d e s f h = absurd (not_ok h)
  complete_found-Answered key (some r) rd out fault d e s f h =
      complete_branch key r rd out fault d e s (str_eq r.state "COMPLETED") f refl h

  both_true : (a b c : Bool) → a && b && c ≡ true → (a ≡ true) × (b ≡ true) × (c ≡ true)
  both_true a b c h = (ground arith, ground arith, ground arith)

  one_false : (a b : Bool) → a && b ≡ false → (not a || not b) ≡ true
  one_false a b h = ground arith

  retold : (x y z : String) → str_eq x y ≡ true → str_eq x z ≡ str_eq y z
  retold x y z h = ap (λ w. str_eq w z) ((eq_iff x y).0 h)

  differs_still :
      (r : CommandRecord) (rd out rd' out' : String)
      → str_eq r.result_digest rd ≡ true
      → str_eq r.outcome out ≡ true
      → str_eq rd rd' && str_eq out out' ≡ false
      → (not (str_eq r.result_digest rd') || not (str_eq r.outcome out')) ≡ true
  differs_still r rd out rd' out' p q h =
      let u = retold r.result_digest rd rd' p in
      let v = retold r.outcome out out' q in
      one_false _ _ (ap (λ z. z && str_eq r.outcome out') u ∙ ap (λ z. str_eq rd rd' && z) v ∙ h)

  -- A journal that holds a completed record takes its result again, and refuses any other.
  settled :
      (c : String) (a : ℤ) (rd out : String) (later : Option Fault) (e : Disk Text)
      (r : CommandRecord)
      → find (record_key decimal hash digest encode decode c a) e.journal.records ≡ some r
      → e.journal.closed ≡ false
      → result_incomplete rd out ≡ false
      → holds rd out r ≡ true
      → (complete decimal hash digest encode decode c a rd out later e
          ≡ (ok (record_digest decimal hash digest encode decode r), e))
        × ((rd' out' : String)
            → result_incomplete rd' out' ≡ false
            → str_eq rd rd' && str_eq out out' ≡ false
            → complete decimal hash digest encode decode c a rd' out' later e ≡ (err conflict, e))
  unfolding complete
  settled c a rd out later e r f o g h =
      let (done, p, q) = both_true _ _ _ h in
      (
        simp (g, o, f) (if_true _ _ _ done ∙ if_false _ _ _ (neither p q)),
        λ rd' out' i k.
            simp (i, o, f)
              (if_true _ _ _ done ∙ if_true _ _ _ (differs_still r rd out rd' out' p q k)),
      )

  -- If `Complete` has succeeded, then the same call made again gives the same digest and changes
  -- nothing; and a call for the same record that differs in the result digest or in the outcome, with
  -- a result digest of the right length and a known outcome, is refused as a conflict and changes
  -- nothing.
  pub complete_again :
      (c : String) (a : ℤ) (rd out : String) (fault later : Option Fault) (d e : Disk Text)
      (s : String)
      → complete decimal hash digest encode decode c a rd out fault d ≡ (ok s, e)
      → (complete decimal hash digest encode decode c a rd out later e ≡ (ok s, e))
        × ((rd' out' : String)
            → result_incomplete rd' out' ≡ false
            → str_eq rd rd' && str_eq out out' ≡ false
            → complete decimal hash digest encode decode c a rd' out' later e ≡ (err conflict, e))
  unfolding complete
  complete_again c a rd out fault later d e s h =
      let key = record_key decimal hash digest encode decode c a in
      let g = past_guard (result_incomplete rd out) incomplete_result s d e _ h in
      let i = past_guard d.journal.closed closed_journal s d e _ g.1 in
      let x =
        complete_found-Answered key (find key d.journal.records) rd out fault d e s refl i.1 in
      let y = settled c a rd out later e x.entry x.found (x.still ∙ i.0) g.0 x.fits in
      (y.0 ∙ ap (λ z. (ok z, e)) x.answer, y.1)

  -- The record that a successful `Complete` leaves.
  pub complete-find :
      (c : String) (a : ℤ) (rd out : String) (fault : Option Fault) (d e : Disk Text) (s : String)
      → complete decimal hash digest encode decode c a rd out fault d ≡ (ok s, e)
      → (r : CommandRecord) × (find
            (record_key decimal hash digest encode decode c a)
            e.journal.records
          ≡ some r)
        × (str_eq r.state "COMPLETED" ≡ true)
        × (str_eq r.result_digest rd ≡ true)
        × (str_eq r.outcome out ≡ true)
  unfolding complete
  complete-find c a rd out fault d e s h =
      let key = record_key decimal hash digest encode decode c a in
      let g = past_guard (result_incomplete rd out) incomplete_result s d e _ h in
      let i = past_guard d.journal.closed closed_journal s d e _ g.1 in
      let x =
        complete_found-Answered key (find key d.journal.records) rd out fault d e s refl i.1 in
      let f = both_true _ _ _ x.fits in (x.entry, x.found, f.0, f.1, f.2)
