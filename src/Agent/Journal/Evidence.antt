-- ===== src/Agent/Journal/Evidence.antt =====
-- The evidence that the execution journal keeps over any sequence of calls.
use mathlib.Core.Path.{subst}
use kvm_infrastructure_manag.Base.{
  ◌≡◌, refl, ap, ◌∙◌, String, Bool, true, false, ◌||◌, not, Option, none, some, List, [], ◌∷◌,
  if◌then◌else◌, str_eq, eq_iff, Result, err, arith,
}
use kvm_infrastructure_manag.Base.Maps.{find, put, find-put, both_branches}
use kvm_infrastructure_manag.Base.Ints.{ℤ}
use kvm_infrastructure_manag.Agent.Journal.{
  Error, incomplete_identity, incomplete_result, closed_journal, identity_incomplete,
  result_incomplete, CommandRecord, Fault, Journal, Disk, close, same_identity, completed,
  record_key, store, started, prepare_found, prepare, complete_found, complete,
}

-- The command of a record stays, and all of it once it is completed.
pub record Keeps (r s : CommandRecord) : Type 0 where
  pub command : s.command_id ≡ r.command_id
  pub attempt : s.attempt_index ≡ r.attempt_index
  pub digest : s.command_digest ≡ r.command_digest
  pub target : s.target_id ≡ r.target_id
  pub final : str_eq r.state "COMPLETED" ≡ true → s ≡ r

Keeps-refl : (r : CommandRecord) → Keeps r r
Keeps-refl r = record {
  command = refl;
  attempt = refl;
  digest = refl;
  target = refl;
  final = λ _. refl;
}

Keeps-trans : {r s t : CommandRecord} → Keeps r s → Keeps s t → Keeps r t
Keeps-trans {r} {s} {t} a b = record {
  command = b.command ∙ a.command;
  attempt = b.attempt ∙ a.attempt;
  digest = b.digest ∙ a.digest;
  target = b.target ∙ a.target;
  final = λ h. let e = a.final h in b.final (ap (λ x. str_eq x.state "COMPLETED") e ∙ h) ∙ e;
}

-- A record that is found stays found.
abbrev pub Kept : Option CommandRecord → Option CommandRecord → Type 0
Kept none o = Unit
Kept (some r) none = ⊥
Kept (some r) (some s) = Keeps r s

Kept-refl : (o : Option CommandRecord) → Kept o o
Kept-refl none = tt
Kept-refl (some r) = Keeps-refl r

Kept-trans : (a b c : Option CommandRecord) → Kept a b → Kept b c → Kept a c
Kept-trans none b c f g = tt
Kept-trans (some r) none c f g = absurd f
Kept-trans (some r) (some s) none f g = absurd g
Kept-trans (some r) (some s) (some t) f g = Keeps-trans f g

-- A call, with the call of the system that fails in it.
pub data Call : Type 0 where
  prepares : String → ℤ → String → String → Option Fault → Call
  completes : String → ℤ → String → String → Option Fault → Call
  closes : Call

put-Kept :
    (k key : String) (r : CommandRecord) (rs : List (String × CommandRecord))
    → Kept (find key rs) (some r)
    → Kept (find k rs) (find k (put key r rs))
put-Kept k key r rs h = rw (find-put k key r rs) (
    both_branches (Kept (find k rs)) (str_eq key k) (some r) (find k rs)
      (λ e. subst (λ z. Kept (find z rs) (some r)) ((eq_iff key k).0 e) h)
      (λ _. Kept-refl (find k rs)))

module _ {Text : Type 0} (decimal : ℤ → String) (hash : String → String) (digest : Text → String)
    (encode : CommandRecord → Text) (decode : Text → Option CommandRecord) where
  abbrev pub call : Call → Disk Text → Disk Text
  call (prepares c a cd t fault) d = (prepare decimal hash digest encode decode c a cd t fault d).1
  call (completes c a rd o fault) d =
      (complete decimal hash digest encode decode c a rd o fault d).1
  call closes d = record d { journal = close d.journal }

  abbrev pub run : List Call → Disk Text → Disk Text
  run [] d = d
  run (x ∷ xs) d = run xs (call x d)

  -- The records after a call keep a key's record.
  abbrev KeepsAll : String → Disk Text → Result Error String × Disk Text → Type 0
  KeepsAll k d x = Kept (find k d.journal.records) (find k x.1.journal.records)

  store-Kept :
      (k key : String) (r : CommandRecord) (fault : Option Fault) (d : Disk Text)
      → Kept (find key d.journal.records) (some r)
      → KeepsAll k d (store decimal hash digest encode decode key r fault d)
  store-Kept k key r none d h = put-Kept k key r d.journal.records h
  store-Kept k key r (some f) d h = Kept-refl (find k d.journal.records)

  prepare_found-Kept :
      (k key : String) (o : Option CommandRecord) (r : CommandRecord) (fault : Option Fault)
      (d : Disk Text)
      → find key d.journal.records ≡ o
      → KeepsAll k d (prepare_found decimal hash digest encode decode key o r fault d)
  prepare_found-Kept k key none r fault d h = store-Kept k key r fault d (rw h tt)
  prepare_found-Kept k key (some e) r fault d h =
      let same = Kept-refl (find k d.journal.records) in
      both_branches (KeepsAll k d) (not (same_identity e r)) _ _ (λ _. same) (λ _. same)

  completed-Keeps :
      (r : CommandRecord) (rd o : String)
      → str_eq r.state "COMPLETED" ≡ false
      → Keeps r (completed r rd o)
  completed-Keeps r rd o h = record {
    command = refl;
    attempt = refl;
    digest = refl;
    target = refl;
    final = λ k. ground arith;
  }

  complete_found-Kept :
      (k key : String) (o : Option CommandRecord) (rd out : String) (fault : Option Fault)
      (d : Disk Text)
      → find key d.journal.records ≡ o
      → KeepsAll k d (complete_found decimal hash digest encode decode key o rd out fault d)
  complete_found-Kept k key none rd out fault d h = Kept-refl (find k d.journal.records)
  complete_found-Kept k key (some r) rd out fault d h =
      let same = Kept-refl (find k d.journal.records) in
      both_branches (KeepsAll k d) (str_eq r.state "COMPLETED") _ _
        (λ _.
          both_branches (KeepsAll k d)
            (not (str_eq r.result_digest rd) || not (str_eq r.outcome out)) _ _ (λ _. same)
            (λ _. same))
        (λ e. store-Kept k key (completed r rd out) fault d (rw h (completed-Keeps r rd out e)))

  guarded-KeepsAll :
      (k : String) (d : Disk Text) (b : Bool) (e : Error) (x : Result Error String × Disk Text)
      → KeepsAll k d x
      → KeepsAll k d (if b then (err e, d) else x)
  guarded-KeepsAll k d true e x h = Kept-refl (find k d.journal.records)
  guarded-KeepsAll k d false e x h = h

  call-Kept :
      (x : Call) (k : String) (d : Disk Text)
      → Kept (find k d.journal.records) (find k (call x d).journal.records)
  unfolding prepare complete close
  call-Kept (prepares c a cd t fault) k d =
      let key = record_key decimal hash digest encode decode c a in
      let r = started decimal hash digest encode decode d.journal.host_id c a cd t in
      let x =
        prepare_found decimal hash digest encode decode key (find key d.journal.records) r fault
          d in
      guarded-KeepsAll k d (identity_incomplete c a cd t) incomplete_identity
        (if d.journal.closed then (err closed_journal, d) else x)
        (guarded-KeepsAll k d d.journal.closed closed_journal x
          (prepare_found-Kept k key (find key d.journal.records) r fault d refl))
  call-Kept (completes c a rd o fault) k d =
      let key = record_key decimal hash digest encode decode c a in
      let x =
        complete_found decimal hash digest encode decode key (find key d.journal.records) rd o fault
          d in
      guarded-KeepsAll k d (result_incomplete rd o) incomplete_result
        (if d.journal.closed then (err closed_journal, d) else x)
        (guarded-KeepsAll k d d.journal.closed closed_journal x
          (complete_found-Kept k key (find key d.journal.records) rd o fault d refl))
  call-Kept closes k d =
      both_branches {A = Journal} (λ j. Kept (find k d.journal.records) (find k j.records))
        d.journal.closed _ _ (λ _. Kept-refl (find k d.journal.records))
        (λ _. Kept-refl (find k d.journal.records))

  -- Whatever calls of `Prepare`, `Complete` and `Close` come, and whichever calls of the system fail:
  -- a record of the journal stays at its key with its command, its attempt, its command digest and
  -- its target, and does not change at all once it is completed.
  pub run-Kept :
      (xs : List Call) (k : String) (d : Disk Text)
      → Kept (find k d.journal.records) (find k (run xs d).journal.records)
  run-Kept [] k d = Kept-refl (find k d.journal.records)
  run-Kept (x ∷ xs) k d =
      Kept-trans (find k d.journal.records) (find k (call x d).journal.records)
        (find k (run xs (call x d)).journal.records) (call-Kept x k d) (run-Kept xs k (call x d))
