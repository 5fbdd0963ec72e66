-- ===== src/Agent/Generation/Fresh.antt =====
-- The ledger of generations over commits, failures and restarts of the Agent.
use kvm_infrastructure_manag.Base.{
  ℕ, ◌+◌, ◌-◌, ◌%◌, ◌≤◌, ◌<◌, ◌≡◌, refl, ap, ◌∙◌, String, Bool, true, false, not, Option, none,
  some, List, [], ◌∷◌, ◌==◌, if◌then◌else◌, str_eq, eq_iff, Result, ok, err, All, arith,
}
use kvm_infrastructure_manag.Base.Words.{u64_mod, add64}
use kvm_infrastructure_manag.Agent.Generation.{
  Error, system, exhausted, GenerationRecord, Ledger, File, Fault, OpenFault, os_error, lstat_error,
  renamed, next, close, from_record, from_file, opened, open_ledger, commit_accepted, written,
}

-- A call of `CommitAccepted` with its fault, a `Close`, and a `Close` with an `Open` after it.
pub data Event : Type 0 where
  commit : ℕ → Option Fault → Event
  shut : Event
  restart : Option OpenFault → Event

-- The ledger of the running process, the file, and the generations whose commit succeeded.
pub record World (Text : Type 0) : Type 0 where
  pub ledger : Option Ledger
  pub file : Option (File Text)
  pub granted : List ℕ

abbrev pub IsPositive : Event → Type 0
IsPositive (commit n fault) = 0 < n
IsPositive shut = Unit
IsPositive (restart fault) = Unit

abbrev pub grant : Option Error → ℕ → List ℕ → List ℕ
grant none n ns = n ∷ ns
grant (some e) n ns = ns

abbrev pub running : Result Error Ledger → Option Ledger
running (ok l) = some l
running (err e) = none

both_branches :
    {A : Type 0} (P : A → Type 0) (c : Bool) (x y : A)
    → (c ≡ true → P x)
    → (c ≡ false → P y)
    → P (if c then x else y)
both_branches P true x y f g = f refl
both_branches P false x y f g = g refl

next_word : (a n : ℕ) → 0 < n → a < u64_mod → n ≡ (a + 1) % u64_mod → n ≡ a + 1
next_word a n p w h = ground arith

next_above : (l : Ledger) (n : ℕ) → l.accepted < u64_mod → next l ≡ ok n → l.accepted < n
unfolding next add64
next_above l n w h = ground arith

ledger_or : Ledger → Option Ledger → Ledger
ledger_or d none = d
ledger_or d (some l) = l

some_inj : {l m : Ledger} → some l ≡ some m → l ≡ m
unfolding ledger_or
some_inj {l} {m} h = ap (ledger_or l) h

abbrev AtMost : ℕ → ℕ → Type 0
AtMost n g = g ≤ n

All-AtMost : (m n : ℕ) (gs : List ℕ) → m ≤ n → All (AtMost m) gs → All (AtMost n) gs
All-AtMost m n [] h a = tt
All-AtMost m n (g ∷ gs) h a = (ground arith, All-AtMost m n gs h a.1)

abbrev pub Above : ℕ → ℕ → Type 0
Above n g = g < n

All-Above : (m n : ℕ) (gs : List ℕ) → m < n → All (AtMost m) gs → All (Above n) gs
All-Above m n [] h a = tt
All-Above m n (g ∷ gs) h a = (ground arith, All-Above m n gs h a.1)

module _ {Text : Type 0} (encode : GenerationRecord → Text)
    (decode : Text → Option GenerationRecord) (directory host_id : String) where
  abbrev pub step : Event → World Text → World Text
  step (commit n fault) w = elim w.ledger [
    | none ↦ w
    | some l ↦
        let (error, l', file) = commit_accepted encode decode l n fault w.file in
        record { ledger = some l'; file = file; granted = grant error n w.granted }
  ]
  step shut w = elim w.ledger [ none ↦ w | some l ↦ record w { ledger = some (close l) } ]
  step (restart fault) w = record w {
    ledger = running (open_ledger encode decode directory host_id fault w.file);
  }

  abbrev pub run : List Event → World Text → World Text
  run [] w = w
  run (e ∷ es) w = run es (step e w)

  abbrev pub start : World Text
  start = record { ledger = none; file = none; granted = [] }

  abbrev generation_of : Option GenerationRecord → ℕ
  generation_of none = 0
  generation_of (some r) = r.accepted_generation

  -- The generation that the file holds.
  abbrev stored : Option (File Text) → ℕ
  stored none = 0
  stored (some f) = generation_of (decode f.text)

  abbrev Live : Option Ledger → ℕ → List ℕ → Type 0
  Live none n gs = Unit
  Live (some l) n gs = All (AtMost l.accepted) gs × (l.accepted ≤ n)

  -- The file holds a word, and is ahead of the ledger, which is ahead of all commits.
  record IsBacked (w : World Text) : Type 0 where
    word : stored w.file < u64_mod
    disk : All (AtMost (stored w.file)) w.granted
    live : Live w.ledger (stored w.file) w.granted

  from_record-generation_of :
      (o : Option GenerationRecord) (l : Ledger)
      → from_record encode decode directory host_id o ≡ ok l
      → l.accepted ≡ generation_of o
  from_record-generation_of none l h = ground arith
  from_record-generation_of (some r) l h = ground arith

  from_file-stored :
      (stated : Bool) (file : Option (File Text)) (l : Ledger)
      → from_file encode decode directory host_id stated file ≡ ok l
      → l.accepted ≡ stored file
  from_file-stored stated none l h = ground arith
  from_file-stored stated (some f) l h = from_record-generation_of (decode f.text) l (ground arith)

  opened-stored :
      (fault : Option OpenFault) (file : Option (File Text)) (l : Ledger)
      → opened encode decode directory host_id fault file ≡ ok l
      → l.accepted ≡ stored file
  opened-stored none file l h = from_file-stored true file l h
  opened-stored (some os_error) file l h = ground arith
  opened-stored (some lstat_error) file l h = from_file-stored false file l h

  -- What a call of `CommitAccepted` leaves is backed.
  abbrev After : ℕ → List ℕ → Option Error × Ledger × Option (File Text) → Type 0
  After n gs x = IsBacked (record { ledger = some x.1; file = x.2; granted = grant x.0 n gs })

  -- A ledger that opens has what the file holds.
  open_ledger-stored :
      (fault : Option OpenFault) (file : Option (File Text)) (l : Ledger)
      → open_ledger encode decode directory host_id fault file ≡ ok l
      → l.accepted ≡ stored file
  unfolding open_ledger
  open_ledger-stored fault file l h = opened-stored fault file l (ground arith)

  running-Live :
      (r : Result Error Ledger) (n : ℕ) (gs : List ℕ)
      → ((l : Ledger) → r ≡ ok l → l.accepted ≡ n)
      → All (AtMost n) gs
      → Live (running r) n gs
  running-Live (err e) n gs h a = tt
  running-Live (ok l) n gs h a =
      (All-AtMost n l.accepted gs (ground (arith, h l refl)) a, ground (arith, h l refl))

  module _ (decode-encode : (r : GenerationRecord) → decode (encode r) ≡ some r) where
    restart-IsBacked :
        (fault : Option OpenFault) (w : World Text) → IsBacked w → IsBacked (step (restart fault) w)
    restart-IsBacked fault w b = record {
      word = b.word;
      disk = b.disk;
      live =
          running-Live (open_ledger encode decode directory host_id fault w.file) (stored w.file)
            w.granted (open_ledger-stored fault w.file) b.disk;
    }

    written-stored : (l : Ledger) (n : ℕ) → stored (some (written encode decode l n)) ≡ n
    written-stored l n = rw decode-encode refl

    -- The next generation is written, or not, without the ledger's taking it.
    half_done :
        (r : Bool) (l : Ledger) (n : ℕ) (file : Option (File Text)) (gs : List ℕ)
        → n ≡ l.accepted + 1
        → n < u64_mod
        → IsBacked (record { ledger = some l; file = file; granted = gs })
        → IsBacked (record {
          ledger = some l;
          file = if r then some (written encode decode l n) else file;
          granted = gs;
        })
    half_done false l n file gs h k b = b
    half_done true l n file gs h k b =
        let e = written-stored l n in
        record {
          word = ground (arith, e);
          disk =
              All-AtMost l.accepted (stored (some (written encode decode l n))) gs
                (ground (arith, e)) b.live.0;
          live = (b.live.0, ground (arith, e));
        }

    accept-IsBacked :
        (fault : Option Fault) (l : Ledger) (n : ℕ) (file : Option (File Text)) (gs : List ℕ)
        → n ≡ l.accepted + 1
        → n < u64_mod
        → IsBacked (record { ledger = some l; file = file; granted = gs })
        → IsBacked (record {
          ledger = some (elim fault [ none ↦ record l { accepted = n } | some f ↦ l ]);
          file = if renamed fault then some (written encode decode l n) else file;
          granted = grant (elim fault [ none ↦ none | some f ↦ some system ]) n gs;
        })
    accept-IsBacked none l n file gs h k b =
        let e = written-stored l n in
        let s = stored (some (written encode decode l n)) in
        record {
          word = ground (arith, e);
          disk = (ground (arith, e), All-AtMost l.accepted s gs (ground (arith, e)) b.live.0);
          live = (
            (ground arith, All-AtMost l.accepted n gs (ground arith) b.live.0),
            ground (arith, e),
          );
        }
    accept-IsBacked (some f) l n file gs h k b = half_done (renamed (some f)) l n file gs h k b

    -- The ledger, the file and the commits after a call of `CommitAccepted`.
    commit-IsBacked :
        (l : Ledger) (n : ℕ) (fault : Option Fault) (file : Option (File Text)) (gs : List ℕ)
        → 0 < n
        → IsBacked (record { ledger = some l; file = file; granted = gs })
        → IsBacked (step (commit n fault) (record { ledger = some l; file = file; granted = gs }))
    unfolding commit_accepted add64
    commit-IsBacked l n fault file gs p b =
        let P = After n gs in
        both_branches P l.closed _ _ (λ _. b)
          (λ _.
            both_branches P (not (n == (l.accepted + 1) % u64_mod)) _ _ (λ _. b)
              (λ h.
                accept-IsBacked fault l n file gs
                  (next_word l.accepted n p (ground arith) (ground arith)) (ground arith) b))

    step-IsBacked : (e : Event) (w : World Text) → IsPositive e → IsBacked w → IsBacked (step e w)
    unfolding close
    step-IsBacked (commit n fault) w p b = go n fault w.ledger w.file w.granted p b
      where
        go :
            (n : ℕ) (fault : Option Fault) (o : Option Ledger) (file : Option (File Text))
            (gs : List ℕ)
            → 0 < n
            → IsBacked (record { ledger = o; file = file; granted = gs })
            → IsBacked (step (commit n fault) (record { ledger = o; file = file; granted = gs }))
        go n fault none file gs p b = b
        go n fault (some l) file gs p b = commit-IsBacked l n fault file gs p b
    step-IsBacked shut w p b = go w.ledger w.file w.granted b
      where
        go :
            (o : Option Ledger) (file : Option (File Text)) (gs : List ℕ)
            → IsBacked (record { ledger = o; file = file; granted = gs })
            → IsBacked (step shut (record { ledger = o; file = file; granted = gs }))
        go none file gs b = b
        go (some l) file gs b =
            both_branches (λ x. IsBacked (record { ledger = some x; file = file; granted = gs }))
              l.closed _ _ (λ _. b) (λ _. record { word = b.word; disk = b.disk; live = b.live })
    step-IsBacked (restart fault) w p b = restart-IsBacked fault w b

    run-IsBacked :
        (es : List Event) (w : World Text) → All IsPositive es → IsBacked w → IsBacked (run es w)
    run-IsBacked [] w p b = b
    run-IsBacked (e ∷ es) w p b = run-IsBacked es (step e w) p.1 (step-IsBacked e w p.0 b)

    proposal-Above :
        (o : Option Ledger) (n : ℕ) (s : ℕ) (gs : List ℕ) (l : Ledger)
        → Live o s gs
        → s < u64_mod
        → o ≡ some l
        → next l ≡ ok n
        → All (Above n) gs
    unfolding next add64
    proposal-Above none n s gs l v w h k = ground arith
    proposal-Above (some m) n s gs l v w h k =
        All-Above m.accepted n gs (next_above m n (ground arith) (ap next (some_inj h) ∙ k)) v.0

    -- Whatever calls of `CommitAccepted` and `Close`, failures of the system and restarts come first,
    -- with no commit of generation zero: the generation that `Next` proposes is greater than every
    -- generation whose commit has succeeded.
    pub proposal_fresh :
        (es : List Event) (l : Ledger) (n : ℕ)
        → All IsPositive es
        → (run es start).ledger ≡ some l
        → next l ≡ ok n
        → All (Above n) (run es start).granted
    proposal_fresh es l n p h k =
        let b = run-IsBacked es start p (record { word = ground arith; disk = tt; live = tt }) in
        proposal-Above (run es start).ledger n (stored (run es start).file) (run es start).granted l
          b.live b.word h k

-- A ledger whose generation is the greatest word proposes nothing more, but `CommitAccepted` takes
-- generation zero as the next one, writes it and goes on from it.
pub commit_wraps :
    {Text : Type 0} (encode : GenerationRecord → Text) (decode : Text → Option GenerationRecord)
    (l : Ledger) (file : Option (File Text))
    → l.closed ≡ false
    → l.accepted ≡ u64_mod - 1
    → (next l ≡ err exhausted)
      × (commit_accepted encode decode l 0 none file
          ≡ (none, record l { accepted = 0 }, some (written encode decode l 0)))
unfolding next commit_accepted add64
commit_wraps encode decode l file c h = (simp (c, h) refl, simp (c, h) refl)

open_written :
    {Text : Type 0} (encode : GenerationRecord → Text) (decode : Text → Option GenerationRecord)
    → ((r : GenerationRecord) → decode (encode r) ≡ some r)
    → (l : Ledger) (n : ℕ) → l.closed ≡ false
    → str_eq l.directory "" ≡ false
    → str_eq l.host_id "" ≡ false
    → open_ledger encode decode l.directory l.host_id none (some (written encode decode l n))
      ≡ ok (record l { accepted = n })
unfolding open_ledger
open_written encode decode inverse l n c d g =
    let e = (eq_iff l.host_id l.host_id).1 refl in simp (d, g, inverse, e, c) refl

-- If `CommitAccepted` succeeds on a ledger with a directory and a host, then opening the directory
-- for the host, with no failing call, gives the ledger that it left.
pub commit-open_ledger :
    {Text : Type 0} (encode : GenerationRecord → Text) (decode : Text → Option GenerationRecord)
    → ((r : GenerationRecord) → decode (encode r) ≡ some r)
    → (l m : Ledger) (n : ℕ) (fault : Option Fault) (file file' : Option (File Text))
    → str_eq l.directory "" ≡ false
    → str_eq l.host_id "" ≡ false
    → commit_accepted encode decode l n fault file ≡ (none, m, file')
    → open_ledger encode decode l.directory l.host_id none file' ≡ ok m
unfolding commit_accepted open_ledger add64
commit-open_ledger encode decode inverse l m n fault file file' d g h =
    let r = open_written encode decode inverse l n (ground arith) d g in ground (arith, r)
