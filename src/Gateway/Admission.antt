-- ===== src/Gateway/Admission.antt =====
-- internal/agent/gateway/admission.go and the limiter of preauth.go, which has the same text. A call of
-- `TryAcquire` with the call of the function that it returns is one caller, whose next atomic action on
-- the limiter is `act`; callers are interleaved in any order. The channel of permits is their number.
pub mod Permits
use kvm_infrastructure_manag.Base.{
  ℕ, ◌≡◌, ◌+◌, ◌-◌, Bool, true, false, Option, none, some, List, [], ◌∷◌, ◌++◌, ltb, leb, ◌==◌,
  if◌then◌else◌,
}
use kvm_infrastructure_manag.Base.Ints.{ℤ, pos, lt_int, pos_part}

pub record Limiter : Type 0 where
  pub capacity : ℕ
  pub permits : ℕ
  pub active : ℕ
  pub peak : ℕ
  pub rejected : ℕ

unfoldable pub new_admission_limiter : ℤ → Option Limiter
new_admission_limiter max_concurrent =
    if lt_int max_concurrent (pos 1)
    then none
    else some (record {
      capacity = pos_part max_concurrent;
      permits = 0;
      active = 0;
      peak = 0;
      rejected = 0;
    })

pub data Phase : Type 0 where
  -- Before `TryAcquire`, and after it has refused.
  outside refused : Phase
  -- The permit is taken; the caller is counted, with the number that `active` then had; the peak is
  -- loaded.
  permitted : Phase
  counted : ℕ → Phase
  loaded : ℕ → ℕ → Phase
  -- The function is returned. It is called: the flag is set; the permit is given back; all is done.
  holding releasing drained finished : Phase

-- The next action of a caller, where there is one. The receive waits for a permit in the channel.
unfoldable pub act : Limiter → Phase → Option (Limiter × Phase)
act l outside =
    if ltb l.permits l.capacity
    then some (record l { permits = l.permits + 1 }, permitted)
    else some (record l { rejected = l.rejected + 1 }, refused)
act l refused = none
act l permitted = some (record l { active = l.active + 1 }, counted (l.active + 1))
act l (counted a) = some (l, loaded a l.peak)
act l (loaded a p) =
    if leb a p
    then some (l, holding)
    else if l.peak == p
    then some (record l { peak = a }, holding)
    else some (l, counted a)
act l holding = some (l, releasing)
act l releasing =
    if l.permits == 0 then none else some (record l { permits = l.permits - 1 }, drained)
act l drained = some (record l { active = l.active - 1 }, finished)
act l finished = none

pub record System : Type 0 where
  pub limiter : Limiter
  pub callers : List Phase

pub data Step (s : System) : System → Type 0 where
  arrives : Step s (record s { callers = outside ∷ s.callers })
  acts :
      (before after : List Phase) (p q : Phase) (l : Limiter)
      → s.callers ≡ before ++ p ∷ after
      → act s.limiter p ≡ some (l, q)
      → Step s (record { limiter = l; callers = before ++ q ∷ after })

-- What can come to be of a limiter that has been made.
pub data Reach (max_concurrent : ℤ) : System → Type 0 where
  made :
      (l : Limiter)
      → new_admission_limiter max_concurrent ≡ some l
      → Reach max_concurrent (record { limiter = l; callers = [] })
  later : {s t : System} → Reach max_concurrent s → Step s t → Reach max_concurrent t

-- Whether a caller has a permit, and whether it is counted.
abbrev pub has_permit : Phase → ℕ
has_permit permitted = 1
has_permit (counted a) = 1
has_permit (loaded a p) = 1
has_permit holding = 1
has_permit releasing = 1
has_permit _ = 0

abbrev pub is_counted : Phase → ℕ
is_counted (counted a) = 1
is_counted (loaded a p) = 1
is_counted holding = 1
is_counted releasing = 1
is_counted drained = 1
is_counted _ = 0

abbrev pub total : (Phase → ℕ) → List Phase → ℕ
total f [] = 0
total f (p ∷ ps) = f p + total f ps

-- Whether the caller waits for a permit to give back.
abbrev pub waits : Limiter → Phase → ℕ
waits l releasing = if l.permits == 0 then 1 else 0
waits l _ = 0
