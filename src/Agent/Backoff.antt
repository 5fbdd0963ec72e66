-- ===== src/Agent/Backoff.antt =====
-- internal/agent/reconnect/backoff.go. A duration and an attempt are integers; once they are known
-- to be positive, they are natural numbers. The ceiling is doubled only up to half of the maximum,
-- so it does not overflow.
use Prim.Native.Nat.{bit_xor, zero, suc}
use native.Mathlib.Nat.{pow-succ', mul_assoc, mod-lt}
use kvm_infrastructure_manag.Base.{
  ℕ, ◌+◌, ◌-◌, ◌*◌, ◌/◌, ◌%◌, ◌^◌, ◌≤◌, ◌<◌, ◌≡◌, sym, ap, ◌∙◌, ◌||◌, ltb, if◌then◌else◌, Result,
  ok, err, arith,
}
use kvm_infrastructure_manag.Base.Ints.{ℤ, pos, lt_int, pos_part}
use kvm_infrastructure_manag.Base.Words.{u64_mod, mul64}

pub data Error : Type 0 where
  incomplete : Error

-- The loop, with the steps that are left.
unfoldable pub doubled : ℕ → ℕ → ℕ → ℕ
doubled zero ceiling max = ceiling
doubled (suc steps) ceiling max =
    let rest = doubled steps (ceiling * 2) max in
    if ltb ceiling max then (if ltb (max / 2) ceiling then max else rest) else ceiling

unfoldable pub ceiling_of : ℕ → ℕ → ℕ → ℕ
unfolding doubled
ceiling_of base max attempt = let c = doubled (attempt - 1) base max in if ltb max c then max else c

unfoldable pub scramble : ℕ → ℕ
unfolding mul64
scramble entropy =
    let a = bit_xor entropy (entropy / 2 ^ 12) in
    let b = bit_xor a ((a * 2 ^ 25) % u64_mod) in
    let c = bit_xor b (b / 2 ^ 27) in mul64 c 2685821657736338717

unfoldable pub delay : ℤ → ℤ → ℤ → ℕ → Result Error ℕ
unfolding ceiling_of scramble
delay base max attempt entropy =
    if lt_int base (pos 1) || lt_int max base || lt_int attempt (pos 1)
    then err incomplete
    else ok (scramble entropy % (ceiling_of (pos_part base) (pos_part max) (pos_part attempt) + 1))

-- The smaller of two numbers.
abbrev pub min : ℕ → ℕ → ℕ
min a b = if ltb b a then b else a

double_pow : (c n : ℕ) → c * 2 ^ (suc n) ≡ c * 2 * 2 ^ n
double_pow c n = ap (λ z. c * z) (pow-succ' 2 n) ∙ sym (mul_assoc c 2 (2 ^ n))

grows : (n x : ℕ) → x ≤ x * 2 ^ n
grows zero x = ground arith
grows (suc n) x = ground (arith, grows n (x * 2), double_pow x n)

-- One step, of the two values that the loop and the closed form have afterwards.
step_lem :
    (c m r p : ℕ)
    → c ≤ m
    → (c * 2 ≤ m → r ≡ min p m)
    → c * 2 ≤ p
    → (if ltb c m then (if ltb (m / 2) c then m else r) else c) ≡ min p m
step_lem c m r p h k g = ground (arith, k)

doubled_lem : (n c m : ℕ) → c ≤ m → doubled n c m ≡ min (c * 2 ^ n) m
unfolding doubled
doubled_lem zero c m h = ground arith
doubled_lem (suc n) c m h = rw (double_pow c n) (
    step_lem c m (doubled n (c * 2) m) (c * 2 * 2 ^ n) h (doubled_lem n (c * 2) m)
      (grows n (c * 2)))

ceiling_of_lem : (b m a : ℕ) → b ≤ m → ceiling_of b m a ≡ min (b * 2 ^ (a - 1)) m
unfolding ceiling_of
ceiling_of_lem b m a h = ground (arith, doubled_lem (a - 1) b m h)

remainder_le : (x c : ℕ) → x % (c + 1) ≤ c
remainder_le x c = ground (arith, mod-lt x {m = c + 1} (ground arith))

-- For a positive base, a maximum not below it and a positive attempt, `Delay` gives a delay, which is
-- at most the base doubled once for each attempt before, and at most the maximum.
pub delay_le :
    (b m a entropy : ℕ)
    → 0 < b
    → b ≤ m
    → 0 < a
    → (d : ℕ) × (delay (pos b) (pos m) (pos a) entropy ≡ ok d) × (d ≤ min (b * 2 ^ (a - 1)) m)
unfolding delay
delay_le b m a entropy p h q =
    let c = ceiling_of b m a in
    (
      scramble entropy % (c + 1),
      ground arith,
      ground (arith, remainder_le (scramble entropy) c, ceiling_of_lem b m a h),
    )
