-- ===== src/ExponentialBackoff/Waits.antt =====
-- digital_fte/exponential_backoff.py: the wait before one attempt, and how it compares with the next.
use native.Mathlib.Nat.{mul-le-mul_left, le-mul_of_pos_right, mul_comm}
use digital_fte_agent.Prelude.{
  ℕ, zero, suc, ◌+◌, ◌-◌, ◌*◌, ◌≤◌, ◌<◌, ◌≡◌, refl, subst, ◌⊎◌, Option, none, some, arith,
}
use digital_fte_agent.Prelude.Int.{pos}
use digital_fte_agent.Prelude.Values.{int, overflow_error, ok, raise, and_then}
use digital_fte_agent.Prelude.Amounts.{
  Amount, seconds, infinity, nan, overflow_from, rounded, times, power, finite_power, power_amount,
  min_amount, AtMost,
}
use digital_fte_agent.ExponentialBackoff.{
  require_real, require_attempts, require_ceiling, ceiling_amount, backoff_delay, BackoffSchedule,
  number_value, ceiling_value,
}

abbrev pub IsCeiling : Option ℕ → Type 0
IsCeiling none = Unit
IsCeiling (some ceiling) = 1 ≤ ceiling

-- What `BackoffSchedule` checks.
pub record IsValid (s : BackoffSchedule) : Type 0 where
  pub grows : 1 ≤ s.factor
  pub ceiling_pos : IsCeiling s.max_delay

-- The wait before attempt `n + 1`, where the power does not overflow.
abbrev pub wait : BackoffSchedule → ℕ → Amount
wait s n =
    min_amount (times (seconds s.base) (seconds (power s.factor n))) (ceiling_amount s.max_delay)

require_real-number : (low n : ℕ) → low ≤ n → require_real low (number_value n) ≡ ok n
unfolding require_real
require_real-number low n h = ground arith

require_ceiling-value : (c : Option ℕ) → IsCeiling c → require_ceiling (ceiling_value c) ≡ ok c
unfolding require_ceiling require_real
require_ceiling-value none h = refl
require_ceiling-value (some c) h = ground arith

pub require_attempts-suc : (n : ℕ) → require_attempts (int (pos (suc n))) ≡ ok (suc n)
unfolding require_attempts
require_attempts-suc n = ground arith

pred_suc : (n : ℕ) → suc n - 1 ≡ n
pred_suc n = omega arith

pub backoff_delay-power_amount :
    (base factor : ℕ) (ceiling : Option ℕ)
    → 1 ≤ factor
    → IsCeiling ceiling
    → (n : ℕ)
    → backoff_delay
        (int (pos (suc n)))
        (number_value base)
        (number_value factor)
        (ceiling_value ceiling)
      ≡ and_then
          (power_amount (seconds factor) n)
          λ grown. ok (min_amount (times (seconds base) grown) (ceiling_amount ceiling))
unfolding backoff_delay
backoff_delay-power_amount base factor ceiling low low' n = rw (
  require_attempts-suc n,
  pred_suc n,
  require_real-number 0 base (omega arith),
  require_real-number 1 factor low,
  require_ceiling-value ceiling low',
)

pub le_or_lt : (a b : ℕ) → (a ≤ b) ⊎ (b < a)
le_or_lt a b = omega arith

pub finite_power_small : (n : ℕ) → n < overflow_from → finite_power n ≡ ok (seconds n)
finite_power_small n h = ground arith

pub finite_power_large : (n : ℕ) → overflow_from ≤ n → finite_power n ≡ raise overflow_error
finite_power_large n h = ground arith

rounded_mono : (a b : ℕ) → a ≤ b → AtMost (rounded a) (rounded b)
rounded_mono a b h = ground arith

pub rounded-AtMost : (a : ℕ) → AtMost (rounded a) infinity
rounded-AtMost a = ground arith

min_amount_mono :
    (x y : Amount) (c : Option ℕ)
    → AtMost x y
    → AtMost (min_amount x (ceiling_amount c)) (min_amount y (ceiling_amount c))
min_amount_mono x y none h = h
min_amount_mono (seconds a) (seconds b) (some c) h = ground arith
min_amount_mono (seconds a) infinity (some c) h = ground arith
min_amount_mono infinity infinity (some c) h = ground arith
min_amount_mono (seconds a) nan (some c) h = elim h [ ]
min_amount_mono infinity (seconds b) (some c) h = elim h [ ]
min_amount_mono infinity nan (some c) h = elim h [ ]
min_amount_mono nan y (some c) h = elim h [ ]

-- No wait is above the ceiling, nor is it NaN.
abbrev pub Within : Option ℕ → Amount → Type 0
Within none d = AtMost d infinity
Within (some c) d = AtMost d (seconds c)

pub min_amount-Within :
    (x : Amount) (c : Option ℕ) → AtMost x infinity → Within c (min_amount x (ceiling_amount c))
min_amount-Within x none h = h
min_amount-Within (seconds a) (some c) h = ground arith
min_amount-Within infinity (some c) h = ground arith
min_amount-Within nan (some c) h = elim h [ ]

power_grows : (f n : ℕ) → 1 ≤ f → power f n ≤ power f (suc n)
power_grows f n h = omega (arith, mul_comm f (power f n), le-mul_of_pos_right {m = f} (power f n) h)

pub power_le : (f n k : ℕ) → 1 ≤ f → power f n ≤ power f (n + k)
power_le f n zero h = subst (λ (m : ℕ). power f n ≤ power f m) {x = n} (omega arith) (omega arith)
power_le f n (suc k) h =
    subst (λ (m : ℕ). power f n ≤ power f m) {x = suc (n + k)} (omega arith)
      (omega (arith, power_le f n k h, power_grows f (n + k) h))

pub wait_mono : (s : BackoffSchedule) → IsValid s → (n : ℕ) → AtMost (wait s n) (wait s (suc n))
wait_mono s valid n =
    min_amount_mono (rounded (s.base * power s.factor n))
      (rounded (s.base * power s.factor (suc n))) s.max_delay
      (rounded_mono (s.base * power s.factor n) (s.base * power s.factor (suc n))
        (mul-le-mul_left s.base (power_grows s.factor n valid.grows)))
