-- ===== src/ExponentialBackoff.antt =====
-- digital_fte/exponential_backoff.py: the wait before an attempt, capped and growing. The parameters are
-- whole numbers; a wait may be infinite, and a power may overflow.
pub mod Waits
pub mod Growth
mod Tests
use digital_fte_agent.Prelude.{
  ℕ, zero, suc, ◌-◌, Option, none, some, List, [], ◌∷◌, ◌==◌, if◌then◌else◌,
}
use digital_fte_agent.Prelude.Int.{pos}
use digital_fte_agent.Prelude.Values.{
  finite, Value, null, int, float, value_error, Result, ok, raise, and_then, as_int, at_least,
  as_number, as_finite,
}
use digital_fte_agent.Prelude.Amounts.{Amount, seconds, times, power_amount, min_amount, fsum}

-- `_require_real`
unfoldable pub require_real : ℕ → Value → Result ℕ
require_real minimum v = and_then (and_then (as_number v) as_finite) (at_least minimum)

-- `_require_attempts`
unfoldable pub require_attempts : Value → Result ℕ
require_attempts v = and_then (as_int v) (at_least 1)

-- the argument `max_delay`
abbrev pub positive_ceiling : ℕ → Result (Option ℕ)
positive_ceiling ceiling = if ceiling == 0 then raise value_error else ok (some ceiling)

unfoldable pub require_ceiling : Value → Result (Option ℕ)
unfolding require_real
require_ceiling null = ok none
require_ceiling v = and_then (require_real 0 v) positive_ceiling

abbrev pub ceiling_amount : Option ℕ → Option Amount
ceiling_amount none = none
ceiling_amount (some n) = some (seconds n)

-- The power is taken before the ceiling is looked at, and may overflow.
unfoldable pub backoff_delay : (attempt base factor max_delay : Value) → Result Amount
unfolding require_real require_attempts require_ceiling
backoff_delay attempt base factor max_delay = and_then (require_attempts attempt) λ n.
    and_then (require_real 0 base) λ b. and_then (require_real 1 factor) λ f.
      and_then (power_amount (seconds f) (n - 1)) λ grown.
        and_then (require_ceiling max_delay)
          λ ceiling. ok (min_amount (times (seconds b) grown) (ceiling_amount ceiling))

-- The delays of `left` attempts from attempt `n` on.
abbrev pub delays_from : (ℕ → Result Amount) → (left n : ℕ) → Result (List Amount)
delays_from delay zero n = ok []
delays_from delay (suc left) n =
    and_then (delay n) λ d. and_then (delays_from delay left (suc n)) λ l. ok (d ∷ l)

unfoldable pub backoff_schedule : (attempts base factor max_delay : Value) → Result (List Amount)
unfolding backoff_delay
backoff_schedule attempts base factor max_delay =
    and_then (require_attempts attempts)
      λ n. delays_from (λ k. backoff_delay (int (pos k)) base factor max_delay) n 1

pub record BackoffSchedule : Type 0 where
  pub base : ℕ
  pub factor : ℕ
  pub max_delay : Option ℕ

-- `BackoffSchedule.__post_init__`
unfoldable pub init : (base factor max_delay : Value) → Result BackoffSchedule
unfolding require_real require_ceiling
init base factor max_delay = and_then (require_real 0 base) λ b.
    and_then (require_real 1 factor) λ f.
      and_then (require_ceiling max_delay)
        λ ceiling. ok (record { base = b; factor = f; max_delay = ceiling })

abbrev pub number_value : ℕ → Value
number_value n = float (finite (pos n))

abbrev pub ceiling_value : Option ℕ → Value
ceiling_value none = null
ceiling_value (some n) = number_value n

unfoldable pub delay_before : Value → BackoffSchedule → Result Amount
unfolding backoff_delay
delay_before attempt s =
    backoff_delay attempt (number_value s.base) (number_value s.factor) (ceiling_value s.max_delay)

unfoldable pub schedule : Value → BackoffSchedule → Result (List Amount)
unfolding backoff_schedule
schedule attempts s =
    backoff_schedule attempts (number_value s.base) (number_value s.factor)
      (ceiling_value s.max_delay)

unfoldable pub total_delay : Value → BackoffSchedule → Result Amount
unfolding schedule
total_delay attempts s = and_then (schedule attempts s) λ l. fsum l
