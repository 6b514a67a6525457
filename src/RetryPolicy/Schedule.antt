-- ===== src/RetryPolicy/Schedule.antt =====
-- digital_fte/retry_policy.py and digital_fte/exponential_backoff.py: one schedule, an attempt apart.
use digital_fte_agent.Prelude.{ℕ, suc, ◌≤◌, ◌<◌, ◌≡◌, Option, arith}
use digital_fte_agent.Prelude.Int.{pos}
use digital_fte_agent.Prelude.Values.{int, ok}
use digital_fte_agent.Prelude.Amounts.{seconds}
use digital_fte_agent.RetryPolicy.{RetryPolicy, delay_before}
use digital_fte_agent.ExponentialBackoff.{
  ceiling_amount, backoff_delay, number_value, ceiling_value,
}
use digital_fte_agent.ExponentialBackoff.Waits.{IsCeiling, backoff_delay-power_amount}
use digital_fte_agent.RetryPolicy.Attempts.{delay_before-in_range}

-- The policy with finite fields.
abbrev pub finite_policy : (max_attempts base factor : ℕ) → Option ℕ → RetryPolicy
finite_policy max_attempts base factor ceiling = record {
  max_attempts = max_attempts;
  base_delay = seconds base;
  factor = seconds factor;
  max_delay = ceiling_amount ceiling;
}

-- With finite fields, a growth of at least one and a ceiling that is not 0, the wait before attempt
-- n + 1 of the policy is the backoff's delay of attempt n, for every attempt after the first that the
-- policy allows, and where the power of one overflows, that of the other does; the first has no wait.
pub delay_before-eq-backoff_delay :
    (m base factor : ℕ) (ceiling : Option ℕ)
    → 1 ≤ factor
    → IsCeiling ceiling
    → (n : ℕ) → suc n < m
    → (delay_before (int (pos 1)) (finite_policy m base factor ceiling) ≡ ok (seconds 0))
      × (delay_before (int (pos (suc (suc n)))) (finite_policy m base factor ceiling)
          ≡ backoff_delay
              (int (pos (suc n)))
              (number_value base)
              (number_value factor)
              (ceiling_value ceiling))
delay_before-eq-backoff_delay m base factor ceiling low low' n allowed = (
  delay_before-in_range (finite_policy m base factor ceiling) 1 (omega arith) (omega arith),
  rw (
    backoff_delay-power_amount base factor ceiling low low' n,
    delay_before-in_range (finite_policy m base factor ceiling) (suc (suc n)) (omega arith) allowed,
  ),
)
