-- ===== src/ConcurrencyLimiter.antt =====
-- digital_fte/concurrency_limiter.py: the counter of occupied slots.
pub mod Accounting
mod Tests
use digital_fte_agent.Prelude.{ℕ, ◌+◌, ◌-◌, Bool, true, false, ltb, leb, if◌then◌else◌}
use digital_fte_agent.Prelude.Int.{ℤ, pos, ◌-ℤ◌, ltb_ℤ}
use digital_fte_agent.Prelude.Values.{
  Value, value_error, concurrency_limit_exceeded, Result, ok, and_then, as_int, at_least,
}
use digital_fte_agent.Prelude.Action.{Action, ◌>>=◌, ◌>>◌, pure, check, gets, modify, raise_if}

pub record ConcurrencyLimiter : Type 0 where
  pub max_slots : ℕ
  pub in_use : ℕ

unfoldable pub validate_positive_int : Value → Result ℕ
validate_positive_int v = and_then (as_int v) (at_least 1)

-- `ConcurrencyLimiter.__init__`
unfoldable pub init : Value → Result ConcurrencyLimiter
unfolding validate_positive_int
init max_slots =
    and_then (validate_positive_int max_slots) λ n. ok (record { max_slots = n; in_use = 0 })

-- the property `available`
unfoldable pub available : ConcurrencyLimiter → ℤ
unfolding ◌-ℤ◌
available l = pos l.max_slots -ℤ pos l.in_use

-- the property `is_full`
unfoldable pub is_full : ConcurrencyLimiter → Bool
is_full l = leb l.max_slots l.in_use

unfoldable pub try_acquire : Value → Action ConcurrencyLimiter Bool
unfolding validate_positive_int available
try_acquire v = do
  n ← check (validate_positive_int v)
  free ← gets available
  if ltb_ℤ free (pos n)
      then pure false
      else (modify (λ l. record l { in_use = l.in_use + n }) >> pure true)

unfoldable pub acquire : Value → Action ConcurrencyLimiter (Unit {0})
unfolding validate_positive_int available
acquire v = do
  n ← check (validate_positive_int v)
  free ← gets available
  raise_if (ltb_ℤ free (pos n)) (concurrency_limit_exceeded n free)
  modify (λ l. record l { in_use = l.in_use + n })

-- The subtraction stands under its guard, so it is exact.
unfoldable pub release : Value → Action ConcurrencyLimiter (Unit {0})
unfolding validate_positive_int
release v = do
  n ← check (validate_positive_int v)
  held ← gets (λ l. l.in_use)
  raise_if (ltb held n) value_error
  modify (λ l. record l { in_use = l.in_use - n })
