-- ===== src/TokenBudget.antt =====
-- digital_fte/token_budget.py: reservations and consumption against a fixed pool of tokens.
pub mod Laws
mod Tests
use digital_fte_agent.Prelude.{ℕ, ◌+◌, ◌-◌, ltb, if◌then◌else◌}
use digital_fte_agent.Prelude.Int.{ℤ, pos, ◌+ℤ◌, ◌-ℤ◌, ltb_ℤ}
use digital_fte_agent.Prelude.Values.{
  Value, value_error, budget_exceeded, Result, ok, raise, and_then, as_int, at_least,
}
use digital_fte_agent.Prelude.Action.{Action, ◌>>=◌, ◌>>◌, check, gets, modify, raise_if}

pub record TokenBudget : Type 0 where
  pub total : ℕ
  pub safety_reserve : ℕ
  pub consumed : ℕ
  pub reserved : ℕ

pub record BudgetSnapshot : Type 0 where
  pub total : ℕ
  pub safety_reserve : ℕ
  pub consumed : ℕ
  pub reserved : ℕ
  pub remaining : ℤ

-- `_require_count` at its default minimum
unfoldable pub require_count : Value → Result ℕ
require_count v = and_then (as_int v) (at_least 0)

-- `TokenBudget.__init__`
unfoldable pub init : Value → Value → Result TokenBudget
unfolding require_count
init total safety_reserve = and_then (require_count total) λ t.
    and_then (require_count safety_reserve) λ s.
      if ltb t s
      then raise value_error
      else ok (record { total = t; safety_reserve = s; consumed = 0; reserved = 0 })

-- the property `usable`
unfoldable pub usable : TokenBudget → ℤ
unfolding ◌-ℤ◌
usable b = pos b.total -ℤ pos b.safety_reserve

unfoldable pub remaining : TokenBudget → ℤ
unfolding usable ◌-ℤ◌
remaining b = usable b -ℤ pos b.consumed -ℤ pos b.reserved

unfoldable pub snapshot : TokenBudget → BudgetSnapshot
unfolding remaining
snapshot b = record {
  total = b.total;
  safety_reserve = b.safety_reserve;
  consumed = b.consumed;
  reserved = b.reserved;
  remaining = remaining b;
}

unfoldable pub reserve : Value → Action TokenBudget ℤ
unfolding require_count
reserve v = do
  amount ← check (require_count v)
  available ← gets remaining
  raise_if (ltb_ℤ available (pos amount)) (budget_exceeded amount available)
  modify (λ b. record b { reserved = b.reserved + amount })
  gets remaining

-- The subtraction stands under its guard, so it is exact.
unfoldable pub release : Value → Action TokenBudget ℤ
unfolding require_count
release v = do
  amount ← check (require_count v)
  held ← gets (λ b. b.reserved)
  raise_if (ltb held amount) value_error
  modify (λ b. record b { reserved = b.reserved - amount })
  gets remaining

unfoldable pub consume : Value → Action TokenBudget ℤ
unfolding require_count
consume v = do
  amount ← check (require_count v)
  available ← gets remaining
  raise_if (ltb_ℤ available (pos amount)) (budget_exceeded amount available)
  modify (λ b. record b { consumed = b.consumed + amount })
  gets remaining

unfoldable pub commit : Value → Value → Action TokenBudget ℤ
unfolding require_count ◌+ℤ◌
commit v w = do
  reserved_amount ← check (require_count v)
  actual_amount ← check (require_count w)
  held ← gets (λ b. b.reserved)
  raise_if (ltb held reserved_amount) value_error
  left ← gets remaining
  let after_release = left +ℤ pos reserved_amount
  raise_if (ltb_ℤ after_release (pos actual_amount)) (budget_exceeded actual_amount after_release)
  modify (λ b. record b { reserved = b.reserved - reserved_amount })
  modify (λ b. record b { consumed = b.consumed + actual_amount })
  gets remaining
