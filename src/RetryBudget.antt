-- ===== src/RetryBudget.antt =====
-- digital_fte/retry_budget.py: a budget of retries for the whole run, with a cap for each task.
pub mod Accounting
mod Tests
use digital_fte_agent.Prelude.{
  ℕ, ◌+◌, String, Bool, true, false, Option, none, some, List, [], ◌∷◌, ltb, leb, ◌==◌,
  if◌then◌else◌,
}
use digital_fte_agent.Prelude.Int.{ℤ, pos, sub_ℕ, ◌-ℤ◌, ltb_ℤ, min_ℤ}
use digital_fte_agent.Prelude.Dict.{Dict, lookup, insert}
use digital_fte_agent.Prelude.Values.{
  Value, null, int, str, value_error, retry_budget_exceeded, Result, ok, raise, and_then, is_blank,
  String-discrete,
}
use digital_fte_agent.Prelude.Action.{Action, ◌>>=◌, ◌>>◌, pure, check, gets, raise_if}
use digital_fte_agent.Prelude.Sort.{sort_by}
use digital_fte_agent.Prelude.TextOrder.{text_before}

pub record RetryBudget : Type 0 where
  pub total : ℕ
  pub per_task : Option ℕ
  pub spent : ℕ
  pub per_task_spent : Dict String ℕ

pub record RetryLedgerEntry : Type 0 where
  pub task_id : String
  pub spent : ℕ
  pub remaining : Option ℤ

-- The constructor's checks: a wrong type is a ValueError here too.
unfoldable pub validate_total : Value → Result ℕ
validate_total (int (pos n)) = ok n
validate_total _ = raise value_error

unfoldable pub validate_per_task : Value → Result (Option ℕ)
validate_per_task null = ok none
validate_per_task (int (pos n)) = ok (some n)
validate_per_task _ = raise value_error

unfoldable pub init : Value → Value → Result RetryBudget
unfolding validate_total validate_per_task
init total per_task = and_then (validate_total total) λ t.
    and_then (validate_per_task per_task)
      λ p. ok (record { total = t; per_task = p; spent = 0; per_task_spent = [] })

unfoldable pub validate_task_id : Value → Result String
validate_task_id (str s) = if is_blank s then raise value_error else ok s
validate_task_id _ = raise value_error

-- the properties `remaining` and `is_exhausted`
unfoldable pub remaining : RetryBudget → ℤ
unfolding ◌-ℤ◌
remaining b = pos b.total -ℤ pos b.spent

unfoldable pub is_exhausted : RetryBudget → Bool
is_exhausted b = leb b.total b.spent

-- `self._per_task_spent.get(task_id, 0)`
abbrev pub or_zero : Option ℕ → ℕ
or_zero none = 0
or_zero (some n) = n

unfoldable pub spent_by : String → RetryBudget → ℕ
spent_by id b = or_zero (lookup String-discrete id b.per_task_spent)

unfoldable pub spent_for : Value → Action RetryBudget ℕ
spent_for v = do id ← check (validate_task_id v); gets (spent_by id)

abbrev pub room : Option ℕ → ℤ → ℕ → ℤ
room none run_room spent = run_room
room (some cap) run_room spent = min_ℤ run_room (sub_ℕ cap spent)

unfoldable pub remaining_for : Value → Action RetryBudget ℤ
remaining_for v = do
  id ← check (validate_task_id v)
  gets (λ b. room b.per_task (remaining b) (spent_by id b))

unfoldable pub can_spend : Value → Action RetryBudget Bool
unfolding remaining_for
can_spend v = do left ← remaining_for v; pure (ltb_ℤ (pos 0) left)

unfoldable pub charge : String → Action RetryBudget ℕ
charge id b =
    let new_total = spent_by id b + 1 in
    (
      ok new_total,
      record b {
        per_task_spent = insert String-discrete id new_total b.per_task_spent;
        spent = b.spent + 1;
      },
    )

unfoldable pub try_spend : Value → Action RetryBudget Bool
unfolding can_spend
try_spend v = do
  allowed ← can_spend v
  if allowed then (check (validate_task_id v) >>= λ id. charge id >> pure true) else pure false

abbrev pub is_capped : Option ℕ → ℕ → Bool
is_capped none spent = false
is_capped (some cap) spent = leb cap spent

unfoldable pub spend : Value → Action RetryBudget ℕ
spend v = do
  id ← check (validate_task_id v)
  b ← gets (λ b. b)
  raise_if (is_capped b.per_task (spent_by id b)) retry_budget_exceeded
  raise_if (is_exhausted b) retry_budget_exceeded
  charge id

abbrev pub room_left : Option ℕ → ℕ → Option ℤ
room_left none spent = none
room_left (some cap) spent = some (sub_ℕ cap spent)

unfoldable pub ledger_entries : Option ℕ → Dict String ℕ → List RetryLedgerEntry
ledger_entries cap [] = []
ledger_entries cap ((id, n) ∷ d) =
    record { task_id = id; spent = n; remaining = room_left cap n } ∷ ledger_entries cap d

-- the order of the key `(-spent, task_id)`
unfoldable pub entry_before : RetryLedgerEntry → RetryLedgerEntry → Bool
entry_before p q =
    if p.spent == q.spent then text_before p.task_id q.task_id else ltb q.spent p.spent

unfoldable pub ledger : RetryBudget → List RetryLedgerEntry
unfolding ledger_entries entry_before
ledger b = sort_by entry_before (ledger_entries b.per_task b.per_task_spent)
