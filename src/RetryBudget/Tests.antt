-- ===== src/RetryBudget/Tests.antt =====
-- Runs of the retry budget, and its theorems at a concrete one.
use digital_fte_agent.Prelude.{◌≤◌, ◌≡◌, refl, false, some, [], ◌∷◌, arith}
use digital_fte_agent.Prelude.Int.{pos}
use digital_fte_agent.Prelude.Values.{
  int, str, retry_budget_exceeded, ok, raise, is_blank, String-discrete,
}
use digital_fte_agent.RetryBudget.{
  RetryBudget, validate_total, validate_per_task, init, validate_task_id, remaining, is_exhausted,
  spent_by, charge, try_spend, spend,
}
use digital_fte_agent.RetryBudget.Accounting.{
  AllWithin, sum_values, IsValid, spend_all, spend_all_within,
}

abbrev fresh : RetryBudget
fresh = record { total = 3; per_task = some 2; spent = 0; per_task_spent = [] }

abbrev used : RetryBudget
used = record { total = 3; per_task = some 2; spent = 2; per_task_spent = ("a", 2) ∷ [] }

program : Unit {0}
unfolding spend try_spend validate_task_id is_blank spent_by is_exhausted charge String-discrete
    remaining
program = tt

spend_runs :
    spend (str "b") used
    ≡ (ok 1, record used { spent = 3; per_task_spent = ("a", 2) ∷ ("b", 1) ∷ [] })
unfolding program
spend_runs = refl

spend_capped : spend (str "a") used ≡ (raise retry_budget_exceeded, used)
unfolding program
spend_capped = refl

try_spend_capped : try_spend (str "a") used ≡ (ok false, used)
unfolding program
try_spend_capped = refl

used-IsValid : IsValid used
unfolding program
used-IsValid = record {
  once = (refl, tt);
  within = (omega arith, omega arith, tt);
  adds_up = refl;
  in_budget = omega arith;
}

spend_all_within_example :
    let b' = spend_all (str "a" ∷ str "a" ∷ str "a" ∷ str "b" ∷ str "c" ∷ []) fresh in
    (b'.spent ≤ 3)
    × AllWithin (some 2) b'.per_task_spent
    × (sum_values b'.per_task_spent ≡ b'.spent)
unfolding init validate_total validate_per_task
spend_all_within_example =
    spend_all_within (int (pos 3)) (int (pos 2)) {b = fresh}
      (str "a" ∷ str "a" ∷ str "a" ∷ str "b" ∷ str "c" ∷ []) refl
