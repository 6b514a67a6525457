-- ===== src/TokenBudget/Tests.antt =====
-- Runs of the token budget, and its theorems at concrete budgets.
use digital_fte_agent.Prelude.{◌+◌, ◌≤◌, ◌≡◌, refl, List, [], ◌∷◌, arith}
use digital_fte_agent.Prelude.Int.{pos, ◌≤ℤ◌}
use digital_fte_agent.Prelude.Values.{null, int, budget_exceeded, ok, raise}
use digital_fte_agent.Prelude.Action.{◌>>◌}
use digital_fte_agent.TokenBudget.{TokenBudget, init, remaining, release, consume, commit}
use digital_fte_agent.TokenBudget.Laws.{
  Operation, reserve_op, consume_op, commit_op, apply, Atomic, apply-Atomic, apply_all,
  apply_all-le, keep_if_ok, commit-eq-release-consume,
}

abbrev hundred : TokenBudget
hundred = record { total = 100; safety_reserve = 10; consumed = 0; reserved = 0 }

abbrev held : TokenBudget
held = record { total = 100; safety_reserve = 10; consumed = 20; reserved = 30 }

commit_runs :
    commit (int (pos 30)) (int (pos 50)) held
    ≡ (ok (pos 20), record { total = 100; safety_reserve = 10; consumed = 70; reserved = 0 })
unfolding commit remaining
commit_runs = refl

commit_too_much :
    commit (int (pos 30)) (int (pos 71)) held ≡ (raise (budget_exceeded 71 (pos 70)), held)
unfolding commit remaining
commit_too_much = refl

apply-Atomic_example : Atomic held (apply (commit_op (int (pos 30)) (int (pos 50))) held)
apply-Atomic_example = apply-Atomic (commit_op (int (pos 30)) (int (pos 50))) held (omega arith)

abbrev operations : List Operation
operations =
    reserve_op (int (pos 60))
    ∷ consume_op (int (pos 40))
    ∷ commit_op (int (pos 60)) (int (pos 90))
    ∷ consume_op null
    ∷ []

apply_all-le_example :
    let b' = apply_all operations hundred in
    (b'.safety_reserve + b'.consumed + b'.reserved ≤ 100) × (pos 0 ≤ℤ remaining b')
unfolding init
apply_all-le_example = apply_all-le (int (pos 100)) (int (pos 10)) operations refl

commit-eq-release-consume_example :
    commit (int (pos 30)) (int (pos 71)) held
    ≡ keep_if_ok held ((release (int (pos 30)) >> consume (int (pos 71))) held)
commit-eq-release-consume_example = commit-eq-release-consume 30 71 held (omega arith)
