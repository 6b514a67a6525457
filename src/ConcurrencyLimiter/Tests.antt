-- ===== src/ConcurrencyLimiter/Tests.antt =====
-- Runs of the limiter, and its theorems at concrete limiters.
use digital_fte_agent.Prelude.{◌+◌, ◌≤◌, ◌≡◌, refl, true, List, [], ◌∷◌}
use digital_fte_agent.Prelude.Int.{pos}
use digital_fte_agent.Prelude.Values.{bool, int}
use digital_fte_agent.ConcurrencyLimiter.{ConcurrencyLimiter, init}
use digital_fte_agent.ConcurrencyLimiter.Accounting.{
  Call, try_acquire_call, acquire_call, release_call, run_calls, run_calls_accounting,
}

abbrev four_slots : ConcurrencyLimiter
four_slots = record { max_slots = 4; in_use = 0 }

abbrev busy : ConcurrencyLimiter
busy = record { max_slots = 4; in_use = 3 }

abbrev calls : List Call
calls =
    acquire_call (int (pos 3))
    ∷ try_acquire_call (int (pos 2))
    ∷ release_call (int (pos 1))
    ∷ release_call (int (pos 9))
    ∷ try_acquire_call (int (pos 2))
    ∷ acquire_call (bool true)
    ∷ []

run_calls_runs : run_calls calls (four_slots, 0, 0) ≡ (record { max_slots = 4; in_use = 4 }, 5, 1)
unfolding run_calls
run_calls_runs = refl

run_calls_accounting_example :
    let (l', claimed, returned) = run_calls calls (four_slots, 0, 0) in
    (l'.max_slots ≡ 4) × (l'.in_use ≤ 4) × (l'.in_use + returned ≡ claimed)
unfolding init
run_calls_accounting_example = run_calls_accounting (int (pos 4)) calls refl
