-- ===== src/RetryPolicy/Tests.antt =====
-- Runs of digital_fte/retry_policy.py, in a world that is the list of what happened.
use Prim.Native.Nat.{◌^◌}
use digital_fte_agent.Prelude.{
  ℕ, String, ◌≡◌, refl, Bool, true, false, none, some, List, [], ◌∷◌, ◌++◌, arith,
}
use digital_fte_agent.Prelude.Int.{pos}
use digital_fte_agent.Prelude.Values.{infinite, null, int, float, type_error, overflow_error, ok}
use digital_fte_agent.Prelude.Amounts.{Amount, seconds, infinity, overflow_from}
use digital_fte_agent.RetryPolicy.{
  validate_number, validate_max_delay, RetryPolicy, init, delay_before, schedule, total_delay, Call,
  returned, threw, Executed, succeeded, retry_exhausted, passed_on, refused, attempts_from, execute,
}
use digital_fte_agent.ExponentialBackoff.{backoff_delay, number_value, ceiling_value}
use digital_fte_agent.RetryPolicy.Schedule.{finite_policy, delay_before-eq-backoff_delay}

pub data Error : Type 0 where
  flaky fatal : Error

abbrev name_of : Error → String
name_of flaky = "Flaky"
name_of fatal = "Fatal"

abbrev is_flaky : Error → Bool
is_flaky flaky = true
is_flaky fatal = false

-- The world: how long was slept, and what the calls to come do.
abbrev World : Type 0
World = List Amount × List (Call ℕ Error)

abbrev next_call : World → Call ℕ Error × World
next_call (slept, []) = (threw fatal, (slept, []))
next_call (slept, call ∷ calls) = (call, (slept, calls))

abbrev note_sleep : Amount → World → World
note_sleep d (slept, calls) = (slept ++ d ∷ [], calls)

abbrev three_times : RetryPolicy
three_times = record {
  max_attempts = 3;
  base_delay = seconds 1;
  factor = seconds 4;
  max_delay = some (seconds 3);
}

abbrev run_with : List (Call ℕ Error) → Executed ℕ Error × World
run_with calls =
    execute name_of name_of three_times (some next_call) (some (some is_flaky ∷ []))
      (some note_sleep) ([], calls)

init-three_times : init (int (pos 3)) (int (pos 1)) (int (pos 4)) (int (pos 3)) ≡ ok three_times
unfolding init validate_number validate_max_delay
init-three_times = refl

init_endless :
    init (int (pos 2)) (int (pos 0)) (float infinite) null
    ≡ ok (record { max_attempts = 2; base_delay = seconds 0; factor = infinity; max_delay = none })
unfolding init validate_number validate_max_delay
init_endless = refl

schedule-three_times : schedule three_times ≡ ok (seconds 0 ∷ seconds 1 ∷ seconds 3 ∷ [])
unfolding schedule delay_before overflow_from
schedule-three_times = refl

total_delay-three_times : total_delay three_times ≡ ok (seconds 4)
unfolding total_delay schedule delay_before overflow_from
total_delay-three_times = refl

run_returns : run_with (threw flaky ∷ returned 7 ∷ []) ≡ (
  succeeded (record {
    value = 7;
    attempts = 2;
    failures =
        record { attempt = 1; delay = seconds 0; error_type = "Flaky"; error = "Flaky" } ∷ [];
  }),
  (seconds 1 ∷ [], []),
)
unfolding execute attempts_from delay_before overflow_from
run_returns = refl

run_exhausted :
    run_with (threw flaky ∷ threw flaky ∷ threw flaky ∷ [])
    ≡ (retry_exhausted 3 flaky, (seconds 1 ∷ seconds 3 ∷ [], []))
unfolding execute attempts_from delay_before overflow_from
run_exhausted = refl

run_passed_on : run_with (threw fatal ∷ []) ≡ (passed_on fatal, ([], []))
unfolding execute attempts_from delay_before overflow_from
run_passed_on = refl

-- 2 ^ 600 squared is no float, whatever the ceiling.
run_overflows :
    execute name_of name_of
      (record {
        max_attempts = 4;
        base_delay = seconds 1;
        factor = seconds (2 ^ 600);
        max_delay = some (seconds 5);
      })
      (some next_call)
      (some (some is_flaky ∷ []))
      (some note_sleep)
      ([], threw flaky ∷ threw flaky ∷ threw flaky ∷ returned 7 ∷ [])
    ≡ (refused overflow_error, (seconds 1 ∷ seconds 5 ∷ [], returned 7 ∷ []))
unfolding execute attempts_from delay_before overflow_from
run_overflows = refl

run_nothing_to_retry :
    execute name_of name_of three_times (some next_call) (some []) (some note_sleep) ([], [])
    ≡ (refused type_error, ([], []))
unfolding execute
run_nothing_to_retry = refl

delay_before-eq-backoff_delay_example :
    (delay_before (int (pos 1)) (finite_policy 3 1 4 (some 3)) ≡ ok (seconds 0))
    × (delay_before (int (pos 3)) (finite_policy 3 1 4 (some 3))
        ≡ backoff_delay (int (pos 2)) (number_value 1) (number_value 4) (ceiling_value (some 3)))
delay_before-eq-backoff_delay_example =
    delay_before-eq-backoff_delay 3 1 4 (some 3) (omega arith) (omega arith) 1 (omega arith)
