-- ===== src/ExponentialBackoff/Tests.antt =====
-- Runs of digital_fte/exponential_backoff.py.
use digital_fte_agent.Prelude.{◌≤◌, ◌<◌, ◌≡◌, refl, ◌⊎◌, some, List, [], ◌∷◌, length}
use digital_fte_agent.Prelude.Int.{pos}
use digital_fte_agent.Prelude.Values.{null, int, value_error, overflow_error, ok, raise}
use digital_fte_agent.Prelude.Amounts.{Amount, seconds, overflow_from, power}
use digital_fte_agent.ExponentialBackoff.{
  require_real, require_attempts, require_ceiling, backoff_delay, backoff_schedule, BackoffSchedule,
  init, delay_before, schedule, total_delay,
}
use digital_fte_agent.ExponentialBackoff.Growth.{Rising, EachWithin, schedule_rises, init-IsValid}

abbrev doubling : BackoffSchedule
doubling = record { base = 1; factor = 2; max_delay = some 5 }

schedule-doubling :
    schedule (int (pos 5)) doubling
    ≡ ok (seconds 1 ∷ seconds 2 ∷ seconds 4 ∷ seconds 5 ∷ seconds 5 ∷ [])
unfolding schedule backoff_schedule backoff_delay require_attempts require_real require_ceiling
    overflow_from
schedule-doubling = refl

total_delay-doubling : total_delay (int (pos 4)) doubling ≡ ok (seconds 12)
unfolding total_delay schedule backoff_schedule backoff_delay require_attempts require_real
    require_ceiling overflow_from
total_delay-doubling = refl

delay_before_none : delay_before (int (pos 0)) doubling ≡ raise value_error
unfolding delay_before backoff_delay require_attempts
delay_before_none = refl

init_shrinking : init (int (pos 1)) (int (pos 0)) null ≡ raise value_error
unfolding init require_real
init_shrinking = refl

init-doubling : init (int (pos 1)) (int (pos 2)) (int (pos 5)) ≡ ok doubling
unfolding init require_real require_ceiling
init-doubling = refl

-- The ceiling does not keep the power from overflowing.
delay_before_overflow : delay_before (int (pos 1025)) doubling ≡ raise overflow_error
unfolding delay_before backoff_delay require_attempts require_real require_ceiling overflow_from
delay_before_overflow = refl

schedule_rises_example :
    ((overflow_from ≤ power 2 2) × (schedule (int (pos 3)) doubling ≡ raise overflow_error))
    ⊎ ((power 2 2 < overflow_from)
        × ((l : List Amount) × (schedule (int (pos 3)) doubling ≡ ok l)
            × (length l ≡ 3)
            × Rising l
            × EachWithin (some 5) l))
schedule_rises_example =
    schedule_rises doubling
      (init-IsValid (int (pos 1)) (int (pos 2)) (int (pos 5)) doubling init-doubling) 2
