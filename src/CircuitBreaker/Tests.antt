-- ===== src/CircuitBreaker/Tests.antt =====
-- Runs of the circuit breaker, and its theorems at concrete breakers.
use digital_fte_agent.Prelude.{
  ℕ, ◌+◌, ◌*◌, ◌≤◌, ◌<◌, ◌≡◌, refl, ◌↔◌, true, false, none, some, [], ◌∷◌, arith,
}
use digital_fte_agent.Prelude.Int.{ℤ, pos, negsuc, ◌+ℤ◌, ◌≤ℤ◌}
use digital_fte_agent.Prelude.Values.{
  finite, infinite, int, float, Exception, value_error, ok, raise,
}
use digital_fte_agent.Prelude.Action.{pure, throw}
use digital_fte_agent.CircuitBreaker.{
  closed, open_circuit, half_open, Breaker, RecordOn, tuple, is_recorded, init, reset, allows_call,
  record_failure, call,
}
use digital_fte_agent.CircuitBreaker.Invariant.{IsValid, record_failure-IsValid, call-IsValid}
use digital_fte_agent.CircuitBreaker.Admission.{
  allows_call-open, call-half_open, call-reset_in_probe,
}
use digital_fte_agent.CircuitBreaker.Streak.{report, report_streak}

-- The clock shows 0, 10, 20, …
abbrev steady : ℕ → ℤ
steady k = pos (10 * k)

abbrev every : RecordOn
every = tuple (some (λ e. true) ∷ [])

abbrev fresh : Breaker
fresh = record {
  failure_threshold = 2;
  recovery_timeout = finite (pos 15);
  success_threshold = 1;
  record_on = (λ e. true) ∷ [];
  state = closed;
  consecutive_failures = 0;
  half_open_successes = 0;
  probes_in_flight = pos 0;
  opened_at = none;
  total_calls = pos 0;
  total_failures = 0;
  total_rejections = 0;
  opened_count = 0;
  readings = 0;
}

-- Opened at 0, and the next reading is 20.
abbrev tripped : Breaker
tripped = record fresh {
  state = open_circuit;
  opened_at = some (pos 0);
  opened_count = 1;
  readings = 2;
}

abbrev probing : Breaker
probing = record tripped { state = half_open }

init_defaults : init (int (pos 2)) (int (pos 15)) (int (pos 1)) every true ≡ ok fresh
unfolding init
init_defaults = refl

init_infinite_timeout :
    init (int (pos 2)) (float infinite) (int (pos 1)) every true
    ≡ ok (record fresh { recovery_timeout = infinite })
unfolding init
init_infinite_timeout = refl

init_no_threshold : init (int (pos 0)) (int (pos 15)) (int (pos 1)) every true ≡ raise value_error
unfolding init
init_no_threshold = refl

two_failures : (report steady (true ∷ true ∷ []) fresh).state ≡ open_circuit
unfolding report
two_failures = refl

fresh-IsValid : IsValid fresh
fresh-IsValid = ground arith

tripped-IsValid : IsValid tripped
tripped-IsValid = ground arith

call-IsValid_example : IsValid (call steady (λ b. (ok tt, record_failure steady b)) fresh).1
call-IsValid_example =
    call-IsValid steady (λ b. (ok tt, record_failure steady b))
      (λ c v. record_failure-IsValid steady v) fresh-IsValid

allows_call-open_example : ((allows_call steady tripped).0 ≡ ok true) ↔ (pos 0 +ℤ pos 15 ≤ℤ pos 20)
allows_call-open_example = allows_call-open steady {b = tripped} tripped-IsValid refl refl refl

abbrev cooling : Breaker
cooling = record tripped { readings = 1 }

abbrev selective : Breaker
selective = record fresh { record_on = (λ e. false) ∷ [] }

call-half_open_example :
    ((a : ℕ)
      → let b' = (call steady (pure a) probing).1 in
        (1 < 1
          → (b'.state ≡ half_open) × (b'.half_open_successes ≡ 1) × (b'.probes_in_flight ≡ pos 0))
        × (1 ≤ 1
            → (b'.state ≡ closed)
              × (b'.consecutive_failures ≡ 0)
              × (b'.opened_at ≡ none)
              × (b'.probes_in_flight ≡ pos 0)))
    × ((e : Exception)
        → is_recorded probing.record_on e ≡ true
        → let b' = (call steady (throw {A = ℕ} e) probing).1 in
          (b'.state ≡ open_circuit)
          × (b'.opened_at ≡ some (pos 20))
          × (b'.opened_count ≡ 2)
          × (b'.probes_in_flight ≡ pos 0))
unfolding allows_call
call-half_open_example = call-half_open steady probing refl refl

call-reset_in_probe_example :
    let b' = (call steady (λ c. (ok tt, reset c)) probing).1 in
    (b'.state ≡ closed) × (b'.probes_in_flight ≡ negsuc 0)
unfolding allows_call
call-reset_in_probe_example = call-reset_in_probe steady probing refl refl

report_streak_example :
    let b' = report steady (true ∷ false ∷ true ∷ []) fresh in
    (b' ≡ record fresh { consecutive_failures = 1 })
    × ((1 + 1 ≡ 2) ↔ ((record_failure steady b').state ≡ open_circuit))
report_streak_example = report_streak steady (true ∷ false ∷ true ∷ []) fresh refl (omega arith)
