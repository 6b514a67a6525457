-- ===== src/CircuitBreaker/Invariant.antt =====
-- The invariant of the breaker (digital_fte/circuit_breaker.py), kept by every method.
use digital_fte_agent.Prelude.{ℕ, ◌+◌, ◌<◌, ◌≡◌, ◌≢◌, Bool, none, arith}
use digital_fte_agent.Prelude.Int.{ℤ, pos, ◌-ℤ◌}
use digital_fte_agent.Prelude.Values.{Value, Result, ok, raise}
use digital_fte_agent.Prelude.Action.{Action}
use digital_fte_agent.CircuitBreaker.{
  CircuitState, closed, open_circuit, half_open, Breaker, RecordOn, init, is_half_open, reset,
  on_success, release_probe, admit, maybe_recover, on_failure, record_success, record_failure,
  settle, reject, run_admitted, call,
}

-- What holds of the live fields in each state.
abbrev pub Phase : CircuitState → Breaker → Type 0
Phase closed b =
    (b.consecutive_failures < b.failure_threshold)
    × (b.half_open_successes ≡ 0)
    × (b.opened_at ≡ none)
Phase open_circuit b = (b.half_open_successes ≡ 0) × (b.opened_at ≢ none)
Phase half_open b = (b.half_open_successes < b.success_threshold) × (b.opened_at ≢ none)

pub record IsValid (b : Breaker) : Type 0 where
  pub failure_threshold_pos : 0 < b.failure_threshold
  pub success_threshold_pos : 0 < b.success_threshold
  pub phase : Phase b.state b

-- Every breaker that the constructor builds is valid.
pub init-IsValid :
    (failures timeout successes : Value) (recorded : RecordOn) (callable_clock : Bool) {b : Breaker}
    → init failures timeout successes recorded callable_clock ≡ ok b
    → IsValid b
unfolding init
init-IsValid failures timeout successes recorded callable_clock h = ground arith

reset-IsValid : {b : Breaker} → IsValid b → IsValid (reset b)
unfolding reset
reset-IsValid v = ground arith

on_success-IsValid : {b : Breaker} → IsValid b → IsValid (on_success b)
unfolding on_success
on_success-IsValid v = ground arith

release_probe-IsValid :
    (probing : Bool) {b : Breaker} → IsValid b → IsValid (release_probe probing b)
unfolding release_probe
release_probe-IsValid probing v = ground arith

admit-IsValid : {b : Breaker} → IsValid b → IsValid (admit b)
unfolding admit
admit-IsValid v = ground arith

count_failure-IsValid :
    {b : Breaker} → IsValid b → IsValid (record b { total_failures = b.total_failures + 1 })
count_failure-IsValid v = ground arith

count_call-IsValid :
    {b : Breaker} → IsValid b → IsValid (record b { total_calls = b.total_calls -ℤ pos 1 })
count_call-IsValid v = ground arith

module _ (clock : ℕ → ℤ) where
  maybe_recover-IsValid : {b : Breaker} → IsValid b → IsValid (maybe_recover clock b)
  unfolding maybe_recover
  maybe_recover-IsValid v = ground arith

  on_failure-IsValid : {b : Breaker} → IsValid b → IsValid (on_failure clock b)
  unfolding on_failure
  on_failure-IsValid v = ground arith

  record_success-IsValid : {b : Breaker} → IsValid b → IsValid (record_success clock b)
  unfolding record_success
  record_success-IsValid v = on_success-IsValid (maybe_recover-IsValid v)

  pub record_failure-IsValid : {b : Breaker} → IsValid b → IsValid (record_failure clock b)
  unfolding record_failure
  record_failure-IsValid v = on_failure-IsValid (maybe_recover-IsValid v)

  settle-IsValid :
      {A : Type 0} (probing : Bool) (r : Result A) {b : Breaker}
      → IsValid b
      → IsValid (settle clock probing r b).1
  unfolding settle
  settle-IsValid probing (ok a) v = on_success-IsValid (release_probe-IsValid probing v)
  settle-IsValid probing (raise e) v = ground (
    arith,
    on_failure-IsValid (release_probe-IsValid probing (count_failure-IsValid v)),
    count_call-IsValid (release_probe-IsValid probing v),
  )

  run_admitted-IsValid :
      {A : Type 0} (func : Action Breaker A) {b : Breaker}
      → ((c : Breaker) → IsValid c → IsValid (func c).1)
      → IsValid b
      → IsValid (run_admitted clock func b).1
  unfolding run_admitted
  run_admitted-IsValid func {b} keeps v =
      settle-IsValid (is_half_open b.state) (func (admit b)).0 (keeps (admit b) (admit-IsValid v))

  reject-IsValid : (A : Type 0) {b : Breaker} → IsValid b → IsValid (reject clock {A = A} b).1
  unfolding reject
  reject-IsValid A v = ground arith

  -- A call keeps the invariant, whether it is admitted or rejected and however `func` ends, if
  -- what `func` itself does to the breaker keeps it.
  pub call-IsValid :
      {A : Type 0} (func : Action Breaker A) {b : Breaker}
      → ((c : Breaker) → IsValid c → IsValid (func c).1)
      → IsValid b
      → IsValid (call clock func b).1
  unfolding call
  call-IsValid {A} func keeps v = ground (
    arith,
    run_admitted-IsValid func keeps (maybe_recover-IsValid v),
    reject-IsValid A (maybe_recover-IsValid v),
  )
