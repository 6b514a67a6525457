-- ===== src/CircuitBreaker.antt =====
-- digital_fte/circuit_breaker.py: the three-state circuit breaker, method by method. The clock is a
-- parameter: its `k`-th reading is `clock k`, and the breaker counts the readings made so far.
mod Fields
pub mod Invariant
pub mod Admission
pub mod Streak
mod Tests
unfoldable pub use Fields.*
use digital_fte_agent.Prelude.{ℕ, ◌+◌, Bool, true, false, Option, none, some, leb, if◌then◌else◌}
use digital_fte_agent.Prelude.Int.{ℤ, pos, ◌+ℤ◌, ◌-ℤ◌, ltb_ℤ, leb_ℤ, max_ℤ}
use digital_fte_agent.Prelude.Values.{
  Float, finite, infinite, minus_infinite, circuit_open, Result, ok, raise,
}
use digital_fte_agent.Prelude.Action.{Action, ◌>>=◌, ◌>>◌, pure, throw, gets, modify}
use digital_fte_agent.CircuitBreaker.Fields.{
  CircuitState, closed, open_circuit, half_open, Breaker, BreakerSnapshot, is_recorded,
}

-- `timeout <= elapsed`, for a float that need not be finite.
abbrev pub float_le : Float → ℤ → Bool
float_le (finite t) elapsed = leb_ℤ t elapsed
float_le minus_infinite elapsed = true
float_le _ elapsed = false

-- `max(0.0, timeout - elapsed)`
abbrev pub wait_left : Float → ℤ → Float
wait_left (finite t) elapsed = finite (max_ℤ (pos 0) (t -ℤ elapsed))
wait_left infinite elapsed = infinite
wait_left _ elapsed = finite (pos 0)

abbrev pub is_open : CircuitState → Bool
is_open open_circuit = true
is_open _ = false

abbrev pub is_half_open : CircuitState → Bool
is_half_open half_open = true
is_half_open _ = false

-- `or 0.0`
abbrev pub or_zero : Option Float → Float
or_zero none = finite (pos 0)
or_zero (some f) = f

-- `CircuitBreaker.reset`
unfoldable pub reset : Breaker → Breaker
reset b = record b {
  state = closed;
  consecutive_failures = 0;
  half_open_successes = 0;
  probes_in_flight = pos 0;
  opened_at = none;
}

-- `CircuitBreaker._close`
unfoldable pub close : Breaker → Breaker
close b = record b {
  state = closed;
  consecutive_failures = 0;
  half_open_successes = 0;
  probes_in_flight = pos 0;
  opened_at = none;
}

-- `CircuitBreaker._on_success`
unfoldable pub on_success : Breaker → Breaker
unfolding close
on_success b =
    if is_half_open b.state
    then (let b' : Breaker = record b { half_open_successes = b.half_open_successes + 1 } in
        if leb b.success_threshold b'.half_open_successes then close b' else b')
    else record b { consecutive_failures = 0 }

-- a half-open admission gives its probe slot back
unfoldable pub release_probe : Bool → Breaker → Breaker
unfolding ◌-ℤ◌
release_probe probing b =
    if probing then record b { probes_in_flight = b.probes_in_flight -ℤ pos 1 } else b

-- `func` is admitted: it takes its probe slot and is counted
unfoldable pub admit : Breaker → Breaker
unfolding ◌+ℤ◌
admit b = record b {
  probes_in_flight =
      if is_half_open b.state then b.probes_in_flight +ℤ pos 1 else b.probes_in_flight;
  total_calls = b.total_calls +ℤ pos 1;
}

module _ (clock : ℕ → ℤ) where
  -- `self._clock()`
  unfoldable pub read_clock : Action Breaker ℤ
  read_clock b = (ok (clock b.readings), record b { readings = b.readings + 1 })

  -- `CircuitBreaker._maybe_recover`; the helpers take what the early return has tested
  unfoldable pub recover_since : CircuitState → Option ℤ → Breaker → Breaker
  unfolding ◌-ℤ◌
  recover_since open_circuit (some since) b =
      let b' : Breaker = record b { readings = b.readings + 1 } in
      if float_le b.recovery_timeout (clock b.readings -ℤ since)
      then record b' { state = half_open; half_open_successes = 0; probes_in_flight = pos 0 }
      else b'
  recover_since _ _ b = b

  unfoldable pub maybe_recover : Breaker → Breaker
  unfolding recover_since
  maybe_recover b = recover_since b.state b.opened_at b

  -- the property `state`
  unfoldable pub state_now : Action Breaker CircuitState
  unfolding maybe_recover
  state_now b = (ok (maybe_recover b).state, maybe_recover b)

  unfoldable pub retry_since : CircuitState → Option ℤ → Action Breaker (Option Float)
  unfolding ◌-ℤ◌ read_clock
  retry_since open_circuit (some since) = do
    now ← read_clock
    b ← gets (λ b. b)
    pure (some (wait_left b.recovery_timeout (now -ℤ since)))
  retry_since _ _ = pure none

  -- `CircuitBreaker.time_until_retry`
  unfoldable pub time_until_retry : Action Breaker (Option Float)
  unfolding retry_since
  time_until_retry b = retry_since b.state b.opened_at b

  -- `CircuitBreaker.allows_call`
  unfoldable pub allows_call : Action Breaker Bool
  unfolding state_now
  allows_call = do
    current ← state_now
    b ← gets (λ b. b)
    pure (
        if is_open current
        then false
        else if is_half_open current
        then ltb_ℤ b.probes_in_flight (pos b.success_threshold)
        else true)

  -- `CircuitBreaker.snapshot`
  unfoldable pub snapshot : Action Breaker BreakerSnapshot
  unfolding state_now time_until_retry
  snapshot = do
    current ← state_now
    b ← gets (λ b. b)
    retry ← time_until_retry
    pure (record {
      state = current;
      consecutive_failures = b.consecutive_failures;
      half_open_successes = b.half_open_successes;
      total_calls = b.total_calls;
      total_failures = b.total_failures;
      total_rejections = b.total_rejections;
      opened_count = b.opened_count;
      time_until_retry = retry;
    })

  -- `CircuitBreaker._trip`
  unfoldable pub trip : Breaker → Breaker
  trip b = record b {
    state = open_circuit;
    opened_at = some (clock b.readings);
    opened_count = b.opened_count + 1;
    half_open_successes = 0;
    probes_in_flight = pos 0;
    readings = b.readings + 1;
  }

  -- `CircuitBreaker._on_failure`
  unfoldable pub on_failure : Breaker → Breaker
  unfolding trip
  on_failure b =
      if is_half_open b.state
      then trip b
      else (let b' : Breaker = record b { consecutive_failures = b.consecutive_failures + 1 } in
          if leb b.failure_threshold b'.consecutive_failures then trip b' else b')

  -- `CircuitBreaker.record_success`
  unfoldable pub record_success : Breaker → Breaker
  unfolding maybe_recover on_success
  record_success b = on_success (maybe_recover b)

  -- `CircuitBreaker.record_failure`
  unfoldable pub record_failure : Breaker → Breaker
  unfolding maybe_recover on_failure
  record_failure b = on_failure (maybe_recover b)

  -- what `call` does once `func` is over
  unfoldable pub settle : {A : Type 0} → Bool → Result A → Breaker → Result A × Breaker
  unfolding ◌-ℤ◌ release_probe on_success on_failure
  settle probing (ok a) b = (ok a, on_success (release_probe probing b))
  settle probing (raise e) b =
      if is_recorded b.record_on e
      then (
        raise e,
        on_failure (release_probe probing (record b { total_failures = b.total_failures + 1 })),
      )
      else (
        raise e,
        (let b' : Breaker = release_probe probing b in
            record b' { total_calls = b'.total_calls -ℤ pos 1 }),
      )

  unfoldable pub reject : {A : Type 0} → Action Breaker A
  unfolding time_until_retry
  reject = do
    modify (λ b. record b { total_rejections = b.total_rejections + 1 })
    retry ← time_until_retry
    throw (circuit_open (or_zero retry))

  unfoldable pub run_admitted : {A : Type 0} → Action Breaker A → Action Breaker A
  unfolding admit settle
  run_admitted func b =
      let probing = is_half_open b.state in let (r, b') = func (admit b) in settle probing r b'

  -- `CircuitBreaker.call`. `func` may use the breaker itself, so it is an action on it.
  unfoldable pub call : {A : Type 0} → Action Breaker A → Action Breaker A
  unfolding allows_call reject run_admitted
  call func = do allowed ← allows_call; if allowed then run_admitted func else reject
