-- ===== src/CircuitBreaker/Admission.antt =====
-- When the breaker (digital_fte/circuit_breaker.py) lets a call through, and what a call leaves
-- behind when `func` does not use the breaker itself.
use digital_fte_agent.Prelude.{ℕ, ◌+◌, ◌≤◌, ◌<◌, ◌≡◌, ◌↔◌, true, false, none, some, arith}
use digital_fte_agent.Prelude.Int.{ℤ, pos, negsuc, ◌+ℤ◌, ◌≤ℤ◌}
use digital_fte_agent.Prelude.Values.{finite, Exception, ok, raise}
use digital_fte_agent.Prelude.Action.{Action, pure, throw}
use digital_fte_agent.CircuitBreaker.{
  closed, open_circuit, half_open, Breaker, is_recorded, reset, maybe_recover, allows_call, call,
}
use digital_fte_agent.CircuitBreaker.Invariant.{IsValid}

module _ (clock : ℕ → ℤ) where
  -- An open breaker with a finite recovery timeout admits a call exactly when the clock shows that
  -- the timeout has passed since the trip.
  pub allows_call-open :
      {b : Breaker} {since : ℤ} {timeout : ℤ}
      → IsValid b
      → b.state ≡ open_circuit
      → b.opened_at ≡ some since
      → b.recovery_timeout ≡ finite timeout
      → ((allows_call clock b).0 ≡ ok true) ↔ (since +ℤ timeout ≤ℤ clock b.readings)
  unfolding allows_call ◌+ℤ◌
  allows_call-open v open_now tripped wait = ground arith

  -- A rejected call never runs `func`: whatever two functions it is given, the outcome is the same
  -- exception and the same breaker. It is counted as a rejection, and as nothing else.
  call_rejected :
      {A : Type 0} (func func' : Action Breaker A) (b : Breaker)
      → (allows_call clock b).0 ≡ ok false
      → let (r, b') = call clock func b in
        ((r, b') ≡ call clock func' b)
        × (b'.total_rejections ≡ b.total_rejections + 1)
        × (b'.total_calls ≡ b.total_calls)
        × (b'.total_failures ≡ b.total_failures)
        × (b'.opened_count ≡ b.opened_count)
        × (b'.consecutive_failures ≡ b.consecutive_failures)
  unfolding call
  call_rejected func func' b h = ground arith

  -- An exception outside `record_on` is invisible: the call leaves the breaker as the check of
  -- its state left it.
  call_unrecorded :
      {A : Type 0} (e : Exception) (b : Breaker)
      → (allows_call clock b).0 ≡ ok true
      → is_recorded b.record_on e ≡ false
      → call clock (throw {A = A} e) b ≡ (raise e, maybe_recover clock b)
  unfolding call
  call_unrecorded e b allowed unrecorded = ground arith

  -- A half-open breaker that admits a probe of a function that returns or raises without using the
  -- breaker: a success closes it once `success_threshold` of them are in, and is counted until then; a
  -- recorded failure opens it again from the time that the clock shows. In each case the probe's slot is
  -- free again.
  pub call-half_open :
      {A : Type 0} (b : Breaker)
      → b.state ≡ half_open
      → (allows_call clock b).0 ≡ ok true
      → ((a : A)
          → let b' = (call clock (pure a) b).1 in
            (b.half_open_successes + 1 < b.success_threshold
              → (b'.state ≡ half_open)
                × (b'.half_open_successes ≡ b.half_open_successes + 1)
                × (b'.probes_in_flight ≡ b.probes_in_flight))
            × (b.success_threshold ≤ b.half_open_successes + 1
                → (b'.state ≡ closed)
                  × (b'.consecutive_failures ≡ 0)
                  × (b'.opened_at ≡ none)
                  × (b'.probes_in_flight ≡ pos 0)))
        × ((e : Exception)
            → is_recorded b.record_on e ≡ true
            → let b' = (call clock (throw {A = A} e) b).1 in
              (b'.state ≡ open_circuit)
              × (b'.opened_at ≡ some (clock b.readings))
              × (b'.opened_count ≡ b.opened_count + 1)
              × (b'.probes_in_flight ≡ pos 0))
  unfolding call
  call-half_open b half allowed =
      (λ a. (λ h. ground arith, λ h. ground arith), λ e rec. ground arith)

  -- A reset while a half-open probe runs: the probe gives back a slot that the reset has already
  -- cleared, and the closed breaker is left with minus one probe in flight.
  pub call-reset_in_probe :
      (b : Breaker)
      → b.state ≡ half_open
      → (allows_call clock b).0 ≡ ok true
      → let b' = (call clock (λ c. (ok tt, reset c)) b).1 in
        (b'.state ≡ closed) × (b'.probes_in_flight ≡ negsuc 0)
  unfolding call reset
  call-reset_in_probe b half allowed = ground arith
