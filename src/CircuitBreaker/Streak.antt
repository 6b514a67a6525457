-- ===== src/CircuitBreaker/Streak.antt =====
-- Consecutive failures of a closed breaker (digital_fte/circuit_breaker.py), against a description
-- of the outcomes alone.
use digital_fte_agent.Prelude.{ℕ, ◌+◌, ◌<◌, ◌≡◌, refl, ◌↔◌, Bool, true, false, List, [], ◌∷◌, arith}
use digital_fte_agent.Prelude.Int.{ℤ}
use digital_fte_agent.CircuitBreaker.{closed, open_circuit, Breaker, record_success, record_failure}

-- The failures (`true`) at the end of the outcomes, when `seen` came before them.
abbrev pub trailing : ℕ → List Bool → ℕ
trailing seen [] = seen
trailing seen (true ∷ outcomes) = trailing (seen + 1) outcomes
trailing seen (false ∷ outcomes) = trailing 0 outcomes

-- No run of failures gets as long as `threshold`.
abbrev pub StaysBelow : ℕ → ℕ → List Bool → Type 0
StaysBelow threshold seen [] = seen < threshold
StaysBelow threshold seen (true ∷ outcomes) =
    (seen < threshold) × StaysBelow threshold (seen + 1) outcomes
StaysBelow threshold seen (false ∷ outcomes) = (seen < threshold) × StaysBelow threshold 0 outcomes

StaysBelow-lt : (n seen : ℕ) (outcomes : List Bool) → StaysBelow n seen outcomes → seen < n
StaysBelow-lt n seen [] h = h
StaysBelow-lt n seen (true ∷ outcomes) h = h.0
StaysBelow-lt n seen (false ∷ outcomes) h = h.0

trailing-lt :
    (n seen : ℕ) (outcomes : List Bool) → StaysBelow n seen outcomes → trailing seen outcomes < n
trailing-lt n seen [] h = h
trailing-lt n seen (true ∷ outcomes) h = trailing-lt n (seen + 1) outcomes h.1
trailing-lt n seen (false ∷ outcomes) h = trailing-lt n 0 outcomes h.1

module _ (clock : ℕ → ℤ) where
  -- The outcomes as the caller reports them.
  unfoldable pub report : List Bool → Breaker → Breaker
  unfolding record_failure record_success
  report [] b = b
  report (true ∷ outcomes) b = report outcomes (record_failure clock b)
  report (false ∷ outcomes) b = report outcomes (record_success clock b)

  record_failure-closed :
      (b : Breaker)
      → b.state ≡ closed
      → b.consecutive_failures + 1 < b.failure_threshold
      → record_failure clock b ≡ record b { consecutive_failures = b.consecutive_failures + 1 }
  unfolding record_failure
  record_failure-closed b c h = ground arith

  record_success-closed :
      (b : Breaker)
      → b.state ≡ closed
      → record_success clock b ≡ record b { consecutive_failures = 0 }
  unfolding record_success
  record_success-closed b c = ground arith

  record_failure-open_iff :
      (b : Breaker)
      → b.state ≡ closed
      → b.consecutive_failures < b.failure_threshold
      → (b.consecutive_failures + 1 ≡ b.failure_threshold)
        ↔ ((record_failure clock b).state ≡ open_circuit)
  unfolding record_failure
  record_failure-open_iff b c h = ground arith

  report_closed :
      (outcomes : List Bool) (b : Breaker)
      → b.state ≡ closed
      → StaysBelow b.failure_threshold b.consecutive_failures outcomes
      → report outcomes b
        ≡ record b { consecutive_failures = trailing b.consecutive_failures outcomes }
  unfolding report
  report_closed [] b c h = refl
  report_closed (true ∷ outcomes) b c h =
      rw (record_failure-closed b c (StaysBelow-lt _ _ outcomes h.1)) (
        report_closed outcomes (record b { consecutive_failures = b.consecutive_failures + 1 }) c
          h.1)
  report_closed (false ∷ outcomes) b c h =
      rw (record_success-closed b c)
        (report_closed outcomes (record b { consecutive_failures = 0 }) c h.1)

  -- On a closed breaker, while no run of failures gets as long as the threshold, reporting outcomes
  -- changes nothing but the count of consecutive failures, which is the length of the run at the end. The
  -- next failure opens the breaker exactly when it completes a run of that length.
  pub report_streak :
      (outcomes : List Bool) (b : Breaker)
      → b.state ≡ closed
      → StaysBelow b.failure_threshold b.consecutive_failures outcomes
      → let run = trailing b.consecutive_failures outcomes in
        let b' = report outcomes b in
        (b' ≡ record b { consecutive_failures = run })
        × ((run + 1 ≡ b.failure_threshold) ↔ ((record_failure clock b').state ≡ open_circuit))
  report_streak outcomes b c h = rw (report_closed outcomes b c h) (
    refl,
    record_failure-open_iff
        (record b { consecutive_failures = trailing b.consecutive_failures outcomes }) c
        (trailing-lt b.failure_threshold b.consecutive_failures outcomes h),
  )
