-- ===== src/RateLimiter/Tests.antt =====
-- Runs of digital_fte/rate_limiter.py.
use digital_fte_agent.Prelude.{ℕ, ◌+◌, ◌*◌, ◌≤◌, ◌≡◌, refl, ◌↔◌, true, false, [], ◌∷◌, arith}
use digital_fte_agent.Prelude.Int.{pos, ◌-ℤ◌}
use digital_fte_agent.Prelude.Values.{Value, int, whole_seconds, nearest, value_error, ok, raise}
use digital_fte_agent.RateLimiter.{
  validate_positive_number, validate_token_count, divide, AcquireResult, TokenBucket,
  validate_initial, refill_at, init, refill, decide, try_acquire, acquire,
}
use digital_fte_agent.RateLimiter.Refill.{span}
use digital_fte_agent.RateLimiter.Bounds.{attempt, demand, run_calls, run_calls_bound}
use digital_fte_agent.RateLimiter.Waiting.{allowed_of, HasPassed, decide_after_wait}

-- One second between two readings.
abbrev ticking : ℕ → Value
ticking n = int (pos n)

abbrev bucket : TokenBucket
bucket = record {
  capacity = 5;
  refill_rate = 2;
  tokens = 1;
  last_refill = pos 0;
  allowed_count = 0;
  rejected_count = 0;
  readings = 1;
}

init-bucket : init ticking (int (pos 5)) (int (pos 2)) (int (pos 1)) true ≡ ok bucket
unfolding init validate_positive_number validate_initial
init-bucket = refl

runs_calls :
    let (b, granted) =
      run_calls ticking
        (attempt (int (pos 3)) ∷ attempt (int (pos 3)) ∷ demand (int (pos 2)) ∷ [])
        (bucket, 0) in
    (granted ≡ 5) × (b.tokens ≡ 2) × (b.rejected_count ≡ 1)
unfolding try_acquire acquire refill decide validate_token_count ◌-ℤ◌
runs_calls = (refl, refl, refl)

try_acquire_no_count : (try_acquire ticking (int (pos 0)) bucket).0 ≡ raise value_error
unfolding try_acquire validate_token_count
try_acquire_no_count = refl

run_calls_bound_example :
    let (b, granted) = run_calls ticking (attempt (int (pos 3)) ∷ []) (bucket, 0) in
    (granted ≤ 1 + span (pos 0) b * 2) × (b.tokens ≤ 5) × (bucket.tokens ≤ bucket.capacity)
run_calls_bound_example =
    run_calls_bound ticking (int (pos 5)) (int (pos 2)) (int (pos 1)) true bucket
      (attempt (int (pos 3)) ∷ []) init-bucket

decide_after_wait_example :
    (r : AcquireResult) × ((decide ticking 4 bucket).0 ≡ ok r)
    × (r.allowed ≡ false)
    × (r.retry_after ≡ divide 3 2)
    × ((allowed_of (decide ticking 4 (refill_at (pos 2) bucket)).0 ≡ true)
        ↔ HasPassed r.retry_after 2)
unfolding ◌-ℤ◌
decide_after_wait_example =
    decide_after_wait ticking bucket 4 2 (pos 2) (omega arith) (omega arith) (omega arith)
      (omega arith) refl

-- Three tokens at a rate of two: a second is too short, and two are enough.
half_a_second_over : divide 3 2 ≡ nearest 3 2
half_a_second_over = refl

four_in_two_seconds : divide 4 2 ≡ whole_seconds 2
four_in_two_seconds = refl
