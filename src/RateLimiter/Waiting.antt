-- ===== src/RateLimiter/Waiting.antt =====
-- The wait that a rejected request to the bucket of digital_fte/rate_limiter.py is told.
use Prim.Native.Nat.{min}
use native.Mathlib.Nat.{
  min-le_right, le-min, mul-le-mul_right, le_of_mul-le-mul_right, div-add-mod', mul-mod_left,
}
use digital_fte_agent.Prelude.{
  ℕ, zero, suc, ◌+◌, ◌-◌, ◌*◌, ◌/◌, ◌%◌, ◌≤◌, ◌<◌, ◌≡◌, refl, ◌↔◌, ◌⊎◌, inl, inr, Bool, true, false,
  arith, ◌==◌, ==_iff, Bool-cases,
}
use digital_fte_agent.Prelude.Int.{ℤ, pos, ◌-ℤ◌}
use digital_fte_agent.Prelude.Values.{Value, Wait, whole_seconds, nearest, Result, ok, raise}
use digital_fte_agent.RateLimiter.{divide, AcquireResult, TokenBucket, refill_at, decide}

abbrev pub allowed_of : Result AcquireResult → Bool
allowed_of (ok r) = r.allowed
allowed_of (raise e) = false

refill_at_tokens :
    (now : ℤ) (elapsed : ℕ) (b : TokenBucket)
    → now -ℤ b.last_refill ≡ pos elapsed
    → b.tokens ≤ b.capacity
    → ((refill_at now b).tokens ≡ min b.capacity (b.tokens + elapsed * b.refill_rate))
      × ((refill_at now b).capacity ≡ b.capacity)
unfolding refill_at
refill_at_tokens now zero b e h = rw e (ground arith)
refill_at_tokens now (suc elapsed) b e h = rw e (ground arith)

-- A whole number of seconds is no less than the wait.
abbrev pub HasPassed : Wait → ℕ → Type 0
HasPassed (whole_seconds n) elapsed = n ≤ elapsed
HasPassed (nearest numerator denominator) elapsed = numerator < elapsed * denominator

divide-HasPassed :
    (missing rate elapsed : ℕ)
    → 0 < rate
    → HasPassed (divide missing rate) elapsed ↔ (missing ≤ elapsed * rate)
divide-HasPassed missing rate elapsed low = elim (Bool-cases (missing % rate == 0)) [
  | inl whole ↦
      let parts : missing / rate * rate ≡ missing =
        omega (arith, div-add-mod' missing rate, (==_iff (missing % rate) 0).0 whole) in
      rw (whole) (
        λ h. omega (arith, parts, mul-le-mul_right rate h),
        λ h.
            le_of_mul-le-mul_right {m = missing / rate} {n = elapsed} {k = rate}
              (omega (arith, parts)) low,
      )
  | inr rounded ↦ rw (rounded) (
    λ h. omega arith,
    λ h. elim (lt_or_eq h) [
      | inl less ↦ less
      | inr same ↦ absurd (ground (arith, mul-mod_left elapsed rate))
    ],
  )
]
  where
    lt_or_eq : {a b : ℕ} → a ≤ b → (a < b) ⊎ (a ≡ b)
    lt_or_eq h = omega arith

module _ (clock : ℕ → Value) where
  granted_lem :
      (b : TokenBucket) (tokens elapsed : ℕ) (now : ℤ)
      → (refill_at now b).tokens ≡ min b.capacity (b.tokens + elapsed * b.refill_rate)
      → (refill_at now b).capacity ≡ b.capacity
      → allowed_of (decide clock tokens (refill_at now b)).0 ≡ true
      → tokens - b.tokens ≤ elapsed * b.refill_rate
  unfolding decide
  granted_lem b tokens elapsed now after cap go =
      ground (arith, after, cap, min-le_right b.capacity (b.tokens + elapsed * b.refill_rate))

  -- A request within the capacity that a bucket with a positive rate has too few tokens for is rejected,
  -- with the wait that the missing tokens take at the rate. If the bucket is refilled a whole number of
  -- seconds after its last refill, a retry is let through exactly if that number is no less than the
  -- wait, or above the exact quotient where the wait is no whole number. Of times between it says nothing.
  pub decide_after_wait :
      (b : TokenBucket) (tokens elapsed : ℕ) (now : ℤ)
      → 0 < b.refill_rate
      → b.tokens ≤ b.capacity
      → tokens ≤ b.capacity
      → b.tokens < tokens
      → now -ℤ b.last_refill ≡ pos elapsed
      → (r : AcquireResult) × ((decide clock tokens b).0 ≡ ok r)
        × (r.allowed ≡ false)
        × (r.retry_after ≡ divide (tokens - b.tokens) b.refill_rate)
        × ((allowed_of (decide clock tokens (refill_at now b)).0 ≡ true)
            ↔ HasPassed r.retry_after elapsed)
  unfolding decide
  decide_after_wait b tokens elapsed now low h fits short e =
      let (after, cap) = refill_at_tokens now elapsed b e h in
      let (passed, enough) = divide-HasPassed (tokens - b.tokens) b.refill_rate elapsed low in
      (
        record {
          allowed = false;
          tokens = tokens;
          remaining = b.tokens;
          retry_after = divide (tokens - b.tokens) b.refill_rate;
        },
        ground arith,
        refl,
        refl,
        (
          λ go. enough (granted_lem b tokens elapsed now after cap go),
          λ go.
              let missing : tokens - b.tokens ≤ elapsed * b.refill_rate = passed go in
              ground (
                arith,
                after,
                cap,
                missing,
                le-min {k = tokens} {a = b.capacity} {b = b.tokens + elapsed * b.refill_rate} fits
                    (omega (arith, missing)),
              ),
        ),
      )
