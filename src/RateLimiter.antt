-- ===== src/RateLimiter.antt =====
-- digital_fte/rate_limiter.py: the token bucket. Amounts, rates and times are whole numbers. A wait
-- need not be one: where the quotient is rounded, the float is only named. The clock is the sequence of the values that its readings give.
pub mod Refill
pub mod Bounds
pub mod Waiting
mod Tests
use Prim.Native.Nat.{min}
use digital_fte_agent.Prelude.{
  ℕ, ◌+◌, ◌-◌, ◌*◌, ◌/◌, ◌%◌, Bool, true, false, not, ◌&&◌, ltb, leb, ◌==◌, if◌then◌else◌,
}
use digital_fte_agent.Prelude.Int.{ℤ, pos, negsuc, pos_part, ◌-ℤ◌, leb_ℤ, max_ℤ}
use digital_fte_agent.Prelude.Values.{
  Float, finite, Value, null, Wait, whole_seconds, nearest, type_error, value_error,
  rate_limit_exceeded, Result, ok, raise, and_then, as_int, at_least, as_number, as_finite,
}
use digital_fte_agent.Prelude.Action.{Action, ◌>>=◌, ◌>>◌, pure, check, gets, modify, raise_if}

-- `_validate_positive_number`
abbrev pub positive_number : ℤ → Result ℕ
positive_number (pos n) = if ltb n 1 then raise value_error else ok n
positive_number (negsuc n) = raise value_error

unfoldable pub validate_positive_number : Value → Result ℕ
validate_positive_number v = and_then (and_then (as_number v) as_finite) positive_number

-- `_validate_token_count`
unfoldable pub validate_token_count : Value → Result ℕ
validate_token_count v = and_then (as_int v) (at_least 1)

-- `numerator / denominator`, for a denominator that is not 0. A float is only named where it is rounded.
abbrev pub divide : (numerator denominator : ℕ) → Wait
divide numerator denominator =
    if numerator % denominator == 0
    then whole_seconds (numerator / denominator)
    else nearest numerator denominator

pub record AcquireResult : Type 0 where
  pub allowed : Bool
  pub tokens : ℕ
  pub remaining : ℕ
  pub retry_after : Wait

pub record TokenBucket : Type 0 where
  pub capacity : ℕ
  pub refill_rate : ℕ
  pub tokens : ℕ
  pub last_refill : ℤ
  pub allowed_count : ℕ
  pub rejected_count : ℕ
  -- how often the clock has been read
  pub readings : ℕ

-- the argument `initial_tokens`: NaN, a negative number and more than the capacity are refused
abbrev pub within_capacity : ℕ → Float → Result ℕ
within_capacity capacity (finite (pos n)) = if ltb capacity n then raise value_error else ok n
within_capacity capacity _ = raise value_error

unfoldable pub validate_initial : ℕ → Value → Result ℕ
validate_initial capacity null = ok capacity
validate_initial capacity v = and_then (as_number v) (within_capacity capacity)

-- the checks of `_now`
abbrev pub as_time : Value → Result ℤ
as_time v = and_then (as_number v) as_finite

-- `deficit / refill_rate if deficit > 0.0 else 0.0`
abbrev pub wait_for : ℕ → ℕ → ℕ → Wait
wait_for tokens held rate = if ltb held tokens then divide (tokens - held) rate else whole_seconds 0

-- `min(capacity, tokens + elapsed * refill_rate)`, for a positive `elapsed`
abbrev pub accrue : ℤ → TokenBucket → ℕ
accrue elapsed b = min b.capacity (b.tokens + pos_part elapsed * b.refill_rate)

-- `_refill`, once the clock is read
unfoldable pub refill_at : ℤ → TokenBucket → TokenBucket
unfolding ◌-ℤ◌
refill_at now b =
    if leb_ℤ (now -ℤ b.last_refill) (pos 0)
    then record b { last_refill = max_ℤ b.last_refill now }
    else record b { tokens = accrue (now -ℤ b.last_refill) b; last_refill = now }

module _ (clock : ℕ → Value) where
  -- `TokenBucket.__init__`
  unfoldable pub init :
      (capacity refill_rate initial_tokens : Value) → (callable_clock : Bool) → Result TokenBucket
  init capacity refill_rate initial_tokens callable_clock =
      and_then (validate_positive_number capacity) λ c.
        and_then (validate_positive_number refill_rate) λ rate.
          and_then (if callable_clock then ok tt else raise type_error) λ _.
            and_then (validate_initial c initial_tokens) λ n. and_then (as_time (clock 0)) λ now.
              ok (record {
                capacity = c;
                refill_rate = rate;
                tokens = n;
                last_refill = now;
                allowed_count = 0;
                rejected_count = 0;
                readings = 1;
              })

  -- `TokenBucket._now`
  unfoldable pub read_now : Action TokenBucket ℤ
  read_now b = (as_time (clock b.readings), record b { readings = b.readings + 1 })

  -- `TokenBucket._refill`
  unfoldable pub refill : Action TokenBucket (Unit {0})
  unfolding read_now refill_at
  refill = do now ← read_now; modify (refill_at now)

  unfoldable pub available_tokens : Action TokenBucket ℕ
  available_tokens = do refill; gets (λ b. b.tokens)

  unfoldable pub time_until_available : Value → Action TokenBucket Wait
  time_until_available v = do
    tokens ← check (validate_token_count v)
    capacity ← gets (λ b. b.capacity)
    raise_if (ltb capacity tokens) value_error
    refill
    gets (λ b. wait_for tokens b.tokens b.refill_rate)

  -- `TokenBucket.try_acquire`, once the bucket is refilled
  unfoldable pub decide : ℕ → Action TokenBucket AcquireResult
  decide tokens b =
      if leb tokens b.capacity && leb tokens b.tokens
      then (
        ok (record {
          allowed = true;
          tokens = tokens;
          remaining = b.tokens - tokens;
          retry_after = whole_seconds 0;
        }),
        record b { tokens = b.tokens - tokens; allowed_count = b.allowed_count + 1 },
      )
      else (
        ok (record {
          allowed = false;
          tokens = tokens;
          remaining = b.tokens;
          retry_after = wait_for tokens b.tokens b.refill_rate;
        }),
        record b { rejected_count = b.rejected_count + 1 },
      )

  unfoldable pub try_acquire : Value → Action TokenBucket AcquireResult
  try_acquire v = do tokens ← check (validate_token_count v); refill; decide tokens

  unfoldable pub acquire : Value → Action TokenBucket AcquireResult
  acquire v = do
    r ← try_acquire v
    raise_if (not r.allowed) (rate_limit_exceeded r.tokens r.retry_after)
    pure r
