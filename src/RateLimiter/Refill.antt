-- ===== src/RateLimiter/Refill.antt =====
-- Refills of the bucket of digital_fte/rate_limiter.py, and what a new one holds.
use native.Mathlib.Nat.{add-mul, min-le_left, min-le_right}
use digital_fte_agent.Prelude.{
  ℕ, ◌+◌, ◌*◌, ◌≤◌, ◌≡◌, ap, subst, inl, inr, Bool, true, false, arith, if◌then◌else◌, Bool-cases,
}
use digital_fte_agent.Prelude.Int.{ℤ, pos, negsuc, pos_part, ◌-ℤ◌, ◌≤ℤ◌, leb_ℤ, max_ℤ}
use digital_fte_agent.Prelude.Values.{
  Float, finite, infinite, minus_infinite, not_a_number, Value, null, bool, int, float, str, object,
  type_error, ok, raise, ok_injective, and_then_ok,
}
use digital_fte_agent.RateLimiter.{
  validate_positive_number, TokenBucket, within_capacity, validate_initial, as_time, accrue,
  refill_at, init,
}

-- The time from `start` to the last refill.
unfoldable pub span : ℤ → TokenBucket → ℕ
unfolding ◌-ℤ◌
span start b = pos_part (b.last_refill -ℤ start)

-- What may have been granted when `granted` tokens were, from a bucket that held `held` at `start`.
pub record Grants (start : ℤ) (held capacity rate : ℕ) (granted : ℕ) (b : TokenBucket)
    : Type 0 where
  pub same_capacity : b.capacity ≡ capacity
  pub same_rate : b.refill_rate ≡ rate
  pub since : start ≤ℤ b.last_refill
  pub full : b.tokens ≤ capacity
  pub bounded : granted + b.tokens ≤ held + span start b * rate

max_ℤ-same : (a b : ℤ) → leb_ℤ (b -ℤ a) (pos 0) ≡ true → max_ℤ a b ≡ a
unfolding ◌-ℤ◌
max_ℤ-same a b h = ground arith

refill_at_back :
    (now : ℤ) (b : TokenBucket) → leb_ℤ (now -ℤ b.last_refill) (pos 0) ≡ true → refill_at now b ≡ b
unfolding refill_at
refill_at_back now b h =
    rw h (ap (λ t. record b { last_refill = t }) (max_ℤ-same b.last_refill now h))

refill_at_forward :
    (now : ℤ) (b : TokenBucket)
    → leb_ℤ (now -ℤ b.last_refill) (pos 0) ≡ false
    → refill_at now b ≡ record b { tokens = accrue (now -ℤ b.last_refill) b; last_refill = now }
unfolding refill_at
refill_at_forward now b h = rw h

span_forward :
    (start last now : ℤ)
    → start ≤ℤ last
    → leb_ℤ (now -ℤ last) (pos 0) ≡ false
    → (start ≤ℤ now) × (pos_part (now -ℤ start) ≡ pos_part (last -ℤ start) + pos_part (now -ℤ last))
unfolding ◌-ℤ◌
span_forward start last now h k = (ground arith, ground arith)

accrued_le :
    (granted held tokens spent elapsed rate : ℕ)
    → granted + tokens ≤ held + spent * rate
    → granted + (tokens + elapsed * rate) ≤ held + (spent + elapsed) * rate
accrued_le granted held tokens spent elapsed rate h = omega (arith, add-mul spent elapsed rate)

pub refill_at-Grants :
    (start now : ℤ) (held capacity rate granted : ℕ) (b : TokenBucket)
    → Grants start held capacity rate granted b
    → Grants start held capacity rate granted (refill_at now b)
unfolding span
refill_at-Grants start now held capacity rate granted b h =
    elim (Bool-cases (leb_ℤ (now -ℤ b.last_refill) (pos 0))) [
      | inl back ↦ rw (refill_at_back now b back) h
      | inr forward ↦
          let (later, longer) = span_forward start b.last_refill now h.since forward in
          let elapsed = pos_part (now -ℤ b.last_refill) in
          let enough : granted + (b.tokens + elapsed * b.refill_rate)
              ≤ held + (span start b + elapsed) * rate =
            rw h.same_rate
              (accrued_le granted held b.tokens (span start b) elapsed rate h.bounded) in
          rw (refill_at_forward now b forward) (record {
            same_capacity = h.same_capacity;
            same_rate = h.same_rate;
            since = later;
            full = omega (
              arith,
              min-le_left b.capacity (b.tokens + elapsed * b.refill_rate),
              h.same_capacity,
            );
            bounded = rw longer (
                omega
                  (arith, min-le_right b.capacity (b.tokens + elapsed * b.refill_rate), enough));
          })
    ]

pub read_again-Grants :
    (start : ℤ) (held capacity rate granted n : ℕ) (b : TokenBucket)
    → Grants start held capacity rate granted b
    → Grants start held capacity rate granted (record b { readings = n })
unfolding span
read_again-Grants start held capacity rate granted n b h = record {
  same_capacity = h.same_capacity;
  same_rate = h.same_rate;
  since = h.since;
  full = h.full;
  bounded = h.bounded;
}

within_capacity-le : (c : ℕ) (f : Float) (n : ℕ) → within_capacity c f ≡ ok n → n ≤ c
within_capacity-le c (finite (pos m)) n e = ground arith
within_capacity-le c (finite (negsuc m)) n e = ground arith
within_capacity-le c infinite n e = ground arith
within_capacity-le c minus_infinite n e = ground arith
within_capacity-le c not_a_number n e = ground arith

validate_initial-le : (c : ℕ) (v : Value) (n : ℕ) → validate_initial c v ≡ ok n → n ≤ c
unfolding validate_initial
validate_initial-le c null n e = ground arith
validate_initial-le c (int z) n e = within_capacity-le c (finite z) n e
validate_initial-le c (float f) n e = within_capacity-le c f n e
validate_initial-le c (bool b) n e = ground arith
validate_initial-le c (str s) n e = ground arith
validate_initial-le c object n e = ground arith

module _ (clock : ℕ → Value) where
  pub init_full :
      (capacity refill_rate initial_tokens : Value) (callable_clock : Bool) (b : TokenBucket)
      → init clock capacity refill_rate initial_tokens callable_clock ≡ ok b
      → b.tokens ≤ b.capacity
  unfolding init
  init_full capacity refill_rate initial_tokens callable_clock b e =
      let c = and_then_ok (validate_positive_number capacity) _ b e in
      let rate = and_then_ok (validate_positive_number refill_rate) _ b c.2 in
      let checked = and_then_ok (if callable_clock then ok tt else raise type_error) _ b rate.2 in
      let n = and_then_ok (validate_initial c.0 initial_tokens) _ b checked.2 in
      let now = and_then_ok (as_time (clock 0)) _ b n.2 in
      subst (λ (x : TokenBucket). x.tokens ≤ x.capacity) (ok_injective _ b now.2)
        (validate_initial-le c.0 initial_tokens n.0 n.1)
