-- ===== src/RateLimiter/Bounds.antt =====
-- What the bucket of digital_fte/rate_limiter.py lets through over any series of calls.
use digital_fte_agent.Prelude.{
  ℕ, ◌+◌, ◌*◌, ◌≤◌, ◌≡◌, refl, ◌⊎◌, inl, inr, Bool, ◌&&◌, List, [], ◌∷◌, arith, ltb, leb,
  if◌then◌else◌, Bool-cases,
}
use digital_fte_agent.Prelude.Int.{ℤ, ◌-ℤ◌}
use digital_fte_agent.Prelude.Values.{Value, Exception, Result, ok, raise, Result-cases}
use digital_fte_agent.RateLimiter.{
  validate_token_count, AcquireResult, TokenBucket, as_time, refill_at, init, refill,
  available_tokens, time_until_available, decide, try_acquire, acquire,
}
use digital_fte_agent.RateLimiter.Refill.{
  span, Grants, refill_at-Grants, read_again-Grants, init_full,
}

-- What a call may ask for.
pub data Call : Type 0 where
  ask_available : Call
  ask_wait : Value → Call
  attempt : Value → Call
  demand : Value → Call

-- The tokens that a call was granted.
abbrev pub granted_by : Result AcquireResult → ℕ
granted_by (ok r) = if r.allowed then r.tokens else 0
granted_by (raise e) = 0

module _ (clock : ℕ → Value) where
  abbrev pub run_call : Call → TokenBucket × ℕ → TokenBucket × ℕ
  run_call ask_available (b, granted) = ((available_tokens clock b).1, granted)
  run_call (ask_wait v) (b, granted) = ((time_until_available clock v b).1, granted)
  run_call (attempt v) (b, granted) =
      let (r, b') = try_acquire clock v b in (b', granted + granted_by r)
  run_call (demand v) (b, granted) = let (r, b') = acquire clock v b in (b', granted + granted_by r)

  abbrev pub run_calls : List Call → TokenBucket × ℕ → TokenBucket × ℕ
  run_calls [] s = s
  run_calls (c ∷ calls) s = run_calls calls (run_call c s)

  module _ (start : ℤ) (held capacity rate : ℕ) where
    refill_cases :
        (b : TokenBucket)
        → ((now : ℤ) × (refill clock b
              ≡ (ok tt, refill_at now (record b { readings = b.readings + 1 }))))
          ⊎ ((x : Exception) × (refill clock b ≡ (raise x, record b { readings = b.readings + 1 })))
    unfolding refill
    refill_cases b = elim (Result-cases (as_time (clock b.readings))) [
      | inl (now, e) ↦ inl (now, ground arith)
      | inr (x, e) ↦ inr (x, ground arith)
    ]

    refill-Grants :
        (granted : ℕ) (b : TokenBucket)
        → Grants start held capacity rate granted b
        → Grants start held capacity rate granted (refill clock b).1
    refill-Grants granted b h =
        let again = read_again-Grants start held capacity rate granted (b.readings + 1) b h in
        elim (refill_cases b) [
          | inl (now, e) ↦ rw e (refill_at-Grants start now held capacity rate granted _ again)
          | inr (x, e) ↦ rw e again
        ]

    decide-Grants :
        (granted tokens : ℕ) (b : TokenBucket)
        → Grants start held capacity rate granted b
        → let (r, b') = decide clock tokens b in
          Grants start held capacity rate (granted + granted_by r) b'
    unfolding decide span
    decide-Grants granted tokens b h =
        elim (Bool-cases (leb tokens b.capacity && leb tokens b.tokens)) [
          | inl enough ↦ rw enough (record {
            same_capacity = h.same_capacity;
            same_rate = h.same_rate;
            since = h.since;
            full = omega (arith, h.full);
            bounded = ground (arith, h.bounded);
          })
          | inr short ↦ rw short (record {
            same_capacity = h.same_capacity;
            same_rate = h.same_rate;
            since = h.since;
            full = h.full;
            bounded = omega (arith, h.bounded);
          })
        ]

    abbrev GrantsAfter : TokenBucket × ℕ → Type 0
    GrantsAfter (b, granted) = Grants start held capacity rate granted b

    -- The three ways in which a try ends.
    try_acquire_cases :
        (v : Value) (b : TokenBucket)
        → ((x : Exception) × (try_acquire clock v b ≡ (raise x, b)))
          ⊎ ((x : Exception) × (try_acquire clock v b ≡ (raise x, (refill clock b).1)))
          ⊎ ((n : ℕ) × (try_acquire clock v b ≡ decide clock n (refill clock b).1))
    unfolding try_acquire
    try_acquire_cases v b = elim (Result-cases (validate_token_count v)) [
      | inr (x, e) ↦ inl (x, ground arith)
      | inl (n, e) ↦ elim (refill_cases b) [
        | inl (now, f) ↦ inr (inr (n, ground arith))
        | inr (x, f) ↦ inr (inl (x, ground arith))
      ]
    ]

    try_acquire-Grants :
        (v : Value) (granted : ℕ) (b : TokenBucket)
        → Grants start held capacity rate granted b
        → let (r, b') = try_acquire clock v b in
          Grants start held capacity rate (granted + granted_by r) b'
    try_acquire-Grants v granted b h =
        let nothing : granted + 0 ≡ granted = omega arith in
        elim (try_acquire_cases v b) [
          | inl (x, e) ↦ rw e (rw nothing h)
          | inr (inl (x, e)) ↦ rw e (rw nothing (refill-Grants granted b h))
          | inr (inr (n, e)) ↦ rw e (decide-Grants granted n _ (refill-Grants granted b h))
        ]

    available_state : (b : TokenBucket) → (available_tokens clock b).1 ≡ (refill clock b).1
    unfolding available_tokens
    available_state b = ground arith

    wait_state :
        (v : Value) (b : TokenBucket)
        → ((time_until_available clock v b).1 ≡ b)
          ⊎ ((time_until_available clock v b).1 ≡ (refill clock b).1)
    unfolding time_until_available
    wait_state v b = elim (Result-cases (validate_token_count v)) [
      | inr (x, e) ↦ inl (ground arith)
      | inl (n, e) ↦ elim (Bool-cases (ltb b.capacity n)) [
        | inl over ↦ inl (ground arith)
        | inr fits ↦ inr (ground arith)
      ]
    ]

    acquire_same :
        (v : Value) (b : TokenBucket)
        → ((acquire clock v b).1 ≡ (try_acquire clock v b).1)
          × (granted_by (acquire clock v b).0 ≡ granted_by (try_acquire clock v b).0)
    unfolding acquire
    acquire_same v b = (ground arith, ground arith)

    run_call-Grants : (c : Call) (s : TokenBucket × ℕ) → GrantsAfter s → GrantsAfter (run_call c s)
    run_call-Grants ask_available (b, granted) h =
        rw (available_state b) (refill-Grants granted b h)
    run_call-Grants (ask_wait v) (b, granted) h = elim (wait_state v b) [
      | inl same ↦ rw same h
      | inr refilled ↦ rw refilled (refill-Grants granted b h)
    ]
    run_call-Grants (attempt v) (b, granted) h = try_acquire-Grants v granted b h
    run_call-Grants (demand v) (b, granted) h =
        let (state, result) = acquire_same v b in
        rw (state, result) (try_acquire-Grants v granted b h)

    run_calls-Grants :
        (calls : List Call) (s : TokenBucket × ℕ) → GrantsAfter s → GrantsAfter (run_calls calls s)
    run_calls-Grants [] s h = h
    run_calls-Grants (c ∷ calls) s h = run_calls-Grants calls (run_call c s) (run_call-Grants c s h)

  span_self : (start : ℤ) (b : TokenBucket) → b.last_refill ≡ start → span start b ≡ 0
  unfolding span ◌-ℤ◌
  span_self start b e = ground arith

  -- Whatever calls are made of a new bucket, and whatever its clock shows: the tokens that were
  -- granted are at most those it began with and what the refill rate adds in the time from its
  -- creation to its last refill, and it never holds more than its capacity.
  pub run_calls_bound :
      (capacity refill_rate initial_tokens : Value) (callable_clock : Bool) (b : TokenBucket)
      (calls : List Call)
      → init clock capacity refill_rate initial_tokens callable_clock ≡ ok b
      → let (b', granted) = run_calls calls (b, 0) in
        (granted ≤ b.tokens + span b.last_refill b' * b.refill_rate)
        × (b'.tokens ≤ b.capacity)
        × (b.tokens ≤ b.capacity)
  run_calls_bound capacity refill_rate initial_tokens callable_clock b calls e =
      let start : Grants b.last_refill b.tokens b.capacity b.refill_rate 0 b = record {
        same_capacity = refl;
        same_rate = refl;
        since = omega arith;
        full = init_full clock capacity refill_rate initial_tokens callable_clock b e;
        bounded = omega arith;
      } in
      let after =
        run_calls-Grants b.last_refill b.tokens b.capacity b.refill_rate calls (b, 0) start in
      (omega (arith, after.bounded), after.full, start.full)
