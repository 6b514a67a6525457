-- ===== src/RetryPolicy/Attempts.antt =====
-- digital_fte/retry_policy.py: how a run of `execute` ends.
use digital_fte_agent.Prelude.{
  ℕ, suc, ◌+◌, ◌≤◌, ◌<◌, String, ◌≡◌, ◌⊎◌, Bool, true, false, Option, none, some, List, [], ◌∷◌,
  ◌++◌, arith, length,
}
use digital_fte_agent.Prelude.Int.{pos}
use digital_fte_agent.Prelude.Values.{int, overflow_error, ok, raise}
use digital_fte_agent.Prelude.Amounts.{Amount}
use digital_fte_agent.RetryPolicy.{
  RetryPolicy, delay_at, delay_before, AttemptRecord, Call, returned, threw, Executed, succeeded,
  retry_exhausted, passed_on, refused, is_retried, exhausted, record_of, sleep_for,
}

pub delay_before-in_range :
    (p : RetryPolicy) (n : ℕ)
    → 1 ≤ n
    → n ≤ p.max_attempts
    → delay_before (int (pos n)) p ≡ delay_at p n
unfolding delay_before
delay_before-in_range p n low high = ground arith

-- The last of the exceptions, or what was there before.
abbrev pub last_of : {E : Type 0} → Option E → List E → Option E
last_of before [] = before
last_of before (e ∷ es) = last_of (some e) es

module _ {W T E : Type 0} (type_name text : E → String) (p : RetryPolicy) (func : W → Call T E × W)
    (types : List (E → Bool)) (sleep : Amount → W → W) where
  -- The attempts from number `n` on find a delay, sleep for it and throw these exceptions, which are all
  -- retried; the records are what is kept of them.
  pub data Fails : ℕ → W → List E → List AttemptRecord → W → Type 0 where
    none_yet : {n : ℕ} {w : W} → Fails n w [] [] w
    one_more :
        {n : ℕ} {d : Amount} {w w' w'' : W} {e : E} {es : List E} {l : List AttemptRecord}
        → delay_at p n ≡ ok d
        → func (sleep_for sleep d w) ≡ (threw e, w')
        → is_retried types e ≡ true
        → Fails (suc n) w' es l w''
        → Fails n w (e ∷ es) (record_of type_name text n d e ∷ l) w''

  -- The attempt number `n` ends the run: it returns, or its exception is not retried, or the power of
  -- its delay overflows and it is not made.
  pub data Ends (n : ℕ) (w : W) (failures : List AttemptRecord) : Executed T E × W → Type 0 where
    it_returns :
        {d : Amount} {v : T} {w' : W}
        → delay_at p n ≡ ok d
        → func (sleep_for sleep d w) ≡ (returned v, w')
        → Ends n w failures
            (succeeded (record { value = v; attempts = n; failures = failures }), w')
    it_throws :
        {d : Amount} {e : E} {w' : W}
        → delay_at p n ≡ ok d
        → func (sleep_for sleep d w) ≡ (threw e, w')
        → is_retried types e ≡ false
        → Ends n w failures (passed_on e, w')
    no_delay : delay_at p n ≡ raise overflow_error → Ends n w failures (refused overflow_error, w)

  -- What `left` attempts from number `n` on come to.
  abbrev pub Runs : (left n : ℕ) → List AttemptRecord → Option E → W → Executed T E × W → Type 0
  Runs left n failures last w r =
      (es : List E) × (l : List AttemptRecord) × (w' : W) × Fails n w es l w'
      × (((length es ≡ left) × (r ≡ (exhausted p (last_of last es), w')))
          ⊎ ((length es < left) × Ends (n + length es) w' (failures ++ l) r))

  -- What a run comes to, with the error that is raised at last.
  abbrev pub Concludes : W → Executed T E × W → Type 0
  Concludes w r =
      (es : List E) × (l : List AttemptRecord) × (w' : W) × Fails 1 w es l w'
      × (((length es ≡ p.max_attempts)
            × ((e : E) × (last_of none es ≡ some e) × (r ≡ (retry_exhausted p.max_attempts e, w'))))
          ⊎ ((length es < p.max_attempts) × Ends (suc (length es)) w' l r))
