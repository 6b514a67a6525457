-- ===== src/ExponentialBackoff/Growth.antt =====
-- digital_fte/exponential_backoff.py: the waits grow up to the ceiling, until the power overflows.
use digital_fte_agent.Prelude.{
  ℕ, zero, suc, ◌+◌, ◌*◌, ◌≤◌, ◌<◌, ◌≡◌, refl, ap, subst, ◌⊎◌, inl, inr, Option, none, some, List,
  [], ◌∷◌, arith, length,
}
use digital_fte_agent.Prelude.Int.{ℤ, pos, negsuc}
use digital_fte_agent.Prelude.Values.{
  Value, null, int, overflow_error, Result, ok, raise, and_then, at_least, as_number, as_finite,
  ok_injective, and_then_ok,
}
use digital_fte_agent.Prelude.Amounts.{Amount, overflow_from, rounded, power, AtMost}
use digital_fte_agent.ExponentialBackoff.{
  require_real, positive_ceiling, require_ceiling, delays_from, backoff_schedule, BackoffSchedule,
  init, delay_before, schedule,
}
use digital_fte_agent.ExponentialBackoff.Waits.{
  IsCeiling, IsValid, wait, require_attempts-suc, backoff_delay-power_amount, le_or_lt,
  finite_power_small, finite_power_large, rounded-AtMost, Within, min_amount-Within, power_le,
  wait_mono,
}

abbrev pub Rising : List Amount → Type 0
Rising [] = Unit
Rising (d ∷ []) = Unit
Rising (d ∷ e ∷ l) = AtMost d e × Rising (e ∷ l)

abbrev pub EachWithin : Option ℕ → List Amount → Type 0
EachWithin ceiling [] = Unit
EachWithin ceiling (d ∷ l) = Within ceiling d × EachWithin ceiling l

module _ (s : BackoffSchedule) (valid : IsValid s) where
  delay_before-small :
      (n : ℕ)
      → power s.factor n < overflow_from
      → delay_before (int (pos (suc n))) s ≡ ok (wait s n)
  unfolding delay_before
  delay_before-small n h = rw (
    backoff_delay-power_amount s.base s.factor s.max_delay valid.grows valid.ceiling_pos n,
    finite_power_small (power s.factor n) h,
  )

  delay_before-large :
      (n : ℕ)
      → overflow_from ≤ power s.factor n
      → delay_before (int (pos (suc n))) s ≡ raise overflow_error
  unfolding delay_before
  delay_before-large n h = rw (
    backoff_delay-power_amount s.base s.factor s.max_delay valid.grows valid.ceiling_pos n,
    finite_power_large (power s.factor n) h,
  )

  -- The waits before `left` attempts from attempt `n + 1` on.
  abbrev waits_from : (left n : ℕ) → List Amount
  waits_from zero n = []
  waits_from (suc left) n = wait s n ∷ waits_from left (suc n)

  abbrev delays : (left n : ℕ) → Result (List Amount)
  delays left n = delays_from (λ k. delay_before (int (pos k)) s) left (suc n)

  delays_small :
      (left n : ℕ)
      → power s.factor (n + left) < overflow_from
      → delays (suc left) n ≡ ok (waits_from (suc left) n)
  delays_small zero n h =
      rw (delay_before-small n (omega (arith, power_le s.factor n zero valid.grows)))
  delays_small (suc left) n h = rw (
    delay_before-small n (omega (arith, power_le s.factor n (suc left) valid.grows)),
    delays_small left (suc n) (next_power h),
  )
    where
      next_power :
          power s.factor (n + suc left) < overflow_from
          → power s.factor (suc n + left) < overflow_from
      next_power h = subst (λ (k : ℕ). power s.factor k < overflow_from) (omega arith) h

  delays_large :
      (left n : ℕ)
      → overflow_from ≤ power s.factor (n + left)
      → delays (suc left) n ≡ raise overflow_error
  delays_large zero n h =
      rw
        (delay_before-large n (subst (λ (k : ℕ). overflow_from ≤ power s.factor k) (omega arith) h))
  delays_large (suc left) n h =
      let later =
        delays_large left (suc n)
          (subst (λ (k : ℕ). overflow_from ≤ power s.factor k) (omega arith) h) in
      elim (le_or_lt overflow_from (power s.factor n)) [
        | inl now ↦ rw (delay_before-large n now)
        | inr not_yet ↦ rw (delay_before-small n not_yet, later)
      ]

  length-waits_from : (left n : ℕ) → length (waits_from left n) ≡ left
  length-waits_from zero n = refl
  length-waits_from (suc left) n = ap suc (length-waits_from left (suc n))

  waits_from-Rising : (left n : ℕ) → Rising (waits_from left n)
  waits_from-Rising zero n = tt
  waits_from-Rising (suc zero) n = tt
  waits_from-Rising (suc (suc left)) n = (wait_mono s valid n, waits_from-Rising (suc left) (suc n))

  waits_from-EachWithin : (left n : ℕ) → EachWithin s.max_delay (waits_from left n)
  waits_from-EachWithin zero n = tt
  waits_from-EachWithin (suc left) n = (
    min_amount-Within (rounded (s.base * power s.factor n)) s.max_delay
        (rounded-AtMost (s.base * power s.factor n)),
    waits_from-EachWithin left (suc n),
  )

-- A valid schedule of n + 1 attempts raises OverflowError exactly if the n-th power of the factor is too
-- large for a float, whatever the ceiling; otherwise it gives n + 1 waits, each at most the next one, and
-- none of them NaN or above the ceiling.
pub schedule_rises :
    (s : BackoffSchedule)
    → IsValid s
    → (n : ℕ)
    → ((overflow_from ≤ power s.factor n) × (schedule (int (pos (suc n))) s ≡ raise overflow_error))
      ⊎ ((power s.factor n < overflow_from)
          × ((l : List Amount) × (schedule (int (pos (suc n))) s ≡ ok l)
              × (length l ≡ suc n)
              × Rising l
              × EachWithin s.max_delay l))
unfolding schedule backoff_schedule delay_before
schedule_rises s valid n = elim (le_or_lt overflow_from (power s.factor n)) [
  | inl h ↦ inl (
    h,
    rw (require_attempts-suc n) (
        delays_large s valid n 0
          (subst (λ (k : ℕ). overflow_from ≤ power s.factor k) {x = n} (omega arith) h)),
  )
  | inr h ↦ inr (
    h,
    (
      waits_from s valid (suc n) 0,
      rw (require_attempts-suc n) (
          delays_small s valid n 0
            (subst (λ (k : ℕ). power s.factor k < overflow_from) {x = n} (omega arith) h)),
      length-waits_from s valid (suc n) 0,
      waits_from-Rising s valid (suc n) 0,
      waits_from-EachWithin s valid (suc n) 0,
    ),
  )
]

at_least-le : (low n : ℕ) (z : ℤ) → at_least low z ≡ ok n → low ≤ n
at_least-le low n (pos z) h = ground (arith, ok_injective z n)
at_least-le low n (negsuc z) h = ground arith

require_real-le : (low n : ℕ) (v : Value) → require_real low v ≡ ok n → low ≤ n
unfolding require_real
require_real-le low n v h =
    let found = and_then_ok (and_then (as_number v) as_finite) (at_least low) n h in
    at_least-le low n found.0 found.2

positive_ceiling-IsCeiling : (n : ℕ) (c : Option ℕ) → positive_ceiling n ≡ ok c → IsCeiling c
positive_ceiling-IsCeiling n none h = tt
positive_ceiling-IsCeiling n (some c) h = ground arith

require_ceiling-IsCeiling : (v : Value) (c : Option ℕ) → require_ceiling v ≡ ok c → IsCeiling c
unfolding require_ceiling
require_ceiling-IsCeiling null c h = subst IsCeiling (ok_injective none c h) tt
require_ceiling-IsCeiling v c h =
    let found = and_then_ok (require_real 0 v) positive_ceiling c h in
    positive_ceiling-IsCeiling found.0 c found.2

-- What `BackoffSchedule` accepts is valid.
pub init-IsValid :
    (base factor max_delay : Value) (s : BackoffSchedule)
    → init base factor max_delay ≡ ok s
    → IsValid s
unfolding init
init-IsValid base factor max_delay s h =
    let b = and_then_ok (require_real 0 base) _ s h in
    let f = and_then_ok (require_real 1 factor) _ s b.2 in
    let c = and_then_ok (require_ceiling max_delay) _ s f.2 in
    subst IsValid (ok_injective _ s c.2) (record {
      grows = require_real-le 1 f.0 factor f.1;
      ceiling_pos = require_ceiling-IsCeiling max_delay c.0 c.1;
    })
