-- ===== src/RetryPolicy.antt =====
-- digital_fte/retry_policy.py: the schedule of waits and the loop of attempts. A delay is a whole number,
-- infinity or NaN, since infinity passes the checks, and a power may overflow. What `func` and `sleep` do goes through a world `W`;
-- the name of an exception's type and its text are parameters, and `sleep` returns.
pub mod Attempts
pub mod Schedule
mod Tests
use digital_fte_agent.Prelude.{
  ℕ, zero, suc, String, Bool, true, false, ◌&&◌, ◌||◌, Option, none, some, List, [], ◌∷◌, ◌++◌, ltb,
  leb, if◌then◌else◌,
}
use digital_fte_agent.Prelude.Int.{ℤ, pos, negsuc}
use digital_fte_agent.Prelude.Values.{
  Float, finite, infinite, Value, null, int, Exception, type_error, value_error, Result, ok, raise,
  and_then, as_int, at_least, as_number,
}
use digital_fte_agent.Prelude.Amounts.{
  Amount, seconds, infinity, below, times, plus, power_amount, min_amount,
}

-- the last check of `_validate_number`
abbrev pub not_below : ℕ → Float → Result Amount
not_below minimum (finite (pos n)) = if ltb n minimum then raise value_error else ok (seconds n)
not_below minimum infinite = ok infinity
not_below minimum _ = raise value_error

unfoldable pub validate_number : ℕ → Value → Result Amount
validate_number minimum v = and_then (as_number v) (not_below minimum)

-- `capped <= 0.0` is refused.
abbrev pub positive_amount : Amount → Result (Option Amount)
positive_amount (seconds zero) = raise value_error
positive_amount a = ok (some a)

unfoldable pub validate_max_delay : Value → Result (Option Amount)
unfolding validate_number
validate_max_delay null = ok none
validate_max_delay v = and_then (validate_number 0 v) positive_amount

pub record RetryPolicy : Type 0 where
  pub max_attempts : ℕ
  pub base_delay : Amount
  pub factor : Amount
  pub max_delay : Option Amount

-- `RetryPolicy.__post_init__`
unfoldable pub init : (max_attempts base_delay factor max_delay : Value) → Result RetryPolicy
unfolding validate_number validate_max_delay
init max_attempts base_delay factor max_delay =
    and_then (and_then (as_int max_attempts) (at_least 1)) λ n.
      and_then (validate_number 0 base_delay) λ b. and_then (validate_number 1 factor) λ f.
        and_then (validate_max_delay max_delay) λ ceiling.
          ok (record { max_attempts = n; base_delay = b; factor = f; max_delay = ceiling })

-- The delay before an attempt that is in range: the power is taken before `min`, and may overflow.
abbrev pub delay_at : RetryPolicy → ℕ → Result Amount
delay_at p zero = ok (seconds 0)
delay_at p (suc zero) = ok (seconds 0)
delay_at p (suc (suc n)) =
    and_then (power_amount p.factor n)
      λ grown. ok (min_amount (times p.base_delay grown) p.max_delay)

abbrev pub in_range : ℕ → ℕ → Result ℕ
in_range high n = if leb 1 n && leb n high then ok n else raise value_error

abbrev pub natural_in_range : ℕ → ℤ → Result ℕ
natural_in_range high (pos n) = in_range high n
natural_in_range high (negsuc n) = raise value_error

unfoldable pub delay_before : Value → RetryPolicy → Result Amount
delay_before attempt p =
    and_then (and_then (as_int attempt) (natural_in_range p.max_attempts)) λ n. delay_at p n

abbrev pub delays_from : (ℕ → Result Amount) → (left n : ℕ) → Result (List Amount)
delays_from delay zero n = ok []
delays_from delay (suc left) n =
    and_then (delay n) λ d. and_then (delays_from delay left (suc n)) λ l. ok (d ∷ l)

unfoldable pub schedule : RetryPolicy → Result (List Amount)
unfolding delay_before
schedule p = delays_from (λ n. delay_before (int (pos n)) p) p.max_attempts 1

abbrev pub sum_amounts : List Amount → Amount
sum_amounts [] = seconds 0
sum_amounts (d ∷ l) = plus d (sum_amounts l)

unfoldable pub total_delay : RetryPolicy → Result Amount
unfolding schedule
total_delay p = and_then (schedule p) λ l. ok (sum_amounts l)

pub record AttemptRecord : Type 0 where
  pub attempt : ℕ
  pub delay : Amount
  pub error_type : String
  pub error : String

pub record RetryOutcome (T : Type 0) : Type 0 where
  pub value : T
  pub attempts : ℕ
  pub failures : List AttemptRecord

unfoldable pub retried : {T : Type 0} → RetryOutcome T → Bool
retried o = elim o.failures [ [] ↦ false | _ ∷ _ ↦ true ]

-- How a call of `func` ends.
pub data Call (T E : Type 0) : Type 0 where
  returned : T → Call T E
  threw : E → Call T E

-- How `execute` ends: an exception that is not retried passes through as it is.
pub data Executed (T E : Type 0) : Type 0 where
  succeeded : RetryOutcome T → Executed T E
  retry_exhausted : (attempts : ℕ) (last_exception : E) → Executed T E
  passed_on : E → Executed T E
  refused : Exception → Executed T E
  -- the `assert` before the last raise fails
  assertion_failed : Executed T E

-- The entries of `retry_on` that are exception types, as tests on an exception.
abbrev pub exception_types : {E : Type 0} → List (Option (E → Bool)) → Result (List (E → Bool))
exception_types [] = ok []
exception_types (none ∷ l) = raise type_error
exception_types (some is_instance ∷ l) =
    and_then (exception_types l) λ types. ok (is_instance ∷ types)

-- A tuple that is not empty; `none` is an argument that is no tuple.
abbrev pub validate_retry_on :
    {E : Type 0} → Option (List (Option (E → Bool))) → Result (List (E → Bool))
validate_retry_on none = raise type_error
validate_retry_on (some []) = raise type_error
validate_retry_on (some (x ∷ l)) = exception_types (x ∷ l)

-- `isinstance(exc, retry_on)`
abbrev pub is_retried : {E : Type 0} → List (E → Bool) → E → Bool
is_retried [] e = false
is_retried (is_instance ∷ types) e = is_instance e || is_retried types e

abbrev pub exhausted : {T E : Type 0} → RetryPolicy → Option E → Executed T E
exhausted p none = assertion_failed
exhausted p (some e) = retry_exhausted p.max_attempts e

abbrev pub record_of : {E : Type 0} (type_name text : E → String) → ℕ → Amount → E → AttemptRecord
record_of type_name text attempt delay e = record {
  attempt = attempt;
  delay = delay;
  error_type = type_name e;
  error = text e;
}

-- `if delay > 0.0: sleep(delay)`
abbrev pub sleep_for : {W : Type 0} → (Amount → W → W) → Amount → W → W
sleep_for sleep delay w = if below (seconds 0) delay then sleep delay w else w

module _ {W T E : Type 0} (type_name text : E → String) where
  module _ (p : RetryPolicy) (func : W → Call T E × W) (types : List (E → Bool))
      (sleep : Amount → W → W) where
    -- The loop, with `left` attempts to come, the next of them number `attempt`.
    unfoldable pub attempts_from :
        (left attempt : ℕ) → List AttemptRecord → Option E → W → Executed T E × W
    unfolding delay_before
    attempts_from zero attempt failures last w = (exhausted p last, w)
    attempts_from (suc left) attempt failures last w = elim (delay_before (int (pos attempt)) p) [
      | raise e ↦ (refused e, w)
      | ok delay ↦
          let (call, w') = func (sleep_for sleep delay w) in
          elim call [
            | returned v ↦
                (succeeded (record { value = v; attempts = attempt; failures = failures }), w')
            | threw e ↦ elim (is_retried types e) [
              | true ↦
                  attempts_from left (suc attempt)
                    (failures ++ record_of type_name text attempt delay e ∷ []) (some e) w'
              | false ↦ (passed_on e, w')
            ]
          ]
    ]

  -- `none` is an argument that is not callable.
  unfoldable pub execute :
      RetryPolicy
      → (func : Option (W → Call T E × W)) (retry_on : Option (List (Option (E → Bool))))
        (sleep : Option (Amount → W → W))
      → W
      → Executed T E × W
  unfolding attempts_from
  execute p none retry_on sleep w = (refused type_error, w)
  execute p (some func) retry_on sleep w = elim (validate_retry_on retry_on) [
    | raise e ↦ (refused e, w)
    | ok types ↦ elim sleep [
      | none ↦ (refused type_error, w)
      | some sleep ↦ attempts_from p func types sleep p.max_attempts 1 [] none w
    ]
  ]
