-- ===== src/CircuitBreaker/Fields.antt =====
-- The fields of the breaker (digital_fte/circuit_breaker.py), and its constructor.
use digital_fte_agent.Prelude.{
  ℕ, Bool, false, ◌||◌, Option, none, some, List, [], ◌∷◌, if◌then◌else◌,
}
use digital_fte_agent.Prelude.Int.{ℤ, pos, leb_ℤ}
use digital_fte_agent.Prelude.Values.{
  Float, finite, infinite, Value, Exception, type_error, value_error, Result, ok, raise, and_then,
  as_int, at_least, as_number,
}

pub data CircuitState : Type 0 where
  closed open_circuit half_open : CircuitState

pub record Breaker : Type 0 where
  pub failure_threshold : ℕ
  pub recovery_timeout : Float
  pub success_threshold : ℕ
  pub record_on : List (Exception → Bool)
  pub state : CircuitState
  pub consecutive_failures : ℕ
  pub half_open_successes : ℕ
  pub probes_in_flight : ℤ
  pub opened_at : Option ℤ
  pub total_calls : ℤ
  pub total_failures : ℕ
  pub total_rejections : ℕ
  pub opened_count : ℕ
  -- how often the clock has been read
  pub readings : ℕ

pub record BreakerSnapshot : Type 0 where
  pub state : CircuitState
  pub consecutive_failures : ℕ
  pub half_open_successes : ℕ
  pub total_calls : ℤ
  pub total_failures : ℕ
  pub total_rejections : ℕ
  pub opened_count : ℕ
  pub time_until_retry : Option Float

-- NaN is refused, and infinity is not.
abbrev pub positive_float : Float → Result Float
positive_float (finite z) = if leb_ℤ z (pos 0) then raise value_error else ok (finite z)
positive_float infinite = ok infinite
positive_float _ = raise value_error

unfoldable pub validate_positive_number : Value → Result Float
validate_positive_number v = and_then (as_number v) positive_float

unfoldable pub validate_positive_int : Value → Result ℕ
validate_positive_int v = and_then (as_int v) (at_least 1)

-- The argument `record_on`: an entry is `none` if it is no exception type.
pub data RecordOn : Type 0 where
  tuple : List (Option (Exception → Bool)) → RecordOn
  no_tuple : RecordOn

unfoldable pub all_exception_types :
    List (Option (Exception → Bool)) → Result (List (Exception → Bool))
all_exception_types [] = ok []
all_exception_types (none ∷ l) = raise type_error
all_exception_types (some p ∷ l) = and_then (all_exception_types l) (λ ps. ok (p ∷ ps))

unfoldable pub validate_record_on : RecordOn → Result (List (Exception → Bool))
unfolding all_exception_types
validate_record_on (tuple (e ∷ l)) = all_exception_types (e ∷ l)
validate_record_on _ = raise type_error

-- `except self.record_on`
abbrev pub is_recorded : List (Exception → Bool) → Exception → Bool
is_recorded [] e = false
is_recorded (p ∷ l) e = p e || is_recorded l e

-- `CircuitBreaker.__init__`
unfoldable pub init : Value → Value → Value → RecordOn → (callable_clock : Bool) → Result Breaker
unfolding validate_positive_int validate_positive_number validate_record_on
init failure_threshold recovery_timeout success_threshold record_on callable_clock =
    and_then (validate_positive_int failure_threshold) λ failures.
      and_then (validate_positive_number recovery_timeout) λ timeout.
        and_then (validate_positive_int success_threshold) λ successes.
          and_then (validate_record_on record_on) λ recorded.
            if callable_clock
            then ok (record {
              failure_threshold = failures;
              recovery_timeout = timeout;
              success_threshold = successes;
              record_on = recorded;
              state = closed;
              consecutive_failures = 0;
              half_open_successes = 0;
              probes_in_flight = pos 0;
              opened_at = none;
              total_calls = pos 0;
              total_failures = 0;
              total_rejections = 0;
              opened_count = 0;
              readings = 0;
            })
            else raise type_error
