-- ===== src/Prelude/Values.antt =====
-- What a caller can pass for an argument, the isinstance checks that the modules share, and the
-- exceptions that they raise. Messages of exceptions are left out.
use Prim.Native.Char.{code}
use text.Mathlib.Text.{◌==◌ as str_eq}
use text.Mathlib.TextEquality.{eq_iff}
use digital_fte_agent.Prelude.{
  ℕ, ◌≡◌, refl, ◌≢◌, ◌⊎◌, inl, inr, Bool, true, false, ◌&&◌, ◌||◌, String, leb, ltb, ◌==◌,
  if◌then◌else◌, Bool-cases, arith, ite, Option,
}
use digital_fte_agent.Prelude.Int.{ℤ, pos, negsuc, ltb_ℤ}

-- A finite float is a whole number: those below 2^53 are exact, and so are their sums.
pub data Float : Type 0 where
  finite : ℤ → Float
  infinite minus_infinite not_a_number : Float

-- `a < b` on floats
abbrev pub float_lt : Float → Float → Bool
float_lt (finite a) (finite b) = ltb_ℤ a b
float_lt minus_infinite (finite b) = true
float_lt minus_infinite infinite = true
float_lt (finite a) infinite = true
float_lt _ _ = false

-- A Python value, as far as the checks of the package tell values apart.
pub data Value : Type 0 where
  null : Value
  bool : Bool → Value
  int : ℤ → Value
  float : Float → Value
  str : String → Value
  object : Value

-- A quotient of whole numbers, in seconds: a whole number, or the float next to a quotient that is none.
pub data Wait : Type 0 where
  whole_seconds : ℕ → Wait
  nearest : (numerator denominator : ℕ) → Wait

-- The exceptions, with the fields that callers read.
pub data Exception : Type 0 where
  type_error value_error overflow_error : Exception
  circuit_open : Float → Exception
  concurrency_limit_exceeded : (requested : ℕ) (available : ℤ) → Exception
  budget_exceeded : (requested : ℕ) (available : ℤ) → Exception
  checkpoint_regression : (position latest : ℕ) → Exception
  queue_full queue_empty : Exception
  rate_limit_exceeded : (tokens : ℕ) (retry_after : Wait) → Exception
  already_dead_lettered task_not_dead_lettered dead_letter_queue_full : Exception
  retry_budget_exceeded : Exception
  audit_log_error : (line_no : Option ℕ) → Exception
  illegal_transition : (current target reason : String) → Exception

pub data Result (A : Type 0) : Type 0 where
  ok : A → Result A
  raise : Exception → Result A

abbrev pub and_then : {A B : Type 0} → Result A → (A → Result B) → Result B
and_then (ok a) f = f a
and_then (raise e) f = raise e

-- `isinstance(value, int)` and not a bool.
abbrev pub as_int : Value → Result ℤ
as_int (int z) = ok z
as_int _ = raise type_error

-- A whole number that is not below `low`.
abbrev pub at_least : ℕ → ℤ → Result ℕ
at_least low (pos n) = if ltb n low then raise value_error else ok n
at_least low (negsuc n) = raise value_error

-- `float(value)` of an int or a float that is no bool.
abbrev pub as_number : Value → Result Float
as_number (int z) = ok (finite z)
as_number (float f) = ok f
as_number _ = raise type_error

-- `math.isnan` and `math.isinf` are refused.
abbrev pub as_finite : Float → Result ℤ
as_finite (finite z) = ok z
as_finite _ = raise value_error

-- `str.isspace` of one code point.
unfoldable pub is_space : ℕ → Bool
is_space c =
    (leb 9 c && leb c 13)
    || (leb 28 c && leb c 32)
    || c == 133
    || c == 160
    || c == 5760
    || (leb 8192 c && leb c 8202)
    || c == 8232
    || c == 8233
    || c == 8239
    || c == 8287
    || c == 12288

-- `not text.strip()`: nothing is left when white space is cut off at both ends.
unfoldable pub is_blank : String → Bool
unfolding is_space
is_blank String.[] = true
is_blank (String.◌∷◌ c s) = is_space (code c) && is_blank s

-- `not text`
abbrev pub is_empty_text : String → Bool
is_empty_text String.[] = true
is_empty_text (String.◌∷◌ c s) = false

pub str_eq_of_ne : (s t : String) → str_eq s t ≡ false → s ≢ t
str_eq_of_ne s t differ e = ground (arith, (eq_iff s t).1 e)

-- `text == other`, as a decision.
unfoldable pub String-discrete : Discrete String
String-discrete s t = elim (Bool-cases (str_eq s t)) [
  | inl same ↦ yes ((eq_iff s t).0 same)
  | inr differ ↦ no (str_eq_of_ne s t differ)
]

-- `text == other`, as a test.
abbrev pub text_equal : String → String → Bool
text_equal s t = ite (String-discrete s t) true false

-- To split on an outcome and keep the equation.
pub Result-cases :
    {A : Type 0} (r : Result A) → ((a : A) × (r ≡ ok a)) ⊎ ((e : Exception) × (r ≡ raise e))
Result-cases (ok a) = inl (a, refl)
Result-cases (raise e) = inr (e, refl)

pub ok_injective : {A : Type 0} (a b : A) → ok a ≡ ok b → a ≡ b
ok_injective a b e = cc

pub and_then_ok :
    {A B : Type 0} (r : Result A) (f : A → Result B) (b : B)
    → and_then r f ≡ ok b
    → (a : A) × (r ≡ ok a) × (f a ≡ ok b)
and_then_ok (ok a) f b h = (a, refl, h)
and_then_ok (raise e) f b h = ground arith
