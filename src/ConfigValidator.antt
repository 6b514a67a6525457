-- ===== src/ConfigValidator.antt =====
-- digital_fte/config_validator.py: a configuration is checked against a schema, and all problems are
-- collected. The type of a field is `bool`, or another type as its `isinstance`; what `==` says of two
-- values is a parameter. An error is kept as the key and the rule that it breaks.
pub mod Fits
pub mod Accepts
mod Tests
use digital_fte_agent.Prelude.{
  String, Bool, true, false, not, ◌&&◌, ◌||◌, Option, none, some, List, [], ◌∷◌, ◌++◌,
  if◌then◌else◌,
}
use digital_fte_agent.Prelude.Dict.{Dict, lookup, insert}
use digital_fte_agent.Prelude.Values.{
  Float, finite, float_lt, Value, bool, int, float, type_error, Result, ok, raise, and_then,
  String-discrete,
}

pub data FieldType : Type 0 where
  bool_type : FieldType
  type_with : (is_instance : Value → Bool) → FieldType

pub record FieldSpec : Type 0 where
  pub type : FieldType
  pub required : Bool
  pub min : Option Float
  pub max : Option Float
  pub choices : Option (List Value)
  pub default : Value

pub data Problem : Type 0 where
  missing_key wrong_type too_small too_large not_a_choice : (key : String) → Problem

pub record ValidationResult : Type 0 where
  pub is_ok : Bool
  pub values : Dict String Value
  pub errors : List Problem

-- `FieldSpec.__post_init__`; `none` is a `type` that is no type.
unfoldable pub field_spec :
    Option FieldType
    → Bool
    → (min max : Option Float) → Option (List Value)
    → Value
    → Result FieldSpec
field_spec none required min max choices default = raise type_error
field_spec (some type) required min max choices default = ok (record {
  type = type;
  required = required;
  min = min;
  max = max;
  choices = choices;
  default = default;
})

abbrev pub is_bool : Value → Bool
is_bool (bool b) = true
is_bool _ = false

abbrev pub is_bool_type : FieldType → Bool
is_bool_type bool_type = true
is_bool_type (type_with is_instance) = false

abbrev pub is_instance_of : FieldType → Value → Bool
is_instance_of bool_type v = is_bool v
is_instance_of (type_with is_instance) v = is_instance v

-- An int or a float that is no bool.
abbrev pub as_amount : Value → Option Float
as_amount (int z) = some (finite z)
as_amount (float f) = some f
as_amount _ = none

abbrev pub problem_if : Bool → Problem → List Problem
problem_if test problem = if test then problem ∷ [] else []

abbrev pub is_under : Float → Option Float → Bool
is_under n none = false
is_under n (some low) = float_lt n low

abbrev pub is_over : Float → Option Float → Bool
is_over n none = false
is_over n (some high) = float_lt high n

abbrev pub bound_problems : String → FieldSpec → Option Float → List Problem
bound_problems key spec none = []
bound_problems key spec (some n) =
    problem_if (is_under n spec.min) (too_small key)
    ++ problem_if (is_over n spec.max) (too_large key)

-- `errors` and `values` of the loop
abbrev pub Found : Type 0
Found = List Problem × Dict String Value

abbrev pub add_field : String → Value → List Problem → Found → Found
add_field key v [] (errors, values) = (errors, insert String-discrete key v values)
add_field key v (p ∷ problems) (errors, values) = (errors ++ p ∷ problems, values)

abbrev pub conclude : Found → ValidationResult
conclude ([], values) = record { is_ok = true; values = values; errors = [] }
conclude (p ∷ errors, values) = record { is_ok = false; values = []; errors = p ∷ errors }

-- A value, or the errors of a ConfigValidationError.
pub data Validated : Type 0 where
  valid : Dict String Value → Validated
  config_invalid : List Problem → Validated

module _ (equal : Value → Value → Bool) where
  -- `value in choices`
  abbrev pub is_among : Value → List Value → Bool
  is_among v [] = false
  is_among v (c ∷ l) = equal v c || is_among v l

  abbrev pub is_chosen : Value → Option (List Value) → Bool
  is_chosen v none = true
  is_chosen v (some choices) = is_among v choices

  -- `_check_field`
  unfoldable pub check_field : String → Value → FieldSpec → List Problem
  check_field key v spec =
      if is_bool v && not (is_bool_type spec.type)
      then wrong_type key ∷ []
      else if not (is_instance_of spec.type v)
      then wrong_type key ∷ []
      else bound_problems key spec (as_amount v)
        ++ problem_if (not (is_chosen v spec.choices)) (not_a_choice key)

  abbrev pub check_key : String → FieldSpec → Option Value → Found → Found
  check_key key spec none (errors, values) =
      if spec.required
      then (errors ++ missing_key key ∷ [], values)
      else (errors, insert String-discrete key spec.default values)
  check_key key spec (some v) found = add_field key v (check_field key v spec) found

  -- The loop over the schema; `none` is no FieldSpec.
  abbrev pub check_keys : Dict String Value → Dict String (Option FieldSpec) → Found → Result Found
  check_keys config [] found = ok found
  check_keys config ((key, none) ∷ schema) found = raise type_error
  check_keys config ((key, some spec) ∷ schema) found =
      check_keys config schema (check_key key spec (lookup String-discrete key config) found)

  -- `none` is an argument that is no mapping.
  unfoldable pub check_config :
      Option (Dict String Value) → Option (Dict String (Option FieldSpec)) → Result ValidationResult
  unfolding check_field
  check_config none schema = raise type_error
  check_config (some config) none = raise type_error
  check_config (some config) (some schema) =
      and_then (check_keys config schema ([], [])) λ found. ok (conclude found)

  unfoldable pub validate_config :
      Option (Dict String Value) → Option (Dict String (Option FieldSpec)) → Result Validated
  unfolding check_config
  validate_config config schema =
      and_then (check_config config schema)
        λ r. ok (if not r.is_ok then config_invalid r.errors else valid r.values)
