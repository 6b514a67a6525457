-- ===== src/PayloadSchema.antt =====
-- digital_fte/payload_schema.py: a payload is checked against a schema, and all problems are collected.
-- The regular expressions are parameters; `value in choices` is a test. An error is kept as its field and
-- its code. The fields of a schema are not changed after it is made, so their order is that of the dict.
pub mod Problems
pub mod Payloads
mod Tests
use digital_fte_agent.Prelude.{
  ℕ, suc, String, Bool, true, false, not, Option, none, some, List, [], ◌∷◌, ◌++◌, if◌then◌else◌,
  length,
}
use digital_fte_agent.Prelude.Int.{ℤ, pos, negsuc, ltb_ℤ}
use digital_fte_agent.Prelude.Dict.{Dict, lookup, contains}
use digital_fte_agent.Prelude.Values.{
  Float, finite, float_lt, Value, bool, int, float, str, type_error, value_error, Result, ok, raise,
  and_then, is_empty_text, String-discrete, text_equal,
}
use digital_fte_agent.Prelude.Sort.{sort_by}
use digital_fte_agent.Prelude.TextOrder.{text_before}

-- The types of `_TYPE_MAP`.
pub data PayloadType : Type 0 where
  string integer number boolean array object_type : PayloadType

abbrev pub type_named : String → Result PayloadType
type_named s =
    if text_equal s "string"
    then ok string
    else if text_equal s "integer"
    then ok integer
    else if text_equal s "number"
    then ok number
    else if text_equal s "boolean"
    then ok boolean
    else if text_equal s "array"
    then ok array
    else if text_equal s "object"
    then ok object_type
    else raise value_error

-- What a payload holds: a list or a tuple has its length, and `mapping` is a dict.
pub data Item : Type 0 where
  plain : Value → Item
  sequence_of : (length : ℕ) → Item
  mapping : Item

pub record FieldSpec : Type 0 where
  pub type : PayloadType
  pub required : Bool
  pub minimum : Option Float
  pub maximum : Option Float
  pub min_length : Option ℤ
  pub max_length : Option ℤ
  pub pattern : Option String
  pub choices : Option (Item → Bool)

-- A test that passes where one of the two is None.
abbrev pub both : {A B : Type 0} → (A → B → Bool) → Option A → Option B → Bool
both test (some a) (some b) = test a b
both test _ _ = false

abbrev pub is_negative : Option ℤ → Bool
is_negative (some (negsuc n)) = true
is_negative _ = false

abbrev pub refuse : Bool → Result (Unit {0})
refuse test = if test then raise value_error else ok tt

abbrev pub check_pattern : (String → Result (Unit {0})) → Option String → Result (Unit {0})
check_pattern compile none = ok tt
check_pattern compile (some p) = compile p

-- `FieldSpec.__post_init__`, with the name of the type.
unfoldable pub field_spec :
    (compile : String → Result (Unit {0})) → String → FieldSpec → Result FieldSpec
field_spec compile type_name spec = and_then (type_named type_name) λ t.
    and_then (refuse (both (λ low high. float_lt high low) spec.minimum spec.maximum)) λ _.
      and_then (refuse (is_negative spec.min_length)) λ _.
        and_then (refuse (is_negative spec.max_length)) λ _.
          and_then (refuse (both (λ low high. ltb_ℤ high low) spec.min_length spec.max_length))
            λ _. and_then (check_pattern compile spec.pattern) λ _. ok (record spec { type = t })

pub data FieldError : Type 0 where
  not_an_object : FieldError
  missing wrong_type too_small too_large : (name : String) → FieldError
  too_short too_long no_match not_a_choice unknown_field : (name : String) → FieldError

pub record Schema : Type 0 where
  pub fields : Dict String FieldSpec
  pub allow_unknown : Bool

-- The entries of `fields`: a name is a text that is not empty; `none` is no FieldSpec.
abbrev pub schema_fields : Dict String (Option FieldSpec) → Result (Dict String FieldSpec)
schema_fields [] = ok []
schema_fields ((name, spec) ∷ l) = if is_empty_text name then raise value_error else elim spec [
  | none ↦ raise type_error
  | some s ↦ and_then (schema_fields l) λ rest. ok ((name, s) ∷ rest)
]

-- `Schema.__post_init__`; `none` is no mapping.
unfoldable pub schema : Option (Dict String (Option FieldSpec)) → Bool → Result Schema
schema none allow_unknown = raise value_error
schema (some []) allow_unknown = raise value_error
schema (some (f ∷ l)) allow_unknown =
    and_then (schema_fields (f ∷ l))
      λ fields. ok (record { fields = fields; allow_unknown = allow_unknown })

-- `isinstance(value, accepted)`, where a bool is no number
abbrev pub has_type : PayloadType → Item → Bool
has_type string (plain (str s)) = true
has_type integer (plain (int z)) = true
has_type number (plain (int z)) = true
has_type number (plain (float f)) = true
has_type boolean (plain (bool b)) = true
has_type array (sequence_of n) = true
has_type object_type mapping = true
has_type _ _ = false

-- The number of a field of a numeric type.
abbrev pub amount_of : Item → Option Float
amount_of (plain (int z)) = some (finite z)
amount_of (plain (float f)) = some f
amount_of _ = none

-- `len(value)` of a text or an array
abbrev pub text_length : String → ℕ
text_length String.[] = 0
text_length (String.◌∷◌ c s) = suc (text_length s)

abbrev pub length_of : Item → Option ℤ
length_of (plain (str s)) = some (pos (text_length s))
length_of (sequence_of n) = some (pos n)
length_of _ = none

abbrev pub text_of : Item → Option String
text_of (plain (str s)) = some s
text_of _ = none

abbrev pub not_among : Option (Item → Bool) → Item → Bool
not_among none v = false
not_among (some is_choice) v = not (is_choice v)

abbrev pub error_if : Bool → FieldError → List FieldError
error_if test error = if test then error ∷ [] else []

-- `set(payload) - set(schema.fields)`
abbrev pub unknown_names : Dict String Item → Dict String FieldSpec → List String
unknown_names [] fields = []
unknown_names ((name, v) ∷ payload) fields =
    if contains String-discrete name fields
    then unknown_names payload fields
    else name ∷ unknown_names payload fields

abbrev pub unknown_errors : List String → List FieldError
unknown_errors [] = []
unknown_errors (name ∷ l) = unknown_field name ∷ unknown_errors l

module _ (fullmatch : String → String → Bool) where
  -- `_check_value`
  unfoldable pub check_value : String → FieldSpec → Item → List FieldError
  check_value name spec v =
      if not (has_type spec.type v)
      then wrong_type name ∷ []
      else error_if (both float_lt (amount_of v) spec.minimum) (too_small name)
        ++ error_if (both float_lt spec.maximum (amount_of v)) (too_large name)
        ++ error_if (both ltb_ℤ (length_of v) spec.min_length) (too_short name)
        ++ error_if (both ltb_ℤ spec.max_length (length_of v)) (too_long name)
        ++ error_if (both (λ p s. not (fullmatch p s)) spec.pattern (text_of v)) (no_match name)
        ++ error_if (not_among spec.choices v) (not_a_choice name)

  abbrev pub check_name : String → FieldSpec → Option Item → List FieldError
  check_name name spec none = error_if spec.required (missing name)
  check_name name spec (some v) = check_value name spec v

  abbrev pub check_fields : Dict String Item → Dict String FieldSpec → List FieldError
  check_fields payload [] = []
  check_fields payload ((name, spec) ∷ fields) =
      check_name name spec (lookup String-discrete name payload) ++ check_fields payload fields

  -- `none` is a payload that is no dict.
  unfoldable pub validate_payload : Option (Dict String Item) → Schema → List FieldError
  unfolding check_value
  validate_payload none s = not_an_object ∷ []
  validate_payload (some payload) s =
      check_fields payload s.fields
      ++ (if not s.allow_unknown
          then unknown_errors (sort_by text_before (unknown_names payload s.fields))
          else [])

  unfoldable pub is_valid_payload : Option (Dict String Item) → Schema → Bool
  unfolding validate_payload
  is_valid_payload payload s = elim (validate_payload payload s) [ [] ↦ true | _ ∷ _ ↦ false ]
