-- ===== src/PayloadSchema/Tests.antt =====
-- Runs of digital_fte/payload_schema.py, with patterns that are the texts that they match.
use digital_fte_agent.Prelude.{◌≡◌, refl, ◌↔◌, true, false, none, some, [], ◌∷◌}
use digital_fte_agent.Prelude.Int.{pos}
use digital_fte_agent.Prelude.Values.{
  finite, bool, int, str, value_error, ok, raise, String-discrete, text_equal,
}
use digital_fte_agent.Prelude.TextOrder.{text_before}
use digital_fte_agent.PayloadSchema.{
  string, integer, plain, mapping, FieldSpec, field_spec, missing, wrong_type, too_small, too_long,
  unknown_field, Schema, schema, check_value, validate_payload, is_valid_payload,
}
use digital_fte_agent.PayloadSchema.Payloads.{EachAccepted, NamesAllowed, validate_payload-accepts}

abbrev title_spec : FieldSpec
title_spec = record {
  type = string;
  required = true;
  minimum = none;
  maximum = none;
  min_length = none;
  max_length = some (pos 3);
  pattern = none;
  choices = none;
}

abbrev count_spec : FieldSpec
count_spec = record {
  type = integer;
  required = false;
  minimum = some (finite (pos 1));
  maximum = none;
  min_length = none;
  max_length = none;
  pattern = none;
  choices = none;
}

abbrev strict_schema : Schema
strict_schema = record {
  fields = ("title", title_spec) ∷ ("count", count_spec) ∷ [];
  allow_unknown = false;
}

schema-strict_schema :
    schema (some (("title", some title_spec) ∷ ("count", some count_spec) ∷ [])) false
    ≡ ok strict_schema
unfolding schema
schema-strict_schema = refl

schema_nothing : schema (some []) true ≡ raise value_error
unfolding schema
schema_nothing = refl

field_spec_unknown_type : field_spec (λ p. ok tt) "date" title_spec ≡ raise value_error
unfolding field_spec String-discrete
field_spec_unknown_type = refl

field_spec-count_spec : field_spec (λ p. ok tt) "integer" count_spec ≡ ok count_spec
unfolding field_spec String-discrete
field_spec-count_spec = refl

validate_good :
    is_valid_payload text_equal (some (("title", plain (str "abc")) ∷ [])) strict_schema ≡ true
unfolding is_valid_payload validate_payload check_value String-discrete text_before
validate_good = refl

validate_all_problems :
    validate_payload text_equal
      (some (
        ("zone", mapping)
        ∷ ("count", plain (int (pos 0)))
        ∷ ("title", plain (str "abcd"))
        ∷ ("area", mapping)
        ∷ []))
      strict_schema
    ≡ too_long "title" ∷ too_small "count" ∷ unknown_field "area" ∷ unknown_field "zone" ∷ []
unfolding validate_payload check_value String-discrete text_before
validate_all_problems = refl

validate_bool_count :
    validate_payload text_equal (some (("count", plain (bool true)) ∷ [])) strict_schema
    ≡ missing "title" ∷ wrong_type "count" ∷ []
unfolding validate_payload check_value String-discrete text_before
validate_bool_count = refl

validate_payload-accepts_example :
    ((validate_payload text_equal (some (("title", plain (str "abc")) ∷ [])) strict_schema ≡ []) ↔ (
      EachAccepted text_equal (("title", plain (str "abc")) ∷ []) strict_schema.fields
      × NamesAllowed text_equal (("title", plain (str "abc")) ∷ []) strict_schema))
    × ((is_valid_payload text_equal (some (("title", plain (str "abc")) ∷ [])) strict_schema ≡ true)
        ↔ (validate_payload text_equal (some (("title", plain (str "abc")) ∷ [])) strict_schema
            ≡ []))
validate_payload-accepts_example =
    validate_payload-accepts text_equal (("title", plain (str "abc")) ∷ []) strict_schema
