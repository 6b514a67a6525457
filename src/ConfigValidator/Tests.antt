-- ===== src/ConfigValidator/Tests.antt =====
-- Runs of digital_fte/config_validator.py, with an `==` that knows texts and ints.
use digital_fte_agent.Prelude.{
  String, ◌≡◌, refl, ◌↔◌, Bool, true, false, ◌&&◌, none, some, [], ◌∷◌, if◌then◌else◌,
}
use digital_fte_agent.Prelude.Int.{pos, leb_ℤ}
use digital_fte_agent.Prelude.Dict.{Dict, keys, IsDistinct}
use digital_fte_agent.Prelude.Values.{
  finite, Value, null, bool, int, str, type_error, ok, raise, String-discrete, text_equal,
}
use digital_fte_agent.ConfigValidator.{
  type_with, FieldSpec, wrong_type, too_large, not_a_choice, ValidationResult, field_spec, valid,
  config_invalid, check_field, check_config, validate_config,
}
use digital_fte_agent.ConfigValidator.Accepts.{
  all_specs, normal_values, EachAccepted, check_config-accepts,
}

abbrev same : Value → Value → Bool
same (str s) (str t) = text_equal s t
same (int a) (int b) = leb_ℤ a b && leb_ℤ b a
same _ _ = false

abbrev is_int : Value → Bool
is_int (int z) = true
is_int (bool b) = true
is_int _ = false

abbrev is_str : Value → Bool
is_str (str s) = true
is_str _ = false

abbrev two_fields : Dict String FieldSpec
two_fields =
    (
      "limit",
      record {
        type = type_with is_int;
        required = true;
        min = some (finite (pos 1));
        max = some (finite (pos 9));
        choices = none;
        default = null;
      },
    )
    ∷ (
      "mode",
      record {
        type = type_with is_str;
        required = false;
        min = none;
        max = none;
        choices = some (str "fast" ∷ str "slow" ∷ []);
        default = str "slow";
      },
    )
    ∷ []

check_default :
    check_config same
      (some (("limit", int (pos 5)) ∷ ("extra", null) ∷ []))
      (some (all_specs two_fields))
    ≡ ok (record {
      is_ok = true;
      values = ("limit", int (pos 5)) ∷ ("mode", str "slow") ∷ [];
      errors = [];
    })
unfolding check_config check_field String-discrete
check_default = refl

check_all_problems :
    check_config same
      (some (("mode", str "quick") ∷ ("limit", int (pos 12)) ∷ []))
      (some (all_specs two_fields))
    ≡ ok (record {
      is_ok = false;
      values = [];
      errors = too_large "limit" ∷ not_a_choice "mode" ∷ [];
    })
unfolding check_config check_field String-discrete
check_all_problems = refl

validate_bool :
    validate_config same (some (("limit", bool true) ∷ [])) (some (all_specs two_fields))
    ≡ ok (config_invalid (wrong_type "limit" ∷ []))
unfolding validate_config check_config check_field String-discrete
validate_bool = refl

check_no_rules : check_config same (some []) (some (("limit", none) ∷ [])) ≡ raise type_error
unfolding check_config
check_no_rules = refl

field_spec_no_type : field_spec none true none none none null ≡ raise type_error
unfolding field_spec
field_spec_no_type = refl

two_fields-IsDistinct : IsDistinct String-discrete (keys two_fields)
unfolding String-discrete
two_fields-IsDistinct = (refl, (refl, tt))

check_config-accepts_example :
    (r : ValidationResult) × (check_config same
        (some (("limit", int (pos 5)) ∷ []))
        (some (all_specs two_fields))
      ≡ ok r)
    × ((r.is_ok ≡ true) ↔ EachAccepted same (("limit", int (pos 5)) ∷ []) two_fields)
    × (r.is_ok ≡ true → r.values ≡ normal_values (("limit", int (pos 5)) ∷ []) two_fields)
    × (validate_config same (some (("limit", int (pos 5)) ∷ [])) (some (all_specs two_fields))
        ≡ ok (if r.is_ok then valid r.values else config_invalid r.errors))
check_config-accepts_example =
    check_config-accepts same (("limit", int (pos 5)) ∷ []) two_fields two_fields-IsDistinct
