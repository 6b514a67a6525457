-- ===== src/ConfigValidator/Accepts.antt =====
-- digital_fte/config_validator.py: which configurations pass, and with which values.
use digital_fte_agent.Prelude.{
  String, ◌≡◌, refl, sym, ◌∙◌, ◌≢◌, ◌↔◌, inl, inr, Bool, true, false, not, Option, none, some, List,
  [], ◌∷◌, ◌++◌, append-nil, append_assoc, arith, if◌then◌else◌, Bool-cases, append_eq_nil,
}
use digital_fte_agent.Prelude.Dict.{
  Dict, keys, mem?, IsDistinct, lookup, insert, lookup-insert_ne, insert-append,
}
use digital_fte_agent.Prelude.Values.{Value, ok, String-discrete}
use digital_fte_agent.ConfigValidator.{
  FieldSpec, Problem, missing_key, ValidationResult, problem_if, add_field, conclude, valid,
  config_invalid, check_field, check_key, check_keys, check_config, validate_config,
}
use digital_fte_agent.ConfigValidator.Fits.{
  problem_if-nil, Fits, Fits-to_check_field, check_field-Fits,
}

-- Every entry of the schema is a FieldSpec.
abbrev pub all_specs : Dict String FieldSpec → Dict String (Option FieldSpec)
all_specs [] = []
all_specs ((key, spec) ∷ schema) = (key, some spec) ∷ all_specs schema

abbrev pub value_or : Value → Option Value → Value
value_or default none = default
value_or default (some v) = v

-- Each field of the schema with its value, or the default.
abbrev pub normal_values : Dict String Value → Dict String FieldSpec → Dict String Value
normal_values config [] = []
normal_values config ((key, spec) ∷ schema) =
    (key, value_or spec.default (lookup String-discrete key config)) ∷ normal_values config schema

module _ (equal : Value → Value → Bool) where
  -- A field that is there fits, and one that is not is not required.
  abbrev pub Accepted : FieldSpec → Option Value → Type 0
  Accepted spec none = spec.required ≡ false
  Accepted spec (some v) = Fits equal v spec

  abbrev pub EachAccepted : Dict String Value → Dict String FieldSpec → Type 0
  EachAccepted config [] = Unit
  EachAccepted config ((key, spec) ∷ schema) =
      Accepted spec (lookup String-discrete key config) × EachAccepted config schema

  abbrev key_problems : String → FieldSpec → Option Value → List Problem
  key_problems key spec none = problem_if spec.required (missing_key key)
  key_problems key spec (some v) = check_field equal key v spec

  abbrev problems : Dict String Value → Dict String FieldSpec → List Problem
  problems config [] = []
  problems config ((key, spec) ∷ schema) =
      key_problems key spec (lookup String-discrete key config) ++ problems config schema

  abbrev fill_checked : String → Value → List Problem → Dict String Value → Dict String Value
  fill_checked key v [] values = insert String-discrete key v values
  fill_checked key v (p ∷ l) values = values

  abbrev fill_key : String → FieldSpec → Option Value → Dict String Value → Dict String Value
  fill_key key spec none values =
      if spec.required then values else insert String-discrete key spec.default values
  fill_key key spec (some v) values = fill_checked key v (check_field equal key v spec) values

  abbrev fill : Dict String Value → Dict String FieldSpec → Dict String Value → Dict String Value
  fill config [] values = values
  fill config ((key, spec) ∷ schema) values =
      fill config schema (fill_key key spec (lookup String-discrete key config) values)

  add_field_lem :
      (key : String) (v : Value) (l errors : List Problem) (values : Dict String Value)
      → add_field key v l (errors, values) ≡ (errors ++ l, fill_checked key v l values)
  add_field_lem key v [] errors values = rw (append-nil errors)
  add_field_lem key v (p ∷ l) errors values = refl

  check_key_lem :
      (key : String) (spec : FieldSpec) (o : Option Value) (errors : List Problem)
      (values : Dict String Value)
      → check_key equal key spec o (errors, values)
        ≡ (errors ++ key_problems key spec o, fill_key key spec o values)
  check_key_lem key spec none errors values = elim (Bool-cases spec.required) [
    | inl r ↦ rw r
    | inr r ↦ rw (r, append-nil errors)
  ]
  check_key_lem key spec (some v) errors values =
      add_field_lem key v (check_field equal key v spec) errors values

  check_keys_lem :
      (config : Dict String Value) (schema : Dict String FieldSpec) (errors : List Problem)
      (values : Dict String Value)
      → check_keys equal config (all_specs schema) (errors, values)
        ≡ ok (errors ++ problems config schema, fill config schema values)
  check_keys_lem config [] errors values = rw (append-nil errors)
  check_keys_lem config ((key, spec) ∷ schema) errors values = rw (
    check_keys,
    check_key_lem key spec (lookup String-discrete key config) errors values,
    check_keys_lem config schema
        (errors ++ key_problems key spec (lookup String-discrete key config))
        (fill_key key spec (lookup String-discrete key config) values),
    append_assoc errors (key_problems key spec (lookup String-discrete key config))
        (problems config schema),
  )

  key_problems-Accepted :
      (key : String) (spec : FieldSpec) (o : Option Value)
      → (key_problems key spec o ≡ []) ↔ Accepted spec o
  key_problems-Accepted key spec none = (problem_if-nil spec.required (missing_key key), λ h. rw h)
  key_problems-Accepted key spec (some v) = check_field-Fits equal key v spec

  problems-EachAccepted :
      (config : Dict String Value) (schema : Dict String FieldSpec)
      → (problems config schema ≡ []) ↔ EachAccepted config schema
  problems-EachAccepted config [] = (λ h. tt, λ h. refl)
  problems-EachAccepted config ((key, spec) ∷ schema) =
      let first = key_problems-Accepted key spec (lookup String-discrete key config) in
      let rest = problems-EachAccepted config schema in
      (
        λ h.
            let parts =
              append_eq_nil (key_problems key spec (lookup String-discrete key config)) _ h in
            (first.0 parts.0, rest.0 parts.1),
        λ (h, k). rw (first.1 h, rest.1 k),
      )

  fill_key_lem :
      (key : String) (spec : FieldSpec) (o : Option Value) (values : Dict String Value)
      → Accepted spec o
      → fill_key key spec o values ≡ insert String-discrete key (value_or spec.default o) values
  fill_key_lem key spec none values h = rw h
  fill_key_lem key spec (some v) values h = rw (Fits-to_check_field equal key v spec h)

  -- No key of the schema has a value yet.
  abbrev AllNew : Dict String Value → Dict String FieldSpec → Type 0
  AllNew values [] = Unit
  AllNew values ((key, spec) ∷ schema) =
      (lookup String-discrete key values ≡ none) × AllNew values schema

  AllNew-nil : (schema : Dict String FieldSpec) → AllNew [] schema
  AllNew-nil [] = tt
  AllNew-nil ((key, spec) ∷ schema) = (refl, AllNew-nil schema)

  not_mem-cons :
      (k key : String) (l : List String)
      → mem? String-discrete k (key ∷ l) ≡ false
      → (key ≢ k) × (mem? String-discrete k l ≡ false)
  not_mem-cons k key l h = elim (String-discrete k key) [
    | yes same ↦ ground arith
    | no differ ↦ ((λ e. differ (sym e)), ground arith)
  ]

  AllNew-insert :
      (k : String) (v : Value) (values : Dict String Value) (schema : Dict String FieldSpec)
      → mem? String-discrete k (keys schema) ≡ false
      → AllNew values schema
      → AllNew (insert String-discrete k v values) schema
  AllNew-insert k v values [] h new = tt
  AllNew-insert k v values ((key, spec) ∷ schema) h new =
      let parts = not_mem-cons k key (keys schema) h in
      (
        lookup-insert_ne String-discrete key k v values parts.0 ∙ new.0,
        AllNew-insert k v values schema parts.1 new.1,
      )

  fill-normal_values :
      (config : Dict String Value) (schema : Dict String FieldSpec) (values : Dict String Value)
      → IsDistinct String-discrete (keys schema)
      → AllNew values schema
      → EachAccepted config schema
      → fill config schema values ≡ values ++ normal_values config schema
  fill-normal_values config [] values distinct new h = sym (append-nil values)
  fill-normal_values config ((key, spec) ∷ schema) values distinct new h =
      let found = lookup String-discrete key config in
      rw (
        fill_key_lem key spec found values h.0,
        fill-normal_values config schema
            (insert String-discrete key (value_or spec.default found) values) distinct.1
            (AllNew-insert key (value_or spec.default found) values schema distinct.0 new.1) h.1,
        insert-append String-discrete key (value_or spec.default found) values new.0,
        append_assoc values ((key, value_or spec.default found) ∷ []) (normal_values config schema),
      )

  conclude_lem :
      (config : Dict String Value) (schema : Dict String FieldSpec) (l : List Problem)
      (values : Dict String Value)
      → l ≡ problems config schema
      → IsDistinct String-discrete (keys schema)
      → values ≡ fill config schema []
      → (((conclude (l, values)).is_ok ≡ true) ↔ EachAccepted config schema)
        × ((conclude (l, values)).is_ok ≡ true
            → (conclude (l, values)).values ≡ normal_values config schema)
  conclude_lem config schema [] values e distinct filled =
      let all = (problems-EachAccepted config schema).0 (sym e) in
      (
        (λ h. all, λ h. refl),
        λ h. filled ∙ fill-normal_values config schema [] distinct (AllNew-nil schema) all,
      )
  conclude_lem config schema (p ∷ l) values e distinct filled = (
    (λ h. ground arith, λ all. ground (arith, (problems-EachAccepted config schema).1 all)),
    λ h. ground arith,
  )

  -- Against a schema of FieldSpecs whose keys differ, every mapping gets a result. It is ok exactly if each
  -- field of the schema that is there fits its rules and each one that is missing is not required; it then
  -- has the values of the fields in the order of the schema, the default for those that are missing.
  -- validate_config returns these values where the result is ok, and raises its errors otherwise.
  pub check_config-accepts :
      (config : Dict String Value) (schema : Dict String FieldSpec)
      → IsDistinct String-discrete (keys schema)
      → (r : ValidationResult) × (check_config equal (some config) (some (all_specs schema)) ≡ ok r)
        × ((r.is_ok ≡ true) ↔ EachAccepted config schema)
        × (r.is_ok ≡ true → r.values ≡ normal_values config schema)
        × (validate_config equal (some config) (some (all_specs schema))
            ≡ ok (if r.is_ok then valid r.values else config_invalid r.errors))
  unfolding check_config validate_config
  check_config-accepts config schema distinct =
      let r = conclude (problems config schema, fill config schema []) in
      let told =
        conclude_lem config schema (problems config schema) (fill config schema []) refl distinct
          refl in
      (
        r,
        rw (check_keys_lem config schema [] []),
        told.0,
        told.1,
        rw (check_keys_lem config schema [] []) (either r),
      )
    where
      either :
          (r : ValidationResult)
          → ok (if not r.is_ok then config_invalid r.errors else valid r.values)
            ≡ ok (if r.is_ok then valid r.values else config_invalid r.errors)
      either r = ground arith
