-- ===== src/ConfigValidator/Fits.antt =====
-- digital_fte/config_validator.py: which values fit a field.
use digital_fte_agent.Prelude.{
  String, ◌≡◌, refl, subst, ◌≢◌, ◌↔◌, inl, inr, Bool, true, false, not, ◌&&◌, Option, none, some,
  List, [], ◌∷◌, ◌++◌, arith, Bool-cases, append_eq_nil,
}
use digital_fte_agent.Prelude.Values.{Float, Value}
use digital_fte_agent.ConfigValidator.{
  FieldSpec, Problem, too_small, too_large, not_a_choice, is_bool, is_bool_type, is_instance_of,
  as_amount, problem_if, is_under, is_over, bound_problems, is_chosen, check_field,
}

pub problem_if-nil : (test : Bool) (p : Problem) → problem_if test p ≡ [] → test ≡ false
problem_if-nil true p h = ground arith
problem_if-nil false p h = refl

-- The value has the type of the field, is a bool only if that type is bool, is within the bounds if it
-- is a number, and is one of the choices.
pub record Fits (equal : Value → Value → Bool) (v : Value) (spec : FieldSpec) : Type 0 where
  pub typed : is_instance_of spec.type v ≡ true
  pub no_bool : is_bool v ≡ true → is_bool_type spec.type ≡ true
  pub not_under : (n : Float) → as_amount v ≡ some n → is_under n spec.min ≡ false
  pub not_over : (n : Float) → as_amount v ≡ some n → is_over n spec.max ≡ false
  pub chosen : is_chosen equal v spec.choices ≡ true

module _ (equal : Value → Value → Bool) where
  bounds_of :
      (key : String) (spec : FieldSpec) (o : Option Float)
      → bound_problems key spec o ≡ []
      → (n : Float) → o ≡ some n
      → (is_under n spec.min ≡ false) × (is_over n spec.max ≡ false)
  bounds_of key spec none h n e = ground arith
  bounds_of key spec (some m) h n e =
      let parts = append_eq_nil (problem_if (is_under m spec.min) (too_small key)) _ h in
      subst (λ (x : Float). (is_under x spec.min ≡ false) × (is_over x spec.max ≡ false))
        (ground arith)
        (
          problem_if-nil (is_under m spec.min) (too_small key) parts.0,
          problem_if-nil (is_over m spec.max) (too_large key) parts.1,
        )

  bounds_to :
      (key : String) (spec : FieldSpec) (o : Option Float)
      → ((n : Float) → o ≡ some n → is_under n spec.min ≡ false)
      → ((n : Float) → o ≡ some n → is_over n spec.max ≡ false)
      → bound_problems key spec o ≡ []
  bounds_to key spec none low high = refl
  bounds_to key spec (some m) low high = rw (low m refl, high m refl)

  Fits-of_parts :
      (key : String) (v : Value) (spec : FieldSpec)
      → (is_bool v && not (is_bool_type spec.type)) ≡ false
      → is_instance_of spec.type v ≡ true
      → bound_problems key spec (as_amount v)
          ++ problem_if (not (is_chosen equal v spec.choices)) (not_a_choice key)
        ≡ []
      → Fits equal v spec
  Fits-of_parts key v spec fine typed h =
      let parts = append_eq_nil (bound_problems key spec (as_amount v)) _ h in
      record {
        typed = typed;
        no_bool = λ b. ground arith;
        not_under = λ n e. (bounds_of key spec (as_amount v) parts.0 n e).0;
        not_over = λ n e. (bounds_of key spec (as_amount v) parts.0 n e).1;
        chosen =
            not_false (is_chosen equal v spec.choices)
              (problem_if-nil _ (not_a_choice key) parts.1);
      }
    where
      not_false : (b : Bool) → not b ≡ false → b ≡ true
      not_false true h = refl
      not_false false h = ground arith

  check_field-to_Fits :
      (key : String) (v : Value) (spec : FieldSpec)
      → check_field equal key v spec ≡ []
      → Fits equal v spec
  unfolding check_field
  check_field-to_Fits key v spec h = elim (Bool-cases (is_bool v && not (is_bool_type spec.type))) [
    | inl bad ↦ absurd (cons_ne_nil (rw bad at h))
    | inr fine ↦ elim (Bool-cases (is_instance_of spec.type v)) [
      | inr bad ↦ absurd (cons_ne_nil (rw (fine, bad) at h))
      | inl typed ↦ Fits-of_parts key v spec fine typed (rw (fine, typed) at h)
    ]
  ]
    where
      cons_ne_nil : {p : Problem} {l : List Problem} → p ∷ l ≢ []
      cons_ne_nil h = ground arith

  pub Fits-to_check_field :
      (key : String) (v : Value) (spec : FieldSpec)
      → Fits equal v spec
      → check_field equal key v spec ≡ []
  unfolding check_field
  Fits-to_check_field key v spec h = elim (Bool-cases (is_bool v)) [
    | inl b ↦
        rw (
          b,
          h.no_bool b,
          h.typed,
          bounds_to key spec (as_amount v) h.not_under h.not_over,
          h.chosen,
        )
    | inr b ↦ rw (b, h.typed, bounds_to key spec (as_amount v) h.not_under h.not_over, h.chosen)
  ]

  pub check_field-Fits :
      (key : String) (v : Value) (spec : FieldSpec)
      → (check_field equal key v spec ≡ []) ↔ Fits equal v spec
  check_field-Fits key v spec = (check_field-to_Fits key v spec, Fits-to_check_field key v spec)
