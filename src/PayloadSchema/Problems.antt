-- ===== src/PayloadSchema/Problems.antt =====
-- digital_fte/payload_schema.py: which values a field takes.
use digital_fte_agent.Prelude.{
  String, ◌≡◌, refl, ◌≢◌, ◌↔◌, inl, inr, Bool, true, false, not, Option, none, some, List, [], ◌∷◌,
  ◌++◌, arith, Bool-cases, append_eq_nil,
}
use digital_fte_agent.Prelude.Int.{ℤ, ◌≤ℤ◌, ltb_ℤ}
use digital_fte_agent.Prelude.Values.{Float, float_lt}
use digital_fte_agent.PayloadSchema.{
  Item, FieldSpec, both, FieldError, too_small, too_large, too_short, too_long, no_match,
  not_a_choice, has_type, amount_of, length_of, text_of, not_among, error_if, check_value,
}

pub error_if-nil : (test : Bool) (e : FieldError) → (error_if test e ≡ []) ↔ (test ≡ false)
error_if-nil true e = (λ h. ground arith, λ h. ground arith)
error_if-nil false e = (λ h. refl, λ h. refl)

-- What a value of a field has to be: of its type, within the bounds if it is a number, not too short nor
-- too long if it is a text or an array, matched by the pattern if it is a text, and one of the choices.
pub record Fits (fullmatch : String → String → Bool) (spec : FieldSpec) (v : Item) : Type 0 where
  pub typed : has_type spec.type v ≡ true
  pub not_under :
      (n low : Float) → amount_of v ≡ some n → spec.minimum ≡ some low → float_lt n low ≡ false
  pub not_over :
      (n high : Float) → amount_of v ≡ some n → spec.maximum ≡ some high → float_lt high n ≡ false
  pub not_short : (n low : ℤ) → length_of v ≡ some n → spec.min_length ≡ some low → low ≤ℤ n
  pub not_long : (n high : ℤ) → length_of v ≡ some n → spec.max_length ≡ some high → n ≤ℤ high
  pub matched : (s p : String) → text_of v ≡ some s → spec.pattern ≡ some p → fullmatch p s ≡ true
  pub chosen : not_among spec.choices v ≡ false

-- What such a test that does not hold says of two values that are there.
both_iff :
    {A B : Type 0} (test : A → B → Bool) (o : Option A) (o' : Option B)
    → (both test o o' ≡ false) ↔ ((a : A) (b : B) → o ≡ some a → o' ≡ some b → test a b ≡ false)
both_iff test (some a) (some b) = (λ h a' b' e e'. ground (arith, h), λ h. h a b refl refl)
both_iff test (some a) none = (λ h a' b' e e'. ground arith, λ h. refl)
both_iff test none o' = (λ h a' b' e e'. ground arith, λ h. refl)

ltb_ℤ-false : (a b : ℤ) → (ltb_ℤ a b ≡ false) ↔ (b ≤ℤ a)
ltb_ℤ-false a b = ground arith

true_of_not : (b : Bool) → (not b ≡ false) ↔ (b ≡ true)
true_of_not true = (λ h. refl, λ h. refl)
true_of_not false = (λ h. ground arith, λ h. ground arith)

module _ (fullmatch : String → String → Bool) where
  -- The tests of a value that has the type, none of which holds.
  record Passes (spec : FieldSpec) (v : Item) : Type 0 where
    small : both float_lt (amount_of v) spec.minimum ≡ false
    large : both float_lt spec.maximum (amount_of v) ≡ false
    short : both ltb_ℤ (length_of v) spec.min_length ≡ false
    long : both ltb_ℤ spec.max_length (length_of v) ≡ false
    match : both (λ p s. not (fullmatch p s)) spec.pattern (text_of v) ≡ false
    choice : not_among spec.choices v ≡ false

  Passes-Fits :
      (spec : FieldSpec) (v : Item)
      → has_type spec.type v ≡ true
      → Passes spec v
      → Fits fullmatch spec v
  Passes-Fits spec v typed h = record {
    typed = typed;
    not_under = λ n low e e'. (both_iff float_lt (amount_of v) spec.minimum).0 h.small n low e e';
    not_over = λ n high e e'. (both_iff float_lt spec.maximum (amount_of v)).0 h.large high n e' e;
    not_short = λ n low e e'.
        (ltb_ℤ-false n low).0 ((both_iff ltb_ℤ (length_of v) spec.min_length).0 h.short n low e e');
    not_long = λ n high e e'.
        (ltb_ℤ-false high n).0
          ((both_iff ltb_ℤ spec.max_length (length_of v)).0 h.long high n e' e);
    matched = λ s p e e'.
        (true_of_not (fullmatch p s)).0
          ((both_iff (λ p s. not (fullmatch p s)) spec.pattern (text_of v)).0 h.match p s e' e);
    chosen = h.choice;
  }

  Fits-Passes : (spec : FieldSpec) (v : Item) → Fits fullmatch spec v → Passes spec v
  Fits-Passes spec v h = record {
    small = (both_iff float_lt (amount_of v) spec.minimum).1 h.not_under;
    large = (both_iff float_lt spec.maximum (amount_of v)).1 λ high n e e'. h.not_over n high e' e;
    short =
        (both_iff ltb_ℤ (length_of v) spec.min_length).1
          λ n low e e'. (ltb_ℤ-false n low).1 (h.not_short n low e e');
    long =
        (both_iff ltb_ℤ spec.max_length (length_of v)).1
          λ high n e e'. (ltb_ℤ-false high n).1 (h.not_long n high e' e);
    match =
        (both_iff (λ p s. not (fullmatch p s)) spec.pattern (text_of v)).1
          λ p s e e'. (true_of_not (fullmatch p s)).1 (h.matched s p e' e);
    choice = h.chosen;
  }

  Passes-of_nil :
      (name : String) (spec : FieldSpec) (v : Item)
      → error_if (both float_lt (amount_of v) spec.minimum) (too_small name)
          ++ error_if (both float_lt spec.maximum (amount_of v)) (too_large name)
          ++ error_if (both ltb_ℤ (length_of v) spec.min_length) (too_short name)
          ++ error_if (both ltb_ℤ spec.max_length (length_of v)) (too_long name)
          ++ error_if (both (λ p s. not (fullmatch p s)) spec.pattern (text_of v)) (no_match name)
          ++ error_if (not_among spec.choices v) (not_a_choice name)
        ≡ []
      → Passes spec v
  Passes-of_nil name spec v h =
      let f = append_eq_nil _ (error_if (not_among spec.choices v) (not_a_choice name)) h in
      let e =
        append_eq_nil _
          (error_if (both (λ p s. not (fullmatch p s)) spec.pattern (text_of v)) (no_match name))
          f.0 in
      let d =
        append_eq_nil _ (error_if (both ltb_ℤ spec.max_length (length_of v)) (too_long name)) e.0 in
      let c =
        append_eq_nil _ (error_if (both ltb_ℤ (length_of v) spec.min_length) (too_short name))
          d.0 in
      let b =
        append_eq_nil _ (error_if (both float_lt spec.maximum (amount_of v)) (too_large name))
          c.0 in
      record {
        small = (error_if-nil _ (too_small name)).0 b.0;
        large = (error_if-nil _ (too_large name)).0 b.1;
        short = (error_if-nil _ (too_short name)).0 c.1;
        long = (error_if-nil _ (too_long name)).0 d.1;
        match = (error_if-nil _ (no_match name)).0 e.1;
        choice = (error_if-nil _ (not_a_choice name)).0 f.1;
      }

  pub check_value-Fits :
      (name : String) (spec : FieldSpec) (v : Item)
      → (check_value fullmatch name spec v ≡ []) ↔ Fits fullmatch spec v
  unfolding check_value
  check_value-Fits name spec v = elim (Bool-cases (has_type spec.type v)) [
    | inr bad ↦ (λ h. absurd (cons_ne_nil (rw bad at h)), λ fits. ground (arith, fits.typed))
    | inl typed ↦ (
      λ h. Passes-Fits spec v typed (Passes-of_nil name spec v (rw typed at h)),
      λ fits.
          let h = Fits-Passes spec v fits in
          rw (typed, h.small, h.large, h.short, h.long, h.match, h.choice),
    )
  ]
    where
      cons_ne_nil : {e : FieldError} {l : List FieldError} → e ∷ l ≢ []
      cons_ne_nil h = ground arith
