-- ===== src/PayloadSchema/Payloads.antt =====
-- digital_fte/payload_schema.py: which payloads pass.
use digital_fte_agent.Prelude.{
  String, ◌≡◌, refl, ◌≢◌, ◌↔◌, inl, inr, Bool, true, false, not, Option, none, some, List, [], ◌∷◌,
  arith, if◌then◌else◌, Bool-cases, append_eq_nil,
}
use digital_fte_agent.Prelude.Dict.{Dict, lookup, contains}
use digital_fte_agent.Prelude.Values.{String-discrete}
use digital_fte_agent.Prelude.Sort.{insert_by, sort_by}
use digital_fte_agent.Prelude.TextOrder.{text_before}
use digital_fte_agent.PayloadSchema.{
  Item, FieldSpec, FieldError, missing, Schema, unknown_names, unknown_errors, check_name,
  check_fields, validate_payload, is_valid_payload,
}
use digital_fte_agent.PayloadSchema.Problems.{error_if-nil, Fits, check_value-Fits}

-- Every name of the payload is a field.
abbrev pub NoneUnknown : Dict String Item → Dict String FieldSpec → Type 0
NoneUnknown [] fields = Unit
NoneUnknown ((name, v) ∷ payload) fields =
    (contains String-discrete name fields ≡ true) × NoneUnknown payload fields

unknown_names-nil :
    (payload : Dict String Item) (fields : Dict String FieldSpec)
    → (unknown_names payload fields ≡ []) ↔ NoneUnknown payload fields
unknown_names-nil [] fields = (λ h. tt, λ h. refl)
unknown_names-nil ((name, v) ∷ payload) fields =
    elim (Bool-cases (contains String-discrete name fields)) [
      | inl known ↦ (
        λ h. (known, (unknown_names-nil payload fields).0 (rw known at h)),
        λ (h, k). rw known ((unknown_names-nil payload fields).1 k),
      )
      | inr other ↦ (λ h. absurd (cons_ne_nil (rw other at h)), λ (h, k). ground arith)
    ]
  where
    cons_ne_nil : {s : String} {l : List String} → s ∷ l ≢ []
    cons_ne_nil h = ground arith

insert_by-ne_nil : (s : String) (l : List String) → insert_by text_before s l ≢ []
insert_by-ne_nil s [] h = ground arith
insert_by-ne_nil s (t ∷ l) h = elim (Bool-cases (text_before t s)) [
  | inl later ↦ ground arith
  | inr first ↦ ground arith
]

unknown_errors-nil : (l : List String) → (unknown_errors (sort_by text_before l) ≡ []) ↔ (l ≡ [])
unknown_errors-nil [] = (λ h. refl, λ h. refl)
unknown_errors-nil (s ∷ l) =
    (λ h. absurd (insert_by-ne_nil s (sort_by text_before l) (no_errors _ h)), λ h. ground arith)
  where
    no_errors : (l : List String) → unknown_errors l ≡ [] → l ≡ []
    no_errors [] h = refl
    no_errors (s ∷ l) h = ground arith

module _ (fullmatch : String → String → Bool) where
  -- A field that is there fits, and one that is not is not required.
  abbrev pub Accepted : FieldSpec → Option Item → Type 0
  Accepted spec none = spec.required ≡ false
  Accepted spec (some v) = Fits fullmatch spec v

  abbrev pub EachAccepted : Dict String Item → Dict String FieldSpec → Type 0
  EachAccepted payload [] = Unit
  EachAccepted payload ((name, spec) ∷ fields) =
      Accepted spec (lookup String-discrete name payload) × EachAccepted payload fields

  check_name-Accepted :
      (name : String) (spec : FieldSpec) (o : Option Item)
      → (check_name fullmatch name spec o ≡ []) ↔ Accepted spec o
  check_name-Accepted name spec none = error_if-nil spec.required (missing name)
  check_name-Accepted name spec (some v) = check_value-Fits fullmatch name spec v

  check_fields-EachAccepted :
      (payload : Dict String Item) (fields : Dict String FieldSpec)
      → (check_fields fullmatch payload fields ≡ []) ↔ EachAccepted payload fields
  check_fields-EachAccepted payload [] = (λ h. tt, λ h. refl)
  check_fields-EachAccepted payload ((name, spec) ∷ fields) =
      let first = check_name-Accepted name spec (lookup String-discrete name payload) in
      let rest = check_fields-EachAccepted payload fields in
      (
        λ h.
            let parts =
              append_eq_nil (check_name fullmatch name spec (lookup String-discrete name payload)) _
                h in
            (first.0 parts.0, rest.0 parts.1),
        λ (h, k). rw (first.1 h, rest.1 k),
      )

  -- Names that are no fields are allowed, or there are none.
  abbrev pub NamesAllowed : Dict String Item → Schema → Type 0
  NamesAllowed payload s = s.allow_unknown ≡ false → NoneUnknown payload s.fields

  unknown_part :
      (payload : Dict String Item) (s : Schema)
      → ((if not s.allow_unknown
            then unknown_errors (sort_by text_before (unknown_names payload s.fields))
            else [])
          ≡ [])
        ↔ NamesAllowed payload s
  unknown_part payload s = elim (Bool-cases s.allow_unknown) [
    | inl allowed ↦ (λ h refused. ground arith, λ h. rw allowed)
    | inr refused ↦ (
      λ h _.
          (unknown_names-nil payload s.fields).0
            ((unknown_errors-nil (unknown_names payload s.fields)).0 (rw refused at h)),
      λ h. rw refused (
          (unknown_errors-nil (unknown_names payload s.fields)).1
            ((unknown_names-nil payload s.fields).1 (h refused))),
    )
  ]

  -- A payload that is a dict has no errors, and is valid, exactly if each field of the schema that is there
  -- fits its specification, each one that is missing is not required, and no other name is there unless
  -- the schema allows that.
  pub validate_payload-accepts :
      (payload : Dict String Item) (s : Schema)
      → ((validate_payload fullmatch (some payload) s ≡ [])
          ↔ (EachAccepted payload s.fields × NamesAllowed payload s))
        × ((is_valid_payload fullmatch (some payload) s ≡ true)
            ↔ (validate_payload fullmatch (some payload) s ≡ []))
  unfolding validate_payload is_valid_payload
  validate_payload-accepts payload s = (
    (
      λ h.
          let parts = append_eq_nil (check_fields fullmatch payload s.fields) _ h in
          (
            (check_fields-EachAccepted payload s.fields).0 parts.0,
            (unknown_part payload s).0 parts.1,
          ),
      λ (h, k).
          rw ((check_fields-EachAccepted payload s.fields).1 h) ((unknown_part payload s).1 k),
    ),
    empty_iff _,
  )
    where
      empty_iff : (l : List FieldError) → ((elim l [ [] ↦ true | _ ∷ _ ↦ false ]) ≡ true) ↔ (l ≡ [])
      empty_iff [] = (λ h. refl, λ h. refl)
      empty_iff (e ∷ l) = (λ h. ground arith, λ h. ground arith)
