-- ===== src/ErrorText/Precedence.antt =====
-- digital_fte/retry_classifier.py and digital_fte/error_taxonomy.py: which words decide.
use digital_fte_agent.Prelude.{
  String, ◌≡◌, subst, ◌⊎◌, inl, inr, false, Option, none, some, List, [], ◌∷◌, arith, Bool-cases,
  Option-cases,
}
use digital_fte_agent.Prelude.Values.{Value, ok}
use digital_fte_agent.Prelude.Text.{append_text, is_in}
use digital_fte_agent.Prelude.Occurs.{Occurs, is_in-Occurs}
use digital_fte_agent.ErrorText.{
  Failure, validate_message, name_and_text, first_hint, Disposition, transient, permanent, unknown,
  Classification, transient_type_hints, permanent_type_hints, transient_message_hints,
  permanent_message_hints, Category, unknown_category, rules, CategorizedError, first_rule,
  classify_texts, classify, categorize,
}

-- One of the hints is in the text, and none of them is.
pub data Mentions (text : String) : List String → Type 0 where
  here : {hint : String} {hints : List String} → Occurs hint text → Mentions text (hint ∷ hints)
  later : {hint : String} {hints : List String} → Mentions text hints → Mentions text (hint ∷ hints)

abbrev pub Lacks : String → List String → Type 0
Lacks text hints = ¬ Mentions text hints

Lacks-cons :
    (text hint : String) (hints : List String)
    → is_in hint text ≡ false
    → Lacks text hints
    → Lacks text (hint ∷ hints)
Lacks-cons text hint hints h none_of (here found) =
    ground (arith, h, (is_in-Occurs hint text).1 found)
Lacks-cons text hint hints h none_of (later found) = none_of found

first_hint-found :
    (text : String) (hints : List String) (hit : String)
    → first_hint text hints ≡ some hit
    → Mentions text hints
unfolding first_hint
first_hint-found text [] hit e = ground arith
first_hint-found text (hint ∷ hints) hit e = elim (Bool-cases (is_in hint text)) [
  | inl yes_in ↦ here ((is_in-Occurs hint text).0 yes_in)
  | inr no_in ↦ later (first_hint-found text hints hit (ground arith))
]

first_hint-none :
    (text : String) (hints : List String) → first_hint text hints ≡ none → Lacks text hints
unfolding first_hint
first_hint-none text [] e = λ m. elim m [ ]
first_hint-none text (hint ∷ hints) e = elim (Bool-cases (is_in hint text)) [
  | inl yes_in ↦ ground arith
  | inr no_in ↦ Lacks-cons text hint hints no_in (first_hint-none text hints (ground arith))
]

-- What the order of the lists comes to, for the name and the message in lower case.
abbrev pub IsClassified : String → String → Disposition → Type 0
IsClassified name text transient =
    Mentions name transient_type_hints
    ⊎ (Lacks name permanent_type_hints × Mentions text transient_message_hints)
IsClassified name text permanent =
    Lacks name transient_type_hints
    × (Mentions name permanent_type_hints
        ⊎ (Lacks text transient_message_hints × Mentions text permanent_message_hints))
IsClassified name text unknown =
    Lacks name transient_type_hints
    × Lacks name permanent_type_hints
    × Lacks text transient_message_hints
    × Lacks text permanent_message_hints

module _ (name text : String) where
  as_disposition :
      (d : Disposition)
      → d ≡ (classify_texts name text).disposition
      → IsClassified name text d
      → IsClassified name text (classify_texts name text).disposition
  as_disposition d e h = subst (IsClassified name text) e h

  by_message :
      Lacks name transient_type_hints
      → Lacks name permanent_type_hints
      → first_hint name transient_type_hints ≡ none
      → first_hint name permanent_type_hints ≡ none
      → IsClassified name text (classify_texts name text).disposition
  unfolding classify_texts
  by_message lacks lacks' none_a none_b =
      elim (Option-cases (first_hint text transient_message_hints)) [
        | inr (hit, e) ↦
            as_disposition transient (ground arith)
              (inr (lacks', first_hint-found text transient_message_hints hit e))
        | inl none_c ↦
            let lacks'' = first_hint-none text transient_message_hints none_c in
            elim (Option-cases (first_hint text permanent_message_hints)) [
              | inr (hit, e) ↦
                  as_disposition permanent (ground arith)
                    (lacks, inr (lacks'', first_hint-found text permanent_message_hints hit e))
              | inl none_d ↦
                  as_disposition unknown (ground arith)
                    (lacks, lacks', lacks'', first_hint-none text permanent_message_hints none_d)
            ]
      ]

  classify_texts-IsClassified : IsClassified name text (classify_texts name text).disposition
  unfolding classify_texts
  classify_texts-IsClassified = elim (Option-cases (first_hint name transient_type_hints)) [
    | inr (hit, e) ↦
        as_disposition transient (ground arith)
          (inl (first_hint-found name transient_type_hints hit e))
    | inl none_a ↦
        let lacks = first_hint-none name transient_type_hints none_a in
        elim (Option-cases (first_hint name permanent_type_hints)) [
          | inr (hit, e) ↦
              as_disposition permanent (ground arith)
                (lacks, inl (first_hint-found name permanent_type_hints hit e))
          | inl none_b ↦
              by_message lacks (first_hint-none name permanent_type_hints none_b) none_a none_b
        ]
  ]

-- An error is transient, permanent or unknown by the type's name first and the message second, the
-- transient hints before the permanent ones; the two are compared in lower case, and an error or a type
-- with a message that is a text or None always gets an answer.
pub classify_precedence :
    (lower : String → String) (error : Failure) (message : Value) (m : Option String)
    (name text : String)
    → validate_message message ≡ ok m
    → name_and_text error m ≡ ok (name, text)
    → (c : Classification) × (classify lower error message ≡ ok c)
      × IsClassified (lower name) (lower text) c.disposition
unfolding classify
classify_precedence lower error message m name text checked found = (
  classify_texts (lower name) (lower text),
  rw (checked, found),
  classify_texts-IsClassified (lower name) (lower text),
)

-- The first of the rules that has a hint in the text gives the category, and `unknown_category` is left.
pub data FirstRule (text : String) : List (Category × List String) → Category → Type 0 where
  decides :
      {c : Category} {hints : List String} {l : List (Category × List String)}
      → Mentions text hints
      → FirstRule text ((c, hints) ∷ l) c
  passes :
      {c d : Category} {hints : List String} {l : List (Category × List String)}
      → Lacks text hints
      → FirstRule text l c
      → FirstRule text ((d, hints) ∷ l) c
  left_over : FirstRule text [] unknown_category

first_rule-FirstRule :
    (text : String) (l : List (Category × List String))
    → FirstRule text l (first_rule text l).category
first_rule-FirstRule text [] = left_over
first_rule-FirstRule text ((c, hints) ∷ l) = elim (Option-cases (first_hint text hints)) [
  | inr (hit, e) ↦
      subst (FirstRule text ((c, hints) ∷ l)) (ground arith)
        (decides (first_hint-found text hints hit e))
  | inl e ↦
      subst (FirstRule text ((c, hints) ∷ l)) (ground arith)
        (passes (first_hint-none text hints e) (first_rule-FirstRule text l))
]

-- An error is in the category of the first rule, in the order rate limit, authentication, network and
-- validation, that has a hint in the type's name or the message in lower case, and unknown if none
-- has; an error or a type with a message that is a text or None always gets a category.
pub categorize_first :
    (lower : String → String) (error : Failure) (message : Value) (m : Option String)
    (name text : String)
    → validate_message message ≡ ok m
    → name_and_text error m ≡ ok (name, text)
    → (c : CategorizedError) × (categorize lower error message ≡ ok c)
      × FirstRule (lower (append_text name (append_text "\n" text))) rules c.category
unfolding categorize
categorize_first lower error message m name text checked found = (
  first_rule (lower (append_text name (append_text "\n" text))) rules,
  rw (checked, found),
  first_rule-FirstRule (lower (append_text name (append_text "\n" text))) rules,
)
