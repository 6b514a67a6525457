-- ===== src/ErrorText/Tests.antt =====
-- Runs of digital_fte/retry_classifier.py and digital_fte/error_taxonomy.py, on texts in lower case.
use digital_fte_agent.Prelude.{String, ◌≡◌, refl, false, none, some}
use digital_fte_agent.Prelude.Int.{pos}
use digital_fte_agent.Prelude.Values.{null, int, str, type_error, ok, raise}
use digital_fte_agent.Prelude.Text.{append_text, is_in}
use digital_fte_agent.ErrorText.{
  Failure, instance_of, class_named, no_error, first_hint, transient, type_name_contains,
  Classification, network, rules, CategorizedError, classify_texts, classify, is_transient,
  categorize, category_of,
}
use digital_fte_agent.ErrorText.Precedence.{
  IsClassified, classify_precedence, FirstRule, categorize_first,
}

abbrev as_it_is : String → String
as_it_is s = s

abbrev slow_call : Failure
slow_call = instance_of "timeouterror" "http 400"

-- The name of the type goes before the message.
classify-slow_call :
    classify as_it_is slow_call null
    ≡ ok (record { disposition = transient; reason = type_name_contains "timeout" })
unfolding classify classify_texts first_hint is_in
classify-slow_call = refl

categorize-slow_call :
    categorize as_it_is slow_call null ≡ ok (record { category = network; reason = some "timeout" })
unfolding categorize first_hint is_in
categorize-slow_call = refl

is_transient_odd : is_transient as_it_is (class_named "oddity") (str "no such thing") ≡ ok false
unfolding is_transient classify classify_texts first_hint is_in
is_transient_odd = refl

category_of_nothing : category_of as_it_is no_error null ≡ raise type_error
unfolding category_of categorize
category_of_nothing = refl

category_of_message : category_of as_it_is slow_call (int (pos 1)) ≡ raise type_error
unfolding category_of categorize
category_of_message = refl

classify_precedence_example :
    (c : Classification) × (classify as_it_is slow_call null ≡ ok c)
    × IsClassified "timeouterror" "http 400" c.disposition
classify_precedence_example =
    classify_precedence as_it_is slow_call null none "timeouterror" "http 400" refl refl

categorize_first_example :
    (c : CategorizedError) × (categorize as_it_is (class_named "autherror") (str "429") ≡ ok c)
    × FirstRule (append_text "autherror" (append_text "\n" "429")) rules c.category
categorize_first_example =
    categorize_first as_it_is (class_named "autherror") (str "429") (some "429") "autherror" "429"
      refl refl
