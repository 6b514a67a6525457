-- ===== src/ErrorText.antt =====
-- digital_fte/retry_classifier.py and digital_fte/error_taxonomy.py: errors told apart by the words in
-- their type's name and message. `str.lower` is a parameter. An error is given by what the code reads
-- of it: an exception with its type's name and its text, a class or a text with a name.
pub mod Precedence
mod Tests
use digital_fte_agent.Prelude.{
  String, Bool, true, false, Option, none, some, List, [], ◌∷◌, if◌then◌else◌,
}
use digital_fte_agent.Prelude.Values.{Value, null, str, type_error, Result, ok, raise, and_then}
use digital_fte_agent.Prelude.Text.{append_text, is_in}

pub data Failure : Type 0 where
  instance_of : (type_name text : String) → Failure
  class_named : (type_name : String) → Failure
  type_text : (type_name : String) → Failure
  no_error : Failure

-- the argument `message`
abbrev pub validate_message : Value → Result (Option String)
validate_message null = ok none
validate_message (str s) = ok (some s)
validate_message _ = raise type_error

abbrev pub message_or : String → Option String → String
message_or default none = default
message_or default (some s) = s

-- the name and the text that are looked at
abbrev pub name_and_text : Failure → Option String → Result (String × String)
name_and_text (instance_of name text) message = ok (name, message_or text message)
name_and_text (class_named name) message = ok (name, message_or "" message)
name_and_text (type_text name) message = ok (name, message_or "" message)
name_and_text no_error message = raise type_error

-- `_first_hint`
unfoldable pub first_hint : String → List String → Option String
unfolding is_in
first_hint haystack [] = none
first_hint haystack (hint ∷ hints) =
    if is_in hint haystack then some hint else first_hint haystack hints

pub data Disposition : Type 0 where
  transient permanent unknown : Disposition

-- The reason that the source words is kept as the place and the hint that decided.
pub data Signal : Type 0 where
  type_name_contains : String → Signal
  message_mentions : String → Signal
  no_signal : Signal

pub record Classification : Type 0 where
  pub disposition : Disposition
  pub reason : Signal

abbrev pub is_transient_disposition : Disposition → Bool
is_transient_disposition transient = true
is_transient_disposition _ = false

abbrev pub is_permanent_disposition : Disposition → Bool
is_permanent_disposition permanent = true
is_permanent_disposition _ = false

abbrev pub transient_type_hints : List String
transient_type_hints =
    "timeout" ∷ "timederror" ∷ "connection" ∷ "connectionreset" ∷ "connectionaborted" ∷ "temporary"
    ∷ "unavailable" ∷ "throttl" ∷ "ratelimit" ∷ "toomanyrequests" ∷ "brokenpipe" ∷ "again" ∷ []

abbrev pub permanent_type_hints : List String
permanent_type_hints =
    "value" ∷ "type" ∷ "key" ∷ "attribute" ∷ "index" ∷ "notfound" ∷ "notimplemented" ∷ "permission"
    ∷ "auth" ∷ "forbidden" ∷ "unauthorized" ∷ "validation" ∷ "assertion" ∷ "lookup" ∷ []

abbrev pub transient_message_hints : List String
transient_message_hints =
    "timed out" ∷ "timeout" ∷ "temporarily" ∷ "temporary" ∷ "connection reset"
    ∷ "connection refused" ∷ "connection aborted" ∷ "try again" ∷ "unavailable" ∷ "throttled"
    ∷ "rate limit" ∷ "too many requests" ∷ "503" ∷ "502" ∷ "504" ∷ "429" ∷ []

abbrev pub permanent_message_hints : List String
permanent_message_hints =
    "not found" ∷ "forbidden" ∷ "unauthorized" ∷ "permission denied" ∷ "invalid" ∷ "malformed"
    ∷ "does not exist" ∷ "already exists" ∷ "400" ∷ "401" ∷ "403" ∷ "404" ∷ "409" ∷ "422" ∷ []

-- The first list with a hint decides.
abbrev pub decide_by : List (String × List String × (String → Classification)) → Classification
decide_by [] = record { disposition = unknown; reason = no_signal }
decide_by ((haystack, hints, conclude) ∷ rules) = elim (first_hint haystack hints) [
  | some hit ↦ conclude hit
  | none ↦ decide_by rules
]

pub data Category : Type 0 where
  network auth rate_limit validation unknown_category : Category

-- `_RULES`
abbrev pub rules : List (Category × List String)
rules =
    (
      rate_limit,
      "ratelimit" ∷ "rate limit" ∷ "throttl" ∷ "too many requests" ∷ "429" ∷ "quota exceeded" ∷ [],
    )
    ∷ (
      auth,
      "auth" ∷ "unauthorized" ∷ "unauthorised" ∷ "forbidden" ∷ "permission" ∷ "credential"
          ∷ "token expired" ∷ "invalid token" ∷ "access denied" ∷ "401" ∷ "403" ∷ [],
    )
    ∷ (
      network,
      "timeout" ∷ "timed out" ∷ "connection" ∷ "connectionreset" ∷ "connectionrefused"
          ∷ "brokenpipe" ∷ "broken pipe" ∷ "dns" ∷ "socket" ∷ "unreachable" ∷ "network" ∷ "502"
          ∷ "503" ∷ "504" ∷ [],
    )
    ∷ (
      validation,
      "validation" ∷ "valueerror" ∷ "typeerror" ∷ "keyerror" ∷ "schema" ∷ "invalid" ∷ "malformed"
          ∷ "required" ∷ "missing field" ∷ "assertion" ∷ "400" ∷ "422" ∷ [],
    )
    ∷ []

-- The category, with the hint that decided.
pub record CategorizedError : Type 0 where
  pub category : Category
  pub reason : Option String

abbrev pub first_rule : String → List (Category × List String) → CategorizedError
first_rule haystack [] = record { category = unknown_category; reason = none }
first_rule haystack ((category, hints) ∷ l) = elim (first_hint haystack hints) [
  | some hit ↦ record { category = category; reason = some hit }
  | none ↦ first_rule haystack l
]

unfoldable pub classify_texts : String → String → Classification
classify_texts name_key text_key = decide_by (
    (
      name_key,
      transient_type_hints,
      λ hit. record { disposition = transient; reason = type_name_contains hit },
    )
    ∷ (
      name_key,
      permanent_type_hints,
      λ hit. record { disposition = permanent; reason = type_name_contains hit },
    )
    ∷ (
      text_key,
      transient_message_hints,
      λ hit. record { disposition = transient; reason = message_mentions hit },
    )
    ∷ (
      text_key,
      permanent_message_hints,
      λ hit. record { disposition = permanent; reason = message_mentions hit },
    )
    ∷ [])

module _ (lower : String → String) where
  unfoldable pub classify : Failure → Value → Result Classification
  unfolding classify_texts
  classify error message = and_then (validate_message message) λ m.
      and_then (name_and_text error m) λ found. ok (classify_texts (lower found.0) (lower found.1))

  unfoldable pub is_transient : Failure → Value → Result Bool
  unfolding classify
  is_transient error message =
      and_then (classify error message) λ c. ok (is_transient_disposition c.disposition)

  unfoldable pub categorize : Failure → Value → Result CategorizedError
  categorize error message = and_then (validate_message message) λ m.
      and_then (name_and_text error m)
        λ found. ok (first_rule (lower (append_text found.0 (append_text "\n" found.1))) rules)

  unfoldable pub category_of : Failure → Value → Result Category
  unfolding categorize
  category_of error message = and_then (categorize error message) λ c. ok c.category
