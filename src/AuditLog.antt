-- ===== src/AuditLog.antt =====
-- digital_fte/audit_log.py: the timeline as lines of JSON, written and read back. The JSON library is
-- given by its two functions: `dumps`, and `loads` with what it finds in a text. Kinds are those of
-- RunTimeline; a list or an object inside a JSON object is the value `object`, which is not hashable.
pub mod Log
pub mod RoundTrip
pub mod Bridge
mod Tests
use digital_fte_agent.Prelude.{
  ℕ, String, Bool, false, not, ◌&&◌, ◌||◌, Option, none, some, List, [], ◌∷◌, ◌==◌, if◌then◌else◌,
}
use digital_fte_agent.Prelude.Int.{pos}
use digital_fte_agent.Prelude.Dict.{Dict, keys, mem?, lookup, contains}
use digital_fte_agent.Prelude.Values.{
  Value, null, bool, int, str, object, Exception, type_error, audit_log_error, Result, ok, raise,
  and_then, String-discrete, text_equal,
}
use digital_fte_agent.Loop.{LoopResult}
use digital_fte_agent.RunTimeline.{
  TimelineKind, run_started, iteration_started, agent_acted, iteration_completed, run_completed,
  run_failed, TimelineEvent, differ, same_bool, build_timeline,
}

-- `AUDIT_SCHEMA_VERSION`
abbrev pub audit_schema_version : ℕ
audit_schema_version = 1

-- `_FIELD_ORDER`
abbrev pub field_order : List String
field_order =
    "v" ∷ "seq" ∷ "iteration" ∷ "kind" ∷ "agent" ∷ "from_state" ∷ "to_state" ∷ "changed" ∷ []

pub record AuditRecord : Type 0 where
  pub seq : ℕ
  pub iteration : ℕ
  pub kind : TimelineKind
  pub agent : Option String
  pub from_state : Option String
  pub to_state : Option String
  pub changed : Bool
  pub version : ℕ

abbrev pub audit_error : Exception
audit_error = audit_log_error none

-- `_require_int`, and the check that the number is not negative
abbrev pub require_natural : Value → Result ℕ
require_natural (int (pos n)) = ok n
require_natural _ = raise audit_error

abbrev pub kind_text : TimelineKind → String
kind_text run_started = "run_started"
kind_text iteration_started = "iteration_started"
kind_text agent_acted = "agent_acted"
kind_text iteration_completed = "iteration_completed"
kind_text run_completed = "run_completed"
kind_text run_failed = "run_failed"

unfoldable pub find_kind : String → List TimelineKind → Result TimelineKind
find_kind s [] = raise audit_error
find_kind s (k ∷ kinds) = if text_equal s (kind_text k) then ok k else find_kind s kinds

abbrev pub all_kinds : List TimelineKind
all_kinds =
    run_started ∷ iteration_started ∷ agent_acted ∷ iteration_completed ∷ run_completed ∷ run_failed
    ∷ []

-- `kind not in TIMELINE_KINDS` raises a TypeError for a value that is not hashable.
abbrev pub require_kind : Value → Result TimelineKind
require_kind (str s) = find_kind s all_kinds
require_kind object = raise type_error
require_kind _ = raise audit_error

abbrev pub require_bool : Value → Result Bool
require_bool (bool b) = ok b
require_bool _ = raise audit_error

abbrev pub require_version : Value → Result ℕ
require_version (int (pos n)) = if n == audit_schema_version then ok n else raise audit_error
require_version _ = raise audit_error

abbrev pub require_text : Value → Result (Option String)
require_text null = ok none
require_text (str s) = ok (some s)
require_text _ = raise audit_error

-- the checks that the kind, the agent and the change agree
abbrev pub check_agent : TimelineKind → Option String → Bool → Result (Unit {0})
check_agent agent_acted none consistent = raise audit_error
check_agent agent_acted (some a) consistent = if consistent then ok tt else raise audit_error
check_agent _ none consistent = ok tt
check_agent _ (some a) consistent = raise audit_error

-- `AuditRecord.__post_init__`
unfoldable pub audit_record :
    (seq iteration kind agent from_state to_state changed version : Value) → Result AuditRecord
audit_record seq iteration kind agent from_state to_state changed version =
    and_then (require_natural seq) λ n. and_then (require_natural iteration) λ i.
      and_then (require_kind kind) λ k. and_then (require_bool changed) λ c.
        and_then (require_version version) λ v. and_then (require_text agent) λ a.
          and_then (require_text from_state) λ s. and_then (require_text to_state) λ t.
            and_then (check_agent k a (same_bool c (differ s t))) λ _. ok (record {
              seq = n;
              iteration = i;
              kind = k;
              agent = a;
              from_state = s;
              to_state = t;
              changed = c;
              version = v;
            })

abbrev pub text_value : Option String → Value
text_value none = null
text_value (some s) = str s

-- `AuditRecord.to_dict`
abbrev pub to_dict : AuditRecord → Dict String Value
to_dict r =
    ("v", int (pos r.version))
    ∷ ("seq", int (pos r.seq))
    ∷ ("iteration", int (pos r.iteration))
    ∷ ("kind", str (kind_text r.kind))
    ∷ ("agent", text_value r.agent)
    ∷ ("from_state", text_value r.from_state)
    ∷ ("to_state", text_value r.to_state)
    ∷ ("changed", bool r.changed)
    ∷ []

-- `record_from_timeline_event`
unfoldable pub record_from_timeline_event : TimelineEvent → Result AuditRecord
unfolding audit_record
record_from_timeline_event e =
    audit_record (int (pos e.sequence)) (int (pos e.iteration)) (str (kind_text e.kind))
      (text_value e.agent) (text_value e.from_state) (text_value e.to_state) (bool e.changed)
      (int (pos audit_schema_version))

unfoldable pub records_from : List TimelineEvent → Result (List AuditRecord)
unfolding record_from_timeline_event
records_from [] = ok []
records_from (e ∷ events) =
    and_then (record_from_timeline_event e)
      λ r. and_then (records_from events) λ records. ok (r ∷ records)

-- `build_audit_records`
unfoldable pub build_audit_records : Option LoopResult → Result (List AuditRecord)
unfolding records_from
build_audit_records result = and_then (build_timeline result) records_from

-- What `json.loads` finds: no JSON, an object, or another value.
pub data Decoded : Type 0 where
  invalid other : Decoded
  mapping : Dict String Value → Decoded

abbrev pub value_or : Value → Option Value → Value
value_or default none = default
value_or default (some v) = v

-- `data.get(key, default)`
abbrev pub item : Dict String Value → String → Value → Value
item d k default = value_or default (lookup String-discrete k d)

-- `set(data) - set(_FIELD_ORDER)`
abbrev pub has_unknown : List String → Bool
has_unknown [] = false
has_unknown (k ∷ ks) = not (mem? String-discrete k field_order) || has_unknown ks

abbrev pub has_required : Dict String Value → Bool
has_required d =
    contains String-discrete "v" d
    && contains String-discrete "seq" d
    && contains String-discrete "iteration" d
    && contains String-discrete "kind" d

-- `except AuditLogError` gives the error the line's number.
abbrev pub at_line : Option ℕ → Result AuditRecord → Result AuditRecord
at_line line_no (raise (audit_log_error _)) = raise (audit_log_error line_no)
at_line line_no r = r

-- `_record_from_mapping`, for an object
unfoldable pub record_from_dict : Option ℕ → Dict String Value → Result AuditRecord
unfolding audit_record
record_from_dict line_no d =
    if has_unknown (keys d) || not (has_required d)
    then raise (audit_log_error line_no)
    else at_line line_no (
        audit_record (item d "seq" null) (item d "iteration" null) (item d "kind" null)
          (item d "agent" null) (item d "from_state" null) (item d "to_state" null)
          (item d "changed" (bool false)) (item d "v" null))

abbrev pub record_from_mapping : Option ℕ → Decoded → Result AuditRecord
record_from_mapping line_no (mapping d) = record_from_dict line_no d
record_from_mapping line_no _ = raise (audit_log_error line_no)
