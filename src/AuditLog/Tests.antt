-- ===== src/AuditLog/Tests.antt =====
-- Runs of digital_fte/audit_log.py, with a JSON library that knows two objects.
use digital_fte_agent.Prelude.{
  String, ◌≡◌, refl, sym, subst, ◌∙◌, inl, Bool, false, none, some, List, [], ◌∷◌, ◌==◌,
  if◌then◌else◌,
}
use digital_fte_agent.Prelude.Int.{pos}
use digital_fte_agent.Prelude.Dict.{Dict}
use digital_fte_agent.Prelude.Values.{
  Value, null, int, str, object, type_error, audit_log_error, ok, raise, is_space, is_blank,
  String-discrete, text_equal, ok_injective,
}
use digital_fte_agent.Prelude.Text.{strip, is_boundary, split_lines, end_lines}
use digital_fte_agent.Loop.{LoopResult}
use digital_fte_agent.RunTimeline.{
  run_started, run_completed, TimelineEvent, post_init, build_timeline,
}
use digital_fte_agent.AuditLog.{
  AuditRecord, find_kind, audit_record, to_dict, build_audit_records, Decoded, invalid, mapping,
  item,
}
use digital_fte_agent.AuditLog.Log.{format_audit_log, parse_jsonl, validate_jsonl}
use digital_fte_agent.AuditLog.RoundTrip.{IsAudit, IsEncoded, parse_jsonl-format_audit_log}
use digital_fte_agent.AuditLog.Bridge.{records_of, EachEncoded, validate_jsonl-build_audit_records}

abbrev empty_run : LoopResult
empty_run = record {
  task_id = "t";
  status = "completed";
  iterations = 1;
  steps = [];
  events = [];
  final_state = "idea";
}

abbrev first : AuditRecord
first = record {
  seq = 0;
  iteration = 0;
  kind = run_started;
  agent = none;
  from_state = none;
  to_state = some "idea";
  changed = false;
  version = 1;
}

abbrev last : AuditRecord
last = record first { seq = 1; kind = run_completed }

abbrev is_zero_value : Value → Bool
is_zero_value (int (pos n)) = n == 0
is_zero_value _ = false

abbrev dumps : Dict String Value → String
dumps d = if is_zero_value (item d "seq" null) then "{0}" else "{1}"

abbrev loads : String → Decoded
loads s =
    if text_equal s "{0}"
    then mapping (to_dict first)
    else if text_equal s "{1}"
    then mapping (to_dict last)
    else invalid

writes : format_audit_log dumps loads (first ∷ last ∷ []) ≡ "{0}\n{1}\n"
unfolding format_audit_log String-discrete
writes = refl

reads : parse_jsonl dumps loads (str "\n {1}\r\n{0}") ≡ ok (last ∷ first ∷ [])
unfolding parse_jsonl find_kind split_lines strip is_blank is_space audit_record String-discrete
reads = refl

finds_all :
    validate_jsonl dumps loads (str "{1}\nx\n")
    ≡ ok (audit_log_error (some 1) ∷ audit_log_error (some 2) ∷ [])
unfolding validate_jsonl find_kind split_lines strip is_blank is_space audit_record String-discrete
finds_all = refl

-- A kind that is a list is no audit error but a TypeError, which ends the validation.
raises_type_error :
    validate_jsonl dumps
      (λ s. mapping (
        ("v", int (pos 1))
        ∷ ("seq", int (pos 0))
        ∷ ("iteration", int (pos 0))
        ∷ ("kind", object)
        ∷ []))
      (str "{}")
    ≡ raise type_error
unfolding validate_jsonl find_kind split_lines strip is_blank is_space audit_record String-discrete
raises_type_error = refl

-- A state with a line separator breaks the line of its record.
splits_a_record : split_lines (end_lines ("a\u{2028}b" ∷ [])) ≡ "a" ∷ "b" ∷ []
unfolding split_lines
splits_a_record = refl

first-IsEncoded : IsEncoded dumps loads first
unfolding is_blank is_space strip is_boundary String-discrete
first-IsEncoded = record { not_blank = refl; stripped = refl; unbroken = refl; decoded = refl }

last-IsEncoded : IsEncoded dumps loads last
unfolding is_blank is_space strip is_boundary String-discrete
last-IsEncoded = record { not_blank = refl; stripped = refl; unbroken = refl; decoded = refl }

built : build_audit_records (some empty_run) ≡ ok (first ∷ last ∷ [])
unfolding build_audit_records post_init find_kind audit_record String-discrete build_timeline
built = refl

encoded :
    (records : List AuditRecord)
    → build_audit_records (some empty_run) ≡ ok records
    → EachEncoded dumps loads records
encoded records e =
    subst (EachEncoded dumps loads) (ok_injective (first ∷ last ∷ []) records (sym built ∙ e))
      (first-IsEncoded, (last-IsEncoded, tt))

first-IsAudit : IsAudit first
first-IsAudit = record { current = refl; agrees = refl }

parse_jsonl-format_audit_log_example :
    parse_jsonl dumps loads (str (format_audit_log dumps loads (first ∷ []))) ≡ ok (first ∷ [])
parse_jsonl-format_audit_log_example =
    parse_jsonl-format_audit_log dumps loads (first ∷ []) (first-IsEncoded, first-IsAudit, tt)

validate_jsonl-build_audit_records_example :
    (timeline : List TimelineEvent) × (build_timeline (some empty_run) ≡ ok timeline)
    × (build_audit_records (some empty_run) ≡ ok (records_of timeline))
    × (validate_jsonl dumps loads (str (format_audit_log dumps loads (records_of timeline)))
        ≡ ok [])
    × (parse_jsonl dumps loads (str (format_audit_log dumps loads (records_of timeline)))
        ≡ ok (records_of timeline))
validate_jsonl-build_audit_records_example =
    validate_jsonl-build_audit_records dumps loads empty_run (inl refl) encoded
