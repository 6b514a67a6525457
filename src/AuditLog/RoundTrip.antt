-- ===== src/AuditLog/RoundTrip.antt =====
-- A log that digital_fte/audit_log.py wrote reads back, and is found valid.
use digital_fte_agent.Prelude.{
  ℕ, suc, ◌+◌, String, ◌≡◌, refl, ap, ◌∙◌, true, false, Option, none, some, List, [], ◌∷◌, arith,
  ◌==◌, ==_iff,
}
use digital_fte_agent.Prelude.Dict.{Dict}
use digital_fte_agent.Prelude.Values.{Value, bool, int, str, ok, is_blank, String-discrete}
use digital_fte_agent.Prelude.Text.{
  strip, split_lines, one_line, end_lines, split_lines-nil, split_lines-append,
}
use digital_fte_agent.Prelude.Int.{pos}
use digital_fte_agent.RunTimeline.{
  TimelineKind, run_started, iteration_started, agent_acted, iteration_completed, run_completed,
  run_failed, differ, same_bool,
}
use digital_fte_agent.AuditLog.{
  audit_schema_version, AuditRecord, kind_text, find_kind, all_kinds, require_text, check_agent,
  audit_record, text_value, to_dict, Decoded, mapping, record_from_dict,
}
use digital_fte_agent.AuditLog.Log.{
  to_jsonl, lines_of, format_audit_log, parse_jsonl_line, content_lines, parse_lines, parse_jsonl,
  validate_lines, validate_jsonl,
}

-- What the constructor lets through.
pub record IsAudit (r : AuditRecord) : Type 0 where
  pub current : r.version ≡ audit_schema_version
  pub agrees :
      check_agent r.kind r.agent (same_bool r.changed (differ r.from_state r.to_state)) ≡ ok tt

find_kind-kind_text : (k : TimelineKind) → find_kind (kind_text k) all_kinds ≡ ok k
unfolding find_kind String-discrete
find_kind-kind_text run_started = refl
find_kind-kind_text iteration_started = refl
find_kind-kind_text agent_acted = refl
find_kind-kind_text iteration_completed = refl
find_kind-kind_text run_completed = refl
find_kind-kind_text run_failed = refl

require_text-text_value : (t : Option String) → require_text (text_value t) ≡ ok t
require_text-text_value none = refl
require_text-text_value (some s) = refl

-- The values of a record are taken back by the constructor.
pub audit_record-values :
    (r : AuditRecord)
    → IsAudit r
    → audit_record
        (int (pos r.seq))
        (int (pos r.iteration))
        (str (kind_text r.kind))
        (text_value r.agent)
        (text_value r.from_state)
        (text_value r.to_state)
        (bool r.changed)
        (int (pos r.version))
      ≡ ok r
unfolding audit_record
audit_record-values r h = rw (find_kind-kind_text r.kind) (
    rw
      (
        require_text-text_value r.agent,
        require_text-text_value r.from_state,
        require_text-text_value r.to_state,
      )
      (ground (arith, h.current, h.agrees)))

record_from_dict-to_dict :
    (line_no : Option ℕ) (r : AuditRecord) → IsAudit r → record_from_dict line_no (to_dict r) ≡ ok r
unfolding record_from_dict String-discrete
record_from_dict-to_dict line_no r h = rw (audit_record-values r h)

module _ (dumps : Dict String Value → String) (loads : String → Decoded) where
  -- The record's line is one line of JSON, with nothing to strip, that reads back as its object.
  pub record IsEncoded (r : AuditRecord) : Type 0 where
    pub not_blank : is_blank (to_jsonl dumps loads r) ≡ false
    pub stripped : strip (to_jsonl dumps loads r) ≡ to_jsonl dumps loads r
    pub unbroken : one_line (to_jsonl dumps loads r) ≡ true
    pub decoded : loads (to_jsonl dumps loads r) ≡ mapping (to_dict r)

  abbrev pub AllEncoded : List AuditRecord → Type 0
  AllEncoded [] = Unit
  AllEncoded (r ∷ records) = IsEncoded r × IsAudit r × AllEncoded records

  parse_jsonl_line-to_jsonl :
      (line_no : Option ℕ) (r : AuditRecord)
      → IsEncoded r
      → IsAudit r
      → parse_jsonl_line dumps loads (str (to_jsonl dumps loads r)) line_no ≡ ok r
  unfolding parse_jsonl_line
  parse_jsonl_line-to_jsonl line_no r h k =
      rw (h.not_blank, h.stripped, h.decoded) (record_from_dict-to_dict line_no r k)

  split_lines-format :
      (records : List AuditRecord)
      → AllEncoded records
      → split_lines (format_audit_log dumps loads records) ≡ lines_of dumps loads records
  unfolding format_audit_log
  split_lines-format [] h = split_lines-nil
  split_lines-format (r ∷ records) h =
      split_lines-append (to_jsonl dumps loads r) (end_lines (lines_of dumps loads records))
        h.0.unbroken
      ∙ ap (λ l. to_jsonl dumps loads r ∷ l) (split_lines-format records h.2)

  -- the lines with their numbers, from `n` on
  abbrev numbered_lines : ℕ → List AuditRecord → List (ℕ × String)
  numbered_lines n [] = []
  numbered_lines n (r ∷ records) = (n, to_jsonl dumps loads r) ∷ numbered_lines (suc n) records

  content_lines-lines_of :
      (n : ℕ) (records : List AuditRecord)
      → AllEncoded records
      → content_lines dumps loads n (lines_of dumps loads records) ≡ numbered_lines n records
  content_lines-lines_of n [] h = refl
  content_lines-lines_of n (r ∷ records) h =
      rw (h.0.not_blank, content_lines-lines_of (suc n) records h.2)

  parse_lines-numbered_lines :
      (n : ℕ) (records : List AuditRecord)
      → AllEncoded records
      → parse_lines dumps loads (numbered_lines n records) ≡ ok records
  unfolding parse_lines
  parse_lines-numbered_lines n [] h = refl
  parse_lines-numbered_lines n (r ∷ records) h =
      rw (
        parse_jsonl_line-to_jsonl (some n) r h.0 h.1,
        parse_lines-numbered_lines (suc n) records h.2,
      )

  -- Records that the constructor made and whose lines are single lines of JSON, which `loads` reads
  -- back, are what parsing the formatted log gives.
  pub parse_jsonl-format_audit_log :
      (records : List AuditRecord)
      → AllEncoded records
      → parse_jsonl dumps loads (str (format_audit_log dumps loads records)) ≡ ok records
  unfolding parse_jsonl
  parse_jsonl-format_audit_log records h =
      rw (split_lines-format records h, content_lines-lines_of 1 records h)
        (parse_lines-numbered_lines 1 records h)

  -- The sequence numbers count from `n` on.
  abbrev pub Counts : ℕ → List AuditRecord → Type 0
  Counts n [] = Unit
  Counts n (r ∷ records) = (r.seq ≡ n) × Counts (suc n) records

  validate_lines-numbered_lines :
      (n expected_seq : ℕ) (records : List AuditRecord)
      → AllEncoded records
      → Counts expected_seq records
      → validate_lines dumps loads expected_seq (numbered_lines n records) ≡ ok []
  unfolding validate_lines
  validate_lines-numbered_lines n expected_seq [] h c = refl
  validate_lines-numbered_lines n expected_seq (r ∷ records) h c =
      let test : (r.seq == expected_seq) ≡ true = (==_iff r.seq expected_seq).1 c.0 in
      let next : expected_seq + 1 ≡ suc expected_seq = omega arith in
      rw (
        parse_jsonl_line-to_jsonl (some n) r h.0 h.1,
        test,
        next,
        validate_lines-numbered_lines (suc n) (suc expected_seq) records h.2 c.1,
      )

  pub validate_jsonl-Counts :
      (records : List AuditRecord)
      → AllEncoded records
      → Counts 0 records
      → validate_jsonl dumps loads (str (format_audit_log dumps loads records)) ≡ ok []
  unfolding validate_jsonl
  validate_jsonl-Counts records h c =
      rw (split_lines-format records h, content_lines-lines_of 1 records h)
        (validate_lines-numbered_lines 1 0 records h c)
