-- ===== src/AuditLog/Log.antt =====
-- digital_fte/audit_log.py: whole documents, over the two functions of the JSON library.
use digital_fte_agent.Prelude.{
  ℕ, suc, ◌+◌, String, Option, some, List, [], ◌∷◌, ◌++◌, ◌==◌, if◌then◌else◌,
}
use digital_fte_agent.Prelude.Dict.{Dict}
use digital_fte_agent.Prelude.Values.{
  Value, str, Exception, audit_log_error, Result, ok, raise, and_then, is_blank,
}
use digital_fte_agent.Prelude.Text.{strip, split_lines, end_lines}
use digital_fte_agent.AuditLog.{
  AuditRecord, audit_error, to_dict, Decoded, record_from_dict, record_from_mapping,
}

module _ (dumps : Dict String Value → String) (loads : String → Decoded) where
  -- `AuditRecord.to_jsonl`
  abbrev pub to_jsonl : AuditRecord → String
  to_jsonl r = dumps (to_dict r)

  -- `format_audit_log`
  abbrev pub lines_of : List AuditRecord → List String
  lines_of [] = []
  lines_of (r ∷ records) = to_jsonl r ∷ lines_of records

  unfoldable pub format_audit_log : List AuditRecord → String
  format_audit_log records = end_lines (lines_of records)

  -- `parse_jsonl_line`
  unfoldable pub parse_jsonl_line : Value → Option ℕ → Result AuditRecord
  unfolding record_from_dict
  parse_jsonl_line (str line) line_no =
      if is_blank line
      then raise (audit_log_error line_no)
      else record_from_mapping line_no (loads (strip line))
  parse_jsonl_line _ line_no = raise (audit_log_error line_no)

  -- the loop of `_iter_content_lines`, from the number of the line on
  abbrev pub content_lines : ℕ → List String → List (ℕ × String)
  content_lines index [] = []
  content_lines index (raw ∷ lines) =
      if is_blank raw
      then content_lines (suc index) lines
      else (index, raw) ∷ content_lines (suc index) lines

  unfoldable pub parse_lines : List (ℕ × String) → Result (List AuditRecord)
  unfolding parse_jsonl_line
  parse_lines [] = ok []
  parse_lines ((n, raw) ∷ lines) =
      and_then (parse_jsonl_line (str raw) (some n))
        λ r. and_then (parse_lines lines) λ records. ok (r ∷ records)

  unfoldable pub parse_jsonl : Value → Result (List AuditRecord)
  unfolding parse_lines
  parse_jsonl (str text) = parse_lines (content_lines 1 (split_lines text))
  parse_jsonl _ = raise audit_error

  -- what the loop of `validate_jsonl` does with a line: the errors that it adds
  abbrev pub line_errors : ℕ → ℕ → Result AuditRecord → Result (List Exception)
  line_errors n expected_seq (ok r) =
      ok (if r.seq == expected_seq then [] else audit_log_error (some n) ∷ [])
  line_errors n expected_seq (raise (audit_log_error l)) = ok (audit_log_error l ∷ [])
  line_errors n expected_seq (raise e) = raise e

  unfoldable pub validate_lines : ℕ → List (ℕ × String) → Result (List Exception)
  unfolding parse_jsonl_line
  validate_lines expected_seq [] = ok []
  validate_lines expected_seq ((n, raw) ∷ lines) =
      and_then (line_errors n expected_seq (parse_jsonl_line (str raw) (some n)))
        λ errors. and_then (validate_lines (expected_seq + 1) lines) λ more. ok (errors ++ more)

  unfoldable pub validate_jsonl : Value → Result (List Exception)
  unfolding validate_lines
  validate_jsonl (str text) = validate_lines 0 (content_lines 1 (split_lines text))
  validate_jsonl _ = ok (audit_error ∷ [])
