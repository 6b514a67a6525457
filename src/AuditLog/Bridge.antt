-- ===== src/AuditLog/Bridge.antt =====
-- The log of a result: digital_fte/audit_log.py over the timeline of digital_fte/run_timeline.py.
use digital_fte_agent.Prelude.{
  ℕ, suc, String, ◌≡◌, refl, ◌⊎◌, Bool, Option, none, some, List, [], ◌∷◌, arith,
}
use digital_fte_agent.Prelude.Dict.{Dict}
use digital_fte_agent.Prelude.Values.{Value, str, ok}
use digital_fte_agent.Loop.{LoopResult, completed, failed}
use digital_fte_agent.RunTimeline.{
  TimelineKind, run_started, iteration_started, agent_acted, iteration_completed, run_completed,
  run_failed, TimelineEvent, post_init_of, post_init, build_timeline,
}
use digital_fte_agent.RunTimeline.Narration.{Numbered, AllChecked, build_timeline-Narrates}
use digital_fte_agent.AuditLog.{
  audit_schema_version, AuditRecord, check_agent, record_from_timeline_event, records_from,
  build_audit_records, Decoded,
}
use digital_fte_agent.AuditLog.Log.{format_audit_log, parse_jsonl, validate_jsonl}
use digital_fte_agent.AuditLog.RoundTrip.{
  IsAudit, audit_record-values, IsEncoded, AllEncoded, parse_jsonl-format_audit_log, Counts,
  validate_jsonl-Counts,
}

-- The record of an event that passed its checks.
abbrev pub record_of : TimelineEvent → AuditRecord
record_of e = record {
  seq = e.sequence;
  iteration = e.iteration;
  kind = e.kind;
  agent = e.agent;
  from_state = e.from_state;
  to_state = e.to_state;
  changed = e.changed;
  version = audit_schema_version;
}

agent_checked :
    (k : TimelineKind) (a : Option String) (consistent : Bool) (e : TimelineEvent)
    → post_init_of k a consistent e ≡ ok e
    → check_agent k a consistent ≡ ok tt
agent_checked agent_acted none consistent e h = ground arith
agent_checked agent_acted (some a) consistent e h = ground arith
agent_checked run_started none consistent e h = refl
agent_checked iteration_started none consistent e h = refl
agent_checked iteration_completed none consistent e h = refl
agent_checked run_completed none consistent e h = refl
agent_checked run_failed none consistent e h = refl
agent_checked run_started (some a) consistent e h = ground arith
agent_checked iteration_started (some a) consistent e h = ground arith
agent_checked iteration_completed (some a) consistent e h = ground arith
agent_checked run_completed (some a) consistent e h = ground arith
agent_checked run_failed (some a) consistent e h = ground arith

record_of-IsAudit : (e : TimelineEvent) → post_init e ≡ ok e → IsAudit (record_of e)
unfolding post_init
record_of-IsAudit e h = record { current = refl; agrees = agent_checked e.kind e.agent _ e h }

record_from_timeline_event-checked :
    (e : TimelineEvent) → post_init e ≡ ok e → record_from_timeline_event e ≡ ok (record_of e)
unfolding record_from_timeline_event
record_from_timeline_event-checked e h = audit_record-values (record_of e) (record_of-IsAudit e h)

abbrev pub records_of : List TimelineEvent → List AuditRecord
records_of [] = []
records_of (e ∷ events) = record_of e ∷ records_of events

records_from-checked :
    (events : List TimelineEvent) → AllChecked events → records_from events ≡ ok (records_of events)
unfolding records_from
records_from-checked [] h = refl
records_from-checked (e ∷ events) h =
    rw (record_from_timeline_event-checked e h.0, records_from-checked events h.1)

module _ (dumps : Dict String Value → String) (loads : String → Decoded) where
  abbrev pub EachEncoded : List AuditRecord → Type 0
  EachEncoded [] = Unit
  EachEncoded (r ∷ records) = IsEncoded dumps loads r × EachEncoded records

  AllEncoded-records_of :
      (events : List TimelineEvent)
      → AllChecked events
      → EachEncoded (records_of events)
      → AllEncoded dumps loads (records_of events)
  AllEncoded-records_of [] h k = tt
  AllEncoded-records_of (e ∷ events) h k =
      (k.0, record_of-IsAudit e h.0, AllEncoded-records_of events h.1 k.1)

  Counts-records_of :
      (n : ℕ) (events : List TimelineEvent)
      → Numbered n events
      → Counts dumps loads n (records_of events)
  Counts-records_of n [] h = tt
  Counts-records_of n (e ∷ events) h = (h.0, Counts-records_of (suc n) events h.1)

  -- A completed or failed result has audit records, one for each event of its timeline, if the JSON of
  -- each audit record of the result is a single line, with nothing to strip, that `loads` decodes back;
  -- and then validating the formatted log finds no error, and parsing it gives the records.
  pub validate_jsonl-build_audit_records :
      (r : LoopResult)
      → (r.status ≡ completed) ⊎ (r.status ≡ failed)
      → ((records : List AuditRecord)
          → build_audit_records (some r) ≡ ok records
          → EachEncoded records)
      → (timeline : List TimelineEvent) × (build_timeline (some r) ≡ ok timeline)
        × (build_audit_records (some r) ≡ ok (records_of timeline))
        × (validate_jsonl dumps loads (str (format_audit_log dumps loads (records_of timeline)))
            ≡ ok [])
        × (parse_jsonl dumps loads (str (format_audit_log dumps loads (records_of timeline)))
            ≡ ok (records_of timeline))
  unfolding build_audit_records
  validate_jsonl-build_audit_records r status encoded =
      let (timeline, built, narrates) = build_timeline-Narrates r status in
      let records : build_audit_records (some r) ≡ ok (records_of timeline) =
        rw built (records_from-checked timeline narrates.checked) in
      let all =
        AllEncoded-records_of timeline narrates.checked (encoded (records_of timeline) records) in
      (
        timeline,
        built,
        records,
        validate_jsonl-Counts dumps loads (records_of timeline) all
            (Counts-records_of 0 timeline narrates.numbered),
        parse_jsonl-format_audit_log dumps loads (records_of timeline) all,
      )
