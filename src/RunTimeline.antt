-- ===== src/RunTimeline.antt =====
-- digital_fte/run_timeline.py: the timeline that narrates a result. Sequence and iteration numbers
-- are natural numbers, so their checks always pass. The rendering into lines is left out.
pub mod Narration
mod Tests
use digital_fte_agent.Prelude.{
  ℕ, ◌+◌, String, Bool, true, false, not, Option, none, some, List, [], ◌∷◌, ◌++◌, ◌==◌,
  if◌then◌else◌,
}
use digital_fte_agent.Prelude.Values.{
  type_error, value_error, Result, ok, raise, and_then, text_equal,
}
use digital_fte_agent.Loop.{LoopEvent, LoopResult, completed, failed}

-- `TIMELINE_KINDS`
pub data TimelineKind : Type 0 where
  run_started iteration_started agent_acted : TimelineKind
  iteration_completed run_completed run_failed : TimelineKind

pub record TimelineEvent : Type 0 where
  pub sequence : ℕ
  pub iteration : ℕ
  pub kind : TimelineKind
  pub agent : Option String
  pub from_state : Option String
  pub to_state : Option String
  pub changed : Bool

-- `from_state != to_state`
abbrev pub differ : Option String → Option String → Bool
differ none none = false
differ (some s) (some t) = not (text_equal s t)
differ _ _ = true

abbrev pub same_bool : Bool → Bool → Bool
same_bool true b = b
same_bool false b = not b

-- `TimelineEvent.__post_init__`: the event itself, where its kind, agent and change agree
abbrev pub post_init_of : TimelineKind → Option String → Bool → TimelineEvent → Result TimelineEvent
post_init_of agent_acted none consistent e = raise value_error
post_init_of agent_acted (some a) consistent e = if consistent then ok e else raise value_error
post_init_of _ none consistent e = ok e
post_init_of _ (some a) consistent e = raise value_error

unfoldable pub post_init : TimelineEvent → Result TimelineEvent
post_init e = post_init_of e.kind e.agent (same_bool e.changed (differ e.from_state e.to_state)) e

-- the property `is_terminal`
abbrev pub is_terminal : TimelineKind → Bool
is_terminal run_completed = true
is_terminal run_failed = true
is_terminal _ = false

-- the local variables `timeline` and `seq` of `build_timeline`
pub record Builder : Type 0 where
  pub timeline : List TimelineEvent
  pub seq : ℕ

-- `timeline.append(TimelineEvent(seq, ...)); seq += 1`
unfoldable pub emit : (ℕ → TimelineEvent) → Builder → Result Builder
unfolding post_init
emit event b =
    and_then (post_init (event b.seq))
      λ e. ok (record { timeline = b.timeline ++ e ∷ []; seq = b.seq + 1 })

abbrev pub marker : ℕ → TimelineKind → Option String → ℕ → TimelineEvent
marker iteration kind to_state seq = record {
  sequence = seq;
  iteration = iteration;
  kind = kind;
  agent = none;
  from_state = none;
  to_state = to_state;
  changed = false;
}

abbrev pub action : LoopEvent → ℕ → TimelineEvent
action e seq = record {
  sequence = seq;
  iteration = e.iteration;
  kind = agent_acted;
  agent = some e.agent;
  from_state = some e.input_state;
  to_state = some e.output_state;
  changed = not (text_equal e.input_state e.output_state);
}

-- `if open_iteration is not None`: its end is marked
unfoldable pub end_iteration : Option ℕ → Builder → Result Builder
unfolding emit
end_iteration none b = ok b
end_iteration (some i) b = emit (marker i iteration_completed none) b

-- `open_iteration != event.iteration`
abbrev pub is_other : Option ℕ → ℕ → Bool
is_other none i = true
is_other (some open_iteration) i = not (open_iteration == i)

-- the part of the loop's body that opens an iteration
unfoldable pub begin_iteration : Option ℕ → ℕ → Builder → Result Builder
unfolding end_iteration
begin_iteration open_iteration i b =
    if is_other open_iteration i
    then and_then (end_iteration open_iteration b) (emit (marker i iteration_started none))
    else ok b

-- `for event in events`, with the iteration that is open: afterwards it is the last event's
unfoldable pub narrate : Option ℕ → List LoopEvent → Builder → Result (Option ℕ × Builder)
unfolding begin_iteration
narrate open_iteration [] b = ok (open_iteration, b)
narrate open_iteration (e ∷ events) b =
    and_then (begin_iteration open_iteration e.iteration b)
      λ b'. and_then (emit (action e) b') λ b''. narrate (some e.iteration) events b''

-- `_first_iteration`
abbrev pub first_iteration : List LoopEvent → ℕ
first_iteration [] = 0
first_iteration (e ∷ events) = e.iteration

abbrev pub initial_state : LoopResult → List LoopEvent → String
initial_state r [] = r.final_state
initial_state r (e ∷ events) = e.input_state

abbrev pub or_first : Option ℕ → ℕ → ℕ
or_first none first = first
or_first (some i) first = i

-- `build_timeline`, for a result with a status that it supports
unfoldable pub build : TimelineKind → LoopResult → Result (List TimelineEvent)
unfolding narrate
build terminal r =
    let first = first_iteration r.events in
    and_then
      (emit (marker first run_started (some (initial_state r r.events)))
        (record { timeline = []; seq = 0 }))
      λ opened. and_then (narrate none r.events opened) λ told.
        and_then (end_iteration told.0 told.1) λ b.
          and_then (emit (marker (or_first told.0 first) terminal (some r.final_state)) b)
            λ closed. ok closed.timeline

-- An argument that is no LoopResult is `none`.
unfoldable pub build_timeline : Option LoopResult → Result (List TimelineEvent)
unfolding build
build_timeline none = raise type_error
build_timeline (some r) =
    if text_equal r.status completed
    then build run_completed r
    else if text_equal r.status failed
    then build run_failed r
    else raise value_error

abbrev pub kind_code : TimelineKind → ℕ
kind_code run_started = 0
kind_code iteration_started = 1
kind_code agent_acted = 2
kind_code iteration_completed = 3
kind_code run_completed = 4
kind_code run_failed = 5

-- `event.kind == kind` over the events
unfoldable pub keep_kind : TimelineKind → List TimelineEvent → List TimelineEvent
keep_kind kind [] = []
keep_kind kind (e ∷ events) =
    if kind_code e.kind == kind_code kind then e ∷ keep_kind kind events else keep_kind kind events

-- `filter_timeline`: a kind that is not recognised is `none`.
unfoldable pub filter_timeline :
    List TimelineEvent → Option TimelineKind → Result (List TimelineEvent)
unfolding keep_kind
filter_timeline timeline none = raise value_error
filter_timeline timeline (some kind) = ok (keep_kind kind timeline)
