-- ===== src/StateDiff.antt =====
-- digital_fte/state_diff.py: what changed between two results of the same task. An argument that is
-- no LoopResult is `none`. The rendering into lines is left out.
pub mod Split
mod Tests
use digital_fte_agent.Prelude.{
  ℕ, suc, String, ◌≡◌, ap, ◌≢◌, inl, inr, ite, Bool, true, false, not, ◌&&◌, ◌||◌, Option, none,
  some, List, [], ◌∷◌, arith, ◌==◌, if◌then◌else◌, Bool-cases, drop,
}
use digital_fte_agent.Prelude.Int.{ℤ, pos, ◌-ℤ◌, ltb_ℤ}
use digital_fte_agent.Prelude.Values.{
  type_error, value_error, Result, ok, raise, and_then, String-discrete, text_equal,
}
use digital_fte_agent.Prelude.Dict.{Dict, keys, insert}
use digital_fte_agent.Loop.{LoopStep, LoopEvent, LoopResult}

pub LoopStep-path :
    (a b : LoopStep)
    → a.agent ≡ b.agent
    → a.state ≡ b.state
    → (a.iteration == b.iteration) ≡ true
    → a ≡ b
LoopStep-path a b p q r = ground arith

pub LoopStep-differ : (a b : LoopStep) → (a.iteration == b.iteration) ≡ false → a ≢ b
LoopStep-differ a b r e = ground arith

pub LoopEvent-path :
    (a b : LoopEvent)
    → a.agent ≡ b.agent
    → a.input_state ≡ b.input_state
    → a.output_state ≡ b.output_state
    → (a.iteration == b.iteration) ≡ true
    → a ≡ b
LoopEvent-path a b p q o r = ground arith

pub LoopEvent-differ : (a b : LoopEvent) → (a.iteration == b.iteration) ≡ false → a ≢ b
LoopEvent-differ a b r e = ground arith

-- `==` on the frozen dataclasses compares their fields.
unfoldable pub LoopStep-discrete : Discrete LoopStep
LoopStep-discrete a b = elim (String-discrete a.agent b.agent) [
  | no n ↦ no (λ e. n (ap (λ s. s.agent) e))
  | yes p ↦ elim (String-discrete a.state b.state) [
    | no n ↦ no (λ e. n (ap (λ s. s.state) e))
    | yes q ↦ elim (Bool-cases (a.iteration == b.iteration)) [
      | inl r ↦ yes (LoopStep-path a b p q r)
      | inr r ↦ no (LoopStep-differ a b r)
    ]
  ]
]

unfoldable pub LoopEvent-discrete : Discrete LoopEvent
LoopEvent-discrete a b = elim (String-discrete a.agent b.agent) [
  | no n ↦ no (λ e. n (ap (λ s. s.agent) e))
  | yes p ↦ elim (String-discrete a.input_state b.input_state) [
    | no n ↦ no (λ e. n (ap (λ s. s.input_state) e))
    | yes q ↦ elim (String-discrete a.output_state b.output_state) [
      | no n ↦ no (λ e. n (ap (λ s. s.output_state) e))
      | yes o ↦ elim (Bool-cases (a.iteration == b.iteration)) [
        | inl r ↦ yes (LoopEvent-path a b p q o r)
        | inr r ↦ no (LoopEvent-differ a b r)
      ]
    ]
  ]
]

-- `_common_prefix_length`
abbrev pub common_prefix_length : {A : Type 0} → Discrete A → List A → List A → ℕ
common_prefix_length dec [] right = 0
common_prefix_length dec (a ∷ left) [] = 0
common_prefix_length dec (a ∷ left) (b ∷ right) =
    ite (dec a b) (suc (common_prefix_length dec left right)) 0

pub record StateDiff : Type 0 where
  pub task_id : String
  pub status_before : String
  pub status_after : String
  pub iterations_before : ℕ
  pub iterations_after : ℕ
  pub final_state_before : String
  pub final_state_after : String
  pub steps_added : List LoopStep
  pub steps_removed : List LoopStep
  pub events_added : List LoopEvent
  pub events_removed : List LoopEvent

-- `bool(entries)`
abbrev pub some_of : {A : Type 0} → List A → Bool
some_of [] = false
some_of (a ∷ l) = true

-- the properties of the class
unfoldable pub iterations_delta : StateDiff → ℤ
unfolding ◌-ℤ◌
iterations_delta d = pos d.iterations_after -ℤ pos d.iterations_before

abbrev pub status_changed : StateDiff → Bool
status_changed d = not (text_equal d.status_before d.status_after)

abbrev pub final_state_changed : StateDiff → Bool
final_state_changed d = not (text_equal d.final_state_before d.final_state_after)

-- `number != 0`
abbrev pub is_nonzero : ℤ → Bool
is_nonzero z = ltb_ℤ z (pos 0) || ltb_ℤ (pos 0) z

unfoldable pub is_noop : StateDiff → Bool
unfolding iterations_delta
is_noop d = not (
    status_changed d
    || final_state_changed d
    || is_nonzero (iterations_delta d)
    || some_of d.steps_added
    || some_of d.steps_removed
    || some_of d.events_added
    || some_of d.events_removed)

abbrev pub is_progression : StateDiff → Bool
is_progression d =
    (some_of d.events_added || some_of d.steps_added)
    && not (some_of d.events_removed || some_of d.steps_removed)

abbrev pub is_rewind : StateDiff → Bool
is_rewind d =
    (some_of d.events_removed || some_of d.steps_removed)
    && not (some_of d.events_added || some_of d.steps_added)

abbrev pub is_divergence : StateDiff → Bool
is_divergence d =
    (some_of d.events_removed || some_of d.steps_removed)
    && (some_of d.events_added || some_of d.steps_added)

-- `seen.setdefault(event.agent, None)` over the events
abbrev pub engage : List LoopEvent → Dict String (Unit {0}) → Dict String (Unit {0})
engage [] seen = seen
engage (e ∷ events) seen = engage events (insert String-discrete e.agent tt seen)

unfoldable pub agents_engaged : StateDiff → List String
agents_engaged d = keys (engage d.events_added [])

abbrev pub has_changes : StateDiff → Bool
has_changes d = not (is_noop d)

-- `isinstance(argument, LoopResult)`
abbrev pub as_result : Option LoopResult → Result LoopResult
as_result none = raise type_error
as_result (some r) = ok r

-- the `StateDiff` that `diff_states` builds from the two prefixes
unfoldable pub diff_of : LoopResult → LoopResult → StateDiff
diff_of before after =
    let step_prefix = common_prefix_length LoopStep-discrete before.steps after.steps in
    let event_prefix = common_prefix_length LoopEvent-discrete before.events after.events in
    record {
      task_id = after.task_id;
      status_before = before.status;
      status_after = after.status;
      iterations_before = before.iterations;
      iterations_after = after.iterations;
      final_state_before = before.final_state;
      final_state_after = after.final_state;
      steps_added = drop step_prefix after.steps;
      steps_removed = drop step_prefix before.steps;
      events_added = drop event_prefix after.events;
      events_removed = drop event_prefix before.events;
    }

unfoldable pub diff_states : Option LoopResult → Option LoopResult → Result StateDiff
unfolding diff_of
diff_states b a = and_then (as_result b) λ before. and_then (as_result a) λ after.
    if text_equal before.task_id after.task_id then ok (diff_of before after) else raise value_error

-- the classification in the first line of `render_diff`
abbrev pub shape : StateDiff → String
shape d =
    if is_noop d
    then "noop"
    else if is_progression d
    then "progression"
    else if is_rewind d
    then "rewind"
    else if is_divergence d
    then "divergence"
    else "changed"
