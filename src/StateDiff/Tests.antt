-- ===== src/StateDiff/Tests.antt =====
-- Runs of digital_fte/state_diff.py.
use digital_fte_agent.Prelude.{ℕ, String, ◌≡◌, refl, some, [], ◌∷◌}
use digital_fte_agent.Prelude.Values.{ok, String-discrete}
use digital_fte_agent.Loop.{LoopStep, LoopEvent, LoopResult}
use digital_fte_agent.StateDiff.{
  LoopStep-discrete, LoopEvent-discrete, StateDiff, is_noop, agents_engaged, diff_of, diff_states,
  shape,
}
use digital_fte_agent.StateDiff.Split.{Splits, diff_states-Splits}

abbrev step : String → ℕ → LoopStep
step s i = record { agent = "writer"; state = s; iteration = i }

abbrev event : String → String → ℕ → LoopEvent
event s t i = record { agent = "writer"; iteration = i; input_state = s; output_state = t }

abbrev first_try : LoopResult
first_try = record {
  task_id = "t";
  status = "failed";
  iterations = 1;
  steps = step "draft" 1 ∷ [];
  events = event "idea" "draft" 1 ∷ [];
  final_state = "draft";
}

abbrev resumed : LoopResult
resumed = record {
  task_id = "t";
  status = "completed";
  iterations = 2;
  steps = step "draft" 1 ∷ step "text" 2 ∷ [];
  events = event "idea" "draft" 1 ∷ event "draft" "text" 2 ∷ [];
  final_state = "text";
}

diff_grows : shape (diff_of first_try resumed) ≡ "progression"
unfolding diff_of is_noop String-discrete LoopStep-discrete LoopEvent-discrete
diff_grows = refl

diff_back : shape (diff_of resumed first_try) ≡ "rewind"
unfolding diff_of is_noop String-discrete LoopStep-discrete LoopEvent-discrete
diff_back = refl

diff_engages : agents_engaged (diff_of first_try resumed) ≡ "writer" ∷ []
unfolding diff_of agents_engaged String-discrete LoopEvent-discrete
diff_engages = refl

diff_states-Splits_example :
    (d : StateDiff) × (diff_states (some first_try) (some resumed) ≡ ok d)
    × Splits first_try.steps resumed.steps d.steps_removed d.steps_added
    × Splits first_try.events resumed.events d.events_removed d.events_added
diff_states-Splits_example = diff_states-Splits first_try resumed refl
