-- ===== src/Loop/Tests.antt =====
-- Runs of the orchestrator with two agents, and its theorems about them.
use digital_fte_agent.Prelude.{ℕ, ◌+◌, ◌≡◌, refl, ◌↔◌, [], ◌∷◌, arith, leb}
use digital_fte_agent.Prelude.Int.{pos}
use digital_fte_agent.Prelude.Values.{int, str, value_error, ok, raise}
use digital_fte_agent.Prelude.Action.{◌>>=◌}
use digital_fte_agent.Loop.{
  LoopResult, failed, Agent, LoopOrchestrator, turn, run_agents, run_rounds, run, resume,
}
use digital_fte_agent.Loop.Resume.{run-resume}
use digital_fte_agent.Loop.Trace.{step_of, map_events}
use digital_fte_agent.Loop.Outcome.{Rounds, run-Rounds}

-- The world counts the calls. The writer toggles the draft, and the critic keeps the state.
abbrev writer : Agent ℕ
writer = record { name = "writer"; run = λ c calls. (ok (str "draft"), calls + 1) }

abbrev critic : Agent ℕ
critic = record { name = "critic"; run = λ c calls. (ok (str c.state), calls + 1) }

-- Accepts once four calls have been made.
abbrev orchestrator : LoopOrchestrator ℕ
orchestrator = record {
  agents = writer ∷ critic ∷ [];
  validator = λ s calls. (ok (leb 4 calls), calls);
  max_iterations = 1;
}

abbrev after_one : LoopResult
after_one = record {
  task_id = "t";
  status = failed;
  iterations = 1;
  steps =
      record { agent = "writer"; state = "draft"; iteration = 1 }
      ∷ record { agent = "critic"; state = "draft"; iteration = 1 }
      ∷ [];
  events =
      record { agent = "writer"; iteration = 1; input_state = "idea"; output_state = "draft" }
      ∷ record { agent = "critic"; iteration = 1; input_state = "draft"; output_state = "draft" }
      ∷ [];
  final_state = "draft";
}

run_runs : run orchestrator "t" "idea" 0 ≡ (ok after_one, 2)
unfolding run run_rounds run_agents turn
run_runs = refl

completes : (run (record orchestrator { max_iterations = 5 }) "t" "idea" 0).1 ≡ 4
unfolding run run_rounds run_agents turn
completes = refl

resume_nothing : resume orchestrator after_one (int (pos 0)) 2 ≡ (raise value_error, 2)
unfolding resume
resume_nothing = refl

run-resume_example :
    (run orchestrator "t" "idea" >>= λ r. resume orchestrator r (int (pos 3))) 0
    ≡ run (record orchestrator { max_iterations = 4 }) "t" "idea" 0
run-resume_example = run-resume orchestrator "t" 3 "idea" 0 (omega arith)

run-Rounds_example : (run orchestrator "t" "idea" 0 ≡ (ok after_one, 2)) ↔ (
    Rounds "t"
      (writer ∷ critic ∷ [])
      (orchestrator.validator)
      1
      1
      1
      "idea"
      0
      after_one.events
      failed
      1
      "draft"
      2
    × (after_one.steps ≡ map_events step_of after_one.events)
    × (after_one.task_id ≡ "t"))
run-Rounds_example = run-Rounds orchestrator "t" "idea" 0 2 after_one
