-- ===== src/LoopValidation/Tests.antt =====
-- Runs of digital_fte/loop_validation.py.
use digital_fte_agent.Prelude.{ℕ, suc, ◌≡◌, refl, false, [], ◌∷◌, arith}
use digital_fte_agent.Prelude.Values.{str, ok, is_blank, String-discrete}
use digital_fte_agent.Loop.{LoopResult, Agent, LoopOrchestrator, run}
use digital_fte_agent.LoopValidation.{validate_loop_result, is_valid_loop_result}
use digital_fte_agent.LoopValidation.Accepted.{run-accepted}

abbrev broken : LoopResult
broken = record {
  task_id = "t";
  status = "running";
  iterations = 0;
  steps = [];
  events =
      record { agent = " "; iteration = 1; input_state = "a"; output_state = "b" }
      ∷ record { agent = " "; iteration = 2; input_state = "b"; output_state = "c" }
      ∷ [];
  final_state = "c";
}

issues_once :
    validate_loop_result broken
    ≡ "invalid status" ∷ "iterations must be positive" ∷ "steps and events differ in length"
      ∷ "event agent is empty" ∷ []
unfolding validate_loop_result String-discrete is_blank
issues_once = refl

is_valid_loop_result-broken : is_valid_loop_result broken ≡ false
unfolding is_valid_loop_result String-discrete is_blank
is_valid_loop_result-broken = refl

-- The world counts the calls.
abbrev echo : Agent ℕ
echo = record { name = "echo"; run = λ c calls. (ok (str c.state), suc calls) }

abbrev echoes : LoopOrchestrator ℕ
echoes = record { agents = echo ∷ []; validator = λ s calls. (ok false, calls); max_iterations = 3 }

run-accepted_example :
    (r : LoopResult) × ((run echoes "t" "idea" 0).0 ≡ ok r) × (validate_loop_result r ≡ [])
unfolding is_blank
run-accepted_example =
    run-accepted echoes "t" "idea" 0 (omega arith) (refl, tt)
      (λ c calls. (c.state, suc calls, refl), tt) (λ s calls. (false, calls, refl))
