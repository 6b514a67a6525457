-- ===== src/LoopValidation.antt =====
-- digital_fte/loop_validation.py: the checks of a result of the orchestrator. The states of an event
-- are texts, so the check of their type always passes.
pub mod Accepted
mod Tests
use digital_fte_agent.Prelude.{
  String, Bool, true, false, not, ◌||◌, List, [], ◌∷◌, ◌++◌, ltb, ◌==◌, if◌then◌else◌, length,
}
use digital_fte_agent.Prelude.Values.{is_blank, String-discrete, text_equal}
use digital_fte_agent.Prelude.Dict.{Dict, keys, insert}
use digital_fte_agent.Loop.{LoopEvent, LoopResult, completed, failed}

-- `if condition: issues.append(issue)`
abbrev pub issue_if : Bool → String → List String
issue_if condition issue = if condition then issue ∷ [] else []

-- `for event in result.events`
abbrev pub event_issues : List LoopEvent → List String
event_issues [] = []
event_issues (e ∷ events) =
    issue_if (is_blank e.agent) "event agent is empty"
    ++ issue_if (ltb e.iteration 1) "event iteration is invalid"
    ++ event_issues events

abbrev pub all_issues : LoopResult → List String
all_issues r =
    issue_if (not (text_equal r.status completed || text_equal r.status failed)) "invalid status"
    ++ issue_if (ltb r.iterations 1) "iterations must be positive"
    ++ issue_if (not (length r.steps == length r.events)) "steps and events differ in length"
    ++ event_issues r.events

-- `dict.fromkeys`
abbrev pub from_keys : List String → Dict String (Unit {0}) → Dict String (Unit {0})
from_keys [] d = d
from_keys (issue ∷ issues) d = from_keys issues (insert String-discrete issue tt d)

unfoldable pub validate_loop_result : LoopResult → List String
validate_loop_result r = keys (from_keys (all_issues r) [])

abbrev pub no_issue : List String → Bool
no_issue [] = true
no_issue (issue ∷ issues) = false

unfoldable pub is_valid_loop_result : LoopResult → Bool
unfolding validate_loop_result
is_valid_loop_result r = no_issue (validate_loop_result r)
