-- ===== src/Loop.antt =====
-- digital_fte/loop.py: the orchestrator that runs the agents until the validator accepts. Agents and
-- the validator are given by the caller: they may keep a state of their own, the world, and may
-- raise. Iteration numbers are not negative.
pub mod Resume
pub mod Trace
pub mod Calls
pub mod Outcome
pub mod Returns
mod Tests
use digital_fte_agent.Prelude.{
  ℕ, zero, suc, ◌+◌, ◌-◌, String, ite, Bool, true, false, List, [], ◌∷◌, ◌++◌, ltb, if◌then◌else◌,
}
use digital_fte_agent.Prelude.Int.{pos}
use digital_fte_agent.Prelude.Values.{
  Value, int, str, type_error, value_error, Result, ok, raise, and_then, String-discrete,
}
use digital_fte_agent.Prelude.Action.{Action, ◌>>=◌, ◌>>◌, pure, check}

pub record LoopContext : Type 0 where
  pub task_id : String
  pub iteration : ℕ
  pub state : String

pub record LoopStep : Type 0 where
  pub agent : String
  pub state : String
  pub iteration : ℕ

pub record LoopEvent : Type 0 where
  pub agent : String
  pub iteration : ℕ
  pub input_state : String
  pub output_state : String

pub record LoopResult : Type 0 where
  pub task_id : String
  pub status : String
  pub iterations : ℕ
  pub steps : List LoopStep
  pub events : List LoopEvent
  pub final_state : String

abbrev pub completed : String
completed = "completed"

abbrev pub failed : String
failed = "failed"

-- `Agent`: what `run` returns need not be a string.
pub record Agent (World : Type 0) : Type 0 where
  pub name : String
  pub run : LoopContext → Action World Value

pub record LoopOrchestrator (World : Type 0) : Type 0 where
  pub agents : List (Agent World)
  pub validator : String → Action World Bool
  pub max_iterations : ℕ

-- the local variables of `_run`
pub record Progress : Type 0 where
  pub state : String
  pub steps : List LoopStep
  pub events : List LoopEvent

-- The check of `max_iterations` and of `additional_iterations`.
unfoldable pub validate_iterations : Value → Result ℕ
validate_iterations (int (pos n)) = if ltb n 1 then raise value_error else ok n
validate_iterations _ = raise value_error

-- `isinstance(state, str)`
abbrev pub as_state : Value → Result String
as_state (str s) = ok s
as_state _ = raise type_error

unfoldable pub finish : String → String → ℕ → Progress → LoopResult
finish task_id status iterations p = record {
  task_id = task_id;
  status = status;
  iterations = iterations;
  steps = p.steps;
  events = p.events;
  final_state = p.state;
}

-- the step and the event that record a turn of an agent
unfoldable pub record_turn : ℕ → String → Progress → String → Progress
record_turn iteration name p s = record {
  state = s;
  steps = p.steps ++ record { agent = name; state = s; iteration = iteration } ∷ [];
  events =
      p.events
      ++ record { agent = name; iteration = iteration; input_state = p.state; output_state = s }
        ∷ [];
}

module _ {World : Type 0} where
  -- `LoopOrchestrator.__init__`
  unfoldable pub init :
      List (Agent World) → (String → Action World Bool) → Value → Result (LoopOrchestrator World)
  unfolding validate_iterations
  init [] validator max_iterations = raise value_error
  init (a ∷ agents) validator max_iterations =
      and_then (validate_iterations max_iterations)
        λ n. ok (record { agents = a ∷ agents; validator = validator; max_iterations = n })

  -- one agent's turn
  unfoldable pub turn : String → ℕ → Agent World → Progress → Action World Progress
  unfolding record_turn
  turn task_id iteration a p = do
    v ← a.run (record { task_id = task_id; iteration = iteration; state = p.state })
    s ← check (as_state v)
    pure (record_turn iteration a.name p s)

  -- `for agent in self.agents`
  unfoldable pub run_agents : String → ℕ → List (Agent World) → Progress → Action World Progress
  run_agents task_id iteration [] p = pure p
  run_agents task_id iteration (a ∷ agents) p =
      turn task_id iteration a p >>= λ p'. run_agents task_id iteration agents p'

  -- `for iteration in range(start_iteration, limit + 1)`, with the rounds that are left
  unfoldable pub run_rounds :
      List (Agent World)
      → (String → Action World Bool)
      → String
      → (limit rounds iteration : ℕ) → Progress
      → Action World LoopResult
  unfolding finish
  run_rounds agents validator task_id limit zero iteration p = pure (finish task_id failed limit p)
  run_rounds agents validator task_id limit (suc rounds) iteration p =
      run_agents task_id iteration agents p >>= λ p'. validator p'.state >>= λ accepted.
      elim accepted [
        | true ↦ pure (finish task_id completed iteration p')
        | false ↦ run_rounds agents validator task_id limit rounds (iteration + 1) p'
      ]

  -- `_run`: `range` has `limit + 1 - start` numbers
  unfoldable pub run_from :
      LoopOrchestrator World → String → (start limit : ℕ) → Progress → Action World LoopResult
  run_from o task_id start limit p =
      run_rounds o.agents o.validator task_id limit (limit + 1 - start) start p

  unfoldable pub run : LoopOrchestrator World → String → String → Action World LoopResult
  unfolding run_from
  run o task_id initial_state =
      run_from o task_id 1 o.max_iterations
        (record { state = initial_state; steps = []; events = [] })

  unfoldable pub resume_by : LoopOrchestrator World → LoopResult → ℕ → Action World LoopResult
  unfolding run_from
  resume_by o r additional = ite (String-discrete r.status completed) (pure r) (
      run_from o r.task_id (r.iterations + 1) (r.iterations + additional)
        (record { state = r.final_state; steps = r.steps; events = r.events }))

  unfoldable pub resume : LoopOrchestrator World → LoopResult → Value → Action World LoopResult
  unfolding resume_by validate_iterations
  resume o r additional_iterations = do
    additional ← check (validate_iterations additional_iterations)
    resume_by o r additional
