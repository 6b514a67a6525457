-- ===== src/Loop/Outcome.antt =====
-- A run of digital_fte/loop.py as the calls of the agents and of the validator.
use digital_fte_agent.Prelude.{
  ℕ, zero, suc, ◌+◌, ◌-◌, String, ◌≡◌, refl, sym, ap, subst, ◌∙◌, ◌↔◌, Bool, true, false, List, [],
  ◌++◌, append-nil, append_assoc, arith,
}
use digital_fte_agent.Prelude.Values.{ok, ok_injective}
use digital_fte_agent.Prelude.Action.{Action, ◌>>=◌, pure}
use digital_fte_agent.Loop.{
  LoopStep, LoopEvent, LoopResult, completed, failed, Agent, LoopOrchestrator, Progress, finish,
  run_agents, run_rounds, run,
}
use digital_fte_agent.Loop.Trace.{step_of, map_events, map_events-append}
use digital_fte_agent.Loop.Calls.{Calls, bind_ok, bind_eq, run_agents-Calls, Calls-run_agents}

module _ {World : Type 0} (task_id : String) where
  -- The rounds from iteration `i` on, of which at most `left` are made: each calls the agents and then
  -- the validator on the state that they left, and the next one is made if the validator rejects it.
  -- The status, the number of iterations and the state are those that the run ends with.
  pub data Rounds (agents : List (Agent World)) (validator : String → Action World Bool) (limit : ℕ)
      : (left i : ℕ)
        → String
        → World
        → List LoopEvent
        → (status : String) (iterations : ℕ) → String
        → World
        → Type 0 where
    none_left :
        {i : ℕ} {s : String} {w : World}
        → Rounds agents validator limit zero i s w [] failed limit s w
    accepted :
        {left i : ℕ} {s s' : String} {w w' w'' : World} {events : List LoopEvent}
        → Calls task_id i agents s w events s' w'
        → validator s' w' ≡ (ok true, w'')
        → Rounds agents validator limit (suc left) i s w events completed i s' w''
    rejected :
        {left i n : ℕ} {s s' t status : String} {w w' w'' u : World} {events more : List LoopEvent}
        → Calls task_id i agents s w events s' w'
        → validator s' w' ≡ (ok false, w'')
        → Rounds agents validator limit left (i + 1) s' w'' more status n t u
        → Rounds agents validator limit (suc left) i s w (events ++ more) status n t u

module _ {World : Type 0} (task_id : String) where
  module _ (agents : List (Agent World)) (validator : String → Action World Bool) (limit : ℕ) where
    -- `r` adds the events of such rounds to those of `p`, and their steps.
    abbrev Tells : (left i : ℕ) → Progress → World → LoopResult → World → Type 0
    Tells left i p w r w' =
        (events : List LoopEvent) × Rounds task_id agents validator limit left i p.state w events
          r.status r.iterations r.final_state w'
        × (r.events ≡ p.events ++ events)
        × (r.steps ≡ p.steps ++ map_events step_of events)
        × (r.task_id ≡ task_id)

    -- What follows the agents of a round.
    abbrev judge : (left i : ℕ) → Progress → Bool → Action World LoopResult
    judge left i p' verdict = elim verdict [
      | true ↦ pure (finish task_id completed i p')
      | false ↦ run_rounds agents validator task_id limit left (i + 1) p'
    ]

    finish-Tells :
        (i : ℕ) (p : Progress) (w w' : World) (r : LoopResult)
        → pure (finish task_id failed limit p) w ≡ (ok r, w')
        → Tells zero i p w r w'
    unfolding finish
    finish-Tells i p w w' r h =
        let same = ok_injective (finish task_id failed limit p) r (ap (λ x. x.0) h) in
        let here : w ≡ w' = ap (λ x. x.1) h in
        subst (λ x. Tells zero i p w x w') same
          (
            [],
            subst (Rounds task_id agents validator limit zero i p.state w [] failed limit p.state)
                here none_left,
            sym (append-nil p.events),
            sym (append-nil p.steps),
            refl,
          )

    judge-Tells :
        (left i : ℕ) (p q : Progress) (w u u' w' : World) (r : LoopResult) (events : List LoopEvent)
        → ((v : World)
            → run_rounds agents validator task_id limit left (i + 1) q v ≡ (ok r, w')
            → Tells left (i + 1) q v r w')
        → Calls task_id i agents p.state w events q.state u
        → q.events ≡ p.events ++ events
        → q.steps ≡ p.steps ++ map_events step_of events
        → (verdict : Bool) → validator q.state u ≡ (ok verdict, u')
        → judge left i q verdict u' ≡ (ok r, w')
        → Tells (suc left) i p w r w'
    unfolding finish
    judge-Tells left i p q w u u' w' r events later calls same_events same_steps true checked rest =
        let same = ok_injective (finish task_id completed i q) r (ap (λ x. x.0) rest) in
        let here : u' ≡ w' = ap (λ x. x.1) rest in
        subst (λ x. Tells (suc left) i p w x w') same
          (
            events,
            accepted calls (subst (λ x. validator q.state u ≡ (ok true, x)) here checked),
            same_events,
            same_steps,
            refl,
          )
    judge-Tells left i p q w u u' w' r events later calls same_events same_steps false checked
          rest =
        let (more, rounds, more_events, more_steps, task) = later u' rest in
        (
          events ++ more,
          rejected calls checked rounds,
          more_events ∙ ap (λ x. x ++ more) same_events ∙ append_assoc p.events events more,
          more_steps
              ∙ ap (λ x. x ++ map_events step_of more) same_steps
              ∙ append_assoc p.steps (map_events step_of events) (map_events step_of more)
              ∙ ap (◌++◌ p.steps) (sym (map_events-append step_of events more)),
          task,
        )

    run_rounds-Tells :
        (left i : ℕ) (p : Progress) (w w' : World) (r : LoopResult)
        → run_rounds agents validator task_id limit left i p w ≡ (ok r, w')
        → Tells left i p w r w'
    unfolding run_rounds
    run_rounds-Tells zero i p w w' r h = finish-Tells i p w w' r h
    run_rounds-Tells (suc left) i p w w' r h =
        let (q, u, turns, rest) =
          bind_ok (run_agents task_id i agents p) (λ p'. validator p'.state >>= judge left i p') w
            w' r h in
        let (verdict, u', checked, rest') =
          bind_ok (validator q.state) (judge left i q) u w' r rest in
        let (events, calls, same_events, same_steps) =
          run_agents-Calls task_id i agents p q w u turns in
        judge-Tells left i p q w u u' w' r events (λ v. run_rounds-Tells left (i + 1) q v w' r)
          calls same_events same_steps verdict checked rest'

    Rounds-run_rounds :
        {left i n : ℕ} {s t status : String} {w w' : World} {events : List LoopEvent}
        → Rounds task_id agents validator limit left i s w events status n t w'
        → (steps : List LoopStep) (before : List LoopEvent)
        → run_rounds agents validator task_id limit left i
            (record { state = s; steps = steps; events = before })
            w
          ≡ (
            ok (record {
              task_id = task_id;
              status = status;
              iterations = n;
              steps = steps ++ map_events step_of events;
              events = before ++ events;
              final_state = t;
            }),
            w',
          )
    unfolding run_rounds finish
    Rounds-run_rounds none_left steps before = rw (append-nil steps, append-nil before)
    Rounds-run_rounds (accepted {left} {i} {s} {s'} {w} {w'} {w''} {events} calls checked) steps
          before =
        bind_eq (run_agents task_id i agents (record { state = s; steps = steps; events = before }))
          (λ p'. validator p'.state >>= judge left i p') w w' _
          (Calls-run_agents task_id i calls steps before)
        ∙ bind_eq (validator s') (judge left i _) w' w'' true checked
    Rounds-run_rounds
          (rejected {left} {i} {n} {s} {s'} {t} {status} {w} {w'} {w''} {u} {events} {more} calls
            checked rounds)
          steps before =
        bind_eq (run_agents task_id i agents (record { state = s; steps = steps; events = before }))
          (λ p'. validator p'.state >>= judge left i p') w w' _
          (Calls-run_agents task_id i calls steps before)
        ∙ bind_eq (validator s') (judge left i _) w' w'' false checked
        ∙ Rounds-run_rounds rounds (steps ++ map_events step_of events) (before ++ events)
        ∙ rw (
          append_assoc steps (map_events step_of events) (map_events step_of more),
          append_assoc before events more,
          map_events-append step_of events more,
        )

-- A run returns a result and leaves a world exactly if the result tells, of this task, the rounds that
-- can be made from the initial state in the world before it: in each iteration from 1 on, every agent is
-- called in order on the state that the one before it returned, and then the validator, until it accepts
-- or the iterations allowed are used up; the events, the status, the number of iterations and the final
-- state are those of the rounds, and the steps are the events without their input state.
pub run-Rounds :
    {World : Type 0} (o : LoopOrchestrator World) (task_id initial_state : String) (w w' : World)
    (r : LoopResult)
    → (run o task_id initial_state w ≡ (ok r, w')) ↔ (
        Rounds task_id o.agents o.validator o.max_iterations o.max_iterations 1 initial_state w
          r.events r.status r.iterations r.final_state w'
        × (r.steps ≡ map_events step_of r.events)
        × (r.task_id ≡ task_id))
unfolding run
run-Rounds {World} o task_id initial_state w w' r = (there, back)
  where
    Made : List LoopEvent → Type 0
    Made events =
        Rounds task_id o.agents o.validator o.max_iterations o.max_iterations 1 initial_state w
          events r.status r.iterations r.final_state w'

    start : Progress
    start = record { state = initial_state; steps = []; events = [] }

    count : o.max_iterations + 1 - 1 ≡ o.max_iterations
    count = omega arith

    there :
        run o task_id initial_state w ≡ (ok r, w')
        → Made r.events × (r.steps ≡ map_events step_of r.events) × (r.task_id ≡ task_id)
    there h =
        let (events, rounds, same, steps, task) =
          run_rounds-Tells task_id o.agents o.validator o.max_iterations o.max_iterations 1 start w
            w' r
            (subst
              (λ k.
                run_rounds o.agents o.validator task_id o.max_iterations k 1 start w ≡ (ok r, w'))
              count h) in
        (subst Made (sym same) rounds, steps ∙ ap (map_events step_of) (sym same), task)

    back :
        Made r.events × (r.steps ≡ map_events step_of r.events) × (r.task_id ≡ task_id)
        → run o task_id initial_state w ≡ (ok r, w')
    back (rounds, steps, task) =
        subst
          (λ k. run_rounds o.agents o.validator task_id o.max_iterations k 1 start w ≡ (ok r, w'))
          (sym count)
          (Rounds-run_rounds task_id o.agents o.validator o.max_iterations rounds [] []
            ∙ rw (← steps, ← task))
