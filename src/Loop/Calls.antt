-- ===== src/Loop/Calls.antt =====
-- The turns of an iteration of digital_fte/loop.py as the calls of the agents.
use digital_fte_agent.Prelude.{
  ℕ, String, ◌≡◌, refl, sym, ap, subst, ◌∙◌, List, [], ◌∷◌, ◌++◌, append-nil, append_assoc, arith,
}
use digital_fte_agent.Prelude.Values.{Value, str, Result, ok, raise, ok_injective}
use digital_fte_agent.Prelude.Action.{Action, ◌>>=◌, pure, check}
use digital_fte_agent.Loop.{
  LoopStep, LoopEvent, Agent, Progress, as_state, record_turn, turn, run_agents,
}
use digital_fte_agent.Loop.Trace.{step_of, map_events}

-- The calls of the agents in iteration `i`: each is given the state that the one before it returned, and
-- leaves an event.
module _ {World : Type 0} (task_id : String) where
  pub data Calls (i : ℕ)
      : List (Agent World) → String → World → List LoopEvent → String → World → Type 0 where
    no_more : {s : String} {w : World} → Calls i [] s w [] s w
    one_call :
        {a : Agent World} {agents : List (Agent World)} {s s' s'' : String} {w w' w'' : World}
        {events : List LoopEvent}
        → a.run (record { task_id = task_id; iteration = i; state = s }) w ≡ (ok (str s'), w')
        → Calls i agents s' w' events s'' w''
        → Calls i
            (a ∷ agents)
            s
            w
            (record { agent = a.name; iteration = i; input_state = s; output_state = s' } ∷ events)
            s''
            w''

module _ {World : Type 0} where
  pub bind_ok :
      {A B : Type 0} (m : Action World A) (f : A → Action World B) (w w'' : World) (b : B)
      → (m >>= f) w ≡ (ok b, w'')
      → (a : A) × (w' : World) × (m w ≡ (ok a, w')) × (f a w' ≡ (ok b, w''))
  bind_ok {A} {B} m f w w'' b h = go (m w) refl h
    where
      go :
          (x : Result A × World)
          → m w ≡ x
          → (elim x.0 as (λ _. Result B × World) [ ok a ↦ f a x.1 | raise e ↦ (raise e, x.1) ])
            ≡ (ok b, w'')
          → (a : A) × (w' : World) × (m w ≡ (ok a, w')) × (f a w' ≡ (ok b, w''))
      go (ok a, w') e k = (a, w', e, k)
      go (raise x, w') e k = absurd cc

  pub bind_eq :
      {A B : Type 0} (m : Action World A) (f : A → Action World B) (w w' : World) (a : A)
      → m w ≡ (ok a, w')
      → (m >>= f) w ≡ f a w'
  bind_eq m f w w' a h = ground (arith, h)

as_state_str : (v : Value) (s : String) → as_state v ≡ ok s → v ≡ str s
as_state_str v s h = ground arith

module _ {World : Type 0} (task_id : String) where
  -- The event of a turn.
  abbrev event_of : ℕ → Agent World → String → String → LoopEvent
  event_of i a s s' = record { agent = a.name; iteration = i; input_state = s; output_state = s' }

  turn-run :
      (i : ℕ) (a : Agent World) (p p' : Progress) (w w' : World)
      → turn task_id i a p w ≡ (ok p', w')
      → (s' : String) × (a.run (record { task_id = task_id; iteration = i; state = p.state }) w
          ≡ (ok (str s'), w'))
        × (p' ≡ record_turn i a.name p s')
  unfolding turn
  turn-run i a p p' w w' h =
      let (v, u, called, k) =
        bind_ok (a.run (record { task_id = task_id; iteration = i; state = p.state }))
          (λ v. check (as_state v) >>= λ s'. pure (record_turn i a.name p s')) w w' p' h in
      let (s', u', text, k') =
        bind_ok (check (as_state v)) (λ s'. pure (record_turn i a.name p s')) u w' p' k in
      let is_text : v ≡ str s' = as_state_str v s' (ap (λ x. x.0) text) in
      let same : u ≡ w' = ap (λ x. x.1) text ∙ ap (λ x. x.1) k' in
      (s', cc, ok_injective p' _ (ap (λ x. x.0) (sym k')))

  pub run_agents-Calls :
      (i : ℕ) (agents : List (Agent World)) (p p' : Progress) (w w' : World)
      → run_agents task_id i agents p w ≡ (ok p', w')
      → (events : List LoopEvent) × Calls task_id i agents p.state w events p'.state w'
        × (p'.events ≡ p.events ++ events)
        × (p'.steps ≡ p.steps ++ map_events step_of events)
  unfolding run_agents record_turn
  run_agents-Calls i [] p p' w w' h =
      let same : p ≡ p' = ok_injective p p' (ap (λ x. x.0) h) in
      let here : w ≡ w' = ap (λ x. x.1) h in
      subst
        (λ (q : Progress).
          (events : List LoopEvent) × Calls task_id i [] p.state w events q.state w'
          × (q.events ≡ p.events ++ events)
          × (q.steps ≡ p.steps ++ map_events step_of events))
        same
        (
          [],
          subst (Calls task_id i [] p.state w [] p.state) here no_more,
          sym (append-nil p.events),
          sym (append-nil p.steps),
        )
  run_agents-Calls i (a ∷ agents) p p' w w' h =
      let (q, u, first, others) =
        bind_ok (turn task_id i a p) (run_agents task_id i agents) w w' p' h in
      let (s', called, turned) = turn-run i a p q w u first in
      let q0 = record_turn i a.name p s' in
      let (events, calls, same_events, same_steps) =
        run_agents-Calls i agents q0 p' u w'
          (subst (λ (x : Progress). run_agents task_id i agents x u ≡ (ok p', w')) turned others) in
      (
        event_of i a p.state s' ∷ events,
        one_call called calls,
        same_events ∙ append_assoc p.events (event_of i a p.state s' ∷ []) events,
        same_steps
            ∙ append_assoc p.steps (step_of (event_of i a p.state s') ∷ [])
                (map_events step_of events),
      )

  turn_ok :
      (i : ℕ) (a : Agent World) (s s' : String) (w w' : World)
      → a.run (record { task_id = task_id; iteration = i; state = s }) w ≡ (ok (str s'), w')
      → (steps : List LoopStep) (before : List LoopEvent)
      → turn task_id i a (record { state = s; steps = steps; events = before }) w
        ≡ (ok (record_turn i a.name (record { state = s; steps = steps; events = before }) s'), w')
  unfolding turn
  turn_ok i a s s' w w' called steps before = ground (arith, called)

  pub Calls-run_agents :
      (i : ℕ) {agents : List (Agent World)} {s s' : String} {w w' : World} {events : List LoopEvent}
      → Calls task_id i agents s w events s' w'
      → (steps : List LoopStep) (before : List LoopEvent)
      → run_agents task_id i agents (record { state = s; steps = steps; events = before }) w ≡ (
        ok (record {
          state = s';
          steps = steps ++ map_events step_of events;
          events = before ++ events;
        }),
        w',
      )
  unfolding run_agents record_turn
  Calls-run_agents i no_more steps before = rw (append-nil steps, append-nil before)
  Calls-run_agents i (one_call {a} {agents} {s} {s'} {s''} {w} {w'} {w''} {events} called calls)
        steps before =
      let more =
        Calls-run_agents i calls (steps ++ step_of (event_of i a s s') ∷ [])
          (before ++ event_of i a s s' ∷ []) in
      bind_eq (turn task_id i a (record { state = s; steps = steps; events = before }))
        (run_agents task_id i agents) w w' _ (turn_ok i a s s' w w' called steps before)
      ∙ more
      ∙ rw (
        append_assoc steps (step_of (event_of i a s s') ∷ []) (map_events step_of events),
        append_assoc before (event_of i a s s' ∷ []) events,
      )
