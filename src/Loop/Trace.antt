-- ===== src/Loop/Trace.antt =====
-- What the result of a run in digital_fte/loop.py records.
use digital_fte_agent.Prelude.{
  ℕ, zero, suc, ◌+◌, ◌-◌, ◌≤◌, String, ◌≡◌, refl, sym, ap, subst, ◌∙◌, ◌⊎◌, inl, inr, Bool, true,
  false, List, [], ◌∷◌, ◌++◌, append-nil, append_assoc, arith,
}
use digital_fte_agent.Prelude.Values.{Result, ok, raise, ok_injective}
use digital_fte_agent.Prelude.Action.{Action, ◌>>=◌, pure, check}
use digital_fte_agent.Loop.{
  LoopStep, LoopEvent, LoopResult, completed, failed, Agent, LoopOrchestrator, Progress, as_state,
  finish, record_turn, turn, run_agents, run_rounds, run,
}

-- Each event starts from the state that the one before it ended in.
abbrev pub Chained : String → List LoopEvent → String → Type 0
Chained s [] s' = s ≡ s'
Chained s (e ∷ events) s' = (e.input_state ≡ s) × Chained e.output_state events s'

abbrev pub call_of : LoopEvent → String × ℕ
call_of e = (e.agent, e.iteration)

abbrev pub step_of : LoopEvent → LoopStep
step_of e = record { agent = e.agent; state = e.output_state; iteration = e.iteration }

abbrev pub map_events {ℓ} : {B : Type ℓ} → (LoopEvent → B) → List LoopEvent → List B
map_events f [] = []
map_events f (e ∷ events) = f e ∷ map_events f events

-- The calls of one iteration, and those of `rounds` iterations from `i` on.
abbrev pub one_round : {World : Type 0} → List (Agent World) → ℕ → List (String × ℕ)
one_round [] i = []
one_round (a ∷ agents) i = (a.name, i) ∷ one_round agents i

abbrev pub all_rounds : {World : Type 0} → List (Agent World) → ℕ → ℕ → List (String × ℕ)
all_rounds agents i zero = []
all_rounds agents i (suc rounds) = one_round agents i ++ all_rounds agents (i + 1) rounds

-- The events are those of the calls, in order, and lead from one state to the other; the steps
-- are the events without their input state.
pub record Traced (s : String) (calls : List (String × ℕ)) (steps : List LoopStep)
    (events : List LoopEvent) (s' : String) : Type 0 where
  pub chained : Chained s events s'
  pub called : map_events call_of events ≡ calls
  pub stepped : steps ≡ map_events step_of events

pub map_events-append {ℓ} :
    {B : Type ℓ} (f : LoopEvent → B) (events more : List LoopEvent)
    → map_events f (events ++ more) ≡ map_events f events ++ map_events f more
map_events-append f [] more = refl
map_events-append f (e ∷ events) more = ap (◌∷◌ (f e)) (map_events-append f events more)

Chained-append :
    (s s' : String) (events : List LoopEvent) (e : LoopEvent)
    → Chained s events s'
    → e.input_state ≡ s'
    → Chained s (events ++ e ∷ []) e.output_state
Chained-append s s' [] e h k = (k ∙ sym h, refl)
Chained-append s s' (x ∷ events) e h k = (h.0, Chained-append x.output_state s' events e h.1 k)

abbrev pub TracedBy : String → List (String × ℕ) → Progress → Type 0
TracedBy s calls p = Traced s calls p.steps p.events p.state

module _ {World : Type 0} where
  -- Whatever the action returns has the property.
  abbrev pub Yields : {A : Type 0} → (A → Type 0) → Action World A → Type 0
  Yields {A} P m = (w : World) (a : A) → (m w).0 ≡ ok a → P a

  Yields-pure : {A : Type 0} (P : A → Type 0) (a : A) → P a → Yields P (pure a)
  Yields-pure P a h w a' e = subst P (ok_injective a a' e) h

  Yields-bind :
      {A B : Type 0} (P : A → Type 0) (Q : B → Type 0) (m : Action World A) (f : A → Action World B)
      → Yields P m
      → ((a : A) → P a → Yields Q (f a))
      → Yields Q (m >>= f)
  Yields-bind {A} {B} P Q m f h k w b e = go (m w).0 (m w).1 (h w) e
    where
      go :
          (r : Result A) (w' : World)
          → ((a : A) → r ≡ ok a → P a)
          → (elim r as (λ _. Result B × World) [ ok a ↦ f a w' | raise e ↦ (raise e, w') ]).0 ≡ ok b
          → Q b
      go (ok a) w' p e = k a (p a refl) w' b e
      go (raise x) w' p e = cc

  turn-Traced :
      (task_id s : String) (i : ℕ) (a : Agent World) (calls : List (String × ℕ)) (p : Progress)
      → TracedBy s calls p
      → Yields (TracedBy s (calls ++ (a.name, i) ∷ [])) (turn task_id i a p)
  unfolding turn
  turn-Traced task_id s i a calls p h =
      Yields-bind (λ _. Unit {0}) _ (a.run _)
        (λ v. check (as_state v) >>= λ s'. pure (record_turn i a.name p s')) (λ w v e. tt)
        λ v _.
          Yields-bind (λ _. Unit {0}) _ (check (as_state v))
            (λ s'. pure (record_turn i a.name p s')) (λ w v e. tt)
            λ s' _.
              Yields-pure (TracedBy s (calls ++ (a.name, i) ∷ [])) (record_turn i a.name p s')
                (record {
                  chained = Chained-append s p.state p.events _ h.chained refl;
                  called = rw (map_events-append call_of p.events, h.called) refl;
                  stepped = rw (map_events-append step_of p.events, h.stepped) refl;
                })

  run_agents-Traced :
      (task_id s : String) (i : ℕ) (agents : List (Agent World)) (calls : List (String × ℕ))
      (p : Progress)
      → TracedBy s calls p
      → Yields (TracedBy s (calls ++ one_round agents i)) (run_agents task_id i agents p)
  unfolding run_agents
  run_agents-Traced task_id s i [] calls p h = Yields-pure _ p (rw (append-nil calls) h)
  run_agents-Traced task_id s i (a ∷ agents) calls p h =
      Yields-bind (TracedBy s (calls ++ (a.name, i) ∷ [])) _ (turn task_id i a p)
        (λ p'. run_agents task_id i agents p') (turn-Traced task_id s i a calls p h)
        λ p' h'.
          subst (λ c. Yields (TracedBy s c) (run_agents task_id i agents p'))
            (append_assoc calls ((a.name, i) ∷ []) (one_round agents i))
            (run_agents-Traced task_id s i agents (calls ++ (a.name, i) ∷ []) p' h')

  -- What a result says of the iterations from `i` on, after `calls` made before.
  pub record Sound (task_id s : String) (calls : List (String × ℕ)) (agents : List (Agent World))
      (i limit : ℕ) (r : LoopResult) : Type 0 where
    pub same_task : r.task_id ≡ task_id
    pub traced :
        Traced s
          (calls ++ all_rounds agents i (r.iterations + 1 - i))
          r.steps
          r.events
          r.final_state
    pub from : i ≤ r.iterations + 1
    pub within : r.iterations ≤ limit
    pub ended :
        ((r.status ≡ completed) × (i ≤ r.iterations))
        ⊎ ((r.status ≡ failed) × (r.iterations ≡ limit))

  Sound-round :
      (agents : List (Agent World)) (task_id s : String) (calls : List (String × ℕ)) (i limit : ℕ)
      (r : LoopResult)
      → Sound task_id s (calls ++ one_round agents i) agents (i + 1) limit r
      → Sound task_id s calls agents i limit r
  Sound-round agents task_id s calls i limit r h =
      let one_more : r.iterations + 1 - i ≡ suc (r.iterations + 1 - (i + 1)) =
        omega (arith, h.from) in
      record {
        same_task = h.same_task;
        traced = rw (one_more) (
            subst (λ c. Traced s c r.steps r.events r.final_state)
              (append_assoc calls (one_round agents i)
                (all_rounds agents (i + 1) (r.iterations + 1 - (i + 1))))
              h.traced);
        from = omega (arith, h.from);
        within = h.within;
        ended = elim h.ended [ inl (e, least) ↦ inl (e, omega (arith, least)) | inr f ↦ inr f ];
      }

  run_rounds-Sound :
      (agents : List (Agent World)) (validator : String → Action World Bool) (task_id s : String)
      (calls : List (String × ℕ)) (limit rounds i : ℕ) (p : Progress)
      → i + rounds ≡ limit + 1
      → TracedBy s calls p
      → Yields
          (Sound task_id s calls agents i limit)
          (run_rounds agents validator task_id limit rounds i p)
  unfolding run_rounds
  run_rounds-Sound agents validator task_id s calls limit zero i p e h =
      let over : limit + 1 - i ≡ 0 = omega arith in
      Yields-pure (Sound task_id s calls agents i limit) (finish task_id failed limit p) (record {
        same_task = refl;
        traced = rw (over, append-nil calls) h;
        from = omega arith;
        within = omega arith;
        ended = inr (refl, refl);
      })
  run_rounds-Sound agents validator task_id s calls limit (suc rounds) i p e h =
      Yields-bind (TracedBy s (calls ++ one_round agents i)) (Sound task_id s calls agents i limit)
        (run_agents task_id i agents p) (λ p'. validator p'.state >>= judge p')
        (run_agents-Traced task_id s i agents calls p h)
        λ p' h'.
          Yields-bind (λ _. Unit {0}) (Sound task_id s calls agents i limit) (validator p'.state)
            (judge p') (λ w v e. tt)
            λ accepted _. judged p' h' accepted (λ w r e'.
              Sound-round agents task_id s calls i limit r (
                run_rounds-Sound agents validator task_id s (calls ++ one_round agents i) limit
                  rounds (i + 1) p' (omega arith) h' w r e'))
    where
      judge : Progress → Bool → Action World LoopResult
      judge p' accepted = elim accepted [
        | true ↦ pure (finish task_id completed i p')
        | false ↦ run_rounds agents validator task_id limit rounds (i + 1) p'
      ]

      judged :
          (p' : Progress)
          → TracedBy s (calls ++ one_round agents i) p'
          → (accepted : Bool)
          → Yields
              (Sound task_id s calls agents i limit)
              (run_rounds agents validator task_id limit rounds (i + 1) p')
          → Yields (Sound task_id s calls agents i limit) (judge p' accepted)
      judged p' h' true ih =
          let once : i + 1 - i ≡ 1 = omega arith in
          Yields-pure (Sound task_id s calls agents i limit) (finish task_id completed i p')
            (record {
              same_task = refl;
              traced = rw (once, append-nil (one_round agents i)) h';
              from = omega arith;
              within = omega arith;
              ended = inl (refl, omega arith);
            })
      judged p' h' false ih = ih

  -- Whatever a run returns is sound: it is of the task that was asked for, its events are the calls
  -- of all the agents in order in each of its iterations from 1 on, each starting from the state that
  -- the one before it ended in, from the initial to the final state, and its steps are those events;
  -- it has at most `max_iterations` iterations, exactly so many if it has failed, and at least one
  -- if it is completed.
  pub run-Sound :
      (o : LoopOrchestrator World) (task_id initial_state : String) (w : World) (r : LoopResult)
      → (run o task_id initial_state w).0 ≡ ok r
      → Sound task_id initial_state [] o.agents 1 o.max_iterations r
  unfolding run
  run-Sound o task_id initial_state w r e =
      run_rounds-Sound o.agents o.validator task_id initial_state [] o.max_iterations
        (o.max_iterations + 1 - 1) 1 (record { state = initial_state; steps = []; events = [] })
        (omega arith) (record { chained = refl; called = refl; stepped = refl }) w r e
