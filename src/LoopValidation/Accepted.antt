-- ===== src/LoopValidation/Accepted.antt =====
-- The orchestrator (digital_fte/loop.py) only returns results that digital_fte/loop_validation.py accepts.
use digital_fte_agent.Prelude.{
  ℕ, zero, suc, ◌+◌, ◌-◌, ◌≤◌, ◌<◌, String, ◌≡◌, refl, ap, ◌⊎◌, inl, inr, false, List, [], ◌∷◌,
  ◌++◌, arith, length,
}
use digital_fte_agent.Prelude.Values.{ok, is_blank}
use digital_fte_agent.Loop.{LoopEvent, LoopResult, completed, failed, Agent, LoopOrchestrator, run}
use digital_fte_agent.Loop.Trace.{call_of, step_of, map_events, one_round, all_rounds, run-Sound}
use digital_fte_agent.Loop.Returns.{Returns, AllReturn, run-Returns}
use digital_fte_agent.LoopValidation.{event_issues, all_issues, validate_loop_result}

-- Every call is of a named agent, in an iteration from 1 on.
abbrev AllCalled : List (String × ℕ) → Type 0
AllCalled [] = Unit
AllCalled (c ∷ calls) = (is_blank c.0 ≡ false) × (1 ≤ c.1) × AllCalled calls

AllCalled-append : (c c' : List (String × ℕ)) → AllCalled c → AllCalled c' → AllCalled (c ++ c')
AllCalled-append [] c' h k = k
AllCalled-append (x ∷ c) c' h k = (h.0, h.1, AllCalled-append c c' h.2 k)

module _ {World : Type 0} where
  -- No agent's name is blank.
  abbrev pub AllNamed : List (Agent World) → Type 0
  AllNamed [] = Unit
  AllNamed (a ∷ agents) = (is_blank a.name ≡ false) × AllNamed agents

  one_round-AllCalled :
      (agents : List (Agent World)) (i : ℕ)
      → AllNamed agents
      → 1 ≤ i
      → AllCalled (one_round agents i)
  one_round-AllCalled [] i h k = tt
  one_round-AllCalled (a ∷ agents) i h k = (h.0, k, one_round-AllCalled agents i h.1 k)

  all_rounds-AllCalled :
      (agents : List (Agent World)) (i n : ℕ)
      → AllNamed agents
      → 1 ≤ i
      → AllCalled (all_rounds agents i n)
  all_rounds-AllCalled agents i zero h k = tt
  all_rounds-AllCalled agents i (suc n) h k =
      AllCalled-append (one_round agents i) (all_rounds agents (i + 1) n)
        (one_round-AllCalled agents i h k) (all_rounds-AllCalled agents (i + 1) n h (omega arith))

event_issues-nil :
    (events : List LoopEvent) → AllCalled (map_events call_of events) → event_issues events ≡ []
event_issues-nil [] h = refl
event_issues-nil (e ∷ events) h = ground (arith, event_issues-nil events h.2)

length-map_events :
    {B : Type 0} (f : LoopEvent → B) (events : List LoopEvent)
    → length (map_events f events) ≡ length events
length-map_events f [] = refl
length-map_events f (e ∷ events) = ap suc (length-map_events f events)

all_issues-nil :
    (r : LoopResult)
    → (r.status ≡ completed) ⊎ (r.status ≡ failed)
    → 1 ≤ r.iterations
    → length r.steps ≡ length r.events
    → event_issues r.events ≡ []
    → all_issues r ≡ []
all_issues-nil r (inl e) h k n = ground (arith, n)
all_issues-nil r (inr e) h k n = ground (arith, n)

module _ {World : Type 0} where
  -- If the agents are named and return texts, the validator returns, and at least one iteration is
  -- allowed, then a run returns a result, and the checks find no issue in it.
  pub run-accepted :
      (o : LoopOrchestrator World) (task_id initial_state : String) (w : World)
      → 0 < o.max_iterations
      → AllNamed o.agents
      → AllReturn o.agents
      → ((s : String) → Returns (o.validator s))
      → (r : LoopResult) × ((run o task_id initial_state w).0 ≡ ok r)
        × (validate_loop_result r ≡ [])
  unfolding validate_loop_result
  run-accepted o task_id initial_state w some_rounds named h v =
      let (r, w', e) = run-Returns o task_id initial_state h v w in
      let returned : (run o task_id initial_state w).0 ≡ ok r = ap (λ x. x.0) e in
      let sound = run-Sound o task_id initial_state w r returned in
      let calls : AllCalled (map_events call_of r.events) =
        rw sound.traced.called
          (all_rounds-AllCalled o.agents 1 (r.iterations + 1 - 1) named (omega arith)) in
      let lengths : length r.steps ≡ length r.events =
        rw sound.traced.stepped (length-map_events step_of r.events) in
      let fine : all_issues r ≡ [] =
        all_issues-nil r (status_of r sound.ended) (least r sound.ended) lengths
          (event_issues-nil r.events calls) in
      (r, returned, rw fine refl)
    where
      Ended : LoopResult → Type 0
      Ended r =
          ((r.status ≡ completed) × (1 ≤ r.iterations))
          ⊎ ((r.status ≡ failed) × (r.iterations ≡ o.max_iterations))

      status_of : (r : LoopResult) → Ended r → (r.status ≡ completed) ⊎ (r.status ≡ failed)
      status_of r (inl (e, _)) = inl e
      status_of r (inr (e, _)) = inr e

      least : (r : LoopResult) → Ended r → 1 ≤ r.iterations
      least r (inl (_, l)) = l
      least r (inr (_, l)) = omega (arith, some_rounds)
