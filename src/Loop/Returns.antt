-- ===== src/Loop/Returns.antt =====
-- A run of digital_fte/loop.py ends with a result if what it calls returns.
use digital_fte_agent.Prelude.{
  ℕ, zero, suc, ◌+◌, String, ◌≡◌, refl, Bool, true, false, List, [], ◌∷◌, arith,
}
use digital_fte_agent.Prelude.Values.{str, ok}
use digital_fte_agent.Prelude.Action.{Action, ◌>>=◌, pure}
use digital_fte_agent.Loop.{
  LoopContext, LoopResult, completed, Agent, LoopOrchestrator, Progress, finish, record_turn, turn,
  run_agents, run_rounds, run,
}

-- The action returns from every state.
abbrev pub Returns : {S A : Type 0} → Action S A → Type 0
Returns {S} {A} m = (w : S) → (a : A) × (w' : S) × (m w ≡ (ok a, w'))

module _ {S : Type 0} where
  Returns-bind :
      {A B : Type 0} (m : Action S A) (f : A → Action S B)
      → Returns m
      → ((a : A) → Returns (f a))
      → Returns (m >>= f)
  Returns-bind m f h k w =
      let (a, w', e) = h w in let (b, w'', e') = k a w' in (b, w'', ground (arith, e, e'))

  Returns-pure : {A : Type 0} (a : A) → Returns (pure {S = S} a)
  Returns-pure a w = (a, w, refl)

module _ {World : Type 0} where
  -- Every agent returns a text.
  abbrev pub AllReturn : List (Agent World) → Type 0
  AllReturn [] = Unit
  AllReturn (a ∷ agents) =
      ((c : LoopContext) (w : World) → (s : String) × (w' : World) × (a.run c w ≡ (ok (str s), w')))
      × AllReturn agents

  turn-Returns :
      (task_id : String) (i : ℕ) (a : Agent World) (p : Progress)
      → ((c : LoopContext) (w : World)
          → (s : String) × (w' : World) × (a.run c w ≡ (ok (str s), w')))
      → Returns (turn task_id i a p)
  unfolding turn
  turn-Returns task_id i a p h w =
      let (s, w', e) = h (record { task_id = task_id; iteration = i; state = p.state }) w in
      (record_turn i a.name p s, w', ground (arith, e))

  run_agents-Returns :
      (task_id : String) (i : ℕ) (agents : List (Agent World)) (p : Progress)
      → AllReturn agents
      → Returns (run_agents task_id i agents p)
  unfolding run_agents
  run_agents-Returns task_id i [] p h = Returns-pure p
  run_agents-Returns task_id i (a ∷ agents) p h =
      Returns-bind (turn task_id i a p) (run_agents task_id i agents)
        (turn-Returns task_id i a p h.0) (λ p'. run_agents-Returns task_id i agents p' h.1)

  run_rounds-Returns :
      (agents : List (Agent World)) (validator : String → Action World Bool) (task_id : String)
      (limit rounds i : ℕ) (p : Progress)
      → AllReturn agents
      → ((s : String) → Returns (validator s))
      → Returns (run_rounds agents validator task_id limit rounds i p)
  unfolding run_rounds
  run_rounds-Returns agents validator task_id limit zero i p h v = Returns-pure _
  run_rounds-Returns agents validator task_id limit (suc rounds) i p h v =
      Returns-bind (run_agents task_id i agents p) _ (run_agents-Returns task_id i agents p h) λ p'.
        Returns-bind (validator p'.state) (judge p') (v p'.state)
          (judged p' (run_rounds-Returns agents validator task_id limit rounds (i + 1) p' h v))
    where
      judge : Progress → Bool → Action World LoopResult
      judge p' accepted = elim accepted [
        | true ↦ pure (finish task_id completed i p')
        | false ↦ run_rounds agents validator task_id limit rounds (i + 1) p'
      ]

      judged :
          (p' : Progress)
          → Returns (run_rounds agents validator task_id limit rounds (i + 1) p')
          → (accepted : Bool) → Returns (judge p' accepted)
      judged p' ih true = Returns-pure _
      judged p' ih false = ih

  pub run-Returns :
      (o : LoopOrchestrator World) (task_id initial_state : String)
      → AllReturn o.agents
      → ((s : String) → Returns (o.validator s))
      → Returns (run o task_id initial_state)
  unfolding run
  run-Returns o task_id initial_state h v =
      run_rounds-Returns o.agents o.validator task_id _ _ _ _ h v
