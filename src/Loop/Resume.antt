-- ===== src/Loop/Resume.antt =====
-- Resuming in digital_fte/loop.py: a run that is cut short and resumed is the longer run.
use digital_fte_agent.Prelude.{
  ℕ, zero, suc, ◌+◌, ◌-◌, ◌<◌, String, ◌≡◌, refl, sym, ◌∙◌, Bool, true, false, [], arith,
}
use digital_fte_agent.Prelude.Int.{pos}
use digital_fte_agent.Prelude.Values.{int, Result, ok, raise, String-discrete}
use digital_fte_agent.Prelude.Action.{Action, ◌>>=◌, pure}
use digital_fte_agent.Loop.{
  LoopResult, completed, failed, LoopOrchestrator, Progress, finish, run_agents, run_rounds, run,
  resume_by, resume,
}

module _ {World : Type 0} (o : LoopOrchestrator World) (task_id : String) where
  abbrev then_resume : ℕ → Result LoopResult × World → Result LoopResult × World
  then_resume n (ok r, w) = resume_by o r n w
  then_resume n (raise e, w) = (raise e, w)

  resume_by-completed :
      (n i : ℕ) (p : Progress) (w : World)
      → resume_by o (finish task_id completed i p) n w ≡ (ok (finish task_id completed i p), w)
  unfolding resume_by finish String-discrete
  resume_by-completed n i p w = refl

  resume_by-failed :
      (n i : ℕ) (p : Progress) (w : World)
      → resume_by o (finish task_id failed i p) n w
        ≡ run_rounds o.agents o.validator task_id (i + n) n (i + 1) p w
  unfolding resume_by finish String-discrete
  resume_by-failed n i p w = let left : i + n + 1 - (i + 1) ≡ n = omega arith in rw left

  -- `then_resume` goes into a chain of calls.
  bind-then_resume :
      {A : Type 0} (n : ℕ) (m : Action World A) (f g : A → Action World LoopResult)
      → ((a : A) (w : World) → f a w ≡ then_resume n (g a w))
      → (w : World) → (m >>= f) w ≡ then_resume n ((m >>= g) w)
  bind-then_resume {A} n m f g h w = go (m w).0 (m w).1
    where
      go :
          (r : Result A) (w' : World)
          → elim r as (λ _. Result LoopResult × World) [ ok a ↦ f a w' | raise e ↦ (raise e, w') ]
            ≡ then_resume n (elim r as (λ _. Result LoopResult × World) [
              | ok a ↦ g a w'
              | raise e ↦ (raise e, w')
            ])
      go (ok a) w' = h a w'
      go (raise e) w' = refl

  run_rounds-resume :
      (m n k i limit : ℕ) (p : Progress) (w : World)
      → k ≡ m + n
      → i + m ≡ limit + 1
      → run_rounds o.agents o.validator task_id (limit + n) k i p w
        ≡ then_resume n (run_rounds o.agents o.validator task_id limit m i p w)
  unfolding run_rounds
  run_rounds-resume zero n k i limit p w ek ei =
      let same : k ≡ n = omega arith in
      let next : i ≡ limit + 1 = omega arith in rw (same, next) (sym (resume_by-failed n limit p w))
  run_rounds-resume (suc m) n zero i limit p w ek ei = absurd (omega arith)
  run_rounds-resume (suc m) n (suc k) i limit p w ek ei =
      bind-then_resume n (run_agents task_id i o.agents p) _ _
        (λ p'. bind-then_resume n (o.validator p'.state) _ _ (
          judged p'
            (λ w'. run_rounds-resume m n k (i + 1) limit p' w' (omega arith) (omega arith))))
        w
    where
      judged :
          (p' : Progress)
          → ((w' : World)
              → run_rounds o.agents o.validator task_id (limit + n) k (i + 1) p' w'
                ≡ then_resume n (run_rounds o.agents o.validator task_id limit m (i + 1) p' w'))
          → (accepted : Bool) (w' : World)
          → (elim accepted as (λ _. Action World LoopResult) [
            | true ↦ pure (finish task_id completed i p')
            | false ↦ run_rounds o.agents o.validator task_id (limit + n) k (i + 1) p'
          ])
              w'
            ≡ then_resume n (
                (elim accepted as (λ _. Action World LoopResult) [
                  | true ↦ pure (finish task_id completed i p')
                  | false ↦ run_rounds o.agents o.validator task_id limit m (i + 1) p'
                ])
                  w')
      judged p' ih true w' = sym (resume_by-completed n i p' w')
      judged p' ih false w' = ih w'

  run-then_resume :
      (n : ℕ) (initial_state : String) (w : World)
      → then_resume n (run o task_id initial_state w)
        ≡ run (record o { max_iterations = o.max_iterations + n }) task_id initial_state w
  unfolding run
  run-then_resume n initial_state w =
      let m = o.max_iterations in
      let p : Progress = record { state = initial_state; steps = []; events = [] } in
      let rounds : m + 1 - 1 ≡ m = omega arith in
      let longer : m + n + 1 - 1 ≡ m + n = omega arith in
      rw (rounds, longer) (sym (run_rounds-resume m n (m + n) 1 m p w refl (omega arith)))

  >>=-resume :
      (n : ℕ) (m : Action World LoopResult) (w : World)
      → 0 < n
      → (m >>= λ r. resume o r (int (pos n))) w ≡ then_resume n (m w)
  unfolding resume
  >>=-resume n m w h = go (m w).0 (m w).1
    where
      go :
          (r : Result LoopResult) (w' : World)
          → elim r as (λ _. Result LoopResult × World) [
            | ok a ↦ resume o a (int (pos n)) w'
            | raise e ↦ (raise e, w')
          ]
            ≡ then_resume n (r, w')
      go (ok a) w' = ground arith
      go (raise e) w' = refl

  -- A run that is then resumed for `n` more iterations does what one run with `n` more iterations
  -- to its limit does: the same result or exception, after the same calls of the agents and the
  -- validator in the same order, no iteration replayed. A completed result is returned as it is.
  pub run-resume :
      (n : ℕ) (initial_state : String) (w : World)
      → 0 < n
      → (run o task_id initial_state >>= λ r. resume o r (int (pos n))) w
        ≡ run (record o { max_iterations = o.max_iterations + n }) task_id initial_state w
  run-resume n initial_state w h =
      >>=-resume n (run o task_id initial_state) w h ∙ run-then_resume n initial_state w
