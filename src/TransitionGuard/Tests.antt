-- ===== src/TransitionGuard/Tests.antt =====
-- Runs of digital_fte/transition_guard.py.
use digital_fte_agent.Prelude.{String, ◌≡◌, refl, ◌⊎◌, true, false, some, [], ◌∷◌}
use digital_fte_agent.Prelude.Values.{
  str, Exception, value_error, ok, raise, is_empty_text, String-discrete,
}
use digital_fte_agent.TransitionGuard.{
  Transitions, validate_transitions, StateMachine, init, can, transition,
}
use digital_fte_agent.TransitionGuard.Reachable.{
  IsValid, Allowed, Leads, transition_cases, transition_all, transition_all-Leads,
}

abbrev lifecycle : Transitions
lifecycle = some (
    (str "idle", some (str "running" ∷ []))
    ∷ (str "running", some (str "done" ∷ []))
    ∷ (str "done", some [])
    ∷ [])

abbrev idle : StateMachine
idle = record {
  table = ("idle", "running" ∷ []) ∷ ("running", "done" ∷ []) ∷ ("done", []) ∷ [];
  state = "idle";
}

starts : init (str "idle") lifecycle ≡ ok idle
unfolding init validate_transitions String-discrete
starts = refl

starts_outside : init (str "lost") lifecycle ≡ raise value_error
unfolding init validate_transitions String-discrete
starts_outside = refl

moves :
    transition_all (str "done" ∷ str "running" ∷ str "done" ∷ []) idle
    ≡ record idle { state = "done" }
unfolding transition validate_transitions String-discrete
moves = refl

can_run : can (str "running") idle ≡ ok true
unfolding can validate_transitions String-discrete
can_run = refl

idle-IsValid : IsValid idle
idle-IsValid = record {
  named = refl;
  table_named = (refl, (refl, tt), (refl, (refl, tt), (refl, tt, tt)));
}

transition_all-Leads_example :
    Leads idle.table "idle" (transition_all (str "done" ∷ str "running" ∷ []) idle).state
    × ((transition_all (str "done" ∷ str "running" ∷ []) idle).table ≡ idle.table)
unfolding init validate_transitions String-discrete
transition_all-Leads_example =
    transition_all-Leads (str "idle") lifecycle (str "done" ∷ str "running" ∷ []) idle refl

transition_cases_example :
    ((t : String) × (str "running" ≡ str t)
      × (transition (str "running") idle ≡ (ok t, record idle { state = t }))
      × Allowed idle.table idle.state t
      × (is_empty_text t ≡ false))
    ⊎ ((e : Exception) × (transition (str "running") idle ≡ (raise e, idle))
        × ((t : String)
            → str "running" ≡ str t
            → (is_empty_text t ≡ true) ⊎ ¬ Allowed idle.table idle.state t))
transition_cases_example = transition_cases (str "running") idle idle-IsValid
