-- ===== src/Backpressure/Tests.antt =====
-- Runs of the controller, and its theorems at a concrete one.
use digital_fte_agent.Prelude.{◌≡◌, refl, true, false, [], ◌∷◌, arith}
use digital_fte_agent.Prelude.Int.{pos}
use digital_fte_agent.Prelude.Values.{bool, int, value_error, ok, raise}
use digital_fte_agent.Backpressure.{apply, BackpressureController, init, observe}
use digital_fte_agent.Backpressure.Hysteresis.{observe_all, observe_all-eq-last_outside}

abbrev controller : BackpressureController
controller = record { high = 10; low = 4; engaged = false }

init_inverted : init (int (pos 4)) (int (pos 10)) (bool false) ≡ raise value_error
unfolding init
init_inverted = refl

observe_engages : observe (int (pos 12)) controller ≡ (
  ok (record { depth = 12; engaged = true; changed = true; action = apply }),
  record controller { engaged = true },
)
unfolding observe
observe_engages = refl

observe_all-eq-last_outside_example :
    observe_all (12 ∷ 7 ∷ 5 ∷ []) controller ≡ record controller { engaged = true }
observe_all-eq-last_outside_example =
    observe_all-eq-last_outside (12 ∷ 7 ∷ 5 ∷ []) controller (omega arith)
