-- ===== src/Backpressure/Hysteresis.antt =====
-- What the controller of digital_fte/backpressure.py has decided after a series of observations,
-- against a description that looks at the depths alone.
use digital_fte_agent.Prelude.{
  ℕ, ◌<◌, ◌≡◌, refl, Bool, true, false, List, [], ◌∷◌, arith, leb, if◌then◌else◌,
}
use digital_fte_agent.Prelude.Int.{pos}
use digital_fte_agent.Prelude.Values.{Value, int, ok}
use digital_fte_agent.Backpressure.{BackpressureController, init, observe}

-- The watermarks form a band.
abbrev pub IsValid : BackpressureController → Type 0
IsValid c = c.low < c.high

pub init-IsValid :
    (high low engaged : Value) {c : BackpressureController}
    → init high low engaged ≡ ok c
    → IsValid c
unfolding init
init-IsValid high low engaged h = ground arith

-- The depths as they are observed one after the other.
pub observe_all : List ℕ → BackpressureController → BackpressureController
unfolding observe
observe_all [] c = c
observe_all (d ∷ depths) c = observe_all depths (observe (int (pos d)) c).1

-- The last depth outside the band decides: at or above `high` it engages, at or below `low` it
-- releases. Depths inside the band are passed over.
abbrev pub last_outside : ℕ → ℕ → Bool → List ℕ → Bool
last_outside high low engaged [] = engaged
last_outside high low engaged (d ∷ depths) =
    last_outside high low (if leb high d then true else if leb d low then false else engaged) depths

observe_step :
    (d : ℕ) (c : BackpressureController)
    → IsValid c
    → (observe (int (pos d)) c).1 ≡ record c {
      engaged = if leb c.high d then true else if leb d c.low then false else c.engaged;
    }
unfolding observe
observe_step d c h = ground arith

-- After any series of depths the controller is engaged exactly as the last depth outside the band
-- says, and its watermarks are unchanged.
pub observe_all-eq-last_outside :
    (depths : List ℕ) (c : BackpressureController)
    → IsValid c
    → observe_all depths c ≡ record c { engaged = last_outside c.high c.low c.engaged depths }
unfolding observe_all
observe_all-eq-last_outside [] c h = refl
observe_all-eq-last_outside (d ∷ depths) c h = rw (observe_step d c h) (
    observe_all-eq-last_outside depths
      (record c {
        engaged = if leb c.high d then true else if leb d c.low then false else c.engaged;
      })
      h)
