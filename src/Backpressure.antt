-- ===== src/Backpressure.antt =====
-- digital_fte/backpressure.py: two watermarks with hysteresis.
pub mod Hysteresis
mod Tests
use digital_fte_agent.Prelude.{ℕ, Bool, true, false, not, ◌&&◌, leb, if◌then◌else◌}
use digital_fte_agent.Prelude.Int.{pos}
use digital_fte_agent.Prelude.Values.{
  Value, bool, int, type_error, value_error, Result, ok, raise, and_then, as_int, at_least,
}
use digital_fte_agent.Prelude.Action.{Action, ◌>>=◌, ◌>>◌, pure, check, gets, modify}

-- `"apply"`, `"release"` and `"hold"`
pub data BackpressureAction : Type 0 where
  apply release hold : BackpressureAction

pub record BackpressureDecision : Type 0 where
  pub depth : ℕ
  pub engaged : Bool
  pub changed : Bool
  pub action : BackpressureAction

unfoldable pub validate_depth : Value → Result ℕ
validate_depth v = and_then (as_int v) (at_least 0)

unfoldable pub validate_watermarks : Value → Value → Result (ℕ × ℕ)
unfolding validate_depth
validate_watermarks high low =
    and_then (validate_depth high)
      λ h. and_then (validate_depth low) λ l. if leb h l then raise value_error else ok (h, l)

-- `isinstance(engaged, bool)`
abbrev pub as_bool : Value → Result Bool
as_bool (bool b) = ok b
as_bool _ = raise type_error

unfoldable pub decide : ℕ → ℕ → ℕ → Bool → BackpressureDecision
decide depth high low engaged =
    if not engaged && leb high depth
    then record { depth = depth; engaged = true; changed = true; action = apply }
    else if engaged && leb depth low
    then record { depth = depth; engaged = false; changed = true; action = release }
    else record { depth = depth; engaged = engaged; changed = false; action = hold }

unfoldable pub evaluate_backpressure :
    (depth high low engaged : Value) → Result BackpressureDecision
unfolding validate_depth validate_watermarks decide
evaluate_backpressure depth high low engaged = and_then (validate_depth depth) λ d.
    and_then (validate_watermarks high low)
      λ marks. and_then (as_bool engaged) λ e. ok (decide d marks.0 marks.1 e)

pub record BackpressureController : Type 0 where
  pub high : ℕ
  pub low : ℕ
  pub engaged : Bool

-- `BackpressureController.__init__`
unfoldable pub init : (high low engaged : Value) → Result BackpressureController
unfolding validate_watermarks
init high low engaged = and_then (validate_watermarks high low) λ marks.
    and_then (as_bool engaged) λ e. ok (record { high = marks.0; low = marks.1; engaged = e })

-- `BackpressureController.observe`
unfoldable pub observe : Value → Action BackpressureController BackpressureDecision
unfolding evaluate_backpressure
observe depth = do
  c ← gets (λ c. c)
  decision ←
      check (evaluate_backpressure depth (int (pos c.high)) (int (pos c.low)) (bool c.engaged))
  modify (λ c. record c { engaged = decision.engaged })
  pure decision
