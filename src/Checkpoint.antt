-- ===== src/Checkpoint.antt =====
-- digital_fte/checkpoint.py: a store whose positions only move forward.
pub mod Monotone
mod Tests
use digital_fte_agent.Prelude.{
  ℕ, String, Bool, false, Option, none, some, List, [], ◌∷◌, ◌++◌, leb, if◌then◌else◌, length,
}
use digital_fte_agent.Prelude.Values.{
  Value, null, str, Exception, value_error, checkpoint_regression, Result, ok, raise, and_then,
  as_int, at_least, is_empty_text,
}
use digital_fte_agent.Prelude.Action.{Action, ◌>>=◌, ◌>>◌, pure, check, gets, raise_if}

pub record CheckpointRecord : Type 0 where
  pub position : ℕ
  pub sequence : ℕ
  pub label : Option String

-- The records in the order of their acceptance.
abbrev pub CheckpointStore : Type 0
CheckpointStore = List CheckpointRecord

unfoldable pub validate_position : Value → Result ℕ
validate_position v = and_then (as_int v) (at_least 0)

unfoldable pub validate_label : Value → Result (Option String)
validate_label null = ok none
validate_label (str s) = if is_empty_text s then raise value_error else ok (some s)
validate_label _ = raise value_error

-- `self._records[-1] if self._records else None`
unfoldable pub latest : CheckpointStore → Option CheckpointRecord
latest [] = none
latest (r ∷ []) = some r
latest (r ∷ r' ∷ records) = latest (r' ∷ records)

abbrev pub position_of : Option CheckpointRecord → Option ℕ
position_of none = none
position_of (some r) = some r.position

-- the properties `position` and `count`
unfoldable pub position : CheckpointStore → Option ℕ
unfolding latest
position s = position_of (latest s)

abbrev pub count : CheckpointStore → ℕ
count s = length s

unfoldable pub append : ℕ → Option String → Action CheckpointStore CheckpointRecord
append p label s =
    let r : CheckpointRecord = record { position = p; sequence = length s; label = label } in
    (ok r, s ++ r ∷ [])

-- `current is not None and position <= current`
abbrev pub is_behind : ℕ → Option ℕ → Bool
is_behind p none = false
is_behind p (some current) = leb p current

abbrev pub regression : ℕ → Option ℕ → Exception
regression p none = checkpoint_regression p 0
regression p (some current) = checkpoint_regression p current

unfoldable pub try_advance : Value → Value → Action CheckpointStore (Option CheckpointRecord)
unfolding append
try_advance v w = do
  p ← check (validate_position v)
  label ← check (validate_label w)
  current ← gets position
  if is_behind p current then pure none else (append p label >>= λ r. pure (some r))

-- The exception names the position that is current: it is raised only if there is one.
unfoldable pub advance : Value → Value → Action CheckpointStore CheckpointRecord
unfolding append
advance v w = do
  p ← check (validate_position v)
  label ← check (validate_label w)
  current ← gets position
  raise_if (is_behind p current) (regression p current)
  append p label

-- `history`
abbrev pub history : CheckpointStore → List CheckpointRecord
history s = s
