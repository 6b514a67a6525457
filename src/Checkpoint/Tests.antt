-- ===== src/Checkpoint/Tests.antt =====
-- Runs of the checkpoint store, and its theorems at a concrete one.
use digital_fte_agent.Prelude.{ℕ, ◌≡◌, refl, none, List, [], ◌∷◌, ◌++◌, arith}
use digital_fte_agent.Prelude.Int.{pos}
use digital_fte_agent.Prelude.Values.{null, int, str, value_error, checkpoint_regression, ok, raise}
use digital_fte_agent.Checkpoint.{
  CheckpointRecord, CheckpointStore, validate_position, validate_label, position, try_advance,
  advance,
}
use digital_fte_agent.Checkpoint.Monotone.{IsValid, try_advance-IsValid}

abbrev at : ℕ → ℕ → CheckpointRecord
at p n = record { position = p; sequence = n; label = none }

abbrev store : CheckpointStore
store = at 3 0 ∷ at 8 1 ∷ []

advance_runs : advance (int (pos 9)) null store ≡ (ok (at 9 2), at 3 0 ∷ at 8 1 ∷ at 9 2 ∷ [])
unfolding advance position validate_position validate_label
advance_runs = refl

advance_back : advance (int (pos 8)) null store ≡ (raise (checkpoint_regression 8 8), store)
unfolding advance position validate_position validate_label
advance_back = refl

advance_empty_label : advance (int (pos 9)) (str "") store ≡ (raise value_error, store)
unfolding advance validate_position validate_label
advance_empty_label = refl

store-IsValid : IsValid store
store-IsValid = (tt, refl, (omega arith, refl, tt))

try_advance-IsValid_example :
    let s' = (try_advance (int (pos 9)) null store).1 in
    IsValid s' × ((added : List CheckpointRecord) × (s' ≡ store ++ added))
try_advance-IsValid_example = try_advance-IsValid (int (pos 9)) null store store-IsValid
