-- ===== src/Batcher.antt =====
-- digital_fte/batcher.py: items in consecutive batches that are limited in number and in size. A
-- `size_of` that is not callable is `none`; sizes are whole numbers.
pub mod Chunks
mod Tests
use digital_fte_agent.Prelude.{
  ℕ, ◌+◌, Bool, true, false, ◌&&◌, ◌||◌, Option, none, some, List, [], ◌∷◌, ◌++◌, ltb, leb, length,
}
use digital_fte_agent.Prelude.Values.{
  Value, null, type_error, value_error, Result, ok, raise, and_then, as_int, at_least, as_number,
  as_finite,
}

-- `_validate_optional_count`
abbrev pub validate_optional_count : Value → Result (Option ℕ)
validate_optional_count null = ok none
validate_optional_count v = and_then (and_then (as_int v) (at_least 1)) λ n. ok (some n)

-- a finite number that is not below `low`
abbrev pub size_from : ℕ → Value → Result ℕ
size_from low v = and_then (and_then (as_number v) as_finite) (at_least low)

-- `_validate_optional_size`
abbrev pub validate_optional_size : Value → Result (Option ℕ)
validate_optional_size null = ok none
validate_optional_size v = and_then (size_from 1 v) λ n. ok (some n)

-- `_validate_item_size`
abbrev pub validate_item_size : Value → Result ℕ
validate_item_size v = size_from 0 v

-- `max_count is not None and len(current) >= max_count`
abbrev pub over_count : Option ℕ → ℕ → Bool
over_count none n = false
over_count (some max_count) n = leb max_count n

-- `max_size is not None and current_size + item_size > max_size`
abbrev pub over_size : Option ℕ → ℕ → Bool
over_size none n = false
over_size (some max_size) n = ltb max_size n

module _ {A : Type 0} where
  -- `if current`
  abbrev pub some_of : List A → Bool
  some_of [] = false
  some_of (a ∷ l) = true

  -- the size is asked for only if there is a limit
  abbrev pub item_size : Option ℕ → (A → Value) → A → Result ℕ
  item_size none size_of a = ok 0
  item_size (some max_size) size_of a = validate_item_size (size_of a)

  -- what is left when the items are through
  abbrev pub close : List (List A) → List A → List (List A)
  close batches [] = batches
  close batches (a ∷ current) = batches ++ (a ∷ current) ∷ []

  -- `for item in items`, with the local variables of `batch`
  unfoldable pub chunk :
      Option ℕ
      → Option ℕ
      → (A → Value)
      → List A
      → List (List A)
      → List A
      → ℕ
      → Result (List (List A))
  chunk max_count max_size size_of [] batches current current_size = ok (close batches current)
  chunk max_count max_size size_of (a ∷ items) batches current current_size =
      and_then (item_size max_size size_of a) λ n.
        elim (some_of current
          && (over_count max_count (length current) || over_size max_size (current_size + n))) [
            | true ↦ chunk max_count max_size size_of items (batches ++ current ∷ []) (a ∷ []) n
            | false ↦
                chunk max_count max_size size_of items batches (current ++ a ∷ [])
                  (current_size + n)
          ]

  -- `max_size is not None and not callable(size_of)` is a TypeError
  abbrev pub batch_of : Option ℕ → Option ℕ → Option (A → Value) → List A → Result (List (List A))
  batch_of none none size_of items = raise value_error
  batch_of max_count (some max_size) none items = raise type_error
  batch_of (some max_count) none none items = chunk (some max_count) none (λ a. null) items [] [] 0
  batch_of (some max_count) none (some size_of) items =
      chunk (some max_count) none size_of items [] [] 0
  batch_of max_count (some max_size) (some size_of) items =
      chunk max_count (some max_size) size_of items [] [] 0

  unfoldable pub batch :
      List A → (max_count max_size : Value) → Option (A → Value) → Result (List (List A))
  unfolding chunk
  batch items max_count max_size size_of =
      and_then (validate_optional_count max_count)
        λ c. and_then (validate_optional_size max_size) λ s. batch_of c s size_of items
