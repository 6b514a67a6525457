-- ===== src/FanoutMerge.antt =====
-- digital_fte/fanout_merge.py: the results of several workers in one list, the first item of each key.
-- A key that is not hashable is `none`, and so are a `key` that is not callable and a group that is
-- not iterable. The set `seen` is the list of the keys so far, which the code keeps beside it.
pub mod Firsts
mod Tests
use digital_fte_agent.Prelude.{ℕ, ◌+◌, Option, none, some, List, [], ◌∷◌, ◌++◌, if◌then◌else◌}
use digital_fte_agent.Prelude.Dict.{mem?}
use digital_fte_agent.Prelude.Values.{type_error, Result, ok, raise, and_then}

pub record FanoutMerge (A K : Type 0) : Type 0 where
  pub merged : List A
  pub dropped : ℕ
  pub keys : List K

module _ {A K : Type 0} (dec : Discrete K) where
  -- the loop's body, for an item with its key
  unfoldable pub take_item : A → K → FanoutMerge A K → FanoutMerge A K
  take_item a k m =
      if mem? dec k m.keys
      then record m { dropped = m.dropped + 1 }
      else record m { merged = m.merged ++ a ∷ []; keys = m.keys ++ k ∷ [] }

  abbrev pub take_keyed : A → Option K → FanoutMerge A K → Result (FanoutMerge A K)
  take_keyed a none m = raise type_error
  take_keyed a (some k) m = ok (take_item a k m)

  -- `for item in group`
  unfoldable pub take_group : (A → Option K) → List A → FanoutMerge A K → Result (FanoutMerge A K)
  unfolding take_item
  take_group key [] m = ok m
  take_group key (a ∷ group) m = and_then (take_keyed a (key a) m) (take_group key group)

  -- `for index, group in enumerate(result_lists)`
  unfoldable pub take_groups :
      (A → Option K) → List (Option (List A)) → FanoutMerge A K → Result (FanoutMerge A K)
  unfolding take_group
  take_groups key [] m = ok m
  take_groups key (none ∷ groups) m = raise type_error
  take_groups key (some group ∷ groups) m =
      and_then (take_group key group m) (take_groups key groups)

  unfoldable pub merge_fanout :
      Option (List (Option (List A))) → Option (A → Option K) → Result (FanoutMerge A K)
  unfolding take_groups
  merge_fanout result_lists none = raise type_error
  merge_fanout none (some key) = raise type_error
  merge_fanout (some groups) (some key) =
      take_groups key groups (record { merged = []; dropped = 0; keys = [] })
