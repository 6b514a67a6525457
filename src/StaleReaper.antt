-- ===== src/StaleReaper.antt =====
-- digital_fte/stale_reaper.py and digital_fte/heartbeat.py: what has not been updated for too long.
-- Times are whole numbers; keys are of any type.
pub mod Overdue
mod Tests
use digital_fte_agent.Prelude.{
  ℕ, Bool, true, false, Option, none, some, List, [], ◌∷◌, if◌then◌else◌,
}
use digital_fte_agent.Prelude.Int.{ℤ, pos, ◌-ℤ◌, ltb_ℤ}
use digital_fte_agent.Prelude.Values.{
  Value, type_error, Result, ok, raise, and_then, at_least, as_number, as_finite,
}
use digital_fte_agent.Prelude.Sort.{sort_by}

-- `_validate_time`, and `_require_real` of the heartbeat
unfoldable pub validate_time : Value → Result ℤ
validate_time v = and_then (as_number v) as_finite

-- `_validate_max_age`
unfoldable pub validate_max_age : Value → Result ℕ
unfolding validate_time
validate_max_age v = and_then (validate_time v) (at_least 0)

pub record StaleItem (K : Type 0) : Type 0 where
  pub key : K
  pub last_update : ℤ
  pub age : ℤ

-- A mapping or an iterable of pairs; `none` is an element that is no pair.
pub data Items (K : Type 0) : Type 0 where
  pairs : List (Option (K × Value)) → Items K
  no_items : Items K

-- What the sort puts first: the greater age.
unfoldable pub is_older : {K : Type 0} → StaleItem K → StaleItem K → Bool
is_older a b = ltb_ℤ b.age a.age

module _ {K : Type 0} (now : ℤ) (max_age : ℕ) where
  abbrev pub stale_item : K → ℤ → List (StaleItem K) → List (StaleItem K)
  stale_item key last_update rest =
      if ltb_ℤ (pos max_age) (now -ℤ last_update)
      then record { key = key; last_update = last_update; age = now -ℤ last_update } ∷ rest
      else rest

  -- The loop of `find_stale`.
  unfoldable pub collect : List (Option (K × Value)) → Result (List (StaleItem K))
  unfolding validate_time
  collect [] = ok []
  collect (none ∷ l) = raise type_error
  collect (some (key, v) ∷ l) =
      and_then (validate_time v)
        λ last_update. and_then (collect l) λ rest. ok (stale_item key last_update rest)

abbrev pub collect_items : {K : Type 0} → ℤ → ℕ → Items K → Result (List (StaleItem K))
collect_items now max_age (pairs l) = collect now max_age l
collect_items now max_age no_items = raise type_error

unfoldable pub find_stale :
    {K : Type 0} → Items K → (now max_age : Value) → Result (List (StaleItem K))
unfolding collect validate_time validate_max_age is_older
find_stale items now max_age = and_then (validate_time now) λ n.
    and_then (validate_max_age max_age)
      λ m. and_then (collect_items n m items) λ stale. ok (sort_by is_older stale)

abbrev pub keys_of : {K : Type 0} → List (StaleItem K) → List K
keys_of [] = []
keys_of (item ∷ l) = item.key ∷ keys_of l

unfoldable pub stale_keys : {K : Type 0} → Items K → (now max_age : Value) → Result (List K)
unfolding find_stale
stale_keys items now max_age = and_then (find_stale items now max_age) λ l. ok (keys_of l)

-- `HEALTHY` and `STALE`
pub data HeartbeatState : Type 0 where
  is_healthy is_stale : HeartbeatState

pub record HeartbeatStatus : Type 0 where
  pub state : HeartbeatState
  pub staleness : ℤ
  pub max_staleness : ℕ

-- the properties `healthy` and `stale`
abbrev pub healthy : HeartbeatStatus → Bool
healthy s = elim s.state [ is_healthy ↦ true | is_stale ↦ false ]

abbrev pub stale : HeartbeatStatus → Bool
stale s = elim s.state [ is_healthy ↦ false | is_stale ↦ true ]

-- `_require_positive`
unfoldable pub require_positive : Value → Result ℕ
unfolding validate_time
require_positive v = and_then (validate_time v) (at_least 1)

unfoldable pub check_heartbeat : (last_seen now max_staleness : Value) → Result HeartbeatStatus
unfolding validate_time require_positive
check_heartbeat last_seen now max_staleness = and_then (validate_time last_seen) λ seen.
    and_then (validate_time now) λ n. and_then (require_positive max_staleness) λ m. ok (record {
      state = if ltb_ℤ (pos m) (n -ℤ seen) then is_stale else is_healthy;
      staleness = n -ℤ seen;
      max_staleness = m;
    })
