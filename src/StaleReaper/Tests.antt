-- ===== src/StaleReaper/Tests.antt =====
-- Runs of digital_fte/stale_reaper.py and digital_fte/heartbeat.py.
use mathlib.Core.List.{Perm}
use digital_fte_agent.Prelude.{ℕ, String, ◌≡◌, refl, Option, some, List, [], ◌∷◌}
use digital_fte_agent.Prelude.Int.{ℤ, pos, negsuc, ◌-ℤ◌}
use digital_fte_agent.Prelude.Values.{
  infinite, Value, int, float, type_error, value_error, ok, raise,
}
use digital_fte_agent.Prelude.Sort.{IsSorted}
use digital_fte_agent.StaleReaper.{
  validate_time, validate_max_age, StaleItem, Items, pairs, no_items, is_older, collect, find_stale,
  stale_keys, is_healthy, is_stale, require_positive, check_heartbeat,
}
use digital_fte_agent.StaleReaper.Overdue.{Collected, find_stale_lem}

abbrev updates : List (Option (String × Value))
updates = some ("a", int (pos 7)) ∷ some ("b", int (pos 2)) ∷ some ("c", int (pos 4)) ∷ []

abbrev found_items : List (StaleItem String)
found_items =
    record { key = "b"; last_update = pos 2; age = pos 8 }
    ∷ record { key = "c"; last_update = pos 4; age = pos 6 }
    ∷ []

abbrev no_pairs : Items String
no_pairs = no_items

find_stale-updates : find_stale (pairs updates) (int (pos 10)) (int (pos 5)) ≡ ok found_items
unfolding find_stale collect validate_time validate_max_age is_older ◌-ℤ◌
find_stale-updates = refl

stale_keys-updates : stale_keys (pairs updates) (int (pos 10)) (int (pos 3)) ≡ ok ("b" ∷ "c" ∷ [])
unfolding stale_keys find_stale collect validate_time validate_max_age is_older ◌-ℤ◌
stale_keys-updates = refl

find_stale-no_pairs : find_stale no_pairs (int (pos 10)) (int (pos 3)) ≡ raise type_error
unfolding find_stale validate_time validate_max_age
find_stale-no_pairs = refl

find_stale_bad_now : find_stale no_pairs (float infinite) (int (pos 3)) ≡ raise value_error
unfolding find_stale validate_time
find_stale_bad_now = refl

check_heartbeat_late :
    check_heartbeat (int (pos 2)) (int (pos 10)) (int (pos 5))
    ≡ ok (record { state = is_stale; staleness = pos 8; max_staleness = 5 })
unfolding check_heartbeat validate_time require_positive ◌-ℤ◌
check_heartbeat_late = refl

check_heartbeat_skew :
    check_heartbeat (int (pos 4)) (int (pos 1)) (int (pos 5))
    ≡ ok (record { state = is_healthy; staleness = negsuc 2; max_staleness = 5 })
unfolding check_heartbeat validate_time require_positive ◌-ℤ◌
check_heartbeat_skew = refl

find_stale_lem_example :
    (n : ℤ) × (m : ℕ) × (items : List (StaleItem String)) × (validate_time (int (pos 10)) ≡ ok n)
    × (validate_max_age (int (pos 5)) ≡ ok m)
    × Collected n m updates items
    × Perm found_items items
    × IsSorted is_older found_items
find_stale_lem_example =
    find_stale_lem updates (int (pos 10)) (int (pos 5)) found_items find_stale-updates
