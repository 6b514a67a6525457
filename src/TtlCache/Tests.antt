-- ===== src/TtlCache/Tests.antt =====
-- Runs of the cache, and its theorems at a concrete one.
use native.Mathlib.Decide.{ℕ_discrete}
use digital_fte_agent.Prelude.{ℕ, ◌+◌, ◌≡◌, refl, [], ◌∷◌, length}
use digital_fte_agent.Prelude.Int.{pos}
use digital_fte_agent.Prelude.Dict.{keys}
use digital_fte_agent.Prelude.Values.{int, ok}
use digital_fte_agent.TtlCache.{
  Entry, TtlCache, validate_now, active_keys, contains_at, get, expires_at, purge,
}
use digital_fte_agent.TtlCache.Expiry.{ahead, IsValid, AgreeFrom, GetsAgree, purge-view}

abbrev entry : ℕ → ℕ → Entry ℕ
entry v t = record { value = v; expires_at = pos t }

abbrev cache : TtlCache ℕ ℕ
cache = record { ttl = pos 10; entries = (1, entry 7 20) ∷ (2, entry 8 12) ∷ (3, entry 9 30) ∷ [] }

purge_runs :
    purge ℕ_discrete (int (pos 15)) cache
    ≡ (ok 1, record { ttl = pos 10; entries = (1, entry 7 20) ∷ (3, entry 9 30) ∷ [] })
unfolding purge validate_now ℕ_discrete
purge_runs = refl

get_runs : (get ℕ_discrete 1 (int (pos 15)) 0 cache).0 ≡ ok 7
unfolding get contains_at validate_now ℕ_discrete
get_runs = refl

cache-IsValid : IsValid ℕ_discrete cache
unfolding ℕ_discrete
cache-IsValid = (refl, (refl, (refl, tt)))

purge-view_example :
    let (r, c') = purge ℕ_discrete (int (pos 15)) cache in
    ((n : ℕ) × (r ≡ ok n) × (n + length c'.entries ≡ 3))
    × ((active_keys (int (pos 15)) cache).0 ≡ ok (keys c'.entries))
    × IsValid ℕ_discrete c'
    × ((k : ℕ) → expires_at ℕ_discrete k c' ≡ ahead (pos 15) (expires_at ℕ_discrete k cache))
    × AgreeFrom ℕ_discrete (pos 15) cache c'
    × GetsAgree ℕ_discrete (pos 15) cache c'
purge-view_example = purge-view ℕ_discrete (pos 15) cache cache-IsValid
