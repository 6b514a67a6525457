-- ===== src/Lease.antt =====
-- digital_fte/lease.py: ownership until a time, with the time given by the caller. Times are whole
-- numbers, so that a sum of two finite times is finite.
pub mod Holding
mod Tests
use digital_fte_agent.Prelude.{String, Bool, not, if◌then◌else◌}
use digital_fte_agent.Prelude.Int.{ℤ, pos, ◌+ℤ◌, ◌-ℤ◌, leb_ℤ, max_ℤ}
use digital_fte_agent.Prelude.Values.{
  finite, Value, float, str, type_error, value_error, Result, ok, raise, and_then, as_number,
  as_finite, is_blank,
}

-- `_validate_time`
unfoldable pub validate_time : Value → Result ℤ
validate_time v = and_then (as_number v) as_finite

-- `ttl <= 0.0` is refused
abbrev pub positive : ℤ → Result ℤ
positive z = if leb_ℤ z (pos 0) then raise value_error else ok z

-- `_validate_ttl`
unfoldable pub validate_ttl : Value → Result ℤ
unfolding validate_time
validate_ttl v = and_then (validate_time v) positive

pub record Lease : Type 0 where
  pub owner : String
  pub expires_at : ℤ

abbrev pub validate_owner : Value → Result String
validate_owner (str s) = if is_blank s then raise value_error else ok s
validate_owner _ = raise type_error

-- the constructor, with `__post_init__`
unfoldable pub init : (owner expires_at : Value) → Result Lease
unfolding validate_time
init owner expires_at =
    and_then (validate_owner owner)
      λ o. and_then (validate_time expires_at) λ t. ok (record { owner = o; expires_at = t })

unfoldable pub acquire : (owner now ttl : Value) → Result Lease
unfolding init validate_ttl ◌+ℤ◌
acquire owner now ttl =
    and_then (validate_time now)
      λ n. and_then (validate_ttl ttl) λ t. init owner (float (finite (n +ℤ t)))

unfoldable pub is_expired : Value → Lease → Result Bool
unfolding validate_time
is_expired now l = and_then (validate_time now) λ n. ok (leb_ℤ l.expires_at n)

unfoldable pub is_held : Value → Lease → Result Bool
unfolding is_expired
is_held now l = and_then (is_expired now l) λ b. ok (not b)

unfoldable pub remaining : Value → Lease → Result ℤ
unfolding validate_time ◌-ℤ◌
remaining now l = and_then (validate_time now) λ n. ok (max_ℤ (pos 0) (l.expires_at -ℤ n))

-- `replace` calls the constructor again
unfoldable pub renew : (now ttl : Value) → Lease → Result Lease
unfolding init validate_ttl ◌+ℤ◌
renew now ttl l =
    and_then (validate_time now)
      λ n. and_then (validate_ttl ttl) λ t. init (str l.owner) (float (finite (n +ℤ t)))

unfoldable pub transfer : (new_owner now ttl : Value) → Lease → Result Lease
unfolding acquire
transfer new_owner now ttl l = acquire new_owner now ttl
