-- ===== src/TtlCache.antt =====
-- digital_fte/ttl_cache.py: a cache whose entries expire. Keys are of any type with equality, and
-- times are whole numbers.
pub mod Expiry
mod Tests
use digital_fte_agent.Prelude.{
  ℕ, Bool, true, false, Option, none, some, List, [], ◌∷◌, if◌then◌else◌, length,
}
use digital_fte_agent.Prelude.Int.{ℤ, pos, ◌+ℤ◌, ltb_ℤ, leb_ℤ}
use digital_fte_agent.Prelude.Dict.{Dict, erase, lookup, insert}
use digital_fte_agent.Prelude.Values.{
  Value, value_error, Result, ok, raise, and_then, as_number, as_finite,
}
use digital_fte_agent.Prelude.Action.{Action, ◌>>=◌, ◌>>◌, pure, check, gets, modify}

pub record Entry (V : Type 0) : Type 0 where
  pub value : V
  pub expires_at : ℤ

pub record TtlCache (K V : Type 0) : Type 0 where
  pub ttl : ℤ
  pub entries : Dict K (Entry V)

unfoldable pub validate_ttl : Value → Result ℤ
validate_ttl v =
    and_then (as_number v)
      λ f. and_then (as_finite f) λ z. if leb_ℤ z (pos 0) then raise value_error else ok z

unfoldable pub validate_now : Value → Result ℤ
validate_now v = and_then (as_number v) as_finite

module _ {K V : Type 0} where
  -- `TtlCache.__init__`
  unfoldable pub init : Value → Result (TtlCache K V)
  init ttl = and_then (validate_ttl ttl) λ t. ok (record { ttl = t; entries = [] })

  -- the keys of the entries that have expired, and of those that have not
  unfoldable pub expired_keys : ℤ → Dict K (Entry V) → List K
  expired_keys now [] = []
  expired_keys now ((k, e) ∷ d) =
      if leb_ℤ e.expires_at now then k ∷ expired_keys now d else expired_keys now d

  unfoldable pub live_keys : ℤ → Dict K (Entry V) → List K
  live_keys now [] = []
  live_keys now ((k, e) ∷ d) =
      if ltb_ℤ now e.expires_at then k ∷ live_keys now d else live_keys now d

  unfoldable pub active_keys : Value → Action (TtlCache K V) (List K)
  unfolding live_keys
  active_keys v = do now ← check (validate_now v); gets (λ c. live_keys now c.entries)

  unfoldable pub clear : TtlCache K V → TtlCache K V
  clear c = record c { entries = [] }

module _ {K V : Type 0} (dec : Discrete K) where
  -- what `put` stores once `now` is checked
  unfoldable pub put_at : K → ℤ → V → TtlCache K V → TtlCache K V
  unfolding ◌+ℤ◌
  put_at k now v c = record c {
    entries = insert dec k (record { value = v; expires_at = now +ℤ c.ttl }) c.entries;
  }

  unfoldable pub put : K → Value → V → Action (TtlCache K V) (Unit {0})
  put k w v = do now ← check (validate_now w); modify (put_at k now v)

  -- `contains`, on the entry that was found
  unfoldable pub contains_entry : K → ℤ → Option (Entry V) → Action (TtlCache K V) Bool
  contains_entry k now none = pure false
  contains_entry k now (some e) =
      if leb_ℤ e.expires_at now
      then (modify (λ c. record c { entries = erase dec k c.entries }) >> pure false)
      else pure true

  unfoldable pub contains_at : K → ℤ → Action (TtlCache K V) Bool
  unfolding contains_entry
  contains_at k now c = contains_entry k now (lookup dec k c.entries) c

  unfoldable pub contains : K → Value → Action (TtlCache K V) Bool
  contains k w = do now ← check (validate_now w); contains_at k now

  -- `self._entries[key].value`, read where `contains` has found the key
  abbrev pub value_or : V → Option (Entry V) → V
  value_or default none = default
  value_or default (some e) = e.value

  unfoldable pub get : K → Value → V → Action (TtlCache K V) V
  unfolding contains
  get k w default = do
    found ← contains k w
    c ← gets (λ c. c)
    pure (if found then value_or default (lookup dec k c.entries) else default)

  unfoldable pub add : K → Value → V → Action (TtlCache K V) Bool
  unfolding contains put
  add k w v = do found ← contains k w; if found then pure false else (put k w v >> pure true)

  -- `expires_at`
  abbrev pub expiry : Option (Entry V) → Option ℤ
  expiry none = none
  expiry (some e) = some e.expires_at

  unfoldable pub expires_at : K → TtlCache K V → Option ℤ
  expires_at k c = expiry (lookup dec k c.entries)

  -- `for key in expired: del self._entries[key]`
  unfoldable pub erase_all : List K → Dict K (Entry V) → Dict K (Entry V)
  erase_all [] d = d
  erase_all (k ∷ ks) d = erase_all ks (erase dec k d)

  unfoldable pub purge : Value → Action (TtlCache K V) ℕ
  unfolding expired_keys erase_all
  purge w = do
    now ← check (validate_now w)
    expired ← gets (λ c. expired_keys now c.entries)
    modify (λ c. record c { entries = erase_all expired c.entries })
    pure (length expired)
