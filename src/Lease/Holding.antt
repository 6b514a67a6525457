-- ===== src/Lease/Holding.antt =====
-- How long a lease of digital_fte/lease.py is held.
use digital_fte_agent.Prelude.{ℕ, suc, ◌≡◌, refl, ◌↔◌, true, false, arith}
use digital_fte_agent.Prelude.Int.{ℤ, pos, ◌+ℤ◌, ◌-ℤ◌, ◌<ℤ◌}
use digital_fte_agent.Prelude.Values.{int, ok, is_blank}
use digital_fte_agent.Lease.{Lease, is_held, remaining, renew}

-- At any time that the caller gives, a lease is held exactly if something of it remains.
is_held_iff_remaining :
    (l : Lease) (now : ℤ) → (is_held (int now) l ≡ ok false) ↔ (remaining (int now) l ≡ ok (pos 0))
unfolding is_held remaining ◌-ℤ◌
is_held_iff_remaining l now = ground arith

-- A lease with a named owner that is renewed for a `ttl` above 0 belongs to the same owner, and is held from then on for exactly `ttl`,
-- whether or not it had expired; such a renewal always goes through.
renew-is_held :
    (l : Lease) (now at : ℤ) (ttl : ℕ)
    → is_blank l.owner ≡ false
    → (l' : Lease) × (renew (int now) (int (pos (suc ttl))) l ≡ ok l')
      × (l'.owner ≡ l.owner)
      × ((is_held (int at) l' ≡ ok true) ↔ (at <ℤ now +ℤ pos (suc ttl)))
unfolding renew is_held ◌+ℤ◌
renew-is_held l now at ttl named = (
  record { owner = l.owner; expires_at = now +ℤ pos (suc ttl) },
  ground arith,
  refl,
  ground arith,
)
