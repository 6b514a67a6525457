-- ===== src/Lease/Tests.antt =====
-- Runs of digital_fte/lease.py.
use digital_fte_agent.Prelude.{◌≡◌, refl}
use digital_fte_agent.Prelude.Int.{pos}
use digital_fte_agent.Prelude.Values.{int, str, value_error, ok, raise, is_blank}
use digital_fte_agent.Lease.{validate_time, validate_ttl, Lease, init, acquire}

abbrev lapsed : Lease
lapsed = record { owner = "worker"; expires_at = pos 10 }

acquires : acquire (str "worker") (int (pos 4)) (int (pos 6)) ≡ ok lapsed
unfolding acquire init validate_time validate_ttl is_blank
acquires = refl

acquires_nothing : acquire (str " ") (int (pos 4)) (int (pos 6)) ≡ raise value_error
unfolding acquire init validate_time validate_ttl is_blank
acquires_nothing = refl
