-- ===== src/ConcurrencyLimiter/Accounting.antt =====
-- The accounting of slots (digital_fte/concurrency_limiter.py) over any sequence of calls.
use digital_fte_agent.Prelude.{ℕ, ◌+◌, ◌≤◌, ◌<◌, ◌≡◌, ◌↔◌, true, false, List, [], ◌∷◌, arith}
use digital_fte_agent.Prelude.Int.{pos}
use digital_fte_agent.Prelude.Values.{Value, int, concurrency_limit_exceeded, ok, raise}
use digital_fte_agent.ConcurrencyLimiter.{
  ConcurrencyLimiter, init, available, try_acquire, acquire, release,
}

-- The slots in use never pass the limit.
pub record IsValid (l : ConcurrencyLimiter) : Type 0 where
  pub some_slot : 0 < l.max_slots
  pub within : l.in_use ≤ l.max_slots

pub data Call : Type 0 where
  try_acquire_call acquire_call release_call : Value → Call

-- What a call asks for, and whether it got it: slots claimed and slots returned.
abbrev pub asked : Value → ℕ
asked (int (pos n)) = n
asked _ = 0

-- The limiter after a call, with the slots claimed and those returned added to the two counts.
unfoldable pub run_call : Call → ConcurrencyLimiter × ℕ × ℕ → ConcurrencyLimiter × ℕ × ℕ
unfolding try_acquire acquire release
run_call (try_acquire_call v) (l, claimed, returned) =
    let (r, l') = try_acquire v l in
    elim r [ ok true ↦ (l', claimed + asked v, returned) | _ ↦ (l', claimed, returned) ]
run_call (acquire_call v) (l, claimed, returned) =
    let (r, l') = acquire v l in
    elim r [ ok _ ↦ (l', claimed + asked v, returned) | _ ↦ (l', claimed, returned) ]
run_call (release_call v) (l, claimed, returned) =
    let (r, l') = release v l in
    elim r [ ok _ ↦ (l', claimed, returned + asked v) | _ ↦ (l', claimed, returned) ]

unfoldable pub run_calls : List Call → ConcurrencyLimiter × ℕ × ℕ → ConcurrencyLimiter × ℕ × ℕ
unfolding run_call
run_calls [] s = s
run_calls (c ∷ calls) s = run_calls calls (run_call c s)

-- The slots in use are those claimed and not returned, and stay within an unchanged limit.
abbrev Accounts : ℕ → ConcurrencyLimiter × ℕ × ℕ → Type 0
Accounts limit (l, claimed, returned) =
    (l.max_slots ≡ limit) × (l.in_use ≤ limit) × (l.in_use + returned ≡ claimed)

run_call-Accounts :
    (limit : ℕ) (c : Call) (s : ConcurrencyLimiter × ℕ × ℕ)
    → Accounts limit s
    → Accounts limit (run_call c s)
unfolding run_call
run_call-Accounts limit (try_acquire_call v) s h = ground arith
run_call-Accounts limit (acquire_call v) s h = ground arith
run_call-Accounts limit (release_call v) s h = ground arith

run_calls-Accounts :
    (limit : ℕ) (calls : List Call) (s : ConcurrencyLimiter × ℕ × ℕ)
    → Accounts limit s
    → Accounts limit (run_calls calls s)
unfolding run_calls
run_calls-Accounts limit [] s h = h
run_calls-Accounts limit (c ∷ calls) s h =
    run_calls-Accounts limit calls (run_call c s) (run_call-Accounts limit c s h)

-- Whatever calls are made on a new limiter, with whatever arguments, the slots in use are those
-- that were claimed less those that were returned, and never more than `max_slots`.
pub run_calls_accounting :
    (v : Value) {l : ConcurrencyLimiter} (calls : List Call)
    → init v ≡ ok l
    → let (l', claimed, returned) = run_calls calls (l, 0, 0) in
      (l'.max_slots ≡ l.max_slots) × (l'.in_use ≤ l.max_slots) × (l'.in_use + returned ≡ claimed)
unfolding init
run_calls_accounting v {l} calls h = run_calls-Accounts l.max_slots calls (l, 0, 0) (ground arith)

-- The two ways to claim slots agree: `try_acquire` gives true where `acquire` returns, false where
-- it raises the limit error, and its exception where it raises another; both leave the same slots.
try_acquire-eq-acquire :
    (v : Value) (l : ConcurrencyLimiter)
    → ((try_acquire v l).1 ≡ (acquire v l).1)
      × (((try_acquire v l).0 ≡ ok true) ↔ ((acquire v l).0 ≡ ok tt))
      × (((try_acquire v l).0 ≡ ok false)
          ↔ ((acquire v l).0 ≡ raise (concurrency_limit_exceeded (asked v) (available l))))
unfolding try_acquire acquire
try_acquire-eq-acquire v l = (ground arith, ground arith, ground arith)
