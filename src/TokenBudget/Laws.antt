-- ===== src/TokenBudget/Laws.antt =====
-- The budget (digital_fte/token_budget.py) never goes negative, and its operations are atomic.
use digital_fte_agent.Prelude.{
  ℕ, ◌+◌, ◌-◌, ◌≤◌, ◌≡◌, refl, ◌∙◌, List, [], ◌∷◌, arith, leb, if◌then◌else◌,
}
use digital_fte_agent.Prelude.Int.{ℤ, pos, ◌≤ℤ◌}
use digital_fte_agent.Prelude.Values.{Value, int, value_error, budget_exceeded, Result, ok, raise}
use digital_fte_agent.Prelude.Action.{Action, ◌>>◌}
use digital_fte_agent.TokenBudget.{TokenBudget, init, remaining, reserve, release, consume, commit}

-- What is consumed and reserved fits into the pool beside the safety reserve.
abbrev pub IsValid : TokenBudget → Type 0
IsValid b = b.safety_reserve + b.consumed + b.reserved ≤ b.total

-- The tokens that are free, as a number.
abbrev pub free : TokenBudget → ℕ
free b = b.total - b.safety_reserve - b.consumed - b.reserved

remaining-eq-free : (b : TokenBudget) → IsValid b → remaining b ≡ pos (free b)
unfolding remaining
remaining-eq-free b h = ground arith

abbrev holding : TokenBudget → ℕ → ℕ → TokenBudget
holding b reserved consumed = record b { reserved = reserved; consumed = consumed }

reserve-int :
    (n : ℕ) (b : TokenBudget)
    → IsValid b
    → reserve (int (pos n)) b ≡ (
        if leb n (free b)
        then (ok (pos (free b - n)), holding b (b.reserved + n) b.consumed)
        else (raise (budget_exceeded n (pos (free b))), b))
unfolding reserve
reserve-int n b h =
    ground (arith, remaining-eq-free b h, remaining-eq-free (holding b (b.reserved + n) b.consumed))

release-int :
    (n : ℕ) (b : TokenBudget)
    → IsValid b
    → release (int (pos n)) b ≡ (
        if leb n b.reserved
        then (ok (pos (free b + n)), holding b (b.reserved - n) b.consumed)
        else (raise value_error, b))
unfolding release
release-int n b h =
    ground (arith, remaining-eq-free b h, remaining-eq-free (holding b (b.reserved - n) b.consumed))

consume-int :
    (n : ℕ) (b : TokenBudget)
    → IsValid b
    → consume (int (pos n)) b ≡ (
        if leb n (free b)
        then (ok (pos (free b - n)), holding b b.reserved (b.consumed + n))
        else (raise (budget_exceeded n (pos (free b))), b))
unfolding consume
consume-int n b h =
    ground (arith, remaining-eq-free b h, remaining-eq-free (holding b b.reserved (b.consumed + n)))

commit-int :
    (n m : ℕ) (b : TokenBudget)
    → IsValid b
    → commit (int (pos n)) (int (pos m)) b ≡ (
        if leb n b.reserved
        then (if leb m (free b + n)
            then (ok (pos (free b + n - m)), holding b (b.reserved - n) (b.consumed + m))
            else (raise (budget_exceeded m (pos (free b + n))), b))
        else (raise value_error, b))
unfolding commit
commit-int n m b h =
    ground (
      arith,
      remaining-eq-free b h,
      remaining-eq-free (holding b (b.reserved - n) (b.consumed + m)),
    )

pub data Operation : Type 0 where
  reserve_op release_op consume_op : Value → Operation
  commit_op : Value → Value → Operation

pub apply : Operation → Action TokenBudget ℤ
apply (reserve_op v) = reserve v
apply (release_op v) = release v
apply (consume_op v) = consume v
apply (commit_op v w) = commit v w

-- An operation either raises and changes nothing, or returns what now remains, which is not
-- negative. The pool and the safety reserve never change.
abbrev pub Atomic : TokenBudget → Result ℤ × TokenBudget → Type 0
Atomic b (raise e, b') = b' ≡ b
Atomic b (ok left, b') =
    IsValid b'
    × (left ≡ remaining b')
    × (pos 0 ≤ℤ left)
    × (b'.total ≡ b.total)
    × (b'.safety_reserve ≡ b.safety_reserve)

returned-Atomic :
    (b : TokenBudget) (reserved consumed left : ℕ)
    → IsValid (holding b reserved consumed)
    → left ≡ free (holding b reserved consumed)
    → Atomic b (ok (pos left), holding b reserved consumed)
returned-Atomic b reserved consumed left h e =
    ground (arith, remaining-eq-free (holding b reserved consumed) h)

reserve-Atomic : (v : Value) (b : TokenBudget) → IsValid b → Atomic b (reserve v b)
unfolding reserve
reserve-Atomic (int (pos n)) b h =
    rw (reserve-int n b h)
      (ground (arith, returned-Atomic b (b.reserved + n) b.consumed (free b - n)))
reserve-Atomic _ b h = ground arith

release-Atomic : (v : Value) (b : TokenBudget) → IsValid b → Atomic b (release v b)
unfolding release
release-Atomic (int (pos n)) b h =
    rw (release-int n b h)
      (ground (arith, returned-Atomic b (b.reserved - n) b.consumed (free b + n)))
release-Atomic _ b h = ground arith

consume-Atomic : (v : Value) (b : TokenBudget) → IsValid b → Atomic b (consume v b)
unfolding consume
consume-Atomic (int (pos n)) b h =
    rw (consume-int n b h)
      (ground (arith, returned-Atomic b b.reserved (b.consumed + n) (free b - n)))
consume-Atomic _ b h = ground arith

commit-Atomic : (v w : Value) (b : TokenBudget) → IsValid b → Atomic b (commit v w b)
unfolding commit
commit-Atomic (int (pos n)) (int (pos m)) b h =
    rw (commit-int n m b h)
      (ground (arith, returned-Atomic b (b.reserved - n) (b.consumed + m) (free b + n - m)))
commit-Atomic _ _ b h = ground arith

-- Every operation on a valid budget is atomic, with whatever arguments: it raises and changes nothing,
-- or it returns what now remains, which is not negative, and keeps the pool and the safety reserve.
pub apply-Atomic : (op : Operation) (b : TokenBudget) → IsValid b → Atomic b (apply op b)
unfolding apply
apply-Atomic (reserve_op v) b h = reserve-Atomic v b h
apply-Atomic (release_op v) b h = release-Atomic v b h
apply-Atomic (consume_op v) b h = consume-Atomic v b h
apply-Atomic (commit_op v w) b h = commit-Atomic v w b h

pub apply_all : List Operation → TokenBudget → TokenBudget
unfolding apply
apply_all [] b = b
apply_all (op ∷ ops) b = apply_all ops (apply op b).1

Atomic-IsValid :
    (b : TokenBudget) (s : Result ℤ × TokenBudget)
    → IsValid b
    → Atomic b s
    → IsValid s.1 × (s.1.total ≡ b.total) × (s.1.safety_reserve ≡ b.safety_reserve)
Atomic-IsValid b (raise e, b') h a = ground arith
Atomic-IsValid b (ok left, b') h a = ground arith

apply_all-IsValid :
    (ops : List Operation) (b : TokenBudget)
    → IsValid b
    → let b' = apply_all ops b in
      IsValid b' × (b'.total ≡ b.total) × (b'.safety_reserve ≡ b.safety_reserve)
unfolding apply_all
apply_all-IsValid [] b h = (h, refl, refl)
apply_all-IsValid (op ∷ ops) b h =
    let (v, t, s) = Atomic-IsValid b (apply op b) h (apply-Atomic op b h) in
    let (v', t', s') = apply_all-IsValid ops (apply op b).1 v in (v', t' ∙ t, s' ∙ s)

-- From a new budget, no sequence of operations, with whatever arguments, ever spends or holds the
-- safety reserve: what is consumed and reserved stays within the rest of the pool.
pub apply_all-le :
    (total safety : Value) {b : TokenBudget} (ops : List Operation)
    → init total safety ≡ ok b
    → let b' = apply_all ops b in
      (b'.safety_reserve + b'.consumed + b'.reserved ≤ b.total) × (pos 0 ≤ℤ remaining b')
unfolding init
apply_all-le total safety {b} ops h =
    let (v, t, s) = apply_all-IsValid ops b (ground arith) in
    ground (arith, remaining-eq-free (apply_all ops b) v)

-- The state that an all-or-nothing sequence ends in.
abbrev pub keep_if_ok : TokenBudget → Result ℤ × TokenBudget → Result ℤ × TokenBudget
keep_if_ok b (ok left, b') = (ok left, b')
keep_if_ok b (raise e, b') = (raise e, b)

-- On a valid budget and for integer amounts that are not negative, a commit does what a release followed
-- by a consumption does, with the same result or exception, but is undone as a whole where either of them
-- raises.
pub commit-eq-release-consume :
    (reserved actual : ℕ) (b : TokenBudget)
    → IsValid b
    → commit (int (pos reserved)) (int (pos actual)) b
      ≡ keep_if_ok b ((release (int (pos reserved)) >> consume (int (pos actual))) b)
commit-eq-release-consume n m b h =
    rw (commit-int n m b h)
      (ground (arith, release-int n b h, consume-int m (holding b (b.reserved - n) b.consumed)))

-- A reservation that went through can be released, which restores the budget.
release-reserve :
    (v : Value) (b : TokenBudget) {left : ℤ}
    → IsValid b
    → (reserve v b).0 ≡ ok left
    → release v (reserve v b).1 ≡ (ok (remaining b), b)
unfolding reserve
release-reserve (int (pos n)) b h r =
    let grants : n ≤ free b = ground (arith, reserve-int n b h) in
    rw (reserve-int n b h)
      (ground (arith, remaining-eq-free b h, release-int n (holding b (b.reserved + n) b.consumed)))
release-reserve _ b h r = cc
