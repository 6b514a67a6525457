-- ===== src/Checkpoint/Monotone.antt =====
-- The positions of the store in digital_fte/checkpoint.py only grow.
use digital_fte_agent.Prelude.{
  ℕ, suc, ◌+◌, ◌<◌, ◌≡◌, refl, sym, ap, ◌↔◌, ◌⊎◌, inl, inr, Bool, true, false, Option, none, some,
  List, [], ◌∷◌, ◌++◌, append-nil, arith, Bool-cases, length,
}
use digital_fte_agent.Prelude.Values.{Value, checkpoint_regression, Result, ok, raise, Result-cases}
use digital_fte_agent.Checkpoint.{
  CheckpointRecord, CheckpointStore, validate_position, validate_label, latest, position, is_behind,
  try_advance, advance,
}

-- The position is past the bound, where there is one.
abbrev pub IsPast : ℕ → Option ℕ → Type 0
IsPast p none = Unit
IsPast p (some bound) = bound < p

is_behind-IsPast : (p : ℕ) (bound : Option ℕ) → is_behind p bound ≡ false → IsPast p bound
is_behind-IsPast p none h = tt
is_behind-IsPast p (some bound) h = ground arith

-- The positions are above `bound` and ascend strictly; the sequence numbers count from `n`.
abbrev pub Ascends : ℕ → Option ℕ → CheckpointStore → Type 0
Ascends n bound [] = Unit
Ascends n bound (r ∷ records) =
    IsPast r.position bound × (r.sequence ≡ n) × Ascends (suc n) (some r.position) records

-- A store that `advance` and `try_advance` can build.
abbrev pub IsValid : CheckpointStore → Type 0
IsValid s = Ascends 0 none s

-- The position that the next one has to pass.
abbrev last_from : Option ℕ → CheckpointStore → Option ℕ
last_from bound [] = bound
last_from bound (r ∷ records) = last_from (some r.position) records

last_from-eq-position :
    (r : CheckpointRecord) (records : CheckpointStore)
    → last_from (some r.position) records ≡ position (r ∷ records)
unfolding position
last_from-eq-position r [] = refl
last_from-eq-position r (r' ∷ records) = last_from-eq-position r' records

position-eq-last_from : (s : CheckpointStore) → position s ≡ last_from none s
unfolding position
position-eq-last_from [] = refl
position-eq-last_from (r ∷ records) = sym (last_from-eq-position r records)

Ascends-append :
    (n : ℕ) (bound : Option ℕ) (s : CheckpointStore) (r : CheckpointRecord)
    → Ascends n bound s
    → IsPast r.position (last_from bound s)
    → r.sequence ≡ n + length s
    → Ascends n bound (s ++ r ∷ [])
Ascends-append n bound [] r h ahead e = (ahead, omega arith, tt)
Ascends-append n bound (r' ∷ s) r h ahead e =
    (h.0, h.1, Ascends-append (suc n) (some r'.position) s r h.2 ahead (omega arith))

-- An accepted position goes to the end; anything else leaves the store alone.
try_advance_cases :
    (v w : Value) (s : CheckpointStore)
    → ((r : CheckpointRecord) × ((try_advance v w s) ≡ (ok (some r), s ++ r ∷ []))
        × (is_behind r.position (position s) ≡ false)
        × (r.sequence ≡ length s))
      ⊎ ((try_advance v w s).1 ≡ s)
unfolding try_advance
try_advance_cases v w s = elim (Result-cases (validate_position v)) [
  | inr (e, f) ↦ inr (ground arith)
  | inl (p, f) ↦ elim (Result-cases (validate_label w)) [
    | inr (e, g) ↦ inr (ground arith)
    | inl (label, g) ↦ elim (Bool-cases (is_behind p (position s))) [
      | inl behind ↦ inr (ground arith)
      | inr ahead ↦
          inl
            (record { position = p; sequence = length s; label = label }, ground arith, ahead, refl)
    ]
  ]
]

append_unchanged : (s : CheckpointStore) → (added : List CheckpointRecord) × (s ≡ s ++ added)
append_unchanged s = ([], sym (append-nil s))

-- An attempt to advance keeps a valid store valid, its positions ascending strictly, and every record
-- that it holds in place.
pub try_advance-IsValid :
    (v w : Value) (s : CheckpointStore)
    → IsValid s
    → let s' = (try_advance v w s).1 in
      IsValid s' × ((added : List CheckpointRecord) × (s' ≡ s ++ added))
try_advance-IsValid v w s h = elim (try_advance_cases v w s) [
  | inl (r, e, ahead, n) ↦
      let longer : (try_advance v w s).1 ≡ s ++ r ∷ [] = ap (λ t. t.1) e in
      let fits : IsPast r.position (last_from none s) =
        is_behind-IsPast r.position (last_from none s) (rw (position-eq-last_from s) at ahead) in
      rw longer (Ascends-append 0 none s r h fits (omega arith), (r ∷ [], refl))
  | inr same ↦ rw same (h, append_unchanged s)
]

abbrev pub is_regression : Result CheckpointRecord → Bool
is_regression (raise (checkpoint_regression p latest)) = true
is_regression _ = false

-- `advance` and `try_advance` agree: they leave the same store, `advance` returns the record that
-- `try_advance` returns, and raises the regression exactly where that returns none.
advance-eq-try_advance :
    (v w : Value) (s : CheckpointStore)
    → ((advance v w s).1 ≡ (try_advance v w s).1)
      × ((r : CheckpointRecord)
          → ((advance v w s).0 ≡ ok r) ↔ ((try_advance v w s).0 ≡ ok (some r)))
      × ((is_regression (advance v w s).0 ≡ true) ↔ ((try_advance v w s).0 ≡ ok none))
unfolding advance try_advance validate_position validate_label
advance-eq-try_advance v w s = (ground arith, λ r. ground arith, ground arith)
