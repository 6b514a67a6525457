-- ===== src/Prelude/Amounts.antt =====
-- The arithmetic of Python's floats that are not negative: products and sums that are too large are
-- infinite, while a power that is too large raises OverflowError.
use Prim.Native.Nat.{◌^◌}
use digital_fte_agent.Prelude.{
  ℕ, zero, suc, ◌+◌, ◌-◌, ◌*◌, ◌≤◌, Bool, true, false, Option, none, some, List, [], ◌∷◌, ltb, leb,
  if◌then◌else◌,
}
use digital_fte_agent.Prelude.Values.{overflow_error, Result, ok, raise}

pub data Amount : Type 0 where
  seconds : ℕ → Amount
  infinity : Amount
  nan : Amount

-- From here on a number rounds beyond the largest float.
unfoldable pub overflow_from : ℕ
overflow_from = 2 ^ 1024 - 2 ^ 970

abbrev pub rounded : ℕ → Amount
rounded n = if leb overflow_from n then infinity else seconds n

-- `a < b`
abbrev pub below : Amount → Amount → Bool
below (seconds a) (seconds b) = ltb a b
below (seconds a) infinity = true
below _ _ = false

-- `a * b`
abbrev pub times : Amount → Amount → Amount
times (seconds a) (seconds b) = rounded (a * b)
times (seconds zero) infinity = nan
times infinity (seconds zero) = nan
times nan b = nan
times a nan = nan
times _ _ = infinity

-- `a + b`
abbrev pub plus : Amount → Amount → Amount
plus (seconds a) (seconds b) = rounded (a + b)
plus nan b = nan
plus a nan = nan
plus _ _ = infinity

-- `a ** n`, of whole numbers
abbrev pub power : ℕ → ℕ → ℕ
power a zero = 1
power a (suc n) = a * power a n

abbrev pub finite_power : ℕ → Result Amount
finite_power n = if leb overflow_from n then raise overflow_error else ok (seconds n)

-- `factor ** n`
abbrev pub power_amount : Amount → ℕ → Result Amount
power_amount (seconds factor) n = finite_power (power factor n)
power_amount factor zero = ok (seconds 1)
power_amount factor (suc n) = ok factor

-- `min(raw, ceiling)`
abbrev pub min_amount : Amount → Option Amount → Amount
min_amount raw none = raw
min_amount raw (some ceiling) = if below ceiling raw then ceiling else raw

-- `math.fsum`, which raises where the finite summands overflow: their sum, and whether one is infinite.
abbrev pub finite_sum : List Amount → ℕ
finite_sum [] = 0
finite_sum (seconds n ∷ l) = n + finite_sum l
finite_sum (_ ∷ l) = finite_sum l

abbrev pub has_nan : List Amount → Bool
has_nan [] = false
has_nan (nan ∷ l) = true
has_nan (_ ∷ l) = has_nan l

abbrev pub has_infinity : List Amount → Bool
has_infinity [] = false
has_infinity (infinity ∷ l) = true
has_infinity (_ ∷ l) = has_infinity l

abbrev pub fsum : List Amount → Result Amount
fsum l =
    if leb overflow_from (finite_sum l)
    then raise overflow_error
    else ok (if has_nan l then nan else if has_infinity l then infinity else seconds (finite_sum l))

-- Both are numbers, and the first is at most the second.
abbrev pub AtMost : Amount → Amount → Type 0
AtMost (seconds a) (seconds b) = a ≤ b
AtMost (seconds a) infinity = Unit
AtMost infinity infinity = Unit
AtMost _ _ = ⊥
