-- ===== src/Prelude/TextOrder.antt =====
-- `<` on texts: by the code points, as Python compares them.
use Prim.Native.Char.{Char, code}
use Prim.Native.String.{compare, then}
use Prim.Native.String.compare
use Prim.Native.Nat.{compare as compare_ℕ, Ordering}
use digital_fte_agent.Prelude.{String, ◌≡◌, refl, Bool, true, false, arith}

unfoldable pub text_before : String → String → Bool
text_before s t = elim (compare s t) [ Ordering.lt ↦ true | _ ↦ false ]

compare_cons :
    (c d : Char) (s t : String)
    → compare (String.◌∷◌ c s) (String.◌∷◌ d t) ≡ then (compare_ℕ (code c) (code d)) (compare s t)
compare_cons c d s t = compare.cons-cons c d s t

compare_nil : (c : Char) (s : String) → compare (String.◌∷◌ c s) String.[] ≡ Ordering.gt
compare_nil c s = compare.cons-nil c s

pub text_before_asymm : (s t : String) → text_before s t ≡ true → text_before t s ≡ false
unfolding text_before
text_before_asymm String.[] String.[] h = refl
text_before_asymm String.[] (String.◌∷◌ d t) h = ground (arith, compare_nil d t)
text_before_asymm (String.◌∷◌ c s) String.[] h = ground (arith, compare_nil c s)
text_before_asymm (String.◌∷◌ c s) (String.◌∷◌ d t) h =
    ground (arith, text_before_asymm s t, compare_cons c d s t, compare_cons d c t s)
