-- ===== src/Prelude/Occurs.antt =====
-- What `needle in text` decides: the text is the needle with something before and after it.
use Prim.Native.Char.{code}
use text.Mathlib.TextEquality.{Char-path}
use digital_fte_agent.Prelude.{
  String, ◌≡◌, refl, sym, subst, ◌↔◌, inl, inr, Bool, true, false, ◌&&◌, arith, ◌==◌, ==_iff,
  Bool-cases,
}
use digital_fte_agent.Prelude.Text.{append_text, starts_with, is_in}

abbrev pub Occurs : String → String → Type 0
Occurs needle text = (a b : String) × (text ≡ append_text a (append_text needle b))

starts_with_sound : (n s : String) → starts_with n s ≡ true → (b : String) × (s ≡ append_text n b)
starts_with_sound String.[] s h = (s, refl)
starts_with_sound (String.◌∷◌ c n) String.[] h = ground arith
starts_with_sound (String.◌∷◌ c n) (String.◌∷◌ d s) h =
    let same = and_split (code c == code d) (starts_with n s) h in
    let rest = starts_with_sound n s same.1 in
    (
      rest.0,
      λ i. String.◌∷◌ (Char-path d c (sym ((==_iff (code c) (code d)).0 same.0)) i) (rest.1 i),
    )
  where
    and_split : (a b : Bool) → (a && b) ≡ true → (a ≡ true) × (b ≡ true)
    and_split true true h = (refl, refl)
    and_split true false h = ground arith
    and_split false b h = ground arith

starts_with-append : (n b : String) → starts_with n (append_text n b) ≡ true
starts_with-append String.[] b = refl
starts_with-append (String.◌∷◌ c n) b = ground (arith, starts_with-append n b)

is_in-start : (n s : String) → starts_with n s ≡ true → is_in n s ≡ true
unfolding is_in
is_in-start n String.[] h = h
is_in-start n (String.◌∷◌ c s) h = ground (arith, h)

is_in-append : (n a b : String) → is_in n (append_text a (append_text n b)) ≡ true
unfolding is_in
is_in-append n String.[] b = is_in-start n (append_text n b) (starts_with-append n b)
is_in-append n (String.◌∷◌ c a) b = ground (arith, is_in-append n a b)

is_in_sound : (n s : String) → is_in n s ≡ true → Occurs n s
unfolding is_in
is_in_sound n String.[] h = let start = starts_with_sound n String.[] h in ("", start.0, start.1)
is_in_sound n (String.◌∷◌ c s) h = elim (Bool-cases (starts_with n (String.◌∷◌ c s))) [
  | inl here ↦ let start = starts_with_sound n (String.◌∷◌ c s) here in ("", start.0, start.1)
  | inr not_here ↦
      let later = is_in_sound n s (ground arith) in
      (String.◌∷◌ c later.0, later.1, λ i. String.◌∷◌ c (later.2 i))
]

pub is_in-Occurs : (needle text : String) → (is_in needle text ≡ true) ↔ Occurs needle text
is_in-Occurs n s = (
  is_in_sound n s,
  λ found. subst (λ t. is_in n t ≡ true) (sym found.2) (is_in-append n found.0 found.1),
)
