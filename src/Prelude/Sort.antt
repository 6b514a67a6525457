-- ===== src/Prelude/Sort.antt =====
-- Python's `sort`, which is stable: here by insertion, for an order given as a Boolean test.
use mathlib.Core.List.{Perm}
use mathlib.Core.List.Perm
use digital_fte_agent.Prelude.{
  ◌≡◌, inl, inr, Bool, true, false, List, [], ◌∷◌, arith, if◌then◌else◌, Bool-cases,
}

module _ {A : Type 0} (before : A → A → Bool) where
  -- In front of the first item that need not stand before `x`.
  abbrev pub insert_by : A → List A → List A
  insert_by x [] = x ∷ []
  insert_by x (y ∷ l) = if before y x then y ∷ insert_by x l else x ∷ y ∷ l

  abbrev pub sort_by : List A → List A
  sort_by [] = []
  sort_by (x ∷ l) = insert_by x (sort_by l)

  -- No item stands after one that it should stand before.
  abbrev pub IsSortedFrom : A → List A → Type 0
  IsSortedFrom x [] = Unit
  IsSortedFrom x (y ∷ l) = (before y x ≡ false) × IsSortedFrom y l

  abbrev pub IsSorted : List A → Type 0
  IsSorted [] = Unit
  IsSorted (x ∷ l) = IsSortedFrom x l

  pub insert_by-perm : (x : A) (l : List A) → Perm (insert_by x l) (x ∷ l)
  insert_by-perm x [] = Perm.refl (x ∷ [])
  insert_by-perm x (y ∷ l) = elim (Bool-cases (before y x)) [
    | inl later ↦ rw later (Perm.trans (Perm.cons y (insert_by-perm x l)) (Perm.swap x y l))
    | inr first ↦ rw first (Perm.refl (x ∷ y ∷ l))
  ]

  pub sort_by-perm : (l : List A) → Perm (sort_by l) l
  sort_by-perm [] = Perm.refl []
  sort_by-perm (x ∷ l) = Perm.trans (insert_by-perm x (sort_by l)) (Perm.cons x (sort_by-perm l))

  module _ (asymmetric : (x y : A) → before x y ≡ true → before y x ≡ false) where
    insert_by-IsSortedFrom :
        (z x : A) (l : List A)
        → before x z ≡ false
        → IsSortedFrom z l
        → IsSortedFrom z (insert_by x l)
    insert_by-IsSortedFrom z x [] h s = (h, tt)
    insert_by-IsSortedFrom z x (y ∷ l) h s =
        ground (arith, asymmetric y x, insert_by-IsSortedFrom y x l)

    insert_by-IsSorted : (x : A) (l : List A) → IsSorted l → IsSorted (insert_by x l)
    insert_by-IsSorted x [] s = tt
    insert_by-IsSorted x (y ∷ l) s = ground (arith, asymmetric y x, insert_by-IsSortedFrom y x l)

    pub sort_by-IsSorted : (l : List A) → IsSorted (sort_by l)
    sort_by-IsSorted [] = tt
    sort_by-IsSorted (x ∷ l) = insert_by-IsSorted x (sort_by l) (sort_by-IsSorted l)
