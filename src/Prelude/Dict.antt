-- ===== src/Prelude/Dict.antt =====
-- A Python dict in insertion order, and a set as a dict without values.
use digital_fte_agent.Prelude.{
  ◌+◌, ◌≡◌, refl, ◌≢◌, Bool, true, false, List, [], ◌∷◌, ◌++◌, Option, none, some, length, arith,
}
use mathlib.Core.Logic.{ite}

abbrev pub Dict : Type 0 → Type 0 → Type 0
Dict K V = List (K × V)

abbrev pub keys : {K V : Type 0} → Dict K V → List K
keys [] = []
keys ((k, v) ∷ d) = k ∷ keys d

abbrev pub values : {K V : Type 0} → Dict K V → List V
values [] = []
values ((k, v) ∷ d) = v ∷ values d

module _ {K : Type 0} (dec : Discrete K) where
  -- `a in l`
  abbrev pub mem? : K → List K → Bool
  mem? a [] = false
  mem? a (x ∷ l) = ite (dec a x) true (mem? a l)

  -- No key stands twice.
  abbrev pub IsDistinct : List K → Type 0
  IsDistinct [] = Unit
  IsDistinct (x ∷ l) = (mem? x l ≡ false) × IsDistinct l

module _ {K V : Type 0} (dec : Discrete K) where
  -- `del dict[a]`, for a key that may be missing
  abbrev pub erase : K → Dict K V → Dict K V
  erase a [] = []
  erase a ((x, w) ∷ rest) = ite (dec a x) rest ((x, w) ∷ erase a rest)

  -- `dict.get(a)`
  abbrev pub lookup : K → Dict K V → Option V
  lookup a [] = none
  lookup a ((x, w) ∷ rest) = ite (dec a x) (some w) (lookup a rest)

  pub lookup-erase_ne :
      (a b : K) (entries : Dict K V) → a ≢ b → lookup a (erase b entries) ≡ lookup a entries
  lookup-erase_ne a b [] ne = refl
  lookup-erase_ne a b (e ∷ rest) ne = ground (arith, lookup-erase_ne a b rest ne)

  -- `a in dict`
  abbrev pub contains : K → Dict K V → Bool
  contains a entries = elim (lookup a entries) [ some _ ↦ true | none ↦ false ]

  pub contains-eq-mem? :
      (a : K) (entries : Dict K V) → contains a entries ≡ mem? dec a (keys entries)
  contains-eq-mem? a [] = refl
  contains-eq-mem? a (e ∷ rest) = ground (arith, contains-eq-mem? a rest)

  -- `dict[a] = w`: a known key keeps its place
  abbrev pub insert : K → V → Dict K V → Dict K V
  insert a w [] = (a, w) ∷ []
  insert a w ((x, old) ∷ rest) = ite (dec a x) ((a, w) ∷ rest) ((x, old) ∷ insert a w rest)

  -- Only the key that is set gets a new value.
  pub lookup-insert_ne :
      (a b : K) (w : V) (entries : Dict K V)
      → a ≢ b
      → lookup a (insert b w entries) ≡ lookup a entries
  lookup-insert_ne a b w [] ne = ground arith
  lookup-insert_ne a b w (e ∷ rest) ne = ground (arith, lookup-insert_ne a b w rest ne)

  pub lookup-insert_self :
      (a : K) (w : V) (entries : Dict K V) → lookup a (insert a w entries) ≡ some w
  lookup-insert_self a w [] = ground arith
  lookup-insert_self a w (e ∷ rest) = ground (arith, lookup-insert_self a w rest)

  -- A new key goes to the end.
  pub insert-append :
      (k : K) (v : V) (d : Dict K V) → lookup k d ≡ none → insert k v d ≡ d ++ (k, v) ∷ []
  insert-append k v [] h = refl
  insert-append k v (e ∷ d) h = ground (arith, insert-append k v d)

  pub mem?-keys-insert :
      (j k : K) (v : V) (d : Dict K V)
      → j ≢ k
      → mem? dec j (keys (insert k v d)) ≡ mem? dec j (keys d)
  mem?-keys-insert j k v [] h = ground arith
  mem?-keys-insert j k v (e ∷ d) h = ground (arith, mem?-keys-insert j k v d h)

  pub mem?-keys-erase :
      (j k : K) (d : Dict K V) → mem? dec j (keys d) ≡ false → mem? dec j (keys (erase k d)) ≡ false
  mem?-keys-erase j k [] h = refl
  mem?-keys-erase j k (e ∷ d) h = ground (arith, mem?-keys-erase j k d)

  pub insert-IsDistinct :
      (k : K) (v : V) (d : Dict K V)
      → IsDistinct dec (keys d)
      → IsDistinct dec (keys (insert k v d))
  insert-IsDistinct k v [] h = (refl, tt)
  insert-IsDistinct k v (e ∷ d) h =
      ground (arith, insert-IsDistinct k v d h.1, mem?-keys-insert e.0 k v d)

  pub erase-IsDistinct :
      (k : K) (d : Dict K V) → IsDistinct dec (keys d) → IsDistinct dec (keys (erase k d))
  erase-IsDistinct k [] h = tt
  erase-IsDistinct k (e ∷ d) h = ground (arith, erase-IsDistinct k d h.1, mem?-keys-erase e.0 k d)

  pub lookup-erase_self :
      (k : K) (d : Dict K V) → IsDistinct dec (keys d) → lookup k (erase k d) ≡ none
  lookup-erase_self k [] h = refl
  lookup-erase_self k (e ∷ d) h = ground (arith, lookup-erase_self k d h.1, contains-eq-mem? k d)

  pub length-erase :
      (k : K) (d : Dict K V) (v : V) → lookup k d ≡ some v → length (erase k d) + 1 ≡ length d
  length-erase k [] v h = ground arith
  length-erase k (e ∷ d) v h = ground (arith, length-erase k d v)

  pub lookup-insert :
      (j k : K) (v : V) (d : Dict K V)
      → lookup j (insert k v d) ≡ ite (dec j k) (some v) (lookup j d)
  lookup-insert j k v [] = refl
  lookup-insert j k v (e ∷ d) = ground (arith, lookup-insert j k v d)

  pub lookup-erase :
      (j k : K) (d : Dict K V)
      → IsDistinct dec (keys d)
      → lookup j (erase k d) ≡ ite (dec j k) none (lookup j d)
  lookup-erase j k [] h = ground arith
  lookup-erase j k (e ∷ d) h =
      ground (arith, lookup-erase j k d h.1, contains-eq-mem? j d, contains-eq-mem? k d)
