-- ===== src/Batcher/Chunks.antt =====
-- The batches of digital_fte/batcher.py keep the items in order and within the limits.
use digital_fte_agent.Prelude.{
  ℕ, ◌+◌, ◌≤◌, ◌<◌, ◌≡◌, refl, sym, ap, ◌∙◌, ◌⊎◌, inl, inr, true, false, ◌&&◌, ◌||◌, Option, none,
  some, List, [], ◌∷◌, ◌++◌, append-nil, append_assoc, arith, Bool-cases, length, length-append,
}
use digital_fte_agent.Prelude.Values.{Value, ok}
use digital_fte_agent.Batcher.{over_count, over_size, some_of, item_size, close, chunk}

-- The size of an item; without a limit sizes do not count.
abbrev pub counted : Option ℕ → ℕ → ℕ
counted none n = 0
counted (some max_size) n = n

module _ {A : Type 0} where
  abbrev pub flatten : List (List A) → List A
  flatten [] = []
  flatten (b ∷ batches) = b ++ flatten batches

  abbrev pub total : Option ℕ → (A → ℕ) → List A → ℕ
  total max_size size [] = 0
  total max_size size (a ∷ l) = counted max_size (size a) + total max_size size l

  -- A batch is within the number, and within the size if it is more than one item.
  abbrev pub Fits : Option ℕ → Option ℕ → (A → ℕ) → List A → Type 0
  Fits max_count max_size size b =
      (some_of b ≡ true)
      × ((n : ℕ) → max_count ≡ some n → length b ≤ n)
      × ((n : ℕ) → max_size ≡ some n → (total max_size size b ≤ n) ⊎ (length b ≡ 1))

  abbrev pub AllFit : Option ℕ → Option ℕ → (A → ℕ) → List (List A) → Type 0
  AllFit max_count max_size size [] = Unit
  AllFit max_count max_size size (b ∷ batches) =
      Fits max_count max_size size b × AllFit max_count max_size size batches

  flatten-append : (bs : List (List A)) (b : List A) → flatten (bs ++ b ∷ []) ≡ flatten bs ++ b
  flatten-append [] b = append-nil b
  flatten-append (x ∷ bs) b = rw (flatten-append bs b) (sym (append_assoc x (flatten bs) b))

  module _ (max_count max_size : Option ℕ) (size : A → ℕ) where
    AllFit-append :
        (bs : List (List A)) (b : List A)
        → AllFit max_count max_size size bs
        → Fits max_count max_size size b
        → AllFit max_count max_size size (bs ++ b ∷ [])
    AllFit-append [] b h k = (k, tt)
    AllFit-append (x ∷ bs) b h k = (h.0, AllFit-append bs b h.1 k)

    total-append :
        (l : List A) (a : A)
        → total max_size size (l ++ a ∷ []) ≡ total max_size size l + counted max_size (size a)
    total-append [] a = omega arith
    total-append (x ∷ l) a = omega (arith, total-append l a)

    single-Fits :
        (a : A) → ((n : ℕ) → max_count ≡ some n → 0 < n) → Fits max_count max_size size (a ∷ [])
    single-Fits a some_room = (refl, λ n e. omega (arith, some_room n e), λ n e. inr refl)

    some_of-append : (l : List A) (a : A) → some_of (l ++ a ∷ []) ≡ true
    some_of-append [] a = refl
    some_of-append (x ∷ l) a = refl

    -- An item that goes over neither limit.
    append-Fits :
        (l : List A) (a : A)
        → over_count max_count (length l) ≡ false
        → over_size max_size (total max_size size l + counted max_size (size a)) ≡ false
        → Fits max_count max_size size (l ++ a ∷ [])
    append-Fits l a h k = (
      some_of-append l a,
      λ n e. ground (arith, length-append l (a ∷ [])),
      λ n e. inl (ground (arith, total-append l a)),
    )

    flatten-close :
        (bs : List (List A)) (current : List A) → flatten (close bs current) ≡ flatten bs ++ current
    flatten-close bs [] = sym (append-nil (flatten bs))
    flatten-close bs (a ∷ current) = flatten-append bs (a ∷ current)

    close-AllFit :
        (bs : List (List A)) (current : List A)
        → AllFit max_count max_size size bs
        → (some_of current ≡ true → Fits max_count max_size size current)
        → AllFit max_count max_size size (close bs current)
    close-AllFit bs [] h k = h
    close-AllFit bs (a ∷ current) h k = AllFit-append bs (a ∷ current) h (k refl)

    module _ (size_of : A → Value) (some_room : (n : ℕ) → max_count ≡ some n → 0 < n)
        (sized : (a : A) → item_size max_size size_of a ≡ ok (counted max_size (size a))) where
      chunk_closes :
          (a : A) (items : List A) (bs : List (List A)) (current : List A) (n : ℕ)
          → (some_of current
              && (over_count max_count (length current)
                  || over_size max_size (n + counted max_size (size a))))
            ≡ true
          → chunk max_count max_size size_of (a ∷ items) bs current n
            ≡ chunk max_count max_size size_of items
                (bs ++ current ∷ [])
                (a ∷ [])
                (counted max_size (size a))
      unfolding chunk
      chunk_closes a items bs current n h = ground (arith, sized a)

      chunk_stays :
          (a : A) (items : List A) (bs : List (List A)) (current : List A) (n : ℕ)
          → (some_of current
              && (over_count max_count (length current)
                  || over_size max_size (n + counted max_size (size a))))
            ≡ false
          → chunk max_count max_size size_of (a ∷ items) bs current n
            ≡ chunk max_count max_size size_of items bs
                (current ++ a ∷ [])
                (n + counted max_size (size a))
      unfolding chunk
      chunk_stays a items bs current n h = ground (arith, sized a)

      stays-Fits :
          (current : List A) (a : A) (n : ℕ)
          → n ≡ total max_size size current
          → (some_of current
              && (over_count max_count (length current)
                  || over_size max_size (n + counted max_size (size a))))
            ≡ false
          → Fits max_count max_size size (current ++ a ∷ [])
      stays-Fits [] a n e h = single-Fits a some_room
      stays-Fits (x ∷ current) a n e h = append-Fits (x ∷ current) a (ground arith) (ground arith)

      chunk_ends :
          (bs : List (List A)) (current : List A) (n : ℕ)
          → chunk max_count max_size size_of [] bs current n ≡ ok (close bs current)
      unfolding chunk
      chunk_ends bs current n = refl

      -- From any state of the loop whose batches fit.
      chunk_fits :
          (items : List A) (bs : List (List A)) (current : List A) (n : ℕ)
          → AllFit max_count max_size size bs
          → (some_of current ≡ true → Fits max_count max_size size current)
          → n ≡ total max_size size current
          → (out : List (List A)) × (chunk max_count max_size size_of items bs current n ≡ ok out)
            × (flatten out ≡ (flatten bs ++ current) ++ items)
            × AllFit max_count max_size size out
      chunk_fits [] bs current n h k e = (
        close bs current,
        chunk_ends bs current n,
        flatten-close bs current ∙ sym (append-nil (flatten bs ++ current)),
        close-AllFit bs current h k,
      )
      chunk_fits (a ∷ items) bs current n h k e =
          let item = counted max_size (size a) in
          let over = over_count max_count (length current) || over_size max_size (n + item) in
          elim (Bool-cases (some_of current && over)) [
            | inl closing ↦
                let (out, run, flat, fit) =
                  chunk_fits items (bs ++ current ∷ []) (a ∷ []) item
                    (AllFit-append bs current h (k (ground arith))) (λ _. single-Fits a some_room)
                    (omega arith) in
                rw (chunk_closes a items bs current n closing) (
                  out,
                  run,
                  flat
                      ∙ ap (λ l. (l ++ a ∷ []) ++ items) (flatten-append bs current)
                      ∙ append_assoc (flatten bs ++ current) (a ∷ []) items,
                  fit,
                )
            | inr staying ↦
                let (out, run, flat, fit) =
                  chunk_fits items bs (current ++ a ∷ []) (n + item) h
                    (λ _. stays-Fits current a n e staying)
                    (omega (arith, total-append current a, e)) in
                rw (chunk_stays a items bs current n staying) (
                  out,
                  run,
                  flat
                      ∙ ap (λ l. l ++ items) (sym (append_assoc (flatten bs) current (a ∷ [])))
                      ∙ append_assoc (flatten bs ++ current) (a ∷ []) items,
                  fit,
                )
          ]

      -- If every item has a size, and the limit on the number is not 0, the items are batched: put
      -- together, the batches are the items in order; no batch is empty, none has more items than
      -- the limit, and one with more than one item is within the limit on the size.
      pub chunk_lem :
          (items : List A)
          → (out : List (List A)) × (chunk max_count max_size size_of items [] [] 0 ≡ ok out)
            × (flatten out ≡ items)
            × AllFit max_count max_size size out
      chunk_lem items = chunk_fits items [] [] 0 tt (λ e. ground arith) refl
