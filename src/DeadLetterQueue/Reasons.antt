-- ===== src/DeadLetterQueue/Reasons.antt =====
-- The roll-up of failure reasons in digital_fte/dead_letter_queue.py.
use digital_fte_agent.Prelude.{
  ℕ, ◌+◌, String, ◌≡◌, refl, ap, ◌∙◌, ite, true, false, List, [], ◌∷◌, arith,
}
use digital_fte_agent.Prelude.Dict.{
  Dict, keys, mem?, IsDistinct, lookup, insert, insert-IsDistinct, lookup-insert,
}
use digital_fte_agent.Prelude.Values.{String-discrete}
use digital_fte_agent.Prelude.Sort.{insert_by, sort_by, IsSorted, sort_by-IsSorted}
use digital_fte_agent.Prelude.TextOrder.{text_before_asymm}
use digital_fte_agent.DeadLetterQueue.{
  DeadLetter, ReasonCount, DeadLetterQueue, all_entries, or_zero, count_reasons, pairs,
  reason_before, reason_counts,
}

-- How many records have the reason.
abbrev pub occurrences : String → List DeadLetter → ℕ
occurrences r [] = 0
occurrences r (e ∷ l) = ite (String-discrete r e.reason) (occurrences r l + 1) (occurrences r l)

-- What a report says of the reason, over all its lines.
abbrev pub tallied : String → List ReasonCount → ℕ
tallied r [] = 0
tallied r (p ∷ l) = ite (String-discrete r p.reason) (p.count + tallied r l) (tallied r l)

abbrev pub reasons : List ReasonCount → List String
reasons [] = []
reasons (p ∷ l) = p.reason ∷ reasons l

lookup-count_reasons :
    (r : String) (l : List DeadLetter) (counts : Dict String ℕ)
    → or_zero (lookup String-discrete r (count_reasons l counts))
      ≡ occurrences r l + or_zero (lookup String-discrete r counts)
unfolding count_reasons
lookup-count_reasons r [] counts = omega arith
lookup-count_reasons r (e ∷ l) counts =
    let n = or_zero (lookup String-discrete e.reason counts) + 1 in
    ground (
      arith,
      lookup-count_reasons r l (insert String-discrete e.reason n counts),
      lookup-insert String-discrete r e.reason n counts,
    )

count_reasons-IsDistinct :
    (l : List DeadLetter) (counts : Dict String ℕ)
    → IsDistinct String-discrete (keys counts)
    → IsDistinct String-discrete (keys (count_reasons l counts))
unfolding count_reasons
count_reasons-IsDistinct [] counts h = h
count_reasons-IsDistinct (e ∷ l) counts h =
    count_reasons-IsDistinct l _ (insert-IsDistinct String-discrete e.reason _ counts h)

tallied-absent :
    (r : String) (d : Dict String ℕ)
    → mem? String-discrete r (keys d) ≡ false
    → tallied r (pairs d) ≡ 0
unfolding pairs
tallied-absent r [] h = refl
tallied-absent r (p ∷ d) h = ground (arith, tallied-absent r d)

tallied-pairs :
    (r : String) (d : Dict String ℕ)
    → IsDistinct String-discrete (keys d)
    → tallied r (pairs d) ≡ or_zero (lookup String-discrete r d)
unfolding pairs
tallied-pairs r [] h = refl
tallied-pairs r (p ∷ d) h = ground (arith, tallied-pairs r d h.1, tallied-absent r d)

tallied-insert_by :
    (r : String) (p : ReasonCount) (l : List ReasonCount)
    → tallied r (insert_by reason_before p l) ≡ tallied r (p ∷ l)
tallied-insert_by r p [] = refl
tallied-insert_by r p (p' ∷ l) = ground (arith, tallied-insert_by r p l)

tallied-sort_by :
    (r : String) (l : List ReasonCount) → tallied r (sort_by reason_before l) ≡ tallied r l
tallied-sort_by r [] = refl
tallied-sort_by r (p ∷ l) =
    ground (arith, tallied-sort_by r l, tallied-insert_by r p (sort_by reason_before l))

mem?-insert_by :
    (r : String) (p : ReasonCount) (l : List ReasonCount)
    → mem? String-discrete r (reasons (insert_by reason_before p l))
      ≡ mem? String-discrete r (p.reason ∷ reasons l)
mem?-insert_by r p [] = refl
mem?-insert_by r p (p' ∷ l) = ground (arith, mem?-insert_by r p l)

insert_by-IsDistinct :
    (p : ReasonCount) (l : List ReasonCount)
    → IsDistinct String-discrete (p.reason ∷ reasons l)
    → IsDistinct String-discrete (reasons (insert_by reason_before p l))
insert_by-IsDistinct p [] h = h
insert_by-IsDistinct p (p' ∷ l) h =
    ground (arith, insert_by-IsDistinct p l, mem?-insert_by p'.reason p l)

mem?-sort_by :
    (r : String) (l : List ReasonCount)
    → mem? String-discrete r (reasons (sort_by reason_before l))
      ≡ mem? String-discrete r (reasons l)
mem?-sort_by r [] = refl
mem?-sort_by r (p ∷ l) =
    ground (arith, mem?-sort_by r l, mem?-insert_by r p (sort_by reason_before l))

sort_by-IsDistinct :
    (l : List ReasonCount)
    → IsDistinct String-discrete (reasons l)
    → IsDistinct String-discrete (reasons (sort_by reason_before l))
sort_by-IsDistinct [] h = tt
sort_by-IsDistinct (p ∷ l) h =
    insert_by-IsDistinct p (sort_by reason_before l)
      (mem?-sort_by p.reason l ∙ h.0, sort_by-IsDistinct l h.1)

reasons-pairs : (d : Dict String ℕ) → reasons (pairs d) ≡ keys d
unfolding pairs
reasons-pairs [] = refl
reasons-pairs (p ∷ d) = ap (◌∷◌ p.0) (reasons-pairs d)

reason_before_asymm : (p q : ReasonCount) → reason_before p q ≡ true → reason_before q p ≡ false
unfolding reason_before
reason_before_asymm p q h = ground (arith, text_before_asymm p.reason q.reason)

-- The roll-up names each reason once, says of every reason how many of the stored records have it,
-- and is sorted: by falling count, and by the reason where counts are equal.
reason_counts_lem :
    (q : DeadLetterQueue)
    → IsDistinct String-discrete (reasons (reason_counts q))
      × ((r : String) → tallied r (reason_counts q) ≡ occurrences r (all_entries q))
      × IsSorted reason_before (reason_counts q)
unfolding reason_counts
reason_counts_lem q =
    let counted = count_reasons (all_entries q) [] in
    let once = count_reasons-IsDistinct (all_entries q) [] tt in
    (
      sort_by-IsDistinct (pairs counted) (rw (reasons-pairs counted) once),
      λ r. ground (
        arith,
        tallied-sort_by r (pairs counted),
        tallied-pairs r counted once,
        lookup-count_reasons r (all_entries q) [],
      ),
      sort_by-IsSorted reason_before reason_before_asymm (pairs counted),
    )
