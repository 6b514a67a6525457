-- ===== src/FanoutMerge/Firsts.antt =====
-- What the merge of digital_fte/fanout_merge.py keeps.
use digital_fte_agent.Prelude.{
  ◌+◌, ◌≡◌, refl, sym, ap, ◌∙◌, inl, inr, true, false, Option, some, List, [], ◌∷◌, ◌++◌, map,
  append-nil, append_assoc, arith, if◌then◌else◌, Bool-cases, length,
}
use digital_fte_agent.Prelude.Dict.{keys, mem?}
use digital_fte_agent.Prelude.Values.{ok}
use digital_fte_agent.FanoutMerge.{FanoutMerge, take_item, take_group, take_groups, merge_fanout}

module _ {A K : Type 0} (dec : Discrete K) (key : A → K) where
  -- Without the items whose key is among `seen`, or is that of an item before.
  abbrev pub firsts : List K → List A → List A
  firsts seen [] = []
  firsts seen (a ∷ l) =
      if mem? dec (key a) seen then firsts seen l else a ∷ firsts (seen ++ key a ∷ []) l

  abbrev pub some_groups : List (List A) → List (Option (List A))
  some_groups [] = []
  some_groups (g ∷ groups) = some g ∷ some_groups groups

  abbrev pub all_items : List (List A) → List A
  all_items [] = []
  all_items (g ∷ groups) = g ++ all_items groups

  -- The merge after more items.
  abbrev after : List A → FanoutMerge A K → FanoutMerge A K
  after [] m = m
  after (a ∷ l) m = after l (take_item dec a (key a) m)

  after-append : (l l' : List A) (m : FanoutMerge A K) → after (l ++ l') m ≡ after l' (after l m)
  after-append [] l' m = refl
  after-append (a ∷ l) l' m = after-append l l' (take_item dec a (key a) m)

  take_group-eq-after :
      (l : List A) (m : FanoutMerge A K) → take_group dec (λ a. some (key a)) l m ≡ ok (after l m)
  unfolding take_group
  take_group-eq-after [] m = refl
  take_group-eq-after (a ∷ l) m = take_group-eq-after l (take_item dec a (key a) m)

  take_groups-eq-after :
      (groups : List (List A)) (m : FanoutMerge A K)
      → take_groups dec (λ a. some (key a)) (some_groups groups) m ≡ ok (after (all_items groups) m)
  unfolding take_groups
  take_groups-eq-after [] m = refl
  take_groups-eq-after (g ∷ groups) m =
      rw (take_group-eq-after g m) (
        take_groups-eq-after groups (after g m) ∙ ap ok (sym (after-append g (all_items groups) m)))

  take_known :
      (a : A) (m : FanoutMerge A K)
      → mem? dec (key a) m.keys ≡ true
      → take_item dec a (key a) m ≡ record m { dropped = m.dropped + 1 }
  unfolding take_item
  take_known a m h = rw h

  take_new :
      (a : A) (m : FanoutMerge A K)
      → mem? dec (key a) m.keys ≡ false
      → take_item dec a (key a) m
        ≡ record m { merged = m.merged ++ a ∷ []; keys = m.keys ++ key a ∷ [] }
  unfolding take_item
  take_new a m h = rw h

  after-firsts :
      (l : List A) (m : FanoutMerge A K)
      → ((after l m).merged ≡ m.merged ++ firsts m.keys l)
        × ((after l m).keys ≡ m.keys ++ map key (firsts m.keys l))
        × ((after l m).dropped + length (firsts m.keys l) ≡ m.dropped + length l)
  after-firsts [] m = (sym (append-nil m.merged), sym (append-nil m.keys), omega arith)
  after-firsts (a ∷ l) m = elim (Bool-cases (mem? dec (key a) m.keys)) [
    | inl known ↦
        let m' : FanoutMerge A K = record m { dropped = m.dropped + 1 } in
        let (merged, keys, count) = after-firsts l m' in
        rw (take_known a m known, after) (rw known (merged, keys, omega (arith, count)))
    | inr new ↦
        let m' : FanoutMerge A K = record m {
          merged = m.merged ++ a ∷ [];
          keys = m.keys ++ key a ∷ [];
        } in
        let (merged, keys, count) = after-firsts l m' in
        rw (take_new a m new, after)
          (rw new (
            merged ∙ append_assoc m.merged (a ∷ []) (firsts m'.keys l),
            keys ∙ append_assoc m.keys (key a ∷ []) (map key (firsts m'.keys l)),
            omega (arith, count),
          ))
  ]

  -- Where all keys are hashable and all groups iterable, the merge is the first item of each key, in
  -- the order of all groups put together, with the keys of these items; it drops all others.
  pub merge_fanout-firsts :
      (groups : List (List A))
      → let items = all_items groups in
        (m : FanoutMerge A K) × (merge_fanout dec
            (some (some_groups groups))
            (some (λ a. some (key a)))
          ≡ ok m)
        × (m.merged ≡ firsts [] items)
        × (m.keys ≡ map key m.merged)
        × (m.dropped + length m.merged ≡ length items)
  unfolding merge_fanout
  merge_fanout-firsts groups =
      let start : FanoutMerge A K = record { merged = []; dropped = 0; keys = [] } in
      let (merged, keys, count) = after-firsts (all_items groups) start in
      (
        after (all_items groups) start,
        take_groups-eq-after groups start,
        merged,
        keys ∙ ap (map key) (sym merged),
        rw merged (omega (arith, count)),
      )
