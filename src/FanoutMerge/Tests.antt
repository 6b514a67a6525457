-- ===== src/FanoutMerge/Tests.antt =====
-- Runs of digital_fte/fanout_merge.py.
use digital_fte_agent.Prelude.{◌+◌, String, ◌≡◌, refl, some, List, [], ◌∷◌, map, length}
use digital_fte_agent.Prelude.Values.{ok, String-discrete}
use digital_fte_agent.FanoutMerge.{FanoutMerge, merge_fanout}
use digital_fte_agent.FanoutMerge.Firsts.{firsts, merge_fanout-firsts}

merges :
    merge_fanout String-discrete
      (some (some ("a" ∷ "b" ∷ []) ∷ some ("b" ∷ "c" ∷ []) ∷ []))
      (some some)
    ≡ ok (record { merged = "a" ∷ "b" ∷ "c" ∷ []; dropped = 1; keys = "a" ∷ "b" ∷ "c" ∷ [] })
unfolding merge_fanout String-discrete
merges = refl

merge_fanout-firsts_example :
    let items : List String = "a" ∷ "b" ∷ "b" ∷ [] in
    (m : FanoutMerge String String) × (merge_fanout String-discrete
        (some (some ("a" ∷ "b" ∷ []) ∷ some ("b" ∷ []) ∷ []))
        (some (λ a. some a))
      ≡ ok m)
    × (m.merged ≡ firsts String-discrete (λ a. a) [] items)
    × (m.keys ≡ map (λ a. a) m.merged)
    × (m.dropped + length m.merged ≡ length items)
merge_fanout-firsts_example =
    merge_fanout-firsts String-discrete (λ a. a) (("a" ∷ "b" ∷ []) ∷ ("b" ∷ []) ∷ [])
