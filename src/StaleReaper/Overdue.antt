-- ===== src/StaleReaper/Overdue.antt =====
-- digital_fte/stale_reaper.py and digital_fte/heartbeat.py: which items are found, and in what order.
use mathlib.Core.List.{Perm}
use digital_fte_agent.Prelude.{
  ℕ, ◌≤◌, ◌≡◌, subst, inl, inr, true, false, Option, none, some, List, [], ◌∷◌, arith, ltb, tests,
  Bool-cases,
}
use digital_fte_agent.Prelude.Int.{ℤ, pos, ◌+ℤ◌, ◌-ℤ◌, ◌≤ℤ◌, ltb_ℤ, int_laws, ◌<ℤ◌}
use digital_fte_agent.Prelude.Values.{Value, ok, ok_injective, and_then_ok}
use digital_fte_agent.Prelude.Sort.{sort_by, IsSorted, sort_by-perm, sort_by-IsSorted}
use digital_fte_agent.StaleReaper.{
  validate_time, validate_max_age, StaleItem, pairs, is_older, stale_item, collect, find_stale,
}

ltb_of_not : (a b : ℕ) → ltb a b ≡ false → b ≤ a
ltb_of_not a b h = ground arith

overdue_age :
    (now t : ℤ) (max_age : ℕ) → ltb_ℤ (pos max_age) (now -ℤ t) ≡ true → t +ℤ pos max_age <ℤ now
overdue_age now t max_age h = omega (int_laws, tests)

in_time_age :
    (now t : ℤ) (max_age : ℕ) → ltb_ℤ (pos max_age) (now -ℤ t) ≡ false → now ≤ℤ t +ℤ pos max_age
in_time_age now t max_age h = omega (int_laws, ltb_of_not)

module _ {K : Type 0} (now : ℤ) (max_age : ℕ) where
  -- The items of the input that are older than the allowed age, in its order.
  pub data Collected : List (Option (K × Value)) → List (StaleItem K) → Type 0 where
    no_item : Collected [] []
    in_time :
        {key : K} {v : Value} {t : ℤ} {l : List (Option (K × Value))} {r : List (StaleItem K)}
        → validate_time v ≡ ok t
        → now ≤ℤ t +ℤ pos max_age
        → Collected l r
        → Collected (some (key, v) ∷ l) r
    overdue :
        {key : K} {v : Value} {t : ℤ} {l : List (Option (K × Value))} {r : List (StaleItem K)}
        → validate_time v ≡ ok t
        → t +ℤ pos max_age <ℤ now
        → Collected l r
        → Collected (some (key, v) ∷ l) (record { key = key; last_update = t; age = now -ℤ t } ∷ r)

  stale_item-Collected :
      (key : K) (v : Value) (t : ℤ) (l : List (Option (K × Value))) (rest : List (StaleItem K))
      → validate_time v ≡ ok t
      → Collected l rest
      → Collected (some (key, v) ∷ l) (stale_item now max_age key t rest)
  stale_item-Collected key v t l rest valid h = elim (Bool-cases (ltb_ℤ (pos max_age) (now -ℤ t))) [
    | inl late ↦ rw late (overdue valid (overdue_age now t max_age late) h)
    | inr early ↦ rw early (in_time valid (in_time_age now t max_age early) h)
  ]

  collect-Collected :
      (l : List (Option (K × Value))) (r : List (StaleItem K))
      → collect now max_age l ≡ ok r
      → Collected l r
  unfolding collect
  collect-Collected [] r h = subst (Collected []) (ok_injective [] r h) no_item
  collect-Collected (none ∷ l) r h = ground arith
  collect-Collected (some (key, v) ∷ l) r h =
      let time = and_then_ok (validate_time v) _ r h in
      let rest = and_then_ok (collect now max_age l) _ r time.2 in
      subst (Collected (some (key, v) ∷ l)) (ok_injective _ r rest.2)
        (stale_item-Collected key v time.0 l rest.0 time.1 (collect-Collected l rest.0 rest.1))

is_older_asymm : {K : Type 0} (a b : StaleItem K) → is_older a b ≡ true → is_older b a ≡ false
unfolding is_older
is_older_asymm a b h = ground arith

-- Where find_stale gives a result, it is what is overdue among the items, each with its age, put in an
-- order in which no item stands after a younger one: an item is overdue if its last update and the
-- allowed age together lie before now.
pub find_stale_lem :
    {K : Type 0} (l : List (Option (K × Value))) (now max_age : Value) (r : List (StaleItem K))
    → find_stale (pairs l) now max_age ≡ ok r
    → (n : ℤ) × (m : ℕ) × (items : List (StaleItem K)) × (validate_time now ≡ ok n)
      × (validate_max_age max_age ≡ ok m)
      × Collected n m l items
      × Perm r items
      × IsSorted is_older r
unfolding find_stale
find_stale_lem l now max_age r h =
    let n = and_then_ok (validate_time now) _ r h in
    let m = and_then_ok (validate_max_age max_age) _ r n.2 in
    let items = and_then_ok (collect n.0 m.0 l) _ r m.2 in
    let sorted = ok_injective (sort_by is_older items.0) r items.2 in
    (
      n.0,
      m.0,
      items.0,
      n.1,
      m.1,
      collect-Collected n.0 m.0 l items.0 items.1,
      subst (λ (x : List _). Perm x items.0) sorted (sort_by-perm is_older items.0),
      subst (IsSorted is_older) sorted (sort_by-IsSorted is_older is_older_asymm items.0),
    )
