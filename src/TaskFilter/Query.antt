-- ===== src/TaskFilter/Query.antt =====
-- digital_fte/task_filter.py: what a query asks of the tags.
use digital_fte_agent.Prelude.{
  String, ◌≡◌, refl, sym, ap, subst, ◌↔◌, ◌⊎◌, inl, inr, Bool, true, false, not, ◌&&◌, List, [],
  ◌∷◌, arith, Bool-cases,
}
use digital_fte_agent.Prelude.Values.{ok, String-discrete}
use digital_fte_agent.TaskFilter.{
  TagsArgument, has, is_disjoint, is_subset, is_empty_set, TagQuery, matches_owned, normalize_tags,
  matches,
}

has_head : (t : String) (l : List String) → has t (t ∷ l) ≡ true
has_head t l = ground arith

has_tail : (s t : String) (l : List String) → has s l ≡ true → has s (t ∷ l) ≡ true
has_tail s t l h = ground arith

has_cases : (s t : String) (l : List String) → has s (t ∷ l) ≡ true → (s ≡ t) ⊎ (has s l ≡ true)
has_cases s t l h = elim (String-discrete s t) [ yes p ↦ inl p | no ne ↦ inr (ground arith) ]

abbrev pub Shares : List String → List String → Type 0
Shares l other = (t : String) × (has t l ≡ true) × (has t other ≡ true)

abbrev pub Includes : List String → List String → Type 0
Includes l other = (t : String) → has t other ≡ true → has t l ≡ true

is_disjoint-cases :
    (l other : List String)
    → ((is_disjoint l other ≡ true) × ¬ Shares l other)
      ⊎ ((is_disjoint l other ≡ false) × Shares l other)
is_disjoint-cases [] other = inl (refl, λ (t, h, k). ground arith)
is_disjoint-cases (t ∷ l) other = elim (Bool-cases (has t other)) [
  | inl both ↦ inr (ground arith, (t, has_head t l, both))
  | inr only ↦ elim (is_disjoint-cases l other) [
    | inl (e, apart) ↦ inl (
      ground arith,
      λ (s, h, k). elim (has_cases s t l h) [
        | inl e' ↦ ground (arith, subst (λ (x : String). has x other ≡ true) e' k)
        | inr h' ↦ apart (s, h', k)
      ],
    )
    | inr (e, (s, h, k)) ↦ inr (ground arith, (s, has_tail s t l h, k))
  ]
]

is_subset-cases :
    (l other : List String)
    → ((is_subset l other ≡ true) × Includes other l)
      ⊎ ((is_subset l other ≡ false) × ¬ Includes other l)
is_subset-cases [] other = inl (refl, λ t h. ground arith)
is_subset-cases (t ∷ l) other = elim (Bool-cases (has t other)) [
  | inr only ↦ inr (ground arith, λ all. ground (arith, all t (has_head t l)))
  | inl both ↦ elim (is_subset-cases l other) [
    | inl (e, all) ↦ inl (
      ground arith,
      λ s h. elim (has_cases s t l h) [
        | inl e' ↦ subst (λ (x : String). has x other ≡ true) (sym e') both
        | inr h' ↦ all s h'
      ],
    )
    | inr (e, not_all) ↦ inr (ground arith, λ all. not_all λ s h. all s (has_tail s t l h))
  ]
]

-- One of the first tags if there are any, all of the second, none of the third.
pub record Satisfies (q : TagQuery) (owned : List String) : Type 0 where
  pub any_of : (q.match_any ≡ []) ⊎ Shares owned q.match_any
  pub all_of : Includes owned q.require_all
  pub none_of : ¬ Shares owned q.exclude

-- A test that refuses the tags is true where the clause fails.
abbrev Refuses : Bool → Type 0 → Type 0
Refuses test P = ((test ≡ false) × P) ⊎ ((test ≡ true) × ¬ P)

refuses_any :
    (owned m : List String)
    → Refuses (not (is_empty_set m) && is_disjoint owned m) ((m ≡ []) ⊎ Shares owned m)
refuses_any owned [] = inl (refl, inl refl)
refuses_any owned (t ∷ l) = elim (is_disjoint-cases owned (t ∷ l)) [
  | inl (e, apart) ↦ inr (e, λ c. elim c [ inl e' ↦ ground arith | inr shared ↦ apart shared ])
  | inr (e, shared) ↦ inl (e, inr shared)
]

refuses_all :
    (owned m : List String)
    → Refuses (not (is_empty_set m) && not (is_subset m owned)) (Includes owned m)
refuses_all owned [] = inl (refl, λ t h. ground arith)
refuses_all owned (t ∷ l) = elim (is_subset-cases (t ∷ l) owned) [
  | inl (e, all) ↦ inl (ap not e, all)
  | inr (e, not_all) ↦ inr (ap not e, not_all)
]

refuses_none :
    (owned m : List String)
    → Refuses (not (is_empty_set m) && not (is_disjoint owned m)) (¬ Shares owned m)
refuses_none owned [] = inl (refl, λ (t, h, k). ground arith)
refuses_none owned (t ∷ l) = elim (is_disjoint-cases owned (t ∷ l)) [
  | inl (e, apart) ↦ inl (ap not e, apart)
  | inr (e, shared) ↦ inr (ap not e, λ apart. apart shared)
]

matches_owned-Satisfies :
    (q : TagQuery) (owned : List String) → (matches_owned q owned ≡ true) ↔ Satisfies q owned
matches_owned-Satisfies q owned = elim (refuses_any owned q.match_any) [
  | inr (e, no_any) ↦ (λ h. ground arith, λ s. absurd (no_any s.any_of))
  | inl (e, any) ↦ elim (refuses_all owned q.require_all) [
    | inr (e', no_all) ↦ (λ h. ground arith, λ s. absurd (no_all s.all_of))
    | inl (e', all) ↦ elim (refuses_none owned q.exclude) [
      | inr (e'', some_bad) ↦ (λ h. ground arith, λ s. absurd (some_bad s.none_of))
      | inl (e'', apart) ↦
          (λ h. record { any_of = any; all_of = all; none_of = apart }, λ s. ground arith)
    ]
  ]
]

-- Tags that can be normalised match a query, with the query's case sensitivity, just if they have one
-- of the tags of `match_any`, or that set is empty, all of `require_all` and none of `exclude`.
pub matches-Satisfies :
    (lower : String → String) (q : TagQuery) (t : TagsArgument) (owned : List String)
    → normalize_tags lower q.case_sensitive t ≡ ok owned
    → (b : Bool) × (matches lower t q ≡ ok b) × ((b ≡ true) ↔ Satisfies q owned)
unfolding matches
matches-Satisfies lower q t owned found =
    (matches_owned q owned, rw found, matches_owned-Satisfies q owned)
