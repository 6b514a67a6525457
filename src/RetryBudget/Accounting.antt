-- ===== src/RetryBudget/Accounting.antt =====
-- The retry budget of digital_fte/retry_budget.py is never overspent, and its ledger adds up.
use mathlib.Core.List.{Perm}
use digital_fte_agent.Prelude.{
  ℕ, ◌+◌, ◌≤◌, ◌<◌, String, ◌≡◌, refl, subst, ◌∙◌, ◌≢◌, ◌↔◌, ◌⊎◌, inl, inr, true, false, not, ◌&&◌,
  Option, none, some, List, [], ◌∷◌, arith, Bool-cases,
}
use digital_fte_agent.Prelude.Int.{pos, ltb_ℤ}
use digital_fte_agent.Prelude.Dict.{Dict, keys, IsDistinct, lookup, insert, insert-IsDistinct}
use digital_fte_agent.Prelude.Values.{Value, ok, String-discrete, Result-cases}
use digital_fte_agent.Prelude.Sort.{IsSorted, sort_by-perm, sort_by-IsSorted}
use digital_fte_agent.Prelude.TextOrder.{text_before_asymm}
use digital_fte_agent.RetryBudget.{
  RetryBudget, RetryLedgerEntry, init, validate_task_id, remaining, is_exhausted, or_zero, spent_by,
  room, charge, try_spend, is_capped, spend, ledger_entries, entry_before, ledger,
}

abbrev pub Within : Option ℕ → ℕ → Type 0
Within none n = Unit
Within (some cap) n = n ≤ cap

-- No task has spent more than its cap.
abbrev pub AllWithin : Option ℕ → Dict String ℕ → Type 0
AllWithin cap [] = Unit
AllWithin cap ((id, n) ∷ d) = (0 < n) × Within cap n × AllWithin cap d

abbrev pub sum_values : Dict String ℕ → ℕ
sum_values [] = 0
sum_values ((id, n) ∷ d) = n + sum_values d

pub record IsValid (b : RetryBudget) : Type 0 where
  pub once : IsDistinct String-discrete (keys b.per_task_spent)
  pub within : AllWithin b.per_task b.per_task_spent
  pub adds_up : sum_values b.per_task_spent ≡ b.spent
  pub in_budget : b.spent ≤ b.total

sum_values-insert :
    (id : String) (n : ℕ) (d : Dict String ℕ)
    → sum_values (insert String-discrete id n d) + or_zero (lookup String-discrete id d)
      ≡ sum_values d + n
sum_values-insert id n [] = omega arith
sum_values-insert id n (e ∷ d) = ground (arith, sum_values-insert id n d)

AllWithin-insert :
    (cap : Option ℕ) (id : String) (n : ℕ) (d : Dict String ℕ)
    → AllWithin cap d
    → 0 < n
    → Within cap n
    → AllWithin cap (insert String-discrete id n d)
AllWithin-insert cap id n [] h p w = (p, w, tt)
AllWithin-insert cap id n (e ∷ d) h p w = ground (arith, AllWithin-insert cap id n d h.2 p w)

capped-Within : (cap : Option ℕ) (n : ℕ) → is_capped cap n ≡ false → Within cap (n + 1)
capped-Within none n h = tt
capped-Within (some cap) n h = ground arith

-- One retry is charged to a task with room under both caps.
charge-IsValid :
    (id : String) (b : RetryBudget)
    → IsValid b
    → is_capped b.per_task (spent_by id b) ≡ false
    → is_exhausted b ≡ false
    → IsValid (charge id b).1
unfolding charge is_exhausted spent_by
charge-IsValid id b v under open_budget = record {
  once = insert-IsDistinct String-discrete id _ b.per_task_spent v.once;
  within =
      AllWithin-insert b.per_task id _ b.per_task_spent v.within (omega arith)
        (capped-Within b.per_task _ under);
  adds_up =
      let new_total = or_zero (lookup String-discrete id b.per_task_spent) + 1 in
      omega (arith, sum_values-insert id new_total b.per_task_spent, v.adds_up);
  in_budget = ground (arith, v.in_budget);
}

-- What a request to spend has done: it spent nothing and changed nothing, or it charged one retry
-- to the task, which had room under both caps.
abbrev pub Charged : RetryBudget → String → RetryBudget → Type 0
Charged b id b' =
    (is_capped b.per_task (spent_by id b) ≡ false)
    × (is_exhausted b ≡ false)
    × (b' ≡ (charge id b).1)

charge-returns : (id : String) (b : RetryBudget) → (charge id b).0 ≡ ok (spent_by id b + 1)
unfolding charge
charge-returns id b = refl

spend_cases :
    (v : Value) (b : RetryBudget)
    → ((id : String) × (validate_task_id v ≡ ok id)
        × ((spend v b).0 ≡ ok (spent_by id b + 1))
        × Charged b id (spend v b).1)
      ⊎ (((n : ℕ) → (spend v b).0 ≢ ok n) × ((spend v b).1 ≡ b))
unfolding spend
spend_cases v b = elim (Result-cases (validate_task_id v)) [
  | inr (x, bad) ↦ inr (λ n e. ground arith, ground arith)
  | inl (id, good) ↦ elim (Bool-cases (is_capped b.per_task (spent_by id b))) [
    | inl capped ↦ inr (λ n e. ground arith, ground arith)
    | inr under ↦ elim (Bool-cases (is_exhausted b)) [
      | inl over ↦ inr (λ n e. ground arith, ground arith)
      | inr some_left ↦ inl (
        id,
        good,
        ground (arith, charge-returns id b),
        (under, some_left, ground (arith, charge-returns id b)),
      )
    ]
  ]
]

has_room :
    (id : String) (b : RetryBudget)
    → ltb_ℤ (pos 0) (room b.per_task (remaining b) (spent_by id b))
      ≡ (not (is_capped b.per_task (spent_by id b)) && not (is_exhausted b))
unfolding remaining is_exhausted
has_room id b = ground arith

-- `spend` and `try_spend` agree: they leave the same budget, and `try_spend` gives true exactly
-- where `spend` returns.
try_spend-eq-spend :
    (v : Value) (b : RetryBudget)
    → ((try_spend v b).1 ≡ (spend v b).1)
      × (((try_spend v b).0 ≡ ok true) ↔ ((n : ℕ) × ((spend v b).0 ≡ ok n)))
unfolding spend try_spend
try_spend-eq-spend v b = elim (Result-cases (validate_task_id v)) [
  | inr (x, bad) ↦ (ground arith, (λ e. ground arith, λ (n, e). ground arith))
  | inl (id, good) ↦
      let same = has_room id b in
      let paid = charge-returns id b in
      (ground arith, (λ e. (spent_by id b + 1, ground arith), λ (n, e). ground arith))
]

-- Spending keeps the budget valid: never more than `total` in all, nor more than the cap of a task,
-- and the ledger adds up.
spend-IsValid : (v : Value) (b : RetryBudget) → IsValid b → IsValid (spend v b).1
spend-IsValid v b h = elim (spend_cases v b) [
  | inl (id, named, paid, charged) ↦ rw (charged.2) (charge-IsValid id b h charged.0 charged.1)
  | inr (refused, same) ↦ rw same h
]

pub spend_all : List Value → RetryBudget → RetryBudget
unfolding spend
spend_all [] b = b
spend_all (v ∷ vs) b = spend_all vs (spend v b).1

spend_all-IsValid : (vs : List Value) (b : RetryBudget) → IsValid b → IsValid (spend_all vs b)
unfolding spend_all
spend_all-IsValid [] b h = h
spend_all-IsValid (v ∷ vs) b h = spend_all-IsValid vs (spend v b).1 (spend-IsValid v b h)

charge_keeps :
    (id : String) (b : RetryBudget)
    → ((charge id b).1.total ≡ b.total) × ((charge id b).1.per_task ≡ b.per_task)
unfolding charge
charge_keeps id b = (refl, refl)

spend_keeps :
    (v : Value) (b : RetryBudget)
    → ((spend v b).1.total ≡ b.total) × ((spend v b).1.per_task ≡ b.per_task)
spend_keeps v b = elim (spend_cases v b) [
  | inl (id, named, paid, charged) ↦ rw (charged.2) (charge_keeps id b)
  | inr (refused, same) ↦ rw same (refl, refl)
]

spend_all_keeps :
    (vs : List Value) (b : RetryBudget)
    → ((spend_all vs b).total ≡ b.total) × ((spend_all vs b).per_task ≡ b.per_task)
unfolding spend_all
spend_all_keeps [] b = (refl, refl)
spend_all_keeps (v ∷ vs) b =
    let (t, p) = spend_all_keeps vs (spend v b).1 in
    let (t', p') = spend_keeps v b in (t ∙ t', p ∙ p')

init-empty :
    (total per_task : Value) {b : RetryBudget}
    → init total per_task ≡ ok b
    → (b.spent ≡ 0) × (b.per_task_spent ≡ [])
unfolding init
init-empty total per_task h = ground arith

init-IsValid : (total per_task : Value) {b : RetryBudget} → init total per_task ≡ ok b → IsValid b
init-IsValid total per_task {b} h =
    let (none_spent, empty) = init-empty total per_task h in
    record {
      once = rw empty tt;
      within = rw empty tt;
      adds_up = rw (empty, none_spent) refl;
      in_budget = rw none_spent (omega arith);
    }

-- However often a new budget is charged, for whatever tasks, the run never spends more than its
-- total, no task spends more than its cap, and what the tasks spent adds up to what the run spent.
pub spend_all_within :
    (total per_task : Value) {b : RetryBudget} (vs : List Value)
    → init total per_task ≡ ok b
    → let b' = spend_all vs b in
      (b'.spent ≤ b.total)
      × AllWithin b.per_task b'.per_task_spent
      × (sum_values b'.per_task_spent ≡ b'.spent)
spend_all_within total per_task {b} vs h =
    let new : IsValid b = init-IsValid total per_task h in
    let (t, p) = spend_all_keeps vs b in
    let v = spend_all-IsValid vs b new in
    (
      subst (λ n. (spend_all vs b).spent ≤ n) t v.in_budget,
      subst (λ cap. AllWithin cap (spend_all vs b).per_task_spent) p v.within,
      v.adds_up,
    )

entry_before_asymm : (p q : RetryLedgerEntry) → entry_before p q ≡ true → entry_before q p ≡ false
unfolding entry_before
entry_before_asymm p q h = ground (arith, text_before_asymm p.task_id q.task_id)

-- The ledger lists the tasks that were charged, each with what it spent and what its cap leaves:
-- by falling spend, and by the task id where that is equal.
ledger_lem :
    (b : RetryBudget)
    → Perm (ledger b) (ledger_entries b.per_task b.per_task_spent)
      × IsSorted entry_before (ledger b)
unfolding ledger
ledger_lem b = (
  sort_by-perm entry_before (ledger_entries b.per_task b.per_task_spent),
  sort_by-IsSorted entry_before entry_before_asymm (ledger_entries b.per_task b.per_task_spent),
)
