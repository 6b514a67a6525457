-- ===== src/TaskFilter/Partition.antt =====
-- digital_fte/task_filter.py: the tasks that a query keeps, and the rest.
use digital_fte_agent.Prelude.{
  String, ◌≡◌, refl, subst, inl, inr, Bool, true, false, Option, none, some, List, [], ◌∷◌, arith,
  if◌then◌else◌,
}
use digital_fte_agent.Prelude.Values.{ok, and_then, Result-cases, ok_injective, and_then_ok}
use digital_fte_agent.TaskQueue.{Task}
use digital_fte_agent.TaskFilter.{
  TagQuery, TagSource, add_to, matches_task, filter_from, filter_tasks, partition_from,
  partition_tasks,
}

module _ (lower : String → String) (q : TagQuery) (source : TagSource) where
  -- The tasks fall into those that match and those that do not, each in the order of the input.
  pub data Parted : List (Option Task) → List Task → List Task → Type 0 where
    no_task : Parted [] [] []
    goes_to_matching :
        {task : Task} {l : List (Option Task)} {matching rest : List Task}
        → matches_task lower q source task ≡ ok true
        → Parted l matching rest
        → Parted (some task ∷ l) (task ∷ matching) rest
    goes_to_rest :
        {task : Task} {l : List (Option Task)} {matching rest : List Task}
        → matches_task lower q source task ≡ ok false
        → Parted l matching rest
        → Parted (some task ∷ l) matching (task ∷ rest)

  Parted-add_to :
      (task : Task) (l : List (Option Task)) (chosen : Bool) (parts result : List Task × List Task)
      → matches_task lower q source task ≡ ok chosen
      → Parted l parts.0 parts.1
      → add_to task chosen parts ≡ result
      → Parted (some task ∷ l) result.0 result.1
  Parted-add_to task l true parts result h parted e =
      subst (λ (r : List Task × List Task). Parted (some task ∷ l) r.0 r.1) e
        (goes_to_matching h parted)
  Parted-add_to task l false parts result h parted e =
      subst (λ (r : List Task × List Task). Parted (some task ∷ l) r.0 r.1) e
        (goes_to_rest h parted)

  partition_from-Parted :
      (l : List (Option Task)) (result : List Task × List Task)
      → partition_from lower q source l ≡ ok result
      → Parted l result.0 result.1
  partition_from-Parted [] result h =
      subst (λ (r : List Task × List Task). Parted [] r.0 r.1) (ok_injective ([], []) result h)
        no_task
  partition_from-Parted (none ∷ l) result h = ground arith
  partition_from-Parted (some task ∷ l) result h =
      let found = and_then_ok (matches_task lower q source task) _ result h in
      let parts = and_then_ok (partition_from lower q source l) _ result found.2 in
      Parted-add_to task l found.0 parts.0 result found.1 (partition_from-Parted l parts.0 parts.1)
        (ok_injective (add_to task found.0 parts.0) result parts.2)

  add_to-matching :
      (task : Task) (chosen : Bool) (parts : List Task × List Task)
      → (add_to task chosen parts).0 ≡ (if chosen then task ∷ parts.0 else parts.0)
  add_to-matching task true parts = refl
  add_to-matching task false parts = refl

  filter_from-partition_from :
      (l : List (Option Task))
      → filter_from lower q source l
        ≡ and_then (partition_from lower q source l) λ parts. ok parts.0
  filter_from-partition_from [] = refl
  filter_from-partition_from (none ∷ l) = refl
  filter_from-partition_from (some task ∷ l) =
      elim (Result-cases (matches_task lower q source task)) [
        | inr (e, failed) ↦ rw failed
        | inl (chosen, found) ↦ elim (Result-cases (partition_from lower q source l)) [
          | inr (e, failed) ↦ rw (found, filter_from-partition_from l, failed)
          | inl (parts, split) ↦
              rw (found, filter_from-partition_from l, split, add_to-matching task chosen parts)
        ]
      ]

-- With a query, partition_tasks and filter_tasks raise the same exception or both give a result: the
-- tasks that match are those of filter_tasks, and every task is in one of the two parts, by whether it
-- matches, in the order of the input.
pub partition_tasks-Parted :
    (lower : String → String) (l : List (Option Task)) (q : TagQuery) (source : TagSource)
    → (filter_tasks lower l (some q) source
        ≡ and_then (partition_tasks lower l (some q) source) λ parts. ok parts.0)
      × ((parts : List Task × List Task)
          → partition_tasks lower l (some q) source ≡ ok parts
          → Parted lower q source l parts.0 parts.1)
unfolding filter_tasks partition_tasks
partition_tasks-Parted lower l q source =
    (filter_from-partition_from lower q source l, partition_from-Parted lower q source l)
