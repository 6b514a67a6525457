-- ===== src/TaskFilter/Tests.antt =====
-- Runs of digital_fte/task_filter.py, on tags in lower case.
use digital_fte_agent.Prelude.{
  String, ◌≡◌, refl, ◌↔◌, Bool, true, false, Option, none, some, List, [], ◌∷◌,
}
use digital_fte_agent.Prelude.Values.{
  str, type_error, value_error, ok, raise, and_then, is_space, String-discrete,
}
use digital_fte_agent.Prelude.Text.{strip_end, strip}
use digital_fte_agent.TaskFilter.{
  one_text, tags, TagQuery, is_empty, TagSource, mapping, resolve_tags, normalize_tag,
  normalize_tags, init, matches, matches_task, filter_tasks, partition_tasks,
}
use digital_fte_agent.TaskFilter.Query.{Satisfies, matches-Satisfies}
use digital_fte_agent.TaskFilter.Partition.{Parted, partition_tasks-Parted}
use digital_fte_agent.TaskQueue.{Task}

abbrev as_it_is : String → String
as_it_is s = s

abbrev task_named : String → Task
task_named id = record { source = "inbox"; task_id = id; title = "title"; body = "body" }

abbrev tags_of : TagSource
tags_of = mapping (
    ("a", tags (str " urgent " ∷ str "billing" ∷ []))
    ∷ ("b", tags (str "urgent" ∷ str "blocked" ∷ []))
    ∷ [])

abbrev urgent_query : TagQuery
urgent_query = record {
  match_any = "urgent" ∷ [];
  require_all = [];
  exclude = "blocked" ∷ [];
  case_sensitive = true;
}

abbrev three_tasks : List (Option Task)
three_tasks = some (task_named "a") ∷ some (task_named "b") ∷ some (task_named "c") ∷ []

init_urgent :
    init as_it_is
      (tags (str "urgent" ∷ str "urgent " ∷ []))
      (tags [])
      (tags (str "blocked" ∷ []))
      true
    ≡ ok urgent_query
unfolding init normalize_tags normalize_tag strip strip_end is_space String-discrete
init_urgent = refl

init_contradiction :
    init as_it_is (tags []) (tags (str "urgent" ∷ [])) (tags (str "urgent" ∷ [])) false
    ≡ raise value_error
unfolding init normalize_tags normalize_tag strip strip_end is_space String-discrete
init_contradiction = refl

init_one_text : init as_it_is (one_text "urgent") (tags []) (tags []) false ≡ raise type_error
unfolding init normalize_tags
init_one_text = refl

is_empty_urgent : is_empty urgent_query ≡ false
unfolding is_empty
is_empty_urgent = refl

partition_urgent :
    partition_tasks as_it_is three_tasks (some urgent_query) tags_of
    ≡ ok (task_named "a" ∷ [], task_named "b" ∷ task_named "c" ∷ [])
unfolding partition_tasks matches_task resolve_tags matches normalize_tags normalize_tag strip
    strip_end is_space String-discrete
partition_urgent = refl

filter_no_task :
    filter_tasks as_it_is (none ∷ three_tasks) (some urgent_query) tags_of ≡ raise type_error
unfolding filter_tasks
filter_no_task = refl

normalize_owned : normalize_tags as_it_is true (tags (str " urgent" ∷ [])) ≡ ok ("urgent" ∷ [])
unfolding normalize_tags normalize_tag strip strip_end is_space
normalize_owned = refl

matches-Satisfies_example :
    (b : Bool) × (matches as_it_is (tags (str " urgent" ∷ [])) urgent_query ≡ ok b)
    × ((b ≡ true) ↔ Satisfies urgent_query ("urgent" ∷ []))
matches-Satisfies_example =
    matches-Satisfies as_it_is urgent_query (tags (str " urgent" ∷ [])) ("urgent" ∷ [])
      normalize_owned

partition_tasks-Parted_example :
    (filter_tasks as_it_is three_tasks (some urgent_query) tags_of
      ≡ and_then
          (partition_tasks as_it_is three_tasks (some urgent_query) tags_of)
          λ parts. ok parts.0)
    × ((parts : List Task × List Task)
        → partition_tasks as_it_is three_tasks (some urgent_query) tags_of ≡ ok parts
        → Parted as_it_is urgent_query tags_of three_tasks parts.0 parts.1)
partition_tasks-Parted_example = partition_tasks-Parted as_it_is three_tasks urgent_query tags_of
