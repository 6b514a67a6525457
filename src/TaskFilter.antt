-- ===== src/TaskFilter.antt =====
-- digital_fte/task_filter.py: queries on the tags of tasks. `str.lower` is a parameter. A set of tags is
-- a list without duplicates that is only asked for its members.
pub mod Query
pub mod Partition
mod Tests
use digital_fte_agent.Prelude.{
  String, Bool, true, false, not, ◌&&◌, ◌||◌, Option, none, some, List, [], ◌∷◌, ◌++◌,
  if◌then◌else◌,
}
use digital_fte_agent.Prelude.Dict.{Dict, mem?, lookup}
use digital_fte_agent.Prelude.Values.{
  Value, str, type_error, value_error, Result, ok, raise, and_then, is_empty_text, String-discrete,
}
use digital_fte_agent.Prelude.Text.{strip}
use digital_fte_agent.TaskQueue.{Task}

-- What can be passed for tags: a text and what cannot be iterated are refused.
pub data TagsArgument : Type 0 where
  one_text : String → TagsArgument
  no_iterable : TagsArgument
  tags : List Value → TagsArgument

abbrev pub has : String → List String → Bool
has t l = mem? String-discrete t l

-- `frozenset(l)`
abbrev pub to_set : List String → List String
to_set [] = []
to_set (t ∷ l) = let rest = to_set l in if has t rest then rest else t ∷ rest

abbrev pub is_disjoint : List String → List String → Bool
is_disjoint [] other = true
is_disjoint (t ∷ l) other = not (has t other) && is_disjoint l other

-- `l <= other`
abbrev pub is_subset : List String → List String → Bool
is_subset [] other = true
is_subset (t ∷ l) other = has t other && is_subset l other

abbrev pub is_empty_set : List String → Bool
is_empty_set [] = true
is_empty_set (t ∷ l) = false

pub record TagQuery : Type 0 where
  pub match_any : List String
  pub require_all : List String
  pub exclude : List String
  pub case_sensitive : Bool

unfoldable pub is_empty : TagQuery → Bool
is_empty q = not (
    not (is_empty_set q.match_any)
    || not (is_empty_set q.require_all)
    || not (is_empty_set q.exclude))

-- `TagQuery.matches`, once the tags are normalised
abbrev pub matches_owned : TagQuery → List String → Bool
matches_owned q owned =
    if not (is_empty_set q.match_any) && is_disjoint owned q.match_any
    then false
    else if not (is_empty_set q.require_all) && not (is_subset q.require_all owned)
    then false
    else not (not (is_empty_set q.exclude) && not (is_disjoint owned q.exclude))

-- Where the tags of a task come from; `neither` is neither a mapping nor a callable.
pub data TagSource : Type 0 where
  mapping : Dict String TagsArgument → TagSource
  callable : (Task → Result TagsArgument) → TagSource
  neither : TagSource

-- `source.get(task.task_id, ())`
abbrev pub get_tags : Option TagsArgument → TagsArgument
get_tags none = tags []
get_tags (some t) = t

-- `_resolve_tags`
unfoldable pub resolve_tags : Task → TagSource → Result TagsArgument
resolve_tags task (mapping d) = ok (get_tags (lookup String-discrete task.task_id d))
resolve_tags task (callable source) = source task
resolve_tags task neither = raise type_error

abbrev pub add_to : Task → Bool → List Task × List Task → List Task × List Task
add_to task true (matching, rest) = (task ∷ matching, rest)
add_to task false (matching, rest) = (matching, task ∷ rest)

module _ (lower : String → String) where
  abbrev pub canonical : Bool → String → Result String
  canonical case_sensitive cleaned =
      if is_empty_text cleaned
      then raise value_error
      else ok (if case_sensitive then cleaned else lower cleaned)

  -- `_normalize_tag`
  unfoldable pub normalize_tag : Bool → Value → Result String
  unfolding strip
  normalize_tag case_sensitive (str s) = canonical case_sensitive (strip s)
  normalize_tag case_sensitive _ = raise type_error

  abbrev pub normalize_each : Bool → List Value → Result (List String)
  normalize_each case_sensitive [] = ok []
  normalize_each case_sensitive (v ∷ l) =
      and_then (normalize_tag case_sensitive v)
        λ t. and_then (normalize_each case_sensitive l) λ rest. ok (t ∷ rest)

  -- `_normalize_tags`
  unfoldable pub normalize_tags : Bool → TagsArgument → Result (List String)
  unfolding normalize_tag
  normalize_tags case_sensitive (one_text s) = raise type_error
  normalize_tags case_sensitive no_iterable = raise type_error
  normalize_tags case_sensitive (tags l) =
      and_then (normalize_each case_sensitive l) λ found. ok (to_set found)

  -- `TagQuery.__init__`
  unfoldable pub init : (match_any require_all exclude : TagsArgument) → Bool → Result TagQuery
  unfolding normalize_tags
  init match_any require_all exclude case_sensitive =
      and_then (normalize_tags case_sensitive match_any) λ any_of.
        and_then (normalize_tags case_sensitive require_all) λ all_of.
          and_then (normalize_tags case_sensitive exclude) λ none_of.
            if is_disjoint none_of (any_of ++ all_of)
            then ok (record {
              match_any = any_of;
              require_all = all_of;
              exclude = none_of;
              case_sensitive = case_sensitive;
            })
            else raise value_error

  unfoldable pub matches : TagsArgument → TagQuery → Result Bool
  unfolding normalize_tags
  matches t q = and_then (normalize_tags q.case_sensitive t) λ owned. ok (matches_owned q owned)

  -- `query.matches(_resolve_tags(task, tags_of))`
  unfoldable pub matches_task : TagQuery → TagSource → Task → Result Bool
  unfolding matches resolve_tags
  matches_task q source task = and_then (resolve_tags task source) λ t. matches t q

  -- An element of `tasks` that is `none` is no Task.
  abbrev pub filter_from : TagQuery → TagSource → List (Option Task) → Result (List Task)
  filter_from q source [] = ok []
  filter_from q source (none ∷ l) = raise type_error
  filter_from q source (some task ∷ l) =
      and_then (matches_task q source task) λ chosen.
        and_then (filter_from q source l) λ rest. ok (if chosen then task ∷ rest else rest)

  -- `none` is an argument that is no TagQuery.
  unfoldable pub filter_tasks :
      List (Option Task) → Option TagQuery → TagSource → Result (List Task)
  unfolding matches_task
  filter_tasks l none source = raise type_error
  filter_tasks l (some q) source = filter_from q source l

  abbrev pub partition_from :
      TagQuery → TagSource → List (Option Task) → Result (List Task × List Task)
  partition_from q source [] = ok ([], [])
  partition_from q source (none ∷ l) = raise type_error
  partition_from q source (some task ∷ l) =
      and_then (matches_task q source task)
        λ chosen. and_then (partition_from q source l) λ parts. ok (add_to task chosen parts)

  unfoldable pub partition_tasks :
      List (Option Task) → Option TagQuery → TagSource → Result (List Task × List Task)
  unfolding matches_task
  partition_tasks l none source = raise type_error
  partition_tasks l (some q) source = partition_from q source l
