-- ===== src/DeadLetterQueue.antt =====
-- digital_fte/dead_letter_queue.py: the store of permanently failed tasks.
pub mod Invariant
pub mod Removal
pub mod Reasons
mod Tests
use digital_fte_agent.Prelude.{
  ℕ, ◌+◌, String, Bool, false, Option, none, some, List, [], ◌∷◌, ltb, leb, ◌==◌, if◌then◌else◌,
  length,
}
use digital_fte_agent.Prelude.Int.{pos}
use digital_fte_agent.Prelude.Dict.{Dict, keys, values, erase, lookup, contains, insert}
use digital_fte_agent.Prelude.Values.{
  Value, null, int, str, value_error, already_dead_lettered, task_not_dead_lettered,
  dead_letter_queue_full, Result, ok, raise, and_then, is_blank, String-discrete,
}
use digital_fte_agent.Prelude.Action.{
  Action, ◌>>=◌, ◌>>◌, pure, throw, check, gets, modify, raise_if,
}
use digital_fte_agent.Prelude.Sort.{sort_by}
use digital_fte_agent.Prelude.TextOrder.{text_before}

pub record DeadLetter : Type 0 where
  pub task_id : String
  pub reason : String
  pub attempts : ℕ
  pub failed_at : Option String
  pub sequence : ℕ

pub record ReasonCount : Type 0 where
  pub reason : String
  pub count : ℕ

pub record DeadLetterQueue : Type 0 where
  pub capacity : Option ℕ
  pub entries : Dict String DeadLetter
  pub sequence : ℕ

-- The constructor's check: a positive integer or None.
unfoldable pub validate_capacity : Value → Result (Option ℕ)
validate_capacity null = ok none
validate_capacity (int (pos n)) = if ltb n 1 then raise value_error else ok (some n)
validate_capacity _ = raise value_error

unfoldable pub init : Value → Result DeadLetterQueue
unfolding validate_capacity
init v =
    and_then (validate_capacity v) λ c. ok (record { capacity = c; entries = []; sequence = 0 })

-- `_validate_task_id`, and the same check of `reason`
unfoldable pub validate_task_id : Value → Result String
validate_task_id (str s) = if is_blank s then raise value_error else ok s
validate_task_id _ = raise value_error

unfoldable pub validate_attempts : Value → Result ℕ
validate_attempts (int (pos n)) = if ltb n 1 then raise value_error else ok n
validate_attempts _ = raise value_error

unfoldable pub validate_failed_at : Value → Result (Option String)
validate_failed_at null = ok none
validate_failed_at (str s) = if is_blank s then raise value_error else ok (some s)
validate_failed_at _ = raise value_error

-- `capacity is not None and len >= capacity`
abbrev pub is_at_capacity : Option ℕ → ℕ → Bool
is_at_capacity none n = false
is_at_capacity (some c) n = leb c n

-- the property `is_full`
unfoldable pub is_full : DeadLetterQueue → Bool
is_full q = is_at_capacity q.capacity (length q.entries)

-- `task_id in self._entries`
unfoldable pub has_task : String → DeadLetterQueue → Bool
has_task id q = contains String-discrete id q.entries

unfoldable pub store : DeadLetter → DeadLetterQueue → DeadLetterQueue
store e q = record q {
  sequence = q.sequence + 1;
  entries = insert String-discrete e.task_id e q.entries;
}

-- `DeadLetterQueue.record`, once its arguments are checked
unfoldable pub place : DeadLetter → Action DeadLetterQueue DeadLetter
unfolding store
place e = do
  q ← gets (λ q. q)
  raise_if (has_task e.task_id q) already_dead_lettered
  raise_if (is_full q) dead_letter_queue_full
  modify (store e)
  pure e

-- `DeadLetterQueue.record`
unfoldable pub record_task :
    (task_id reason attempts failed_at : Value) → Action DeadLetterQueue DeadLetter
record_task task_id reason attempts failed_at = do
  id ← check (validate_task_id task_id)
  why ← check (validate_task_id reason)
  tries ← check (validate_attempts attempts)
  at ← check (validate_failed_at failed_at)
  q ← gets (λ q. q)
  place (record {
    task_id = id;
    reason = why;
    attempts = tries;
    failed_at = at;
    sequence = q.sequence;
  })

-- `self._entries[task_id]`, with the KeyError turned into `TaskNotDeadLettered`
abbrev pub found_or_raise : Option DeadLetter → Action DeadLetterQueue DeadLetter
found_or_raise none = throw task_not_dead_lettered
found_or_raise (some e) = pure e

unfoldable pub get : Value → Action DeadLetterQueue DeadLetter
get v = do
  id ← check (validate_task_id v)
  q ← gets (λ q. q)
  found_or_raise (lookup String-discrete id q.entries)

-- `task_ids` and `entries`
unfoldable pub task_ids : DeadLetterQueue → List String
task_ids q = keys q.entries

unfoldable pub all_entries : DeadLetterQueue → List DeadLetter
all_entries q = values q.entries

unfoldable pub remove : Value → Action DeadLetterQueue DeadLetter
remove v = do
  id ← check (validate_task_id v)
  q ← gets (λ q. q)
  e ← found_or_raise (lookup String-discrete id q.entries)
  modify (λ q. record q { entries = erase String-discrete id q.entries })
  pure e

-- `counts[reason] = counts.get(reason, 0) + 1` for each entry
abbrev pub or_zero : Option ℕ → ℕ
or_zero none = 0
or_zero (some n) = n

unfoldable pub count_reasons : List DeadLetter → Dict String ℕ → Dict String ℕ
count_reasons [] counts = counts
count_reasons (e ∷ l) counts =
    count_reasons l (
      insert String-discrete e.reason (or_zero (lookup String-discrete e.reason counts) + 1) counts)

unfoldable pub pairs : Dict String ℕ → List ReasonCount
pairs [] = []
pairs ((r, n) ∷ d) = record { reason = r; count = n } ∷ pairs d

-- the order of the key `(-count, reason)`
unfoldable pub reason_before : ReasonCount → ReasonCount → Bool
reason_before p q =
    if p.count == q.count then text_before p.reason q.reason else ltb q.count p.count

unfoldable pub reason_counts : DeadLetterQueue → List ReasonCount
unfolding count_reasons pairs reason_before all_entries
reason_counts q = sort_by reason_before (pairs (count_reasons (all_entries q) []))

unfoldable pub drain : Action DeadLetterQueue (List DeadLetter)
unfolding all_entries
drain q = (ok (all_entries q), record q { entries = [] })
