-- ===== src/TaskQueue.antt =====
-- digital_fte/task_queue.py: the queue that serves higher priorities first and equal ones in order of
-- arrival. An argument that is no Task is `none`; a task's id is a text. The set of ids is a list, and
-- `bisect_left` counts the keys in front that are smaller, as it is documented for sorted keys.
pub mod Order
pub mod Serving
mod Tests
use digital_fte_agent.Prelude.{
  ℕ, zero, suc, ◌+◌, String, ite, Bool, true, false, not, ◌&&◌, ◌||◌, Option, none, some, List, [],
  ◌∷◌, ltb, leb, if◌then◌else◌, length,
}
use digital_fte_agent.Prelude.Int.{ℤ, pos, ◌-ℤ◌, ltb_ℤ}
use digital_fte_agent.Prelude.Dict.{mem?}
use digital_fte_agent.Prelude.Values.{
  Value, null, int, type_error, value_error, queue_full, queue_empty, Result, ok, raise, and_then,
  as_int, is_blank, String-discrete,
}
use digital_fte_agent.Prelude.Action.{
  Action, ◌>>=◌, ◌>>◌, pure, throw, check, gets, modify, raise_if,
}

-- digital_fte/models.py
pub record Task : Type 0 where
  pub source : String
  pub task_id : String
  pub title : String
  pub body : String

pub record QueuedTask : Type 0 where
  pub task : Task
  pub priority : ℤ
  pub sequence : ℕ

pub record TaskQueue : Type 0 where
  pub capacity : Option ℕ
  pub entries : List QueuedTask
  pub keys : List (ℤ × ℕ)
  pub ids : List String
  pub sequence : ℕ

abbrev pub validate_capacity : Value → Result (Option ℕ)
validate_capacity null = ok none
validate_capacity (int (pos n)) = if ltb n 1 then raise value_error else ok (some n)
validate_capacity _ = raise value_error

-- `TaskQueue.__init__`
unfoldable pub init : Value → Result TaskQueue
init capacity =
    and_then (validate_capacity capacity)
      λ c. ok (record { capacity = c; entries = []; keys = []; ids = []; sequence = 0 })

abbrev pub is_at_capacity : Option ℕ → ℕ → Bool
is_at_capacity none n = false
is_at_capacity (some c) n = leb c n

-- the properties `is_empty` and `is_full`, and `in`
abbrev pub is_empty : TaskQueue → Bool
is_empty q = elim q.entries [ [] ↦ true | _ ∷ _ ↦ false ]

abbrev pub is_full : TaskQueue → Bool
is_full q = is_at_capacity q.capacity (length q.entries)

abbrev pub has_task : String → TaskQueue → Bool
has_task id q = mem? String-discrete id q.ids

abbrev pub ids_of : List QueuedTask → List String
ids_of [] = []
ids_of (e ∷ entries) = e.task.task_id ∷ ids_of entries

abbrev pub task_ids : TaskQueue → List String
task_ids q = ids_of q.entries

-- `(-priority, sequence)`
unfoldable pub key_of : QueuedTask → ℤ × ℕ
unfolding ◌-ℤ◌
key_of e = (pos 0 -ℤ e.priority, e.sequence)

-- tuples compare by their first part, and then by their second one
unfoldable pub key_before : ℤ × ℕ → ℤ × ℕ → Bool
key_before k l = ltb_ℤ k.0 l.0 || (not (ltb_ℤ l.0 k.0) && ltb k.1 l.1)

unfoldable pub bisect_left : List (ℤ × ℕ) → ℤ × ℕ → ℕ
bisect_left [] k = 0
bisect_left (x ∷ l) k = if key_before x k then suc (bisect_left l k) else 0

-- `list.insert`
abbrev pub insert_at : {A : Type 0} → ℕ → A → List A → List A
insert_at zero a l = a ∷ l
insert_at (suc n) a [] = a ∷ []
insert_at (suc n) a (x ∷ l) = x ∷ insert_at n a l

abbrev pub as_task : Option Task → Result Task
as_task none = raise type_error
as_task (some t) = ok t

-- the entry goes to its place
unfoldable pub place : QueuedTask → TaskQueue → TaskQueue
place e q =
    let index = bisect_left q.keys (key_of e) in
    record q {
      sequence = q.sequence + 1;
      keys = insert_at index (key_of e) q.keys;
      entries = insert_at index e q.entries;
      ids = e.task.task_id ∷ q.ids;
    }

-- `TaskQueue.push`
unfoldable pub push : Option Task → Value → Action TaskQueue Bool
unfolding place
push task priority = do
  t ← check (as_task task)
  p ← check (as_int priority)
  raise_if (is_blank t.task_id) value_error
  known ← gets (has_task t.task_id)
  if known then pure false else do
    full ← gets is_full
    raise_if full queue_full
    n ← gets (λ q. q.sequence)
    modify (place (record { task = t; priority = p; sequence = n }))
    pure true

-- `set.discard`
abbrev pub discard : String → List String → List String
discard id [] = []
discard id (x ∷ l) = ite (String-discrete id x) l (x ∷ discard id l)

abbrev pub drop_first : {A : Type 0} → List A → List A
drop_first [] = []
drop_first (a ∷ l) = l

-- `TaskQueue.peek` and `TaskQueue.pop`, on the entries
abbrev pub first_task : List QueuedTask → Action TaskQueue Task
first_task [] = throw queue_empty
first_task (e ∷ entries) = pure e.task

unfoldable pub peek : Action TaskQueue Task
peek q = first_task q.entries q

abbrev pub remove_first : List QueuedTask → TaskQueue → Result Task × TaskQueue
remove_first [] q = (raise queue_empty, q)
remove_first (e ∷ entries) q = (
  ok e.task,
  record q { entries = entries; keys = drop_first q.keys; ids = discard e.task.task_id q.ids },
)

unfoldable pub pop : Action TaskQueue Task
pop q = remove_first q.entries q

-- `TaskQueue.drain`
abbrev pub tasks_of : List QueuedTask → List Task
tasks_of [] = []
tasks_of (e ∷ entries) = e.task ∷ tasks_of entries

unfoldable pub drain : Action TaskQueue (List Task)
drain q = (ok (tasks_of q.entries), record q { entries = []; keys = []; ids = [] })
