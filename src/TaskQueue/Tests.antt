-- ===== src/TaskQueue/Tests.antt =====
-- Runs of digital_fte/task_queue.py.
use digital_fte_agent.Prelude.{String, ◌≡◌, refl, ◌⊎◌, false, some, List, [], ◌∷◌, arith}
use digital_fte_agent.Prelude.Int.{ℤ, pos, negsuc, ◌-ℤ◌}
use digital_fte_agent.Prelude.Values.{
  int, queue_full, queue_empty, ok, raise, is_space, is_blank, String-discrete,
}
use digital_fte_agent.TaskQueue.{
  Task, QueuedTask, TaskQueue, init, has_task, task_ids, key_of, key_before, bisect_left, push, pop,
}
use digital_fte_agent.TaskQueue.Order.{BeforeAll, IsValid}
use digital_fte_agent.TaskQueue.Serving.{push-IsValid, pop_cases}

abbrev task : String → Task
task id = record { source = "inbox"; task_id = id; title = "title"; body = "body" }

abbrev empty_queue : TaskQueue
empty_queue = record { capacity = some 3; entries = []; keys = []; ids = []; sequence = 0 }

abbrev push_each : List (String × ℤ) → TaskQueue → TaskQueue
push_each [] q = q
push_each ((id, p) ∷ l) q = push_each l (push (some (task id)) (int p) q).1

abbrev three : List (String × ℤ)
three = ("low", negsuc 0) ∷ ("high", pos 5) ∷ ("later", pos 5) ∷ []

init_queue : init (int (pos 3)) ≡ ok empty_queue
unfolding init
init_queue = refl

task_ids-push_each : task_ids (push_each three empty_queue) ≡ "high" ∷ "later" ∷ "low" ∷ []
unfolding push bisect_left key_before key_of is_blank is_space ◌-ℤ◌ String-discrete
task_ids-push_each = refl

push_full :
    (push (some (task "more")) (int (pos 9)) (push_each three empty_queue)).0 ≡ raise queue_full
unfolding push bisect_left key_before key_of is_blank is_space ◌-ℤ◌ String-discrete
push_full = refl

push_twice : (push (some (task "low")) (int (pos 9)) (push_each three empty_queue)).0 ≡ ok false
unfolding push bisect_left key_before key_of is_blank is_space ◌-ℤ◌ String-discrete
push_twice = refl

abbrev one : TaskQueue
one = record {
  capacity = some 3;
  entries = record { task = task "a"; priority = pos 1; sequence = 0 } ∷ [];
  keys = (negsuc 0, 0) ∷ [];
  ids = "a" ∷ [];
  sequence = 1;
}

one-IsValid : IsValid one
unfolding key_of ◌-ℤ◌
one-IsValid = record {
  served = (tt, tt);
  earlier = (omega arith, tt);
  keyed = refl;
  distinct = (refl, tt);
  distinct_ids = (refl, tt);
  known = λ id. refl;
  fits = omega arith;
}

push-IsValid_example : IsValid (push (some (task "b")) (int (pos 7)) one).1
push-IsValid_example = push-IsValid (some (task "b")) (int (pos 7)) one one-IsValid

pop_cases_example :
    ((one.entries ≡ []) × (pop one ≡ (raise queue_empty, one)))
    ⊎ ((e : QueuedTask) × (rest : List QueuedTask) × (one.entries ≡ e ∷ rest)
        × BeforeAll e rest
        × ((pop one).0 ≡ ok e.task)
        × ((pop one).1.entries ≡ rest)
        × IsValid (pop one).1
        × (has_task e.task.task_id (pop one).1 ≡ false))
pop_cases_example = pop_cases one one-IsValid
