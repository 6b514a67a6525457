-- ===== src/DeadLetterQueue/Tests.antt =====
-- Runs of the dead-letter queue, and its theorems at a concrete one.
use digital_fte_agent.Prelude.{ℕ, String, ◌≡◌, refl, none, some, [], ◌∷◌, arith}
use digital_fte_agent.Prelude.Int.{pos}
use digital_fte_agent.Prelude.Values.{
  null, int, str, value_error, already_dead_lettered, ok, raise, is_blank, String-discrete,
}
use digital_fte_agent.DeadLetterQueue.{
  DeadLetter, DeadLetterQueue, validate_task_id, validate_attempts, validate_failed_at, is_full,
  has_task, place, record_task, get, remove,
}
use digital_fte_agent.DeadLetterQueue.Invariant.{
  IsValid, Recorded, record_task-Recorded, record_task-IsValid,
}

abbrev letter : String → String → ℕ → DeadLetter
letter id why n = record {
  task_id = id;
  reason = why;
  attempts = 2;
  failed_at = none;
  sequence = n;
}

abbrev queue : DeadLetterQueue
queue = record {
  capacity = some 3;
  entries = ("a", letter "a" "timeout" 0) ∷ ("c", letter "c" "lock" 2) ∷ [];
  sequence = 3;
}

program : Unit {0}
unfolding record_task place validate_task_id validate_attempts validate_failed_at is_blank has_task
    is_full String-discrete remove get
program = tt

record_task_runs : record_task (str "d") (str "lock") (int (pos 2)) null queue ≡ (
  ok (letter "d" "lock" 3),
  record queue {
    sequence = 4;
    entries =
        ("a", letter "a" "timeout" 0)
        ∷ ("c", letter "c" "lock" 2)
        ∷ ("d", letter "d" "lock" 3)
        ∷ [];
  },
)
unfolding program
record_task_runs = refl

record_task_twice :
    record_task (str "c") (str "x") (int (pos 1)) null queue ≡ (raise already_dead_lettered, queue)
unfolding program
record_task_twice = refl

record_task_blank :
    record_task (str " ") (str "x") (int (pos 1)) null queue ≡ (raise value_error, queue)
unfolding program
record_task_blank = refl

queue-IsValid : IsValid queue
unfolding program
queue-IsValid = record {
  once = (refl, (refl, tt));
  filed = (refl, omega arith, (refl, omega arith, omega arith));
  fits = omega arith;
}

record_task-IsValid_example :
    IsValid (record_task (str "d") (str "lock") (int (pos 2)) null queue).1
record_task-IsValid_example =
    record_task-IsValid (str "d") (str "lock") (int (pos 2)) null queue queue-IsValid

record_task-Recorded_example :
    Recorded
      (str "d")
      (str "lock")
      (int (pos 2))
      null
      queue
      (record_task (str "d") (str "lock") (int (pos 2)) null queue)
record_task-Recorded_example = record_task-Recorded (str "d") (str "lock") (int (pos 2)) null queue
