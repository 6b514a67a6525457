-- ===== src/DeadLetterQueue/Removal.antt =====
-- Taking a record out of the store of digital_fte/dead_letter_queue.py again.
use digital_fte_agent.Prelude.{
  ℕ, ◌+◌, ◌≤◌, String, ◌≡◌, ◌≢◌, inl, inr, true, false, Option, none, some, [], ◌∷◌, ◌++◌, arith,
  Option-cases, length,
}
use digital_fte_agent.Prelude.Dict.{
  Dict, erase, lookup, lookup-erase_ne, erase-IsDistinct, lookup-erase_self, length-erase,
}
use digital_fte_agent.Prelude.Values.{
  Value, str, task_not_dead_lettered, Result, ok, raise, is_blank, String-discrete,
}
use digital_fte_agent.DeadLetterQueue.{
  DeadLetter, DeadLetterQueue, validate_task_id, has_task, record_task, get, remove,
}
use digital_fte_agent.DeadLetterQueue.Invariant.{
  Fits, IsValid, Filed-erase, Recorded, has_task-lookup, record_task-Recorded,
}

Fits-le : (c : Option ℕ) (n m : ℕ) → n ≤ m → Fits c m → Fits c n
Fits-le none n m le h = tt
Fits-le (some c) n m le h = omega arith

length-erase-le :
    (k : String) (d : Dict String DeadLetter) → length (erase String-discrete k d) ≤ length d
length-erase-le k [] = omega arith
length-erase-le k (e ∷ d) = ground (arith, length-erase-le k d)

erase-IsValid :
    (id : String) (q : DeadLetterQueue)
    → IsValid q
    → IsValid (record q { entries = erase String-discrete id q.entries })
erase-IsValid id q v = record {
  once = erase-IsDistinct String-discrete id q.entries v.once;
  filed = Filed-erase id 0 q.sequence q.entries v.filed;
  fits = Fits-le q.capacity _ _ (length-erase-le id q.entries) v.fits;
}

-- Removing a task returns its record, the one that `get` finds, keeps the store valid, and leaves
-- every other record; a task that is not there raises and changes nothing.
remove_cases :
    (id : String) (q : DeadLetterQueue)
    → IsValid q
    → is_blank id ≡ false
    → let (r, q') = remove (str id) q in
      (r ≡ (get (str id) q).0)
      × IsValid q'
      × (has_task id q' ≡ false)
      × ((other : String) → other ≢ id → (get (str other) q').0 ≡ (get (str other) q).0)
      × (has_task id q ≡ false → (r ≡ raise task_not_dead_lettered) × (q' ≡ q))
      × (has_task id q ≡ true → length q'.entries + 1 ≡ length q.entries)
unfolding remove get validate_task_id has_task
remove_cases id q v named = elim (Option-cases (lookup String-discrete id q.entries)) [
  | inl missing ↦ rw (named) (
    ground arith,
    ground (arith, v.once, v.filed, v.fits),
    ground arith,
    λ other ne. ground arith,
    λ h. ground arith,
    λ h. ground arith,
  )
  | inr (e, found) ↦ rw (named) (
    ground arith,
    ground (arith, erase-IsValid id q v),
    ground (arith, lookup-erase_self String-discrete id q.entries v.once),
    λ other ne. ground (arith, lookup-erase_ne String-discrete other id q.entries ne),
    λ h. ground arith,
    λ h. ground (arith, length-erase String-discrete id q.entries e found),
  )
]

lookup-append :
    (id : String) (e : DeadLetter) (d : Dict String DeadLetter)
    → lookup String-discrete id d ≡ none
    → lookup String-discrete id (d ++ (id, e) ∷ []) ≡ some e
lookup-append id e [] h = ground arith
lookup-append id e (x ∷ d) h = ground (arith, lookup-append id e d)

erase-append :
    (id : String) (e : DeadLetter) (d : Dict String DeadLetter)
    → lookup String-discrete id d ≡ none
    → erase String-discrete id (d ++ (id, e) ∷ []) ≡ d
erase-append id e [] h = ground arith
erase-append id e (x ∷ d) h = ground (arith, erase-append id e d)

validate_task_id-named :
    (v : Value) {id : String} → validate_task_id v ≡ ok id → is_blank id ≡ false
unfolding validate_task_id
validate_task_id-named v h = ground arith

remove-Recorded :
    (task_id reason attempts failed_at : Value) (q : DeadLetterQueue)
    (s : Result DeadLetter × DeadLetterQueue) {e : DeadLetter}
    → IsValid q
    → s.0 ≡ ok e
    → Recorded task_id reason attempts failed_at q s
    → remove (str e.task_id) s.1 ≡ (ok e, record q { sequence = q.sequence + 1 })
unfolding remove validate_task_id
remove-Recorded task_id reason attempts failed_at q (raise x, q') v h r = cc
remove-Recorded task_id reason attempts failed_at q (ok e', q') {e} v h
      (a, b, c, d, absent, space, number, r) =
    let same : e' ≡ e = cc in
    let named = validate_task_id-named task_id a in
    let new = has_task-lookup e'.task_id q absent in
    rw (← same, r, named, lookup-append e'.task_id e' q.entries new)
      (rw (erase-append e'.task_id e' q.entries new))

-- A task that was just recorded in a valid store can be taken out again: its record comes back, and the store is as
-- before, but for the sequence counter.
remove-record_task :
    (task_id reason attempts failed_at : Value) (q : DeadLetterQueue) {e : DeadLetter}
    → IsValid q
    → (record_task task_id reason attempts failed_at q).0 ≡ ok e
    → remove (str e.task_id) (record_task task_id reason attempts failed_at q).1
      ≡ (ok e, record q { sequence = q.sequence + 1 })
remove-record_task task_id reason attempts failed_at q v h =
    remove-Recorded task_id reason attempts failed_at q _ v h
      (record_task-Recorded task_id reason attempts failed_at q)
