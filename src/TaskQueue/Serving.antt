-- ===== src/TaskQueue/Serving.antt =====
-- What pushing and popping do to the queue of digital_fte/task_queue.py.
use digital_fte_agent.Prelude.{
  ℕ, suc, ◌+◌, String, ◌≡◌, refl, sym, ap, subst, ◌∙◌, ◌≢◌, ◌⊎◌, inl, inr, ite, Bool, true, false,
  Option, none, some, List, [], ◌∷◌, arith, Bool-cases, length,
}
use digital_fte_agent.Prelude.Dict.{keys, mem?, IsDistinct}
use digital_fte_agent.Prelude.Values.{
  Value, queue_empty, Result, ok, raise, as_int, is_blank, String-discrete, Result-cases,
}
use digital_fte_agent.TaskQueue.{
  Task, QueuedTask, TaskQueue, is_at_capacity, is_full, has_task, ids_of, place, push, discard,
  remove_first, pop,
}
use digital_fte_agent.TaskQueue.Order.{
  BeforeAll, IsServed, AllEarlier, keys_of, FitsQueue, IsValid, insert_served,
  insert_at-bisect_left, insert_served-IsServed, insert_served-AllEarlier, AllEarlier-weaken,
  mem?-insert_served, insert_served-IsDistinct, length-insert_served,
}

place-entries :
    (e : QueuedTask) (q : TaskQueue)
    → IsValid q
    → ((place e q).entries ≡ insert_served e q.entries)
      × ((place e q).keys ≡ keys_of (insert_served e q.entries))
unfolding place
place-entries e q v = rw v.keyed (insert_at-bisect_left e q.entries)

place-ids : (e : QueuedTask) (q : TaskQueue) → (place e q).ids ≡ e.task.task_id ∷ q.ids
unfolding place
place-ids e q = refl

place_counts :
    (e : QueuedTask) (q : TaskQueue)
    → ((place e q).sequence ≡ q.sequence + 1) × ((place e q).capacity ≡ q.capacity)
unfolding place
place_counts e q = (refl, refl)

room_fits : (c : Option ℕ) (n : ℕ) → is_at_capacity c n ≡ false → FitsQueue c (n + 1)
room_fits none n h = tt
room_fits (some c) n h = ground arith

place-IsValid :
    (e : QueuedTask) (q : TaskQueue)
    → IsValid q
    → e.sequence ≡ q.sequence
    → has_task e.task.task_id q ≡ false
    → is_full q ≡ false
    → IsValid (place e q)
place-IsValid e q v fresh new room =
    let (entries, keys) = place-entries e q v in
    let (count, cap) = place_counts e q in
    let absent = sym (v.known e.task.task_id) ∙ new in
    record {
      served = rw entries (insert_served-IsServed e q.entries (rw fresh v.earlier) v.served);
      earlier =
          rw (entries, count)
            (insert_served-AllEarlier e (q.sequence + 1) q.entries (omega (arith, fresh))
              (AllEarlier-weaken q.sequence q.entries v.earlier));
      keyed = rw (entries, keys) refl;
      distinct = rw entries (insert_served-IsDistinct e q.entries absent v.distinct);
      distinct_ids = rw (place-ids e q) (new, v.distinct_ids);
      known = λ id.
          rw (entries, place-ids e q, mem?-insert_served id e q.entries)
            (ap (λ b. ite (String-discrete id e.task.task_id) true b) (v.known id));
      fits = rw (entries, cap, length-insert_served e q.entries) (room_fits q.capacity _ room);
    }

-- What a call of `push` has done to a valid queue: it raised, or it found the id queued, and changed
-- nothing; or it put a new entry, with the next number, at its place.
abbrev pub Pushed : TaskQueue → Result Bool × TaskQueue → Type 0
Pushed q (raise e, q') = q' ≡ q
Pushed q (ok false, q') = (q' ≡ q)
Pushed q (ok true, q') =
    (e : QueuedTask) × (e.sequence ≡ q.sequence)
    × (is_blank e.task.task_id ≡ false)
    × (has_task e.task.task_id q ≡ false)
    × (is_full q ≡ false)
    × (q' ≡ place e q)

push-Pushed : (task : Option Task) (v : Value) (q : TaskQueue) → Pushed q (push task v q)
unfolding push
push-Pushed none v q = refl
push-Pushed (some t) v q = elim (Result-cases (as_int v)) [
  | inr (x, e) ↦ rw e refl
  | inl (p, e) ↦ elim (Bool-cases (is_blank t.task_id)) [
    | inl blank ↦ rw (e, blank) refl
    | inr named ↦ elim (Bool-cases (has_task t.task_id q)) [
      | inl known ↦ rw (e, named, known) refl
      | inr new ↦ elim (Bool-cases (is_full q)) [
        | inl full ↦ rw (e, named, new, full) refl
        | inr room ↦
            rw (e, named, new, room)
              (
                record { task = t; priority = p; sequence = q.sequence },
                refl,
                named,
                new,
                room,
                refl,
              )
      ]
    ]
  ]
]

Pushed-IsValid :
    (q : TaskQueue) (s : Result Bool × TaskQueue) → IsValid q → Pushed q s → IsValid s.1
Pushed-IsValid q (raise e, q') v h = rw h v
Pushed-IsValid q (ok false, q') v h = rw h v
Pushed-IsValid q (ok true, q') v (e, fresh, named, new, room, placed) =
    rw placed (place-IsValid e q v fresh new room)

-- A push, with whatever arguments, keeps a valid queue valid: higher priorities stand before lower
-- ones and earlier arrivals before later ones of the same priority, the sort keys and the set of ids
-- agree with the entries, no id is queued twice, and the capacity is kept.
pub push-IsValid :
    (task : Option Task) (v : Value) (q : TaskQueue) → IsValid q → IsValid (push task v q).1
push-IsValid task v q h = Pushed-IsValid q (push task v q) h (push-Pushed task v q)

mem?-discard :
    (id other : String) (l : List String)
    → other ≢ id
    → mem? String-discrete other (discard id l) ≡ mem? String-discrete other l
mem?-discard id other [] ne = refl
mem?-discard id other (x ∷ l) ne = ground (arith, mem?-discard id other l)

mem?-discard_self :
    (id : String) (l : List String)
    → IsDistinct String-discrete l
    → mem? String-discrete id (discard id l) ≡ false
mem?-discard_self id [] d = refl
mem?-discard_self id (x ∷ l) d = ground (arith, mem?-discard_self id l d.1)

discard-IsDistinct :
    (id : String) (l : List String)
    → IsDistinct String-discrete l
    → IsDistinct String-discrete (discard id l)
discard-IsDistinct id [] d = tt
discard-IsDistinct id (x ∷ l) d = ground (arith, discard-IsDistinct id l d.1, mem?-discard id x l)

FitsQueue-le : (c : Option ℕ) (n : ℕ) → FitsQueue c (suc n) → FitsQueue c n
FitsQueue-le none n h = tt
FitsQueue-le (some c) n h = omega arith

known_after :
    (id other : String) (ids l : List String)
    → ((x : String) → mem? String-discrete x ids ≡ mem? String-discrete x (id ∷ l))
    → IsDistinct String-discrete ids
    → mem? String-discrete id l ≡ false
    → mem? String-discrete other (discard id ids) ≡ mem? String-discrete other l
known_after id other ids l h d new = elim (String-discrete other id) [
  | yes same ↦ rw (same, new) (mem?-discard_self id ids d)
  | no differ ↦ ground (arith, mem?-discard id other ids differ, h other)
]

removed-IsValid :
    (e : QueuedTask) (rest : List QueuedTask) (q : TaskQueue)
    → IsValid q
    → q.entries ≡ e ∷ rest
    → IsValid (remove_first (e ∷ rest) q).1
removed-IsValid e rest q v same =
    let served : IsServed (e ∷ rest) = subst IsServed same v.served in
    let earlier : AllEarlier q.sequence (e ∷ rest) = subst (AllEarlier q.sequence) same v.earlier in
    let distinct = subst (λ l. IsDistinct String-discrete (ids_of l)) same v.distinct in
    record {
      served = served.1;
      earlier = earlier.1;
      keyed = rw (v.keyed, same) refl;
      distinct = distinct.1;
      distinct_ids = discard-IsDistinct e.task.task_id q.ids v.distinct_ids;
      known = λ id.
          known_after e.task.task_id id q.ids (ids_of rest)
            (λ x. v.known x ∙ ap (λ l. mem? String-discrete x (ids_of l)) same) v.distinct_ids
            distinct.0;
      fits =
          FitsQueue-le q.capacity (length rest)
            (subst (λ l. FitsQueue q.capacity (length l)) same v.fits);
    }

-- A pop from a valid queue serves an entry that is before all others: it has a higher priority, or
-- an equal one and arrived earlier. The others stay in their order, the queue stays valid, and the id
-- is free again. An empty queue raises and is left alone.
pub pop_cases :
    (q : TaskQueue)
    → IsValid q
    → ((q.entries ≡ []) × (pop q ≡ (raise queue_empty, q)))
      ⊎ ((e : QueuedTask) × (rest : List QueuedTask) × (q.entries ≡ e ∷ rest)
          × BeforeAll e rest
          × ((pop q).0 ≡ ok e.task)
          × ((pop q).1.entries ≡ rest)
          × IsValid (pop q).1
          × (has_task e.task.task_id (pop q).1 ≡ false))
unfolding pop
pop_cases q v = serve q.entries refl
  where
    serve :
        (l : List QueuedTask)
        → q.entries ≡ l
        → ((q.entries ≡ []) × (remove_first q.entries q ≡ (raise queue_empty, q)))
          ⊎ ((e : QueuedTask) × (rest : List QueuedTask) × (q.entries ≡ e ∷ rest)
              × BeforeAll e rest
              × ((remove_first q.entries q).0 ≡ ok e.task)
              × ((remove_first q.entries q).1.entries ≡ rest)
              × IsValid (remove_first q.entries q).1
              × (has_task e.task.task_id (remove_first q.entries q).1 ≡ false))
    serve [] same = inl (same, ap (λ l. remove_first l q) same)
    serve (e ∷ rest) same =
        let first : remove_first q.entries q ≡ remove_first (e ∷ rest) q =
          ap (λ l. remove_first l q) same in
        let served : IsServed (e ∷ rest) = subst IsServed same v.served in
        inr (
          e,
          rest,
          same,
          served.0,
          ap (λ x. x.0) first,
          ap (λ x. x.1.entries) first,
          subst (λ x. IsValid x.1) (sym first) (removed-IsValid e rest q v same),
          subst (λ x. has_task e.task.task_id x.1 ≡ false) (sym first)
              (mem?-discard_self e.task.task_id q.ids v.distinct_ids),
        )
