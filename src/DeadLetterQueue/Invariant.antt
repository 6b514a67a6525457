-- ===== src/DeadLetterQueue/Invariant.antt =====
-- The store of digital_fte/dead_letter_queue.py keeps each task once, in the order of recording.
use digital_fte_agent.Prelude.{
  ℕ, suc, ◌+◌, ◌≤◌, String, ◌≡◌, refl, sym, subst, ◌∙◌, ◌≢◌, ◌⊎◌, inl, inr, true, false, Option,
  none, some, [], ◌∷◌, ◌++◌, arith, Bool-cases, length, length-append,
}
use digital_fte_agent.Prelude.Dict.{
  Dict, keys, mem?, IsDistinct, erase, lookup, contains-eq-mem?, insert-append,
}
use digital_fte_agent.Prelude.Values.{
  Value, Exception, already_dead_lettered, dead_letter_queue_full, Result, ok, raise,
  String-discrete, Result-cases,
}
use digital_fte_agent.DeadLetterQueue.{
  DeadLetter, DeadLetterQueue, validate_task_id, validate_attempts, validate_failed_at,
  is_at_capacity, is_full, has_task, place, record_task,
}

-- Each record stands under its task id, and the sequence numbers ascend from `low` to `high`.
abbrev pub Filed : ℕ → ℕ → Dict String DeadLetter → Type 0
Filed low high [] = low ≤ high
Filed low high ((k, e) ∷ d) = (e.task_id ≡ k) × (low ≤ e.sequence) × Filed (suc e.sequence) high d

abbrev pub Fits : Option ℕ → ℕ → Type 0
Fits none n = Unit
Fits (some c) n = n ≤ c

pub record IsValid (q : DeadLetterQueue) : Type 0 where
  pub once : IsDistinct String-discrete (keys q.entries)
  pub filed : Filed 0 q.sequence q.entries
  pub fits : Fits q.capacity (length q.entries)

Filed-append :
    (low high : ℕ) (d : Dict String DeadLetter) (e : DeadLetter)
    → Filed low high d
    → high ≤ e.sequence
    → Filed low (suc e.sequence) (d ++ (e.task_id, e) ∷ [])
Filed-append low high [] e h le = (refl, omega arith, omega arith)
Filed-append low high (x ∷ d) e h le = (h.0, h.1, Filed-append _ high d e h.2 le)

Filed-weaken :
    (low low' high : ℕ) (d : Dict String DeadLetter)
    → low' ≤ low
    → Filed low high d
    → Filed low' high d
Filed-weaken low low' high [] le h = omega arith
Filed-weaken low low' high (x ∷ d) le h = (h.0, omega arith, h.2)

pub Filed-erase :
    (k : String) (low high : ℕ) (d : Dict String DeadLetter)
    → Filed low high d
    → Filed low high (erase String-discrete k d)
Filed-erase k low high [] h = h
Filed-erase k low high ((j, e) ∷ d) h =
    ground
      (arith, Filed-erase k (suc e.sequence) high d h.2, Filed-weaken (suc e.sequence) low high d)

module _ (task_id reason attempts failed_at : Value) (q : DeadLetterQueue) where
  -- Why `record` raises `x`: an argument fails its check, the task has a record, or there is no room.
  abbrev pub Refused : Exception → Type 0
  Refused x =
      (validate_task_id task_id ≡ raise x)
      ⊎ (validate_task_id reason ≡ raise x)
      ⊎ (validate_attempts attempts ≡ raise x)
      ⊎ (validate_failed_at failed_at ≡ raise x)
      ⊎ ((id : String) × (validate_task_id task_id ≡ ok id)
          × (has_task id q ≡ true)
          × (x ≡ already_dead_lettered))
      ⊎ ((is_full q ≡ true) × (x ≡ dead_letter_queue_full))

  -- What a call of `record` has done: it raised for a reason and changed nothing, or it put a new record
  -- of what its arguments say, with the next sequence number, at the end of a store that had no record
  -- of the task and had room.
  abbrev pub Recorded : Result DeadLetter × DeadLetterQueue → Type 0
  Recorded (raise x, q') = Refused x × (q' ≡ q)
  Recorded (ok e, q') =
      (validate_task_id task_id ≡ ok e.task_id)
      × (validate_task_id reason ≡ ok e.reason)
      × (validate_attempts attempts ≡ ok e.attempts)
      × (validate_failed_at failed_at ≡ ok e.failed_at)
      × (has_task e.task_id q ≡ false)
      × (is_full q ≡ false)
      × (e.sequence ≡ q.sequence)
      × (q' ≡ record q { sequence = q.sequence + 1; entries = q.entries ++ (e.task_id, e) ∷ [] })

pub has_task-lookup :
    (id : String) (q : DeadLetterQueue)
    → has_task id q ≡ false
    → lookup String-discrete id q.entries ≡ none
unfolding has_task
has_task-lookup id q h = ground arith

-- What `place` does with a record.
place_cases :
    (e : DeadLetter) (q : DeadLetterQueue)
    → ((has_task e.task_id q ≡ true) × (place e q ≡ (raise already_dead_lettered, q)))
      ⊎ ((is_full q ≡ true) × (place e q ≡ (raise dead_letter_queue_full, q)))
      ⊎ ((has_task e.task_id q ≡ false)
          × (is_full q ≡ false)
          × (place e q ≡ (
            ok e,
            record q { sequence = q.sequence + 1; entries = q.entries ++ (e.task_id, e) ∷ [] },
          )))
unfolding place
place_cases e q = elim (Bool-cases (has_task e.task_id q)) [
  | inl present ↦ inl (present, rw (present))
  | inr absent ↦ elim (Bool-cases (is_full q)) [
    | inl full ↦ inr (inl (full, rw (absent, full)))
    | inr space ↦ inr (
        inr (
          absent,
          space,
          rw (
            absent,
            space,
            insert-append String-discrete e.task_id e q.entries
                (has_task-lookup e.task_id q absent),
          ),
        ))
  ]
]

place-Recorded :
    (task_id reason attempts failed_at : Value) (e : DeadLetter) (q : DeadLetterQueue)
    → validate_task_id task_id ≡ ok e.task_id
    → validate_task_id reason ≡ ok e.reason
    → validate_attempts attempts ≡ ok e.attempts
    → validate_failed_at failed_at ≡ ok e.failed_at
    → e.sequence ≡ q.sequence
    → Recorded task_id reason attempts failed_at q (place e q)
place-Recorded task_id reason attempts failed_at e q a b c d h = elim (place_cases e q) [
  | inl (present, s) ↦ rw (s) (inr (inr (inr (inr (inl (e.task_id, a, present, refl))))), refl)
  | inr (inl (full, s)) ↦ rw (s) (inr (inr (inr (inr (inr (full, refl))))), refl)
  | inr (inr (absent, space, s)) ↦ rw (s) (a, b, c, d, absent, space, h, refl)
]

-- Recording is all or nothing: it raises and changes nothing, because an argument fails its check, the
-- task has a record already or the store is full; or it puts a new record with the arguments' id, reason,
-- attempts and time, and with the next sequence number, at the end of a store that had room and no
-- record of the task.
pub record_task-Recorded :
    (task_id reason attempts failed_at : Value) (q : DeadLetterQueue)
    → Recorded task_id reason attempts failed_at q (record_task task_id reason attempts failed_at q)
unfolding record_task
record_task-Recorded task_id reason attempts failed_at q =
    elim (Result-cases (validate_task_id task_id)) [
      | inr (x, bad) ↦
          subst (Recorded task_id reason attempts failed_at q) {x = (raise x, q)} (rw (bad))
            (inl bad, refl)
      | inl (id, a) ↦ elim (Result-cases (validate_task_id reason)) [
        | inr (x, bad) ↦
            subst (Recorded task_id reason attempts failed_at q) {x = (raise x, q)} (rw (a, bad))
              (inr (inl bad), refl)
        | inl (why, b) ↦ elim (Result-cases (validate_attempts attempts)) [
          | inr (x, bad) ↦
              subst (Recorded task_id reason attempts failed_at q) {x = (raise x, q)}
                (rw (a, b, bad)) (inr (inr (inl bad)), refl)
          | inl (tries, c) ↦ elim (Result-cases (validate_failed_at failed_at)) [
            | inr (x, bad) ↦
                subst (Recorded task_id reason attempts failed_at q) {x = (raise x, q)}
                  (rw (a, b, c, bad)) (inr (inr (inr (inl bad))), refl)
            | inl (at, d) ↦ subst (Recorded task_id reason attempts failed_at q) (rw (a, b, c, d)) (
                place-Recorded task_id reason attempts failed_at
                  (record {
                    task_id = id;
                    reason = why;
                    attempts = tries;
                    failed_at = at;
                    sequence = q.sequence;
                  })
                  q a b c d refl)
          ]
        ]
      ]
    ]

mem?-append :
    (k j : String) (e : DeadLetter) (d : Dict String DeadLetter)
    → mem? String-discrete k (keys d) ≡ false
    → k ≢ j
    → mem? String-discrete k (keys (d ++ (j, e) ∷ [])) ≡ false
mem?-append k j e [] h ne = ground arith
mem?-append k j e (x ∷ d) h ne = ground (arith, mem?-append k j e d)

IsDistinct-append :
    (j : String) (e : DeadLetter) (d : Dict String DeadLetter)
    → IsDistinct String-discrete (keys d)
    → mem? String-discrete j (keys d) ≡ false
    → IsDistinct String-discrete (keys (d ++ (j, e) ∷ []))
IsDistinct-append j e [] h absent = (refl, tt)
IsDistinct-append j e (x ∷ d) h absent =
    ground (arith, IsDistinct-append j e d h.1, mem?-append x.0 j e d)

room : (capacity : Option ℕ) (n : ℕ) → is_at_capacity capacity n ≡ false → Fits capacity (n + 1)
room none n h = tt
room (some c) n h = ground arith

has_task-mem? :
    (id : String) (q : DeadLetterQueue) → has_task id q ≡ mem? String-discrete id (keys q.entries)
unfolding has_task
has_task-mem? id q = contains-eq-mem? String-discrete id q.entries

Recorded-IsValid :
    (task_id reason attempts failed_at : Value) (q : DeadLetterQueue)
    (s : Result DeadLetter × DeadLetterQueue)
    → IsValid q
    → Recorded task_id reason attempts failed_at q s
    → IsValid s.1
unfolding is_full
Recorded-IsValid task_id reason attempts failed_at q (raise x, q') v (why, r) = rw r v
Recorded-IsValid task_id reason attempts failed_at q (ok e, q') v
      (a, b, c, d, absent, space, number, r) =
    rw r (record {
      once =
          IsDistinct-append e.task_id e q.entries v.once (sym (has_task-mem? e.task_id q) ∙ absent);
      filed =
          let top : suc e.sequence ≡ q.sequence + 1 = omega arith in
          subst (λ n. Filed 0 n (q.entries ++ (e.task_id, e) ∷ [])) top
            (Filed-append 0 q.sequence q.entries e v.filed (omega arith));
      fits =
          rw (length-append q.entries ((e.task_id, e) ∷ []))
            (room q.capacity (length q.entries) space);
    })

-- Recording keeps a valid store valid, with whatever arguments: each task is filed once, under its
-- id, the sequence numbers ascend, and the number of records is within the capacity.
pub record_task-IsValid :
    (task_id reason attempts failed_at : Value) (q : DeadLetterQueue)
    → IsValid q
    → IsValid (record_task task_id reason attempts failed_at q).1
record_task-IsValid task_id reason attempts failed_at q v =
    Recorded-IsValid task_id reason attempts failed_at q _ v
      (record_task-Recorded task_id reason attempts failed_at q)
