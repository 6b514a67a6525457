-- ===== src/TaskQueue/Order.antt =====
-- The order of the queue in digital_fte/task_queue.py, and the invariant that pushing and popping keep.
use digital_fte_agent.Prelude.{
  ℕ, ◌+◌, ◌≤◌, ◌<◌, String, ◌≡◌, refl, ap, inl, inr, Bool, true, false, not, ◌&&◌, ◌||◌, Option,
  none, some, List, [], ◌∷◌, arith, ltb, if◌then◌else◌, Bool-cases, length,
}
use digital_fte_agent.Prelude.Int.{ℤ, ◌-ℤ◌, ltb_ℤ}
use digital_fte_agent.Prelude.Dict.{keys, mem?, IsDistinct}
use digital_fte_agent.Prelude.Values.{String-discrete}
use digital_fte_agent.TaskQueue.{
  QueuedTask, TaskQueue, ids_of, key_of, key_before, bisect_left, insert_at,
}

-- `x` is served before `y`: a higher priority, or an equal one and an earlier arrival.
abbrev pub served_before : QueuedTask → QueuedTask → Bool
served_before x y =
    ltb_ℤ y.priority x.priority || (not (ltb_ℤ x.priority y.priority) && ltb x.sequence y.sequence)

abbrev pub BeforeAll : QueuedTask → List QueuedTask → Type 0
BeforeAll e [] = Unit
BeforeAll e (x ∷ l) = (served_before e x ≡ true) × BeforeAll e l

-- Every entry is served before all behind it.
abbrev pub IsServed : List QueuedTask → Type 0
IsServed [] = Unit
IsServed (e ∷ l) = BeforeAll e l × IsServed l

-- The entries arrived before the number `n` was given.
abbrev pub AllEarlier : ℕ → List QueuedTask → Type 0
AllEarlier n [] = Unit
AllEarlier n (e ∷ l) = (e.sequence < n) × AllEarlier n l

abbrev pub keys_of : List QueuedTask → List (ℤ × ℕ)
keys_of [] = []
keys_of (e ∷ l) = key_of e ∷ keys_of l

abbrev pub FitsQueue : Option ℕ → ℕ → Type 0
FitsQueue none n = Unit
FitsQueue (some c) n = n ≤ c

pub record IsValid (q : TaskQueue) : Type 0 where
  pub served : IsServed q.entries
  pub earlier : AllEarlier q.sequence q.entries
  pub keyed : q.keys ≡ keys_of q.entries
  pub distinct : IsDistinct String-discrete (ids_of q.entries)
  pub distinct_ids : IsDistinct String-discrete q.ids
  pub known :
      (id : String) → mem? String-discrete id q.ids ≡ mem? String-discrete id (ids_of q.entries)
  pub fits : FitsQueue q.capacity (length q.entries)

key_before-key_of : (x y : QueuedTask) → key_before (key_of x) (key_of y) ≡ served_before x y
unfolding key_before key_of ◌-ℤ◌
key_before-key_of x y = ground arith

-- the entry put at its place
abbrev pub insert_served : QueuedTask → List QueuedTask → List QueuedTask
insert_served e [] = e ∷ []
insert_served e (x ∷ l) = if served_before x e then x ∷ insert_served e l else e ∷ x ∷ l

pub insert_at-bisect_left :
    (e : QueuedTask) (l : List QueuedTask)
    → (insert_at (bisect_left (keys_of l) (key_of e)) e l ≡ insert_served e l)
      × (insert_at (bisect_left (keys_of l) (key_of e)) (key_of e) (keys_of l)
          ≡ keys_of (insert_served e l))
unfolding bisect_left
insert_at-bisect_left e [] = (refl, refl)
insert_at-bisect_left e (x ∷ l) =
    let (entries, keys) = insert_at-bisect_left e l in
    elim (Bool-cases (served_before x e)) [
      | inl earlier ↦
          rw (key_before-key_of x e)
            (rw earlier (ap (λ t. x ∷ t) entries, ap (λ t. key_of x ∷ t) keys))
      | inr later ↦ rw (key_before-key_of x e) (rw later (refl, refl))
    ]

served_before_trans :
    (x y z : QueuedTask)
    → served_before x y ≡ true
    → served_before y z ≡ true
    → served_before x z ≡ true
served_before_trans x y z h k = ground arith

served_before_total :
    (x y : QueuedTask)
    → x.sequence < y.sequence
    → served_before x y ≡ false
    → served_before y x ≡ true
served_before_total x y h k = ground arith

BeforeAll-trans :
    (e x : QueuedTask) (l : List QueuedTask)
    → served_before e x ≡ true
    → BeforeAll x l
    → BeforeAll e l
BeforeAll-trans e x [] h k = tt
BeforeAll-trans e x (y ∷ l) h k = (served_before_trans e x y h k.0, BeforeAll-trans e x l h k.1)

BeforeAll-insert_served :
    (x e : QueuedTask) (l : List QueuedTask)
    → served_before x e ≡ true
    → BeforeAll x l
    → BeforeAll x (insert_served e l)
BeforeAll-insert_served x e [] h k = (h, tt)
BeforeAll-insert_served x e (y ∷ l) h k = elim (Bool-cases (served_before y e)) [
  | inl earlier ↦ rw earlier (k.0, BeforeAll-insert_served x e l h k.1)
  | inr later ↦ rw later (h, k)
]

pub insert_served-IsServed :
    (e : QueuedTask) (l : List QueuedTask)
    → AllEarlier e.sequence l
    → IsServed l
    → IsServed (insert_served e l)
insert_served-IsServed e [] a s = (tt, tt)
insert_served-IsServed e (x ∷ l) a s = elim (Bool-cases (served_before x e)) [
  | inl earlier ↦
      rw earlier (BeforeAll-insert_served x e l earlier s.0, insert_served-IsServed e l a.1 s.1)
  | inr later ↦
      let first = served_before_total x e a.0 later in
      rw later ((first, BeforeAll-trans e x l first s.0), s)
]

pub insert_served-AllEarlier :
    (e : QueuedTask) (n : ℕ) (l : List QueuedTask)
    → e.sequence < n
    → AllEarlier n l
    → AllEarlier n (insert_served e l)
insert_served-AllEarlier e n [] h a = (h, tt)
insert_served-AllEarlier e n (x ∷ l) h a = ground (arith, insert_served-AllEarlier e n l)

pub AllEarlier-weaken : (n : ℕ) (l : List QueuedTask) → AllEarlier n l → AllEarlier (n + 1) l
AllEarlier-weaken n [] a = tt
AllEarlier-weaken n (x ∷ l) a = (omega (arith, a.0), AllEarlier-weaken n l a.1)

pub mem?-insert_served :
    (id : String) (e : QueuedTask) (l : List QueuedTask)
    → mem? String-discrete id (ids_of (insert_served e l))
      ≡ mem? String-discrete id (e.task.task_id ∷ ids_of l)
mem?-insert_served id e [] = refl
mem?-insert_served id e (x ∷ l) = ground (arith, mem?-insert_served id e l)

pub insert_served-IsDistinct :
    (e : QueuedTask) (l : List QueuedTask)
    → mem? String-discrete e.task.task_id (ids_of l) ≡ false
    → IsDistinct String-discrete (ids_of l)
    → IsDistinct String-discrete (ids_of (insert_served e l))
insert_served-IsDistinct e [] h d = (refl, tt)
insert_served-IsDistinct e (x ∷ l) h d =
    ground (arith, insert_served-IsDistinct e l, mem?-insert_served x.task.task_id e l)

pub length-insert_served :
    (e : QueuedTask) (l : List QueuedTask) → length (insert_served e l) ≡ length l + 1
length-insert_served e [] = omega arith
length-insert_served e (x ∷ l) = ground (arith, length-insert_served e l)
