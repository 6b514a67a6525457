-- ===== src/StateDiff/Split.antt =====
-- What a diff (digital_fte/state_diff.py) says of the two results that it compares.
use digital_fte_agent.Prelude.{
  suc, ◌≡◌, refl, sym, ap, ◌∙◌, ◌≢◌, ◌↔◌, true, false, some, List, [], ◌∷◌, ◌++◌, append-nil, arith,
  drop,
}
use digital_fte_agent.Prelude.Values.{ok}
use digital_fte_agent.Loop.{LoopStep, LoopEvent, LoopResult}
use digital_fte_agent.StateDiff.{
  LoopStep-discrete, LoopEvent-discrete, common_prefix_length, StateDiff, some_of, is_noop, diff_of,
  diff_states,
}

-- The two do not begin with the same item.
abbrev pub Parted : {A : Type 0} → List A → List A → Type 0
Parted (a ∷ removed) (b ∷ added) = a ≢ b
Parted removed added = Unit

-- The lists are a common part, and behind it what was removed and what was added.
pub record Splits {A : Type 0} (old new removed added : List A) : Type 0 where
  pub common : List A
  pub old_split : old ≡ common ++ removed
  pub new_split : new ≡ common ++ added
  pub parted : Parted removed added

module _ {A : Type 0} (dec : Discrete A) where
  prefix-same :
      (a b : A) (left right : List A)
      → a ≡ b
      → common_prefix_length dec (a ∷ left) (b ∷ right) ≡ suc (common_prefix_length dec left right)
  prefix-same a b left right same = ground arith

  prefix-differ :
      (a b : A) (left right : List A) → a ≢ b → common_prefix_length dec (a ∷ left) (b ∷ right) ≡ 0
  prefix-differ a b left right differ = ground arith

  drop-common_prefix_length-Splits :
      (left right : List A)
      → let n = common_prefix_length dec left right in
        Splits left right (drop n left) (drop n right)
  drop-common_prefix_length-Splits [] right = record {
    common = [];
    old_split = refl;
    new_split = refl;
    parted = tt;
  }
  drop-common_prefix_length-Splits (a ∷ left) [] = record {
    common = [];
    old_split = refl;
    new_split = refl;
    parted = tt;
  }
  drop-common_prefix_length-Splits (a ∷ left) (b ∷ right) = elim (dec a b) [
    | yes same ↦
        let rest = drop-common_prefix_length-Splits left right in
        rw (prefix-same a b left right same) (record {
          common = a ∷ rest.common;
          old_split = ap (λ l. a ∷ l) rest.old_split;
          new_split = ap (λ x. x ∷ right) (sym same) ∙ ap (λ l. a ∷ l) rest.new_split;
          parted = rest.parted;
        })
    | no differ ↦
        rw (prefix-differ a b left right differ)
          (record { common = []; old_split = refl; new_split = refl; parted = differ })
  ]

  prefix-append :
      (l more : List A)
      → (drop (common_prefix_length dec l (l ++ more)) l ≡ [])
        × (drop (common_prefix_length dec l (l ++ more)) (l ++ more) ≡ more)
  prefix-append [] more = (refl, refl)
  prefix-append (a ∷ l) more = rw (prefix-same a a l (l ++ more) refl) (prefix-append l more)

prefix_self :
    {A : Type 0} (dec : Discrete A) (l l' : List A)
    → l ≡ l'
    → (some_of (drop (common_prefix_length dec l l') l) ≡ false)
      × (some_of (drop (common_prefix_length dec l l') l') ≡ false)
prefix_self dec l l' e =
    let whole : l' ≡ l ++ [] = sym e ∙ sym (append-nil l) in
    rw whole (ap some_of (prefix-append dec l []).0, ap some_of (prefix-append dec l []).1)

Splits-nil : {A : Type 0} (old new : List A) → Splits old new [] [] → old ≡ new
Splits-nil old new s = s.old_split ∙ sym s.new_split

Splits-same :
    {A : Type 0} {old new removed added : List A}
    → Splits old new removed added
    → some_of removed ≡ false
    → some_of added ≡ false
    → old ≡ new
Splits-same {removed = []} {added = []} s h k = Splits-nil _ _ s
Splits-same {removed = []} {added = a ∷ l} s h k = ground arith
Splits-same {removed = a ∷ l} s h k = ground arith

-- Two results of one task always have a diff. For the steps and for the events it splits both lists
-- behind their longest common part: what was removed and what was added put behind that part give
-- the lists back, and they do not begin with the same entry.
pub diff_states-Splits :
    (before after : LoopResult)
    → before.task_id ≡ after.task_id
    → (d : StateDiff) × (diff_states (some before) (some after) ≡ ok d)
      × Splits before.steps after.steps d.steps_removed d.steps_added
      × Splits before.events after.events d.events_removed d.events_added
unfolding diff_states
diff_states-Splits before after same = (
  diff_of before after,
  ground arith,
  drop-common_prefix_length-Splits LoopStep-discrete before.steps after.steps,
  drop-common_prefix_length-Splits LoopEvent-discrete before.events after.events,
)

-- A result that extends the other one: the diff adds exactly what is new, and removes nothing.
diff_of-append :
    (before after : LoopResult) (steps : List LoopStep) (events : List LoopEvent)
    → after.steps ≡ before.steps ++ steps
    → after.events ≡ before.events ++ events
    → let d = diff_of before after in
      (d.steps_added ≡ steps)
      × (d.steps_removed ≡ [])
      × (d.events_added ≡ events)
      × (d.events_removed ≡ [])
unfolding diff_of
diff_of-append before after steps events h k = rw h (
    rw k (
      (prefix-append LoopStep-discrete before.steps steps).1,
      (prefix-append LoopStep-discrete before.steps steps).0,
      (prefix-append LoopEvent-discrete before.events events).1,
      (prefix-append LoopEvent-discrete before.events events).0,
    ))

is_noop_iff :
    (d : StateDiff)
    → (is_noop d ≡ true) ↔ (
        (d.status_before ≡ d.status_after)
        × (d.final_state_before ≡ d.final_state_after)
        × (d.iterations_before ≡ d.iterations_after)
        × (some_of d.steps_added ≡ false)
        × (some_of d.steps_removed ≡ false)
        × (some_of d.events_added ≡ false)
        × (some_of d.events_removed ≡ false))
unfolding is_noop
is_noop_iff d = ground arith

-- A diff is empty exactly where the two results agree in everything but the task id.
diff_of-noop_iff :
    (before after : LoopResult)
    → (is_noop (diff_of before after) ≡ true) ↔ (
        (before.status ≡ after.status)
        × (before.final_state ≡ after.final_state)
        × (before.iterations ≡ after.iterations)
        × (before.steps ≡ after.steps)
        × (before.events ≡ after.events))
unfolding diff_of
diff_of-noop_iff before after =
    let step_split = drop-common_prefix_length-Splits LoopStep-discrete before.steps after.steps in
    let event_split =
      drop-common_prefix_length-Splits LoopEvent-discrete before.events after.events in
    (
      λ h.
          let parts = (is_noop_iff (diff_of before after)).0 h in
          (
            parts.0,
            parts.1,
            parts.2,
            Splits-same step_split parts.4 parts.3,
            Splits-same event_split parts.6 parts.5,
          ),
      λ same.
          let steps = prefix_self LoopStep-discrete before.steps after.steps same.3 in
          let events = prefix_self LoopEvent-discrete before.events after.events same.4 in
          (is_noop_iff (diff_of before after)).1
            (same.0, same.1, same.2, steps.1, steps.0, events.1, events.0),
    )
