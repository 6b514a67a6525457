-- ===== src/TransitionGuard/Reachable.antt =====
-- The machine of digital_fte/transition_guard.py moves along its table, and only along it.
use digital_fte_agent.Prelude.{
  String, ◌≡◌, refl, sym, subst, ◌∙◌, ◌⊎◌, inl, inr, true, false, Option, none, some, List, [], ◌∷◌,
  arith, if◌then◌else◌, Bool-cases, Option-cases,
}
use digital_fte_agent.Prelude.Dict.{Dict, mem?, lookup}
use digital_fte_agent.Prelude.Values.{
  Value, str, Exception, value_error, illegal_transition, Result, ok, raise, is_empty_text,
  String-discrete, Result-cases,
}
use digital_fte_agent.TransitionGuard.{
  reason_not_allowed, reason_unknown_state, Transitions, validate_targets, validate_target_set,
  normalise, validate_transitions, decide, guard_transition, StateMachine, init, to_values,
  to_items, transition,
}

abbrev pub AllNamed : List String → Type 0
AllNamed [] = Unit
AllNamed (t ∷ ts) = (is_empty_text t ≡ false) × AllNamed ts

-- No state of the table is the empty text.
abbrev pub TableNamed : Dict String (List String) → Type 0
TableNamed [] = Unit
TableNamed ((s, ts) ∷ table) = (is_empty_text s ≡ false) × AllNamed ts × TableNamed table

pub record IsValid (m : StateMachine) : Type 0 where
  pub named : is_empty_text m.state ≡ false
  pub table_named : TableNamed m.table

-- The table lists the move.
abbrev pub targets_of : Option (List String) → List String
targets_of none = []
targets_of (some ts) = ts

abbrev pub Allowed : Dict String (List String) → String → String → Type 0
Allowed table s t = mem? String-discrete t (targets_of (lookup String-discrete s table)) ≡ true

-- Some moves of the table lead from `s` to the state.
pub data Leads (table : Dict String (List String)) (s : String) : String → Type 0 where
  stay : Leads table s s
  move : {t u : String} → Leads table s t → Allowed table t u → Leads table s u

validate_targets-to_values :
    (ts : List String) → AllNamed ts → validate_targets (to_values ts) ≡ ok ts
validate_targets-to_values [] h = refl
validate_targets-to_values (t ∷ ts) h = ground (arith, validate_targets-to_values ts h.1)

-- A table that was checked passes the check again, unchanged.
normalise-to_items :
    (table : Dict String (List String)) → TableNamed table → normalise (to_items table) ≡ ok table
normalise-to_items [] h = refl
normalise-to_items ((s, ts) ∷ table) h =
    ground (arith, validate_targets-to_values ts h.1, normalise-to_items table h.2)

-- What the two checks let through has no empty text.
abbrev TargetsNamed : Result (List String) → Type 0
TargetsNamed (ok ts) = AllNamed ts
TargetsNamed (raise e) = Unit

abbrev ItemsNamed : Result (Dict String (List String)) → Type 0
ItemsNamed (ok table) = TableNamed table
ItemsNamed (raise e) = Unit

validate_targets-TargetsNamed : (vs : List Value) → TargetsNamed (validate_targets vs)
validate_targets-TargetsNamed [] = tt
validate_targets-TargetsNamed (v ∷ vs) = ground (arith, validate_targets-TargetsNamed vs)

validate_target_set-TargetsNamed :
    (targets : Option (List Value)) → TargetsNamed (validate_target_set targets)
validate_target_set-TargetsNamed none = tt
validate_target_set-TargetsNamed (some vs) = validate_targets-TargetsNamed vs

normalise-ItemsNamed : (items : List (Value × Option (List Value))) → ItemsNamed (normalise items)
normalise-ItemsNamed [] = tt
normalise-ItemsNamed ((v, targets) ∷ items) =
    ground (arith, validate_target_set-TargetsNamed targets, normalise-ItemsNamed items)

init-IsNamed :
    (v : Value) (transitions : Transitions) (m : StateMachine)
    → init v transitions ≡ ok m
    → IsValid m
unfolding init validate_transitions
init-IsNamed v none m e = ground arith
init-IsNamed v (some items) m e = elim (Result-cases (normalise items)) [
  | inl (table, f) ↦
      let named : TableNamed table = subst ItemsNamed f (normalise-ItemsNamed items) in
      ground (arith, named)
  | inr (x, f) ↦ ground arith
]

move_checked :
    (t : String) (m : StateMachine)
    → IsValid m
    → is_empty_text t ≡ false
    → guard_transition (str m.state) (str t) (some (to_items m.table)) ≡ (
        let c = decide m.state t (lookup String-discrete m.state m.table) in
        if c.allowed then ok tt else raise (illegal_transition c.current c.target c.reason))
unfolding guard_transition validate_transitions
move_checked t m h named = ground (arith, normalise-to_items m.table h.table_named, h.named)

-- For a valid machine: a move goes through exactly where the table lists it, and then the machine is in the target.
-- Any other move raises and leaves the machine alone.
pub transition_cases :
    (v : Value) (m : StateMachine)
    → IsValid m
    → ((t : String) × (v ≡ str t)
        × (transition v m ≡ (ok t, record m { state = t }))
        × Allowed m.table m.state t
        × (is_empty_text t ≡ false))
      ⊎ ((e : Exception) × (transition v m ≡ (raise e, m))
          × ((t : String) → v ≡ str t → (is_empty_text t ≡ true) ⊎ ¬ Allowed m.table m.state t))
unfolding transition validate_transitions
transition_cases (str t) m h = elim (Bool-cases (is_empty_text t)) [
  | inl empty ↦ inr (value_error, ground (arith, h.named), λ t' e. inl (ground arith))
  | inr named ↦
      let checked = move_checked t m h named in
      elim (Option-cases (lookup String-discrete m.state m.table)) [
        | inl unknown ↦ inr (
          illegal_transition m.state t reason_unknown_state,
          ground (arith, checked),
          λ t' e. inr (λ listed. ground arith),
        )
        | inr (ts, known) ↦ elim (Bool-cases (mem? String-discrete t ts)) [
          | inl listed ↦ inl (t, refl, ground (arith, checked), ground arith, named)
          | inr unlisted ↦ inr (
            illegal_transition m.state t reason_not_allowed,
            ground (arith, checked),
            λ t' e. inr (λ listed. ground arith),
          )
        ]
      ]
]
transition_cases v m h = inr (value_error, ground (arith, h.named), λ t' e. ground arith)

-- The moves as they are asked for one after the other, the refused ones included.
abbrev pub transition_all : List Value → StateMachine → StateMachine
transition_all [] m = m
transition_all (v ∷ vs) m = transition_all vs (transition v m).1

transition-IsValid : (v : Value) (m : StateMachine) → IsValid m → IsValid (transition v m).1
transition-IsValid v m h = elim (transition_cases v m h) [
  | inl (t, same, moved, listed, named) ↦
      rw moved (record { named = named; table_named = h.table_named })
  | inr (e, refused, why) ↦ rw refused h
]

transition-Leads :
    (s : String) (v : Value) (m : StateMachine)
    → IsValid m
    → Leads m.table s m.state
    → Leads m.table s (transition v m).1.state × ((transition v m).1.table ≡ m.table)
transition-Leads s v m h led = elim (transition_cases v m h) [
  | inl (t, same, moved, listed, named) ↦ rw moved (move led listed, refl)
  | inr (e, refused, why) ↦ rw refused (led, refl)
]

moves-Leads :
    (s : String) (vs : List Value) (m : StateMachine)
    → IsValid m
    → Leads m.table s m.state
    → Leads m.table s (transition_all vs m).state × ((transition_all vs m).table ≡ m.table)
moves-Leads s [] m h led = (led, refl)
moves-Leads s (v ∷ vs) m h led =
    let (led', same) = transition-Leads s v m h led in
    let (leads, kept) =
      moves-Leads s vs (transition v m).1 (transition-IsValid v m h)
        (subst (λ t. Leads t s (transition v m).1.state) (sym same) led') in
    (subst (λ t. Leads t s (transition_all (v ∷ vs) m).state) same leads, kept ∙ same)

-- Whatever moves are asked of a new machine, it stays on its table: the state that it ends in is led
-- to by moves that the table lists, and the table is unchanged.
pub transition_all-Leads :
    (initial : Value) (transitions : Transitions) (vs : List Value) (m : StateMachine)
    → init initial transitions ≡ ok m
    → Leads m.table m.state (transition_all vs m).state × ((transition_all vs m).table ≡ m.table)
transition_all-Leads initial transitions vs m e =
    moves-Leads m.state vs m (init-IsNamed initial transitions m e) stay
