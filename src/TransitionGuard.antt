-- ===== src/TransitionGuard.antt =====
-- digital_fte/transition_guard.py: moves that are checked against a table of allowed transitions. An
-- argument that is no mapping is `none`, and so are targets that are no iterable of states. A
-- frozenset is a list that is only asked for its members.
pub mod Reachable
mod Tests
use digital_fte_agent.Prelude.{
  String, Bool, true, false, Option, none, some, List, [], ◌∷◌, if◌then◌else◌,
}
use digital_fte_agent.Prelude.Dict.{Dict, mem?, lookup, contains}
use digital_fte_agent.Prelude.Values.{
  Value, str, type_error, value_error, illegal_transition, Result, ok, raise, and_then,
  is_empty_text, String-discrete,
}
use digital_fte_agent.Prelude.Action.{Action, ◌>>=◌, ◌>>◌, check, gets, modify}

abbrev pub reason_allowed : String
reason_allowed = "allowed"

abbrev pub reason_not_allowed : String
reason_not_allowed = "not_allowed"

abbrev pub reason_unknown_state : String
reason_unknown_state = "unknown_state"

-- `_validate_state`
abbrev pub validate_state : Value → Result String
validate_state (str s) = if is_empty_text s then raise value_error else ok s
validate_state _ = raise value_error

-- the argument `transitions`
abbrev pub Transitions : Type 0
Transitions = Option (List (Value × Option (List Value)))

-- `for target in targets`
abbrev pub validate_targets : List Value → Result (List String)
validate_targets [] = ok []
validate_targets (v ∷ vs) =
    and_then (validate_state v) λ t. and_then (validate_targets vs) λ ts. ok (t ∷ ts)

abbrev pub validate_target_set : Option (List Value) → Result (List String)
validate_target_set none = raise type_error
validate_target_set (some vs) = validate_targets vs

-- `for state, targets in transitions.items()`: the keys of a mapping are distinct
abbrev pub normalise : List (Value × Option (List Value)) → Result (Dict String (List String))
normalise [] = ok []
normalise ((v, targets) ∷ items) = and_then (validate_state v) λ state.
    and_then (validate_target_set targets)
      λ ts. and_then (normalise items) λ table. ok ((state, ts) ∷ table)

-- `_validate_transitions`
unfoldable pub validate_transitions : Transitions → Result (Dict String (List String))
validate_transitions none = raise type_error
validate_transitions (some items) = normalise items

pub record TransitionCheck : Type 0 where
  pub current : String
  pub target : String
  pub allowed : Bool
  pub reason : String

-- the decision, on what the table has for the current state
abbrev pub decide : String → String → Option (List String) → TransitionCheck
decide current target none = record {
  current = current;
  target = target;
  allowed = false;
  reason = reason_unknown_state;
}
decide current target (some targets) =
    if mem? String-discrete target targets
    then record { current = current; target = target; allowed = true; reason = reason_allowed }
    else record { current = current; target = target; allowed = false; reason = reason_not_allowed }

unfoldable pub check_transition : Value → Value → Transitions → Result TransitionCheck
unfolding validate_transitions
check_transition current target transitions = and_then (validate_state current) λ s.
    and_then (validate_state target) λ t.
      and_then (validate_transitions transitions)
        λ table. ok (decide s t (lookup String-discrete s table))

unfoldable pub guard_transition : Value → Value → Transitions → Result (Unit {0})
unfolding check_transition
guard_transition current target transitions =
    and_then (check_transition current target transitions)
      λ c. if c.allowed then ok tt else raise (illegal_transition c.current c.target c.reason)

pub record StateMachine : Type 0 where
  pub table : Dict String (List String)
  pub state : String

-- `StateMachine.__init__`
unfoldable pub init : Value → Transitions → Result StateMachine
unfolding validate_transitions
init initial transitions = and_then (validate_transitions transitions) λ table.
    and_then (validate_state initial) λ s.
      if contains String-discrete s table
      then ok (record { table = table; state = s })
      else raise value_error

-- The machine hands its table, which is a mapping, to the functions above.
abbrev pub to_values : List String → List Value
to_values [] = []
to_values (t ∷ ts) = str t ∷ to_values ts

abbrev pub to_items : Dict String (List String) → List (Value × Option (List Value))
to_items [] = []
to_items ((s, ts) ∷ table) = (str s, some (to_values ts)) ∷ to_items table

-- `StateMachine.can`
unfoldable pub can : Value → StateMachine → Result Bool
unfolding check_transition
can target m =
    and_then (check_transition (str m.state) target (some (to_items m.table))) λ c. ok c.allowed

-- `StateMachine.transition`
unfoldable pub transition : Value → Action StateMachine String
unfolding guard_transition
transition target = do
  m ← gets (λ m. m)
  check (guard_transition (str m.state) target (some (to_items m.table)))
  t ← check (validate_state target)
  modify (λ m. record m { state = t })
  gets (λ m. m.state)
