-- ===== src/Execution/StateMachine.antt =====
-- src/polymarket_agent/execution/state_machine.py, with the states and the table of transitions of
-- src/polymarket_agent/types.py. A time is of any type; the clock's reading is an argument.
pub mod Trail
pub mod Progress
pub mod Ends
pub mod Persist
mod Tests
use poly_cortex.Base.{
  ℕ, Bool, List, [], ◌∷◌, ◌++◌, Option, none, some, String, ◌==◌, any, if◌then◌else◌, Result, ok,
  err, concat,
}

pub data OrderState : Type 0 where
  created validated signed submitted acknowledged partial_fill filled settled : OrderState
  redeemed rejected cancelled expired : OrderState

-- The position in the declaration, by which members are compared.
abbrev pub ordinal : OrderState → ℕ
ordinal created = 0
ordinal validated = 1
ordinal signed = 2
ordinal submitted = 3
ordinal acknowledged = 4
ordinal partial_fill = 5
ordinal filled = 6
ordinal settled = 7
ordinal redeemed = 8
ordinal rejected = 9
ordinal cancelled = 10
ordinal expired = 11

abbrev pub same : OrderState → OrderState → Bool
same a b = ordinal a == ordinal b

pub valid_transitions : OrderState → List OrderState
valid_transitions created = validated ∷ cancelled ∷ []
valid_transitions validated = signed ∷ rejected ∷ []
valid_transitions signed = submitted ∷ cancelled ∷ []
valid_transitions submitted = acknowledged ∷ rejected ∷ cancelled ∷ []
valid_transitions acknowledged = partial_fill ∷ filled ∷ cancelled ∷ expired ∷ []
valid_transitions partial_fill = partial_fill ∷ filled ∷ cancelled ∷ []
valid_transitions filled = settled ∷ []
valid_transitions settled = redeemed ∷ []
valid_transitions redeemed = []
valid_transitions rejected = []
valid_transitions cancelled = []
valid_transitions expired = []

pub terminal_states : List OrderState
terminal_states = redeemed ∷ rejected ∷ cancelled ∷ expired ∷ []

pub record StateTransition (T : Type 0) : Type 0 where
  pub from_state : OrderState
  pub to_state : OrderState
  pub timestamp : T
  pub reason : String

pub record OrderStateMachine (T : Type 0) : Type 0 where
  pub order_id : String
  pub state : OrderState
  pub history : List (StateTransition T)
  pub created_at : T

-- InvalidTransitionError, with its two states.
pub data InvalidTransition : Type 0 where
  invalid : (current target : OrderState) → InvalidTransition

-- Membership in a set of states.
pub contains : OrderState → List OrderState → Bool
contains target states = any (same target) states

pub is_final : OrderState → Bool
unfolding contains terminal_states
is_final s = contains s terminal_states

pub allowed : OrderState → OrderState → Bool
unfolding contains valid_transitions
allowed s target = contains target (valid_transitions s)

module _ {T : Type 0} where
  pub init : String → OrderState → T → OrderStateMachine T
  init order_id initial_state now = record {
    order_id = order_id;
    state = initial_state;
    history = [];
    created_at = now;
  }

  pub is_terminal : OrderStateMachine T → Bool
  is_terminal sm = is_final sm.state

  pub last_stamp : List (StateTransition T) → Option T
  last_stamp [] = none
  last_stamp (t ∷ []) = some t.timestamp
  last_stamp (t ∷ u ∷ ts) = last_stamp (u ∷ ts)

  pub last_transition_at : OrderStateMachine T → Option T
  unfolding last_stamp
  last_transition_at sm = last_stamp sm.history

  pub can_transition : OrderStateMachine T → OrderState → Bool
  can_transition sm target = allowed sm.state target

  -- The entry that both ways of moving append.
  abbrev pub entry : OrderStateMachine T → OrderState → String → T → StateTransition T
  entry sm target reason now = record {
    from_state = sm.state;
    to_state = target;
    timestamp = now;
    reason = reason;
  }

  abbrev pub move : OrderStateMachine T → StateTransition T → OrderStateMachine T
  move sm e = record sm { state = e.to_state; history = sm.history ++ e ∷ [] }

  pub transition :
      OrderState → String → T → OrderStateMachine T → Result InvalidTransition (OrderStateMachine T)
  transition target reason now sm =
      if is_terminal sm
      then err (invalid sm.state target)
      else if can_transition sm target
      then ok (move sm (entry sm target reason now))
      else err (invalid sm.state target)

  pub force_state : OrderState → String → T → OrderStateMachine T → OrderStateMachine T
  force_state target reason now sm = move sm (entry sm target (concat "FORCED: " reason) now)
