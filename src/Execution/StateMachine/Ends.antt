-- ===== src/Execution/StateMachine/Ends.antt =====
-- How an order comes to an end, and stays there.
use poly_cortex.Base.{
  ◌≤◌, ◌≡◌, refl, true, Bool, not, List, [], ◌∷◌, String, arith, any, ◌&&◌, is_ok, map, length,
  ◌++◌, ◌∙◌,
}
use poly_cortex.Execution.StateMachine.{
  OrderState, created, validated, signed, submitted, acknowledged, partial_fill, filled, settled,
  redeemed, rejected, cancelled, expired, valid_transitions, terminal_states, contains,
  StateTransition, OrderStateMachine, is_final, allowed, is_terminal, can_transition, transition,
}
use poly_cortex.Execution.StateMachine.Trail.{Request, attempt, run}

-- Every state.
abbrev pub states : List OrderState
states =
    created ∷ validated ∷ signed ∷ submitted ∷ acknowledged ∷ partial_fill ∷ filled ∷ settled
    ∷ redeemed ∷ rejected ∷ cancelled ∷ expired ∷ []

final-allowed : (s : OrderState) → is_final s ≡ not (any (allowed s) states)
unfolding is_final allowed contains valid_transitions terminal_states
final-allowed created = refl
final-allowed _ = refl

-- The way to a final state.
path : OrderState → List OrderState
path created = cancelled ∷ []
path validated = rejected ∷ []
path filled = settled ∷ redeemed ∷ []
path settled = redeemed ∷ []
path redeemed = []
path rejected = []
path cancelled = []
path expired = []
path _ = cancelled ∷ []

module _ {T : Type 0} where
  run-final :
      (sm : OrderStateMachine T) (rs : List (Request T)) → is_terminal sm ≡ true → run sm rs ≡ sm
  unfolding run attempt transition
  run-final sm [] h = refl
  run-final sm (r ∷ rs) h = ground (arith, run-final sm rs h)

  -- Any transition of the table, as a test of the states.
  abbrev pub can_go : OrderStateMachine T → Bool
  can_go sm = any (can_transition sm) states

  abbrev pub accepts : OrderStateMachine T → String → T → OrderState → Bool
  accepts sm reason now target = is_ok (transition target reason now sm)

  terminal-can_go : (sm : OrderStateMachine T) → is_terminal sm ≡ not (can_go sm)
  unfolding is_terminal can_transition
  terminal-can_go sm = final-allowed sm.state

  accepts-eq :
      (sm : OrderStateMachine T) (reason : String) (now : T) (target : OrderState)
      → accepts sm reason now target ≡ not (is_terminal sm) && can_transition sm target
  unfolding transition
  accepts-eq sm reason now target = ground arith

  -- Requests that end a machine.
  ending : T → OrderState → List (Request T)
  ending now s = map (λ target. record { target = target; reason = ""; now = now }) (path s)

  run-ending :
      (now : T) (s : OrderState) (id : String) (h : List (StateTransition T)) (c : T)
      → let sm : OrderStateMachine T = record {
        order_id = id;
        state = s;
        history = h;
        created_at = c;
      } in
        is_terminal (run sm (ending now s)) ≡ true
  unfolding run attempt transition ending path is_terminal can_transition is_final allowed contains
      valid_transitions terminal_states
  run-ending now created id h c = refl
  run-ending now _ id h c = refl

  length-ending : (now : T) (s : OrderState) → length (ending now s) ≤ 2
  unfolding ending path
  length-ending now created = omega arith
  length-ending now _ = omega arith

  any-accepts :
      (sm : OrderStateMachine T) (reason : String) (now : T) (targets : List OrderState)
      → any (accepts sm reason now) targets
        ≡ not (is_terminal sm) && any (can_transition sm) targets
  any-accepts sm reason now [] = ground arith
  any-accepts sm reason now (t ∷ targets) =
      ground (arith, accepts-eq sm reason now t, any-accepts sm reason now targets)

  run-append :
      (sm : OrderStateMachine T) (rs more : List (Request T))
      → run sm (rs ++ more) ≡ run (run sm rs) more
  unfolding run
  run-append sm [] more = refl
  run-append sm (r ∷ rs) more = run-append (attempt sm r) rs more

  -- Whatever its history, a machine is in a terminal state exactly where the table allows none of the twelve
  -- states, and exactly where `transition` accepts none of them. At most two requests bring it to a terminal
  -- state, and no requests after them, with the exceptions caught, change it.
  pub run-ends :
      (sm : OrderStateMachine T) (reason : String) (now : T)
      → (is_terminal sm ≡ not (any (can_transition sm) states))
        × (is_terminal sm ≡ not (any (accepts sm reason now) states))
        × ((rs : List (Request T)) × (length rs ≤ 2)
            × (is_terminal (run sm rs) ≡ true)
            × ((more : List (Request T)) → run sm (rs ++ more) ≡ run sm rs))
  run-ends sm reason now =
      let table = terminal-can_go sm in
      let rs = ending now sm.state in
      let ended : is_terminal (run sm rs) ≡ true =
        run-ending now sm.state sm.order_id sm.history sm.created_at in
      (
        table,
        ground (arith, table, any-accepts sm reason now states),
        (
          rs,
          length-ending now sm.state,
          ended,
          λ more. run-append sm rs more ∙ run-final (run sm rs) more ended,
        ),
      )
