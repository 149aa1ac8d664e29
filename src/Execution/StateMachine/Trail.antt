-- ===== src/Execution/StateMachine/Trail.antt =====
-- The audit trail: a chain of links from the initial state to the current one.
use poly_cortex.Base.{
  ◌≡◌, refl, sym, ◌∙◌, true, false, List, [], ◌∷◌, ◌++◌, String, Result, ok, err, arith,
}
use poly_cortex.Execution.StateMachine.{
  OrderState, StateTransition, OrderStateMachine, InvalidTransition, is_final, allowed, is_terminal,
  can_transition, entry, transition,
}

-- A request to move, with the time at which it is made.
pub record Request (T : Type 0) : Type 0 where
  pub target : OrderState
  pub reason : String
  pub now : T

module _ {T : Type 0} where
  -- Each link starts where the one before it ended.
  abbrev pub Chain : OrderState → List (StateTransition T) → OrderState → Type 0
  Chain s [] t = s ≡ t
  Chain s (e ∷ es) t = (e.from_state ≡ s) × Chain e.to_state es t

  -- No link leaves a final state, and each is in the table.
  abbrev pub Lawful : List (StateTransition T) → Type 0
  Lawful [] = Unit
  Lawful (e ∷ es) =
      (is_final e.from_state ≡ false) × (allowed e.from_state e.to_state ≡ true) × Lawful es

  Chain-snoc :
      (s t : OrderState) (es : List (StateTransition T)) (e : StateTransition T)
      → Chain s es t
      → e.from_state ≡ t
      → Chain s (es ++ e ∷ []) e.to_state
  Chain-snoc s t [] e c h = (h ∙ sym c, refl)
  Chain-snoc s t (x ∷ es) e c h = (c.0, Chain-snoc x.to_state t es e c.1 h)

  Lawful-snoc :
      (es : List (StateTransition T)) (e : StateTransition T)
      → Lawful es
      → is_final e.from_state ≡ false
      → allowed e.from_state e.to_state ≡ true
      → Lawful (es ++ e ∷ [])
  Lawful-snoc [] e l h k = (h, k, tt)
  Lawful-snoc (x ∷ es) e l h k = (l.0, l.1, Lawful-snoc es e l.2 h k)

  -- What the caller is left with where it catches the exception.
  abbrev pub after :
      OrderStateMachine T → Result InvalidTransition (OrderStateMachine T) → OrderStateMachine T
  after sm (ok sm') = sm'
  after sm (err e) = sm

  unfoldable pub attempt : OrderStateMachine T → Request T → OrderStateMachine T
  attempt sm r = after sm (transition r.target r.reason r.now sm)

  unfoldable pub run : OrderStateMachine T → List (Request T) → OrderStateMachine T
  run sm [] = sm
  run sm (r ∷ rs) = run (attempt sm r) rs

  pub record IsTrail (s : OrderState) (sm : OrderStateMachine T) : Type 0 where
    pub chain : Chain s sm.history sm.state
    pub lawful : Lawful sm.history

  pub attempt-IsTrail :
      (s : OrderState) (sm : OrderStateMachine T) (r : Request T)
      → IsTrail s sm
      → IsTrail s (attempt sm r)
  unfolding attempt transition is_terminal can_transition
  attempt-IsTrail s sm r h = ground (
    arith,
    Chain-snoc s sm.state sm.history (entry sm r.target r.reason r.now),
    Lawful-snoc sm.history (entry sm r.target r.reason r.now),
  )

  pub run-IsTrail :
      (s : OrderState) (sm : OrderStateMachine T) (rs : List (Request T))
      → IsTrail s sm
      → IsTrail s (run sm rs)
  unfolding run
  run-IsTrail s sm [] h = h
  run-IsTrail s sm (r ∷ rs) h = run-IsTrail s (attempt sm r) rs (attempt-IsTrail s sm r h)
