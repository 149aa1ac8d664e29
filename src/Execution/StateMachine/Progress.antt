-- ===== src/Execution/StateMachine/Progress.antt =====
-- How an order's states may follow one another.
use poly_cortex.Base.{
  ℕ, ◌+◌, ◌≤◌, ◌≡◌, refl, true, false, Bool, not, List, [], ◌∷◌, String, arith, any, count,
  if◌then◌else◌, ltb,
}
use poly_cortex.Execution.StateMachine.{
  OrderState, created, validated, signed, submitted, acknowledged, partial_fill, filled, settled,
  redeemed, expired, ordinal, same, valid_transitions, terminal_states, contains, StateTransition,
  is_final, allowed, init,
}
use poly_cortex.Execution.StateMachine.Trail.{Request, Chain, Lawful, IsTrail, run, run-IsTrail}

-- How far a state is from the start.
abbrev pub rank : OrderState → ℕ
rank created = 0
rank validated = 1
rank signed = 2
rank submitted = 3
rank acknowledged = 4
rank partial_fill = 4
rank filled = 5
rank settled = 6
rank _ = 7

-- The states of an order that the exchange has taken.
abbrev pub on_exchange : OrderState → Bool
on_exchange acknowledged = true
on_exchange partial_fill = true
on_exchange filled = true
on_exchange settled = true
on_exchange redeemed = true
on_exchange expired = true
on_exchange _ = false

abbrev pub before_submission : OrderState → Bool
before_submission s = ltb (ordinal s) 3

-- The table leads nowhere from a final state.
allowed-final : (s t : OrderState) → is_final s ≡ true → allowed s t ≡ false
unfolding is_final allowed contains valid_transitions terminal_states
allowed-final s t h = ground arith

allowed-rank :
    (s t : OrderState)
    → allowed s t ≡ true
    → rank s + (if same t partial_fill then 0 else 1) ≤ rank t
unfolding allowed contains valid_transitions
allowed-rank created t h = ground arith
allowed-rank _ t h = ground arith

-- One link from before the submission ends before it, at it, or in a final state.
allowed-before_submission :
    (s t : OrderState)
    → before_submission s ≡ true
    → allowed s t ≡ true
    → same t submitted ≡ false
    → before_submission t ≡ false
    → (is_final t ≡ true) × (on_exchange t ≡ false)
unfolding allowed contains valid_transitions is_final terminal_states
allowed-before_submission created t p h n b = ground arith
allowed-before_submission _ t p h n b = ground arith

before-not_on : (s : OrderState) → before_submission s ≡ true → on_exchange s ≡ true → ⊥
before-not_on created p h = ground arith
before-not_on _ p h = ground arith

rank-le : (s : OrderState) → rank s ≤ 7
rank-le created = omega arith
rank-le _ = omega arith

module _ {T : Type 0} where
  abbrev pub moves : List (StateTransition T) → ℕ
  moves es = count (λ e. not (same e.to_state partial_fill)) es

  rank-moves :
      (s t : OrderState) (es : List (StateTransition T))
      → Chain s es t
      → Lawful es
      → rank s + moves es ≤ rank t
  rank-moves s t [] c l = rw (← c) (omega arith)
  rank-moves s t (e ∷ es) c l =
      ground (arith, allowed-rank s e.to_state, rank-moves e.to_state t es c.1 l.2)

  Chain-final :
      (s t : OrderState) (es : List (StateTransition T))
      → Chain s es t
      → Lawful es
      → is_final s ≡ true
      → s ≡ t
  Chain-final s t [] c l h = c
  Chain-final s t (e ∷ es) c l h = ground arith

  submitted_link :
      (s t : OrderState) (es : List (StateTransition T))
      → Chain s es t
      → Lawful es
      → before_submission s ≡ true
      → on_exchange t ≡ true
      → any (λ e. same e.to_state submitted) es ≡ true
  submitted_link s t [] c l p h = absurd (before-not_on s p (rw c h))
  submitted_link s t (e ∷ es) c l p h = ground (
    arith,
    allowed-before_submission s e.to_state p,
    Chain-final e.to_state t es c.1 l.2,
    submitted_link e.to_state t es c.1 l.2,
  )

  -- A machine that starts as the code starts one and takes any requests, with the exceptions caught,
  -- keeps a history that is a chain of lawful links from CREATED to its state.
  pub run-init :
      (id : String) (t₀ : T) (rs : List (Request T)) → IsTrail created (run (init id created t₀) rs)
  unfolding init
  run-init id t₀ rs =
      run-IsTrail created (init id created t₀) rs (record { chain = refl; lawful = tt })

  -- Whatever is requested, an order in a state that follows acknowledgement by the exchange has a
  -- link to SUBMITTED in its history.
  pub on_exchange-submitted :
      (id : String) (t₀ : T) (rs : List (Request T))
      → on_exchange (run (init id created t₀) rs).state ≡ true
      → any (λ e. same e.to_state submitted) (run (init id created t₀) rs).history ≡ true
  on_exchange-submitted id t₀ rs h =
      let trail = run-init id t₀ rs in submitted_link created _ _ trail.chain trail.lawful refl h

  -- Whatever is requested, at most seven links of a history are no partial fills.
  pub moves-run :
      (id : String) (t₀ : T) (rs : List (Request T))
      → moves (run (init id created t₀) rs).history ≤ 7
  moves-run id t₀ rs =
      let sm = run (init id created t₀) rs in
      let trail = run-init id t₀ rs in
      omega
        (arith, rank-moves created sm.state sm.history trail.chain trail.lawful, rank-le sm.state)
