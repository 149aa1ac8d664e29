-- ===== src/Execution/StateMachine/Tests.antt =====
-- Runs of the state machine, and its theorems at concrete inputs.
use poly_cortex.Base.{
  ℕ, ◌≤◌, ◌++◌, not, any, length, ◌≡◌, refl, true, List, [], ◌∷◌, String, some, ok, err,
}
use poly_cortex.Execution.StateMachine.{
  OrderState, created, validated, signed, submitted, acknowledged, redeemed, cancelled,
  OrderStateMachine, invalid, init, can_transition, is_terminal, transition, contains, is_final,
  allowed, valid_transitions, terminal_states,
}
use poly_cortex.Execution.StateMachine.Trail.{Request, IsTrail, attempt, run}
use poly_cortex.Execution.StateMachine.Progress.{run-init}
use poly_cortex.Execution.StateMachine.Ends.{states, accepts, run-ends}
use poly_cortex.Execution.StateMachine.Persist.{to_dict, from_dict, from_dict-to_dict}

abbrev at : OrderState → ℕ → Request ℕ
at s t = record { target = s; reason = ""; now = t }

-- The third request is refused.
abbrev placed : List (Request ℕ)
placed = at validated 1 ∷ at signed 2 ∷ at redeemed 3 ∷ at submitted 4 ∷ at acknowledged 5 ∷ []

abbrev sm₀ : OrderStateMachine ℕ
sm₀ = run (init "order-123" created 0) placed

state_of_run : sm₀.state ≡ acknowledged
unfolding run attempt transition init is_terminal can_transition is_final allowed contains
    valid_transitions terminal_states
state_of_run = refl

refused : transition {T = ℕ} redeemed "" 1 (init "x" created 0) ≡ err (invalid created redeemed)
unfolding transition init is_terminal can_transition is_final allowed contains valid_transitions
    terminal_states
refused = refl

abbrev gone : OrderStateMachine ℕ
gone = run (init "x" created 0) (at cancelled 1 ∷ [])

gone_final : is_terminal gone ≡ true
unfolding run attempt transition init is_terminal can_transition is_final allowed contains
    valid_transitions terminal_states
gone_final = refl

run-ends_example :
    (is_terminal sm₀ ≡ not (any (can_transition sm₀) states))
    × (is_terminal sm₀ ≡ not (any (accepts sm₀ "" 6) states))
    × ((rs : List (Request ℕ)) × (length rs ≤ 2)
        × (is_terminal (run sm₀ rs) ≡ true)
        × ((more : List (Request ℕ)) → run sm₀ (rs ++ more) ≡ run sm₀ rs))
run-ends_example = run-ends sm₀ "" 6

run-init_example : IsTrail created sm₀
run-init_example = run-init "order-123" 0 placed

-- Times that are texts already.
abbrev stored : OrderStateMachine String
stored = record {
  order_id = "a";
  state = cancelled;
  history =
      record { from_state = created; to_state = cancelled; timestamp = "t1"; reason = "user" } ∷ [];
  created_at = "t0";
}

from_dict-to_dict_example : from_dict (λ s. s) some "t9" (to_dict (λ s. s) some stored) ≡ ok stored
from_dict-to_dict_example = from_dict-to_dict (λ s. s) some (λ t. refl) stored "t9"
