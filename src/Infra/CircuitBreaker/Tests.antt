-- ===== src/Infra/CircuitBreaker/Tests.antt =====
-- Runs of the circuit breaker, and its theorems at concrete inputs.
use poly_cortex.Base.{ℕ, ◌≡◌, refl, List, [], ◌∷◌, arith}
use poly_cortex.Infra.CircuitBreaker.{
  closed, open_, CircuitBreaker, init, state, record_failure, reads, fails, apply, run,
}
use poly_cortex.Infra.CircuitBreaker.Laws.{IsConsistent, run-from_init}
use poly_cortex.Infra.CircuitBreaker.Recovery.{successes, successes-open}

-- Three failures at time 10 open a breaker of threshold 3 and timeout 60.
abbrev tripped : CircuitBreaker
tripped = run (fails 10 ∷ fails 10 ∷ fails 10 ∷ []) (init 3 60 2)

abbrev probing : CircuitBreaker
probing = run (fails 10 ∷ fails 10 ∷ fails 10 ∷ reads 70 ∷ []) (init 3 60 2)

tripped_open : tripped.state_ ≡ open_
unfolding run apply record_failure init
tripped_open = refl

run-from_init_example : IsConsistent tripped
run-from_init_example =
    run-from_init 3 60 2 (fails 10 ∷ fails 10 ∷ fails 10 ∷ []) (omega arith) (omega arith)

abbrev two : List (ℕ × ℕ)
two = (71, 71) ∷ (72, 72) ∷ []

successes-open_example :
    ((successes two (state 70 tripped)).state_ ≡ closed)
    × ((successes two (state 70 tripped)).failure_count ≡ 0)
unfolding run apply record_failure init
successes-open_example = successes-open 70 two tripped refl (omega arith) (omega arith) refl
