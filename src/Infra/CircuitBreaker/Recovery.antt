-- ===== src/Infra/CircuitBreaker/Recovery.antt =====
-- How a breaker of infra/circuit_breaker.py closes and opens.
use poly_cortex.Base.{ℕ, zero, suc, ◌+◌, ◌-◌, ◌≤◌, ◌<◌, ◌≡◌, refl, List, [], ◌∷◌, arith, length}
use poly_cortex.Infra.CircuitBreaker.{
  closed, open_, half_open, CircuitBreaker, init, state, count_success, record_success,
  record_failure, Event, succeeds, fails, apply, run,
}

pub successes : List (ℕ × ℕ) → CircuitBreaker → CircuitBreaker
successes [] cb = cb
successes ((now, now') ∷ ts) cb = successes ts (record_success now now' cb)

successes-closed :
    (ts : List (ℕ × ℕ)) (cb : CircuitBreaker)
    → cb.state_ ≡ half_open
    → cb.success_count < cb.success_threshold
    → length ts + cb.success_count ≡ cb.success_threshold
    → ((successes ts cb).state_ ≡ closed) × ((successes ts cb).failure_count ≡ 0)
unfolding successes record_success count_success state
successes-closed [] cb h k e = absurd (omega arith)
successes-closed ((now, now') ∷ []) cb h k e = ground arith
successes-closed ((now, now') ∷ u ∷ ts) cb h k e =
    ground (arith, successes-closed (u ∷ ts) (record_success now now' cb))

-- Once the timeout has passed, as many successes as the threshold asks for close an OPEN breaker, and
-- its failures are forgotten.
pub successes-open :
    (now : ℕ) (ts : List (ℕ × ℕ)) (cb : CircuitBreaker)
    → cb.state_ ≡ open_
    → cb.recovery_timeout ≤ now - cb.last_failure_time
    → 0 < cb.success_threshold
    → length ts ≡ cb.success_threshold
    → ((successes ts (state now cb)).state_ ≡ closed)
      × ((successes ts (state now cb)).failure_count ≡ 0)
unfolding state
successes-open now ts cb h late pos e = ground (arith, successes-closed ts (state now cb))

-- Two failures and a success, over and over, and two more failures at the end.
pub two_in_three : ℕ → List Event
two_in_three zero = fails 0 ∷ fails 0 ∷ []
two_in_three (suc k) = fails 0 ∷ fails 0 ∷ succeeds 0 0 ∷ two_in_three k

two_in_three-open :
    (k : ℕ) (cb : CircuitBreaker)
    → cb.state_ ≡ closed
    → cb.failure_count + k + 2 ≡ cb.failure_threshold
    → (run (two_in_three k) cb).state_ ≡ open_
unfolding run two_in_three apply record_success record_failure state
two_in_three-open zero cb h e = ground arith
two_in_three-open (suc k) cb h e =
    ground
      (arith, two_in_three-open k (apply (succeeds 0 0) (apply (fails 0) (apply (fails 0) cb))))

-- A new breaker with threshold k + 2 opens on k rounds of two failures and a success and two failures
-- more, so never on more than two consecutive failures.
pub run-two_in_three : (k r s : ℕ) → (run (two_in_three k) (init (k + 2) r s)).state_ ≡ open_
unfolding init
run-two_in_three k r s = two_in_three-open k (init (k + 2) r s) refl (omega arith)
