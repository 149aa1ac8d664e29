-- ===== src/Infra/CircuitBreaker/Laws.antt =====
-- The invariant that ties the state of infra/circuit_breaker.py to the two counters.
use poly_cortex.Base.{ℕ, ◌-◌, ◌≤◌, ◌<◌, ◌≡◌, List, [], ◌∷◌, arith}
use poly_cortex.Infra.CircuitBreaker.{
  closed, open_, half_open, CircuitBreaker, init, state, count_success, record_success,
  record_failure, reset, Event, reads, succeeds, fails, resets, apply, run,
}

-- Positive thresholds, and the counters on the side of them that the state asks for.
pub record IsConsistent (cb : CircuitBreaker) : Type 0 where
  pub some_failures : 0 < cb.failure_threshold
  pub some_successes : 0 < cb.success_threshold
  pub when_closed : cb.state_ ≡ closed → cb.failure_count < cb.failure_threshold
  pub when_open : cb.state_ ≡ open_ → cb.failure_threshold ≤ cb.failure_count
  pub when_half_open :
      cb.state_ ≡ half_open
      → (cb.failure_threshold ≤ cb.failure_count) × (cb.success_count < cb.success_threshold)

pub init-IsConsistent : (f r s : ℕ) → 0 < f → 0 < s → IsConsistent (init f r s)
unfolding init
init-IsConsistent f r s hf hs = ground arith

pub state-IsConsistent :
    (now : ℕ) (cb : CircuitBreaker) → IsConsistent cb → IsConsistent (state now cb)
unfolding state
state-IsConsistent now cb v = ground arith

count_success-IsConsistent :
    (cb : CircuitBreaker)
    → IsConsistent cb
    → cb.state_ ≡ half_open
    → IsConsistent (count_success cb)
unfolding count_success
count_success-IsConsistent cb v h = ground arith

success_closed-IsConsistent :
    (cb : CircuitBreaker)
    → IsConsistent cb
    → cb.state_ ≡ closed
    → IsConsistent (record cb { failure_count = cb.failure_count - 1 })
success_closed-IsConsistent cb v h = ground arith

pub record_success-IsConsistent :
    (now now' : ℕ) (cb : CircuitBreaker)
    → IsConsistent cb
    → IsConsistent (record_success now now' cb)
unfolding record_success
record_success-IsConsistent now now' cb v = ground (
  arith,
  state-IsConsistent now cb v,
  state-IsConsistent now' (state now cb),
  count_success-IsConsistent (state now cb),
  success_closed-IsConsistent (state now' (state now cb)),
)

pub record_failure-IsConsistent :
    (now : ℕ) (cb : CircuitBreaker) → IsConsistent cb → IsConsistent (record_failure now cb)
unfolding record_failure
record_failure-IsConsistent now cb v = ground arith

pub apply-IsConsistent :
    (e : Event) (cb : CircuitBreaker) → IsConsistent cb → IsConsistent (apply e cb)
unfolding apply
apply-IsConsistent (reads now) cb v = state-IsConsistent now cb v
apply-IsConsistent (succeeds now now') cb v = record_success-IsConsistent now now' cb v
apply-IsConsistent (fails now) cb v = record_failure-IsConsistent now cb v
apply-IsConsistent resets cb v = unfold reset in ground arith

pub run-IsConsistent :
    (es : List Event) (cb : CircuitBreaker) → IsConsistent cb → IsConsistent (run es cb)
unfolding run
run-IsConsistent [] cb v = v
run-IsConsistent (e ∷ es) cb v = run-IsConsistent es (apply e cb) (apply-IsConsistent e cb v)

-- From a new breaker with positive thresholds, after any operations: while it is CLOSED its failures
-- are below the threshold, while it is OPEN or HALF_OPEN they reach it, and while it is HALF_OPEN its
-- successes are below theirs.
pub run-from_init :
    (f r s : ℕ) (es : List Event) → 0 < f → 0 < s → IsConsistent (run es (init f r s))
run-from_init f r s es hf hs = run-IsConsistent es (init f r s) (init-IsConsistent f r s hf hs)
