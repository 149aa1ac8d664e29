-- ===== src/Infra/Retry/Breaker.antt =====
-- `class CircuitBreaker` of src/polymarket_agent/infra/retry.py. A reading of the monotonic clock is a
-- number of ticks.
use poly_cortex.Base.{ℕ, ◌+◌, ◌-◌, Bool, true, false, ◌&&◌, List, [], ◌∷◌, leb, if◌then◌else◌}

pub data CircuitState : Type 0 where
  closed open_ half_open : CircuitState

pub record CircuitBreaker : Type 0 where
  pub failure_threshold : ℕ
  pub reset_timeout : ℕ
  pub state_ : CircuitState
  pub failure_count : ℕ
  pub last_failure_time : ℕ
  pub success_count : ℕ
  pub total_rejected : ℕ

pub record Stats : Type 0 where
  pub state_ : CircuitState
  pub failure_count : ℕ
  pub success_count : ℕ
  pub total_rejected : ℕ

abbrev pub is_closed : CircuitState → Bool
is_closed closed = true
is_closed _ = false

abbrev pub is_open : CircuitState → Bool
is_open open_ = true
is_open _ = false

unfoldable pub init : ℕ → ℕ → CircuitBreaker
init failure_threshold reset_timeout = record {
  failure_threshold = failure_threshold;
  reset_timeout = reset_timeout;
  state_ = closed;
  failure_count = 0;
  last_failure_time = 0;
  success_count = 0;
  total_rejected = 0;
}

-- Reading the property `state`.
unfoldable pub state : ℕ → CircuitBreaker → CircuitBreaker
state now cb =
    if is_open cb.state_ && leb cb.reset_timeout (now - cb.last_failure_time)
    then record cb { state_ = half_open }
    else cb

-- The property `stats` reads `state`, and so may move the breaker on.
unfoldable pub stats : ℕ → CircuitBreaker → Stats × CircuitBreaker
unfolding state
stats now cb =
    let read = state now cb in
    (
      record {
        state_ = read.state_;
        failure_count = read.failure_count;
        success_count = read.success_count;
        total_rejected = read.total_rejected;
      },
      read,
    )

unfoldable pub allow_request : ℕ → CircuitBreaker → Bool × CircuitBreaker
unfolding state
allow_request now cb =
    let read = state now cb in
    if is_open read.state_
    then (false, record read { total_rejected = read.total_rejected + 1 })
    else (true, read)

unfoldable pub record_success : CircuitBreaker → CircuitBreaker
record_success cb = record cb {
  success_count = cb.success_count + 1;
  state_ = closed;
  failure_count = 0;
}

unfoldable pub record_failure : ℕ → CircuitBreaker → CircuitBreaker
record_failure now cb =
    if leb cb.failure_threshold (cb.failure_count + 1)
    then record cb { failure_count = cb.failure_count + 1; last_failure_time = now; state_ = open_ }
    else record cb { failure_count = cb.failure_count + 1; last_failure_time = now }

unfoldable pub reset : CircuitBreaker → CircuitBreaker
reset cb = record cb { state_ = closed; failure_count = 0 }

pub data Event : Type 0 where
  reads : ℕ → Event
  requests : ℕ → Event
  succeeds : Event
  fails : ℕ → Event
  resets : Event

unfoldable pub apply : Event → CircuitBreaker → CircuitBreaker
apply (reads now) cb = state now cb
apply (requests now) cb = (allow_request now cb).1
apply succeeds cb = record_success cb
apply (fails now) cb = record_failure now cb
apply resets cb = reset cb

unfoldable pub run : List Event → CircuitBreaker → CircuitBreaker
run [] cb = cb
run (e ∷ es) cb = run es (apply e cb)
