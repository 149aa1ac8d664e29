-- ===== src/Infra/CircuitBreaker.antt =====
-- src/polymarket_agent/infra/circuit_breaker.py. A reading of the monotonic clock is a number of
-- ticks; an operation takes one argument for each reading that it makes.
pub mod Laws
pub mod Recovery
mod Tests
use poly_cortex.Base.{
  ℕ, ◌+◌, ◌-◌, Bool, true, false, ◌&&◌, List, [], ◌∷◌, leb, if◌then◌else◌, Result, ok, err,
}

pub data State : Type 0 where
  closed open_ half_open : State

pub record CircuitBreaker : Type 0 where
  pub failure_threshold : ℕ
  pub recovery_timeout : ℕ
  pub success_threshold : ℕ
  pub state_ : State
  pub failure_count : ℕ
  pub success_count : ℕ
  pub last_failure_time : ℕ

abbrev pub is_closed : State → Bool
is_closed closed = true
is_closed _ = false

abbrev pub is_open : State → Bool
is_open open_ = true
is_open _ = false

abbrev pub is_half_open : State → Bool
is_half_open half_open = true
is_half_open _ = false

pub init : ℕ → ℕ → ℕ → CircuitBreaker
init failure_threshold recovery_timeout success_threshold = record {
  failure_threshold = failure_threshold;
  recovery_timeout = recovery_timeout;
  success_threshold = success_threshold;
  state_ = closed;
  failure_count = 0;
  success_count = 0;
  last_failure_time = 0;
}

-- Reading the property `state` moves an OPEN breaker on when its time has passed.
pub state : ℕ → CircuitBreaker → CircuitBreaker
state now cb =
    if is_open cb.state_ && leb cb.recovery_timeout (now - cb.last_failure_time)
    then record cb { state_ = half_open; success_count = 0 }
    else cb

-- A success that is counted while half open.
pub count_success : CircuitBreaker → CircuitBreaker
count_success cb =
    if leb cb.success_threshold (cb.success_count + 1)
    then record cb { success_count = cb.success_count + 1; state_ = closed; failure_count = 0 }
    else record cb { success_count = cb.success_count + 1 }

-- The second reading of `state` is made only where the first was not HALF_OPEN.
pub record_success : ℕ → ℕ → CircuitBreaker → CircuitBreaker
record_success now now' cb =
    let read = state now cb in
    let again = state now' read in
    if is_half_open read.state_
    then count_success read
    else if is_closed again.state_
    then record again { failure_count = again.failure_count - 1 }
    else again

pub record_failure : ℕ → CircuitBreaker → CircuitBreaker
record_failure now cb =
    if leb cb.failure_threshold (cb.failure_count + 1)
    then record cb { failure_count = cb.failure_count + 1; last_failure_time = now; state_ = open_ }
    else record cb { failure_count = cb.failure_count + 1; last_failure_time = now }

pub reset : CircuitBreaker → CircuitBreaker
reset cb = record cb {
  state_ = closed;
  failure_count = 0;
  success_count = 0;
  last_failure_time = 0;
}

-- What `call` ends in besides the result: the refusal, or the coroutine's exception.
pub data CallError {ℓ} (E : Type ℓ) : Type ℓ where
  circuit_open : CallError E
  raised : E → CallError E

-- The coroutine's outcome is an argument; the readings are those of the guard and of the recording.
pub call {ℓ κ} :
    {E : Type ℓ} {A : Type κ}
    → ℕ
    → Result E A
    → ℕ
    → ℕ
    → CircuitBreaker
    → Result (CallError E) A × CircuitBreaker
call now (ok a) later later' cb =
    let read = state now cb in
    if is_open read.state_
    then (err circuit_open, read)
    else (ok a, record_success later later' read)
call now (err e) later later' cb =
    let read = state now cb in
    if is_open read.state_
    then (err circuit_open, read)
    else (err (raised e), record_failure later read)

-- What happens to a breaker, one operation after another.
pub data Event : Type 0 where
  reads : ℕ → Event
  succeeds : ℕ → ℕ → Event
  fails : ℕ → Event
  resets : Event

pub apply : Event → CircuitBreaker → CircuitBreaker
apply (reads now) cb = state now cb
apply (succeeds now now') cb = record_success now now' cb
apply (fails now) cb = record_failure now cb
apply resets cb = reset cb

pub run : List Event → CircuitBreaker → CircuitBreaker
run [] cb = cb
run (e ∷ es) cb = run es (apply e cb)
