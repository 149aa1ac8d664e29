-- ===== src/Infra/Retry/Count.antt =====
-- What the breaker of infra/retry.py counts.
use poly_cortex.Base.{ℕ, ◌+◌, ◌<◌, ◌≡◌, List, [], ◌∷◌, ltb, arith}
use poly_cortex.Infra.Retry.Breaker.{
  CircuitBreaker, is_closed, init, allow_request, record_success, record_failure, reset, Event,
  reads, state, requests, succeeds, fails, resets, apply, run,
}

-- The failures since the last success or reset, after `n` earlier ones.
abbrev pub trailing : ℕ → List Event → ℕ
trailing n [] = n
trailing n (reads now ∷ es) = trailing n es
trailing n (requests now ∷ es) = trailing n es
trailing n (succeeds ∷ es) = trailing 0 es
trailing n (fails now ∷ es) = trailing (n + 1) es
trailing n (resets ∷ es) = trailing 0 es

-- The breaker after `n` failures in a row.
record Tracks (threshold n : ℕ) (cb : CircuitBreaker) : Type 0 where
  threshold_kept : cb.failure_threshold ≡ threshold
  positive : 0 < threshold
  counted : cb.failure_count ≡ n
  closed_below : is_closed cb.state_ ≡ ltb n threshold

state-Tracks : (t n now : ℕ) (cb : CircuitBreaker) → Tracks t n cb → Tracks t n (state now cb)
unfolding state
state-Tracks t n now cb h = ground arith

request-Tracks :
    (t n now : ℕ) (cb : CircuitBreaker) → Tracks t n cb → Tracks t n (allow_request now cb).1
unfolding allow_request
request-Tracks t n now cb h = ground arith

success-Tracks : (t n : ℕ) (cb : CircuitBreaker) → Tracks t n cb → Tracks t 0 (record_success cb)
unfolding record_success
success-Tracks t n cb h = ground arith

reset-Tracks : (t n : ℕ) (cb : CircuitBreaker) → Tracks t n cb → Tracks t 0 (reset cb)
unfolding reset
reset-Tracks t n cb h = ground arith

failure-Tracks :
    (t n now : ℕ) (cb : CircuitBreaker) → Tracks t n cb → Tracks t (n + 1) (record_failure now cb)
unfolding record_failure
failure-Tracks t n now cb h = ground arith

run-Tracks :
    (t n : ℕ) (es : List Event) (cb : CircuitBreaker)
    → Tracks t n cb
    → Tracks t (trailing n es) (run es cb)
unfolding run apply
run-Tracks t n [] cb h = h
run-Tracks t n (reads now ∷ es) cb h = run-Tracks t n es _ (state-Tracks t n now cb h)
run-Tracks t n (requests now ∷ es) cb h = run-Tracks t n es _ (request-Tracks t n now cb h)
run-Tracks t n (succeeds ∷ es) cb h = run-Tracks t 0 es _ (success-Tracks t n cb h)
run-Tracks t n (fails now ∷ es) cb h = run-Tracks t (n + 1) es _ (failure-Tracks t n now cb h)
run-Tracks t n (resets ∷ es) cb h = run-Tracks t 0 es _ (reset-Tracks t n cb h)

-- From a new breaker with a positive threshold, after any operations: it is CLOSED exactly if the
-- failures since the last success or reset are fewer than the threshold, and it counts just these.
pub run-trailing :
    (t r : ℕ) (es : List Event)
    → 0 < t
    → (is_closed (run es (init t r)).state_ ≡ ltb (trailing 0 es) t)
      × ((run es (init t r)).failure_count ≡ trailing 0 es)
unfolding init
run-trailing t r es pos =
    let h = run-Tracks t 0 es (init t r) (ground arith) in (h.closed_below, h.counted)
