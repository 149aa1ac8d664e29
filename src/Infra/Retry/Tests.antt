-- ===== src/Infra/Retry/Tests.antt =====
-- Runs of `with_retry` and its breaker, and their theorems at concrete inputs.
use poly_cortex.Base.{
  ℕ, ◌≡◌, refl, false, List, [], ◌∷◌, ltb, none, some, ok, err, length, arith, if◌then◌else◌,
}
use poly_cortex.Base.Int.{ℤ, pos}
use poly_cortex.Float.Milli.{milli}
use poly_cortex.Infra.Retry.Breaker.{
  CircuitBreaker, is_closed, init, Event, requests, succeeds, fails, run,
}
use poly_cortex.Infra.Retry.Count.{trailing, run-trailing}
use poly_cortex.Infra.Retry.Loop.{returns, raises, Attempt, exhausted, Config, with_retry}
use poly_cortex.Infra.Retry.Loop.Bounds.{with_retry-returns, with_retry-exhausted}

abbrev events : List Event
events = fails 1 ∷ succeeds ∷ fails 2 ∷ fails 3 ∷ requests 4 ∷ []

run-trailing_example :
    (is_closed (run events (init 2 60)).state_ ≡ ltb (trailing 0 events) 2)
    × ((run events (init 2 60)).failure_count ≡ trailing 0 events)
run-trailing_example = run-trailing 2 60 events (omega arith)

abbrev probing : CircuitBreaker
probing = run (fails 1 ∷ requests 70 ∷ []) (init 1 60)

abbrev config : Config ℤ
config = record { max_retries = 3; base_delay = pos 1000; max_delay = pos 3000; jitter = false }

-- Two failures, then a value.
abbrev flaky : ℕ → Attempt ℤ ℕ ℕ
flaky i = record {
  asked = i;
  outcome = if ltb i 2 then raises i else returns 7;
  noted = i;
  random = pos 0;
}

abbrev dead : ℕ → Attempt ℤ ℕ ℕ
dead i = record { asked = i; outcome = raises i; noted = i; random = pos 0 }

with_retry-returns_example :
    let r = with_retry config none flaky in
    (r.result ≡ ok 7) × (r.calls ≡ 3) × (length r.delays ≡ 2)
with_retry-returns_example =
    with_retry-returns config flaky (λ i. i) 2 7 (λ i h. ground arith) refl (omega arith)

with_retry-exhausted_example :
    let r = with_retry config none dead in
    (r.result ≡ err (exhausted 4 (some 3))) × (r.calls ≡ 4) × (length r.delays ≡ 3)
with_retry-exhausted_example = with_retry-exhausted config dead (λ i. i) (λ i h. refl)
