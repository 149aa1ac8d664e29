-- ===== src/Infra/Retry/Loop.antt =====
-- `with_retry` of src/polymarket_agent/infra/retry.py. What the wrapped function does in each attempt,
-- the clock and the random numbers are a schedule; the sleeps are a list of delays.
pub mod Bounds
use poly_cortex.Base.{
  ℕ, zero, suc, ◌+◌, ◌^◌, Bool, true, false, List, [], ◌∷◌, leb, if◌then◌else◌, Option, none, some,
  Result, ok, err,
}
use poly_cortex.Float.{Float, fmin}
use poly_cortex.Infra.Retry.Breaker.{CircuitBreaker, allow_request, record_success, record_failure}

-- One awaited call: it returns, raises what `retry_on` names, or raises something else.
pub data Outcome {ℓ κ} (E : Type ℓ) (A : Type κ) : Type (ℓ ⊔ κ) where
  returns : A → Outcome E A
  raises : E → Outcome E A
  escapes : E → Outcome E A

-- What an attempt meets: the clock at the breaker's guard and at its record, the call, `random()`.
pub record Attempt (F E A : Type 0) : Type 0 where
  pub asked : ℕ
  pub outcome : Outcome E A
  pub noted : ℕ
  pub random : F

pub data RetryError (E : Type 0) : Type 0 where
  -- RetryExhausted, with the attempts and the last error.
  exhausted : ℕ → Option E → RetryError E
  -- RetryExhausted where the breaker is open, with the attempts made.
  breaker_open : ℕ → RetryError E
  propagated : E → RetryError E

pub record Config (F : Type 0) : Type 0 where
  pub max_retries : ℕ
  pub base_delay : F
  pub max_delay : F
  pub jitter : Bool

-- What a run of the wrapper leaves: its end, the breaker, the calls made and the delays slept.
pub record Run (F E A : Type 0) : Type 0 where
  pub result : Result (RetryError E) A
  pub breaker : Option CircuitBreaker
  pub calls : ℕ
  pub delays : List F

abbrev pub ask : ℕ → Option CircuitBreaker → Bool × Option CircuitBreaker
ask now none = (true, none)
ask now (some cb) = let (allowed, cb') = allow_request now cb in (allowed, some cb')

abbrev pub note_success : Option CircuitBreaker → Option CircuitBreaker
note_success none = none
note_success (some cb) = some (record_success cb)

abbrev pub note_failure : ℕ → Option CircuitBreaker → Option CircuitBreaker
note_failure now none = none
note_failure now (some cb) = some (record_failure now cb)

module _ {F : Type 0} ⦃f : Float F⦄ where
  -- The delay before the next attempt, without jitter.
  pub backoff : Config F → ℕ → F
  backoff c attempt = fmin (f.mul c.base_delay (f.lit (2 ^ attempt) 0)) c.max_delay

  pub delay : Config F → ℕ → F → F
  unfolding backoff
  delay c attempt random =
      if c.jitter then f.mul (backoff c attempt) (f.add (f.lit 5 1) random) else backoff c attempt

  module _ {E A : Type 0} where
    abbrev pub ends : Result (RetryError E) A → Option CircuitBreaker → ℕ → Run F E A
    ends r b n = record { result = r; breaker = b; calls = n; delays = [] }

    -- One more call and one more delay in front of a run.
    abbrev pub later : F → Run F E A → Run F E A
    later d r = record r { calls = r.calls + 1; delays = d ∷ r.delays }

    -- The attempts from `attempt` on, `left` of them.
    pub loop :
        Config F
        → (ℕ → Attempt F E A)
        → (left attempt : ℕ) → Option E
        → Option CircuitBreaker
        → Run F E A
    loop c schedule zero attempt last b = ends (err (exhausted (c.max_retries + 1) last)) b 0
    loop c schedule (suc left) attempt last b =
        let now = schedule attempt in
        let (allowed, b') = ask now.asked b in
        elim allowed [
          | false ↦ ends (err (breaker_open attempt)) b' 0
          | true ↦ elim now.outcome [
            | returns a ↦ ends (ok a) (note_success b') 1
            | escapes e ↦ ends (err (propagated e)) b' 1
            | raises e ↦ elim (leb c.max_retries attempt) [
              | true ↦
                  ends (err (exhausted (c.max_retries + 1) (some e))) (note_failure now.noted b') 1
              | false ↦
                  later (delay c attempt now.random)
                    (loop c schedule left (attempt + 1) (some e) (note_failure now.noted b'))
            ]
          ]
        ]

    pub with_retry : Config F → Option CircuitBreaker → (ℕ → Attempt F E A) → Run F E A
    unfolding loop
    with_retry c b schedule = loop c schedule (c.max_retries + 1) 0 none b
