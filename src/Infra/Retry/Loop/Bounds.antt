-- ===== src/Infra/Retry/Loop/Bounds.antt =====
-- How often `with_retry` calls, how long it sleeps, and how it ends.
use poly_cortex.Base.{
  ℕ, zero, suc, ◌+◌, ◌≤◌, ◌<◌, ◌≡◌, refl, false, leb, Option, none, some, ok, err, All, length,
  arith, Bool-cases, inl, inr,
}
use poly_cortex.Float.{Float, ◌≼◌, IsOrdered, fmin-le_right}
use poly_cortex.Infra.Retry.Breaker.{CircuitBreaker}
use poly_cortex.Infra.Retry.Loop.{
  returns, raises, Attempt, exhausted, Config, Run, backoff, delay, loop, with_retry,
}

module _ {F : Type 0} ⦃f : Float F⦄ {E A : Type 0} (c : Config F)
    (schedule : ℕ → Attempt F E A) where
  -- A delay follows each call but the last, if there is one.
  abbrev IsPaced : ℕ → Run F E A → Type 0
  IsPaced n r = (r.calls ≤ n) × (length r.delays ≤ r.calls) × (r.calls ≤ length r.delays + 1)

  loop-IsPaced :
      (left attempt : ℕ) (last : Option E) (b : Option CircuitBreaker)
      → IsPaced left (loop c schedule left attempt last b)
  unfolding loop
  loop-IsPaced zero attempt last b = omega arith
  loop-IsPaced (suc left) attempt last b = grind (arith, loop-IsPaced left (attempt + 1))

  module _ (laws : IsOrdered F) (plain : c.jitter ≡ false) where
    loop-delays :
        (left attempt : ℕ) (last : Option E) (b : Option CircuitBreaker)
        → All (λ d. d ≼ c.max_delay) (loop c schedule left attempt last b).delays
    unfolding loop delay backoff
    loop-delays zero attempt last b = tt
    loop-delays (suc left) attempt last b =
        grind (arith, loop-delays left (attempt + 1), plain, fmin-le_right laws)

  module _ (errors : ℕ → E) (n : ℕ)
      (raised : (i : ℕ) → i < n → (schedule i).outcome ≡ raises (errors i)) where
    loop-returns :
        (left attempt : ℕ) (last : Option E) (a : A)
        → (schedule n).outcome ≡ returns a
        → attempt ≤ n
        → n ≤ c.max_retries
        → n < attempt + left
        → let r = loop c schedule left attempt last none in
          (r.result ≡ ok a) × (r.calls + attempt ≡ n + 1) × (length r.delays + attempt ≡ n)
    unfolding loop
    loop-returns zero attempt last a ret low high room = absurd (omega arith)
    loop-returns (suc left) attempt last a ret low high room = elim (Bool-cases (leb n attempt)) [
      | inl here ↦
          let e : attempt ≡ n = ground arith in rw (e, ret) (refl, omega arith, omega arith)
      | inr before ↦ ground (
        arith,
        raised attempt (ground arith),
        loop-returns left (attempt + 1) (some (errors attempt)) a ret,
      )
    ]

    loop-exhausted :
        (left attempt : ℕ) (last : Option E)
        → n ≡ c.max_retries + 1
        → attempt + suc left ≡ n
        → let r = loop c schedule (suc left) attempt last none in
          (r.result ≡ err (exhausted n (some (errors c.max_retries))))
          × (r.calls ≡ suc left)
          × (length r.delays ≡ left)
    unfolding loop
    loop-exhausted zero attempt last e h =
        let last_one : attempt ≡ c.max_retries = omega arith in
        rw (last_one, raised c.max_retries (omega arith)) (ground arith)
    loop-exhausted (suc left) attempt last e h = ground (
      arith,
      raised attempt (omega arith),
      loop-exhausted left (attempt + 1) (some (errors attempt)) e,
    )

module _ {F : Type 0} ⦃f : Float F⦄ {E A : Type 0} where
  -- The wrapped function is called at most `max_retries + 1` times, and the delays are as many as
  -- the calls or one fewer.
  pub with_retry-IsPaced :
      (c : Config F) (b : Option CircuitBreaker) (schedule : ℕ → Attempt F E A)
      → let r = with_retry c b schedule in
        (r.calls ≤ c.max_retries + 1)
        × (length r.delays ≤ r.calls)
        × (r.calls ≤ length r.delays + 1)
  unfolding with_retry
  with_retry-IsPaced c b schedule = loop-IsPaced c schedule (c.max_retries + 1) 0 none b

  -- Without jitter no delay is above `max_delay`.
  pub with_retry-delays :
      (laws : IsOrdered F) (c : Config F) (b : Option CircuitBreaker) (schedule : ℕ → Attempt F E A)
      → c.jitter ≡ false
      → All (λ d. d ≼ c.max_delay) (with_retry c b schedule).delays
  unfolding with_retry
  with_retry-delays laws c b schedule plain =
      loop-delays c schedule laws plain (c.max_retries + 1) 0 none b

  -- With no breaker: where the attempts before `n` raise what is retried and attempt `n`, of those
  -- allowed, returns, the wrapper returns that value after `n` delays.
  pub with_retry-returns :
      (c : Config F) (schedule : ℕ → Attempt F E A) (errors : ℕ → E) (n : ℕ) (a : A)
      → ((i : ℕ) → i < n → (schedule i).outcome ≡ raises (errors i))
      → (schedule n).outcome ≡ returns a
      → n ≤ c.max_retries
      → let r = with_retry c none schedule in
        (r.result ≡ ok a) × (r.calls ≡ n + 1) × (length r.delays ≡ n)
  unfolding with_retry
  with_retry-returns c schedule errors n a raised ret high =
      let (found, called, slept) =
        loop-returns c schedule errors n raised (c.max_retries + 1) 0 none a ret (omega arith) high
          (omega arith) in
      (found, omega arith, omega arith)

  -- With no breaker: where every allowed attempt raises what is retried, the wrapper raises
  -- RetryExhausted with the number of attempts and the error of the last one.
  pub with_retry-exhausted :
      (c : Config F) (schedule : ℕ → Attempt F E A) (errors : ℕ → E)
      → ((i : ℕ) → i < c.max_retries + 1 → (schedule i).outcome ≡ raises (errors i))
      → let r = with_retry c none schedule in
        (r.result ≡ err (exhausted (c.max_retries + 1) (some (errors c.max_retries))))
        × (r.calls ≡ c.max_retries + 1)
        × (length r.delays ≡ c.max_retries)
  unfolding with_retry
  with_retry-exhausted c schedule errors raised =
      let n : c.max_retries + 1 ≡ suc c.max_retries = omega arith in
      ground (
        arith,
        loop-exhausted c schedule errors (c.max_retries + 1) raised c.max_retries 0 none refl
            (omega arith),
      )
