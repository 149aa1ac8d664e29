-- ===== src/Infra/RateLimiter.antt =====
-- src/polymarket_agent/infra/rate_limiter.py. `acquire` takes the reading of the clock and gives the time it
-- sleeps. The lock lets one call through at a time, so calls are a sequence.
pub mod Tokens
mod Tests
use poly_cortex.Base.{ℕ, Bool, true, false, Option, none, some, List, [], ◌∷◌, if◌then◌else◌}
use poly_cortex.Float.{Float, nought, one, fmin, div}

pub record TokenBucketRateLimiter (F : Type 0) : Type 0 where
  pub rate : F
  pub burst : F
  pub tokens : F
  pub last_refill : F

-- `_gamma_limiter` and `_clob_limiter`.
pub record Limiters (F : Type 0) : Type 0 where
  pub gamma_limiter : Option (TokenBucketRateLimiter F)
  pub clob_limiter : Option (TokenBucketRateLimiter F)

module _ {F : Type 0} ⦃f : Float F⦄ where
  pub init : F → F → Option F → TokenBucketRateLimiter F
  init now requests_per_minute burst =
      let limit : F = elim burst [ none ↦ requests_per_minute | some b ↦ b ] in
      record {
        rate = f.quot requests_per_minute (f.lit 60 0);
        burst = limit;
        tokens = limit;
        last_refill = now;
      }

  pub refill : F → TokenBucketRateLimiter F → TokenBucketRateLimiter F
  refill now l = record l {
    tokens = fmin l.burst (f.add l.tokens (f.mul (f.sub now l.last_refill) l.rate));
    last_refill = now;
  }

  -- The time slept, if any; `none` is the ZeroDivisionError of a rate of zero, after which the refill stays.
  pub acquire : F → TokenBucketRateLimiter F → Option (Option F) × TokenBucketRateLimiter F
  unfolding refill
  acquire now l =
      let filled = refill now l in
      if f.lt filled.tokens one
      then elim (div (f.sub one filled.tokens) filled.rate) [
        | none ↦ (none, filled)
        | some wait_time ↦ (some (some wait_time), record filled { tokens = nought })
      ]
      else (some none, record filled { tokens = f.sub filled.tokens one })

  pub get_gamma_limiter : F → F → Limiters F → TokenBucketRateLimiter F × Limiters F
  unfolding init
  get_gamma_limiter now requests_per_minute g = elim g.gamma_limiter [
    | some l ↦ (l, g)
    | none ↦ let l = init now requests_per_minute none in (l, record g { gamma_limiter = some l })
  ]

  pub get_clob_limiter : F → F → Limiters F → TokenBucketRateLimiter F × Limiters F
  unfolding init
  get_clob_limiter now requests_per_minute g = elim g.clob_limiter [
    | some l ↦ (l, g)
    | none ↦ let l = init now requests_per_minute none in (l, record g { clob_limiter = some l })
  ]

  -- The limiter after calls at some times.
  pub acquires : List F → TokenBucketRateLimiter F → TokenBucketRateLimiter F
  unfolding acquire
  acquires [] l = l
  acquires (now ∷ times) l = acquires times (acquire now l).1
