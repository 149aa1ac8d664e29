-- ===== src/Infra/RateLimiter/Tests.antt =====
-- Calls of the rate limiter in thousandths, and the theorem at a concrete input.
use poly_cortex.Base.{◌≡◌, refl, none, some, List, [], ◌∷◌}
use poly_cortex.Base.Int.{ℤ, pos, ◌-ℤ◌, ◌+ℤ◌}
use poly_cortex.Float.Milli.{milli, milli-IsOrdered, milli-IsMonotone}
use poly_cortex.Infra.RateLimiter.{TokenBucketRateLimiter, acquire, acquires, refill}
use poly_cortex.Infra.RateLimiter.Tokens.{IsStocked, IsUsable, acquires-IsStocked}

-- One token in a second, and the only one is taken.
abbrev emptied : TokenBucketRateLimiter ℤ
emptied = record { rate = pos 1000; burst = pos 1000; tokens = pos 0; last_refill = pos 0 }

-- A call at 0 sleeps for a second.
sleeps : (acquire (pos 0) emptied).0 ≡ some (some (pos 1000))
unfolding acquire refill ◌-ℤ◌ ◌+ℤ◌
sleeps = refl

-- The call after it, at 1, does not sleep: the second of sleep counts for both.
slept_twice : (acquire (pos 1000) (acquire (pos 0) emptied).1).0 ≡ some none
unfolding acquire refill ◌-ℤ◌ ◌+ℤ◌
slept_twice = refl

emptied-IsUsable : IsUsable milli-IsOrdered milli-IsMonotone emptied
emptied-IsUsable = record { rate_pos = refl; burst_nonneg = refl }

emptied-IsStocked : IsStocked milli-IsOrdered milli-IsMonotone emptied
emptied-IsStocked = record { nonneg = refl; at_most = refl }

abbrev times : List ℤ
times = pos 0 ∷ pos 1000 ∷ pos 1500 ∷ []

acquires-IsStocked_example : IsStocked milli-IsOrdered milli-IsMonotone (acquires times emptied)
acquires-IsStocked_example =
    acquires-IsStocked milli-IsOrdered milli-IsMonotone times emptied emptied-IsUsable
      emptied-IsStocked
