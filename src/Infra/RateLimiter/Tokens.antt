-- ===== src/Infra/RateLimiter/Tokens.antt =====
-- The number of tokens of infra/rate_limiter.py.
use poly_cortex.Base.{List, [], ◌∷◌, Bool-cases, inl, inr}
use poly_cortex.Float.{
  Float, ◌≼◌, ◌≺◌, nought, one, fmin, IsOrdered, IsMonotone, fmin-le_left, le_of_not_lt, le_refl,
  div-pos,
}
use poly_cortex.Infra.RateLimiter.{TokenBucketRateLimiter, refill, acquire, acquires}

module _ {F : Type 0} ⦃f : Float F⦄ (laws : IsOrdered F) (mono : IsMonotone F) where
  -- No more tokens than the burst, and none owed.
  pub record IsStocked (l : TokenBucketRateLimiter F) : Type 0 where
    pub nonneg : nought ≼ l.tokens
    pub at_most : l.tokens ≼ l.burst

  -- A limiter that can be asked: its rate is above zero, and its burst not below.
  pub record IsUsable (l : TokenBucketRateLimiter F) : Type 0 where
    pub rate_pos : nought ≺ l.rate
    pub burst_nonneg : nought ≼ l.burst

  acquire-IsUsable :
      (now : F) (l : TokenBucketRateLimiter F) → IsUsable l → IsUsable (acquire now l).1
  unfolding acquire refill
  acquire-IsUsable now l usable =
      let filled = fmin l.burst (f.add l.tokens (f.mul (f.sub now l.last_refill) l.rate)) in
      elim (Bool-cases (f.lt filled one)) [
        | inl short ↦
            rw (short, div-pos laws (f.sub one filled) l.rate usable.rate_pos)
              (record { rate_pos = usable.rate_pos; burst_nonneg = usable.burst_nonneg })
        | inr enough ↦
            rw enough (record { rate_pos = usable.rate_pos; burst_nonneg = usable.burst_nonneg })
      ]

  acquire-IsStocked :
      (now : F) (l : TokenBucketRateLimiter F) → IsUsable l → IsStocked (acquire now l).1
  unfolding acquire refill
  acquire-IsStocked now l usable =
      let filled = fmin l.burst (f.add l.tokens (f.mul (f.sub now l.last_refill) l.rate)) in
      let at_most =
        fmin-le_left laws l.burst (f.add l.tokens (f.mul (f.sub now l.last_refill) l.rate)) in
      elim (Bool-cases (f.lt filled one)) [
        | inl short ↦
            rw (short, div-pos laws (f.sub one filled) l.rate usable.rate_pos)
              (record { nonneg = le_refl laws nought; at_most = usable.burst_nonneg })
        | inr enough ↦ rw enough (record {
          nonneg = mono.sub_nonneg one filled (le_of_not_lt laws filled one enough);
          at_most =
              laws.le_trans (f.sub filled one) filled l.burst
                (mono.sub-le filled one mono.zero-le-one) at_most;
        })
      ]

  -- With a rate above zero and a burst that is not below, whenever the calls come, a limiter never holds more
  -- tokens than its burst and never owes one.
  pub acquires-IsStocked :
      (times : List F) (l : TokenBucketRateLimiter F)
      → IsUsable l
      → IsStocked l
      → IsStocked (acquires times l)
  unfolding acquires
  acquires-IsStocked [] l usable h = h
  acquires-IsStocked (now ∷ times) l usable h =
      acquires-IsStocked times (acquire now l).1 (acquire-IsUsable now l usable)
        (acquire-IsStocked now l usable)
