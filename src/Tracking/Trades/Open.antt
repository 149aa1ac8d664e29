-- ===== src/Tracking/Trades/Open.antt =====
-- Which trades `get_open_positions` of tracking/tracker.py reads.
use poly_cortex.Base.{◌≡◌, refl, Bool, ◌&&◌, List, [], ◌∷◌, any, keep, count, arith, ◌∙◌}
use poly_cortex.Tracking.Trades.{Trade, is_open, newest_first, by_timestamp, get_open_positions}
use poly_cortex.Float.{Float}

module _ {F : Type 0} ⦃f : Float F⦄ where
  newest_first-any :
      (q : Trade F → Bool) (t : Trade F) (ts : List (Trade F))
      → any q (newest_first t ts) ≡ any q (t ∷ ts)
  unfolding newest_first
  newest_first-any q t [] = refl
  newest_first-any q t (u ∷ us) = ground (arith, newest_first-any q t us)

  by_timestamp-any : (q : Trade F → Bool) (ts : List (Trade F)) → any q (by_timestamp ts) ≡ any q ts
  unfolding by_timestamp
  by_timestamp-any q [] = refl
  by_timestamp-any q (t ∷ ts) =
      ground (arith, newest_first-any q t (by_timestamp ts), by_timestamp-any q ts)

  keep-any :
      (q p : Trade F → Bool) (ts : List (Trade F)) → any q (keep p ts) ≡ any (λ t. p t && q t) ts
  keep-any q p [] = refl
  keep-any q p (t ∷ ts) = ground (arith, keep-any q p ts)

  pub get_open_positions-any :
      (q : Trade F → Bool) (ts : List (Trade F))
      → any q (get_open_positions ts) ≡ any (λ t. is_open t.status && q t) ts
  unfolding get_open_positions
  get_open_positions-any q ts =
      by_timestamp-any q (keep (λ t. is_open t.status) ts) ∙ keep-any q (λ t. is_open t.status) ts

  newest_first-count :
      (q : Trade F → Bool) (t : Trade F) (ts : List (Trade F))
      → count q (newest_first t ts) ≡ count q (t ∷ ts)
  unfolding newest_first
  newest_first-count q t [] = refl
  newest_first-count q t (u ∷ us) = ground (arith, newest_first-count q t us)

  by_timestamp-count :
      (q : Trade F → Bool) (ts : List (Trade F)) → count q (by_timestamp ts) ≡ count q ts
  unfolding by_timestamp
  by_timestamp-count q [] = refl
  by_timestamp-count q (t ∷ ts) =
      omega (arith, newest_first-count q t (by_timestamp ts), by_timestamp-count q ts)

  keep-count :
      (q p : Trade F → Bool) (ts : List (Trade F))
      → count q (keep p ts) ≡ count (λ t. p t && q t) ts
  keep-count q p [] = refl
  keep-count q p (t ∷ ts) = ground (arith, keep-count q p ts)

  pub get_open_positions-count :
      (q : Trade F → Bool) (ts : List (Trade F))
      → count q (get_open_positions ts) ≡ count (λ t. is_open t.status && q t) ts
  unfolding get_open_positions
  get_open_positions-count q ts =
      by_timestamp-count q (keep (λ t. is_open t.status) ts)
      ∙ keep-count q (λ t. is_open t.status) ts
