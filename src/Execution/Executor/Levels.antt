-- ===== src/Execution/Executor/Levels.antt =====
-- The levels of a bracket in execution/executor.py.
use poly_cortex.Float.{
  Float, ◌≼◌, nought, one, IsOrdered, IsMonotone, IsScaled, le-fmax_left, le-fmax_right,
  fmin-le_left, fmin-le_right, le-fmin, fmax-le,
}
use poly_cortex.Execution.Executor.Orders.{BracketSpec, clamp_price, build_bracket_levels}

module _ {F : Type 0} ⦃f : Float F⦄ (o : IsOrdered F) (s : IsScaled F) where
  clamp_price-range : (x : F) → (f.lit 1 2 ≼ clamp_price x) × (clamp_price x ≼ f.lit 99 2)
  clamp_price-range x =
      (le-fmax_left o _ _, fmax-le o _ _ _ s.cent-le (fmin-le_right o x (f.lit 99 2)))

  clamp_price_mono : (x y : F) → x ≼ y → clamp_price x ≼ clamp_price y
  clamp_price_mono x y h = fmax-le o _ _ _ (le-fmax_left o _ _) (
      o.le_trans _ _ _
        (le-fmin o y (f.lit 99 2) _ (o.le_trans _ _ _ (fmin-le_left o x (f.lit 99 2)) h)
          (fmin-le_right o x (f.lit 99 2)))
        (le-fmax_right o _ _))

  -- In an ordered arithmetic with the laws of rounding, for a price and percentages that are not
  -- negative: 0.01 ≤ stop-loss ≤ take-profit ≤ 0.99.
  pub build_bracket_levels-IsOrdered :
      (m : IsMonotone F) (price : F) (b : BracketSpec F)
      → nought ≼ price
      → nought ≼ b.take_profit_pct
      → nought ≼ b.stop_loss_pct
      → (f.lit 1 2 ≼ (build_bracket_levels price b).1)
        × ((build_bracket_levels price b).1 ≼ (build_bracket_levels price b).0)
        × ((build_bracket_levels price b).0 ≼ f.lit 99 2)
  unfolding build_bracket_levels
  build_bracket_levels-IsOrdered m price b h t l = (
    (clamp_price-range _).0,
    clamp_price_mono _ _ (
        o.le_trans _ _ _
          (m.mul-le price (f.sub one b.stop_loss_pct) h (m.sub-le one b.stop_loss_pct l))
          (s.le-mul price (f.add one b.take_profit_pct) h (s.le-add one b.take_profit_pct t))),
    (clamp_price-range _).1,
  )
