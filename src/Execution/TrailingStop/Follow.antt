-- ===== src/Execution/TrailingStop/Follow.antt =====
-- How the stop moves with the prices, and when it triggers.
use poly_cortex.Base.{◌≡◌, ◌+◌, refl, true, false, List, [], ◌∷◌, arith, if◌then◌else◌}
use poly_cortex.Float.{Float, ◌≼◌, IsOrdered, le_refl, le_of_lt}
use poly_cortex.Execution.TrailingStop.{
  TrailingStop, is_sell, calculate_stop_sell, calculate_stop_buy, raise_stop, update_sell,
  lower_stop, update_buy, update_price, feed,
}

module _ {F : Type 0} ⦃f : Float F⦄ where
  -- Once triggered, a stop stays as it is, whatever prices follow.
  pub feed-triggered : (ps : List F) (s : TrailingStop F) → s.triggered ≡ true → feed ps s ≡ s
  unfolding feed update_price
  feed-triggered [] s h = refl
  feed-triggered (p ∷ ps) s h = ground (arith, feed-triggered ps s h)

  side-raise_stop : (p : F) (s : TrailingStop F) → (raise_stop p s).side ≡ s.side
  unfolding raise_stop
  side-raise_stop p s = ground arith

  triggered-raise_stop : (p : F) (s : TrailingStop F) → (raise_stop p s).triggered ≡ s.triggered
  unfolding raise_stop
  triggered-raise_stop p s = ground arith

  triggered-lower_stop : (p : F) (s : TrailingStop F) → (lower_stop p s).triggered ≡ s.triggered
  unfolding lower_stop
  triggered-lower_stop p s = ground arith

  -- An update of a waiting stop triggers it exactly if the price reaches the new stop: at or below it
  -- for SELL, at or above it for BUY.
  pub update_price-reached :
      (p : F) (s : TrailingStop F)
      → s.triggered ≡ false
      → (update_price p s).0.triggered ≡ (
          if is_sell s
          then f.le p (update_price p s).0.stop_price
          else f.le (update_price p s).0.stop_price p)
  unfolding update_price update_sell update_buy
  update_price-reached p s h = ground (
    arith,
    triggered-raise_stop p (record s { update_count = s.update_count + 1 }),
    triggered-lower_stop p (record s { update_count = s.update_count + 1 }),
  )

  side-lower_stop : (p : F) (s : TrailingStop F) → (lower_stop p s).side ≡ s.side
  unfolding lower_stop
  side-lower_stop p s = ground arith

  module _ (laws : IsOrdered F) where
    raise_stop-mono : (p : F) (s : TrailingStop F) → s.stop_price ≼ (raise_stop p s).stop_price
    unfolding raise_stop
    raise_stop-mono p s =
        ground
          (arith, le_refl laws s.stop_price, le_of_lt laws s.stop_price (calculate_stop_sell s p))

    lower_stop-mono : (p : F) (s : TrailingStop F) → (lower_stop p s).stop_price ≼ s.stop_price
    unfolding lower_stop
    lower_stop-mono p s =
        ground
          (arith, le_refl laws s.stop_price, le_of_lt laws (calculate_stop_buy s p) s.stop_price)

    update_price-sell :
        (p : F) (s : TrailingStop F)
        → is_sell s ≡ true
        → (is_sell (update_price p s).0 ≡ true) × (s.stop_price ≼ (update_price p s).0.stop_price)
    unfolding update_price update_sell is_sell
    update_price-sell p s h = ground (
      arith,
      le_refl laws s.stop_price,
      raise_stop-mono p (record s { update_count = s.update_count + 1 }),
      side-raise_stop p (record s { update_count = s.update_count + 1 }),
    )

    update_price-buy :
        (p : F) (s : TrailingStop F)
        → is_sell s ≡ false
        → (is_sell (update_price p s).0 ≡ false) × ((update_price p s).0.stop_price ≼ s.stop_price)
    unfolding update_price update_buy is_sell
    update_price-buy p s h = ground (
      arith,
      le_refl laws s.stop_price,
      lower_stop-mono p (record s { update_count = s.update_count + 1 }),
      side-lower_stop p (record s { update_count = s.update_count + 1 }),
    )

    -- Over any prices the stop of a SELL order never falls.
    pub feed-sell :
        (ps : List F) (s : TrailingStop F)
        → is_sell s ≡ true
        → s.stop_price ≼ (feed ps s).stop_price
    unfolding feed
    feed-sell [] s h = le_refl laws s.stop_price
    feed-sell (p ∷ ps) s h =
        let (kept, up) = update_price-sell p s h in
        laws.le_trans _ _ _ up (feed-sell ps (update_price p s).0 kept)

    -- Over any prices the stop of a BUY order never rises.
    pub feed-buy :
        (ps : List F) (s : TrailingStop F)
        → is_sell s ≡ false
        → (feed ps s).stop_price ≼ s.stop_price
    unfolding feed
    feed-buy [] s h = le_refl laws s.stop_price
    feed-buy (p ∷ ps) s h =
        let (kept, down) = update_price-buy p s h in
        laws.le_trans _ _ _ (feed-buy ps (update_price p s).0 kept) down
