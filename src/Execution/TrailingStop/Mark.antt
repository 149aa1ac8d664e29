-- ===== src/Execution/TrailingStop/Mark.antt =====
-- The stop of a SELL order and its high-water mark.
use poly_cortex.Base.{◌≡◌, ◌+◌, true, List, [], ◌∷◌, String, arith, upper_is, Bool-cases, inl, inr}
use poly_cortex.Float.{
  Float, ◌≼◌, nought, one, IsOrdered, IsMonotone, le_refl, le_of_lt, le_of_not_lt,
}
use poly_cortex.Execution.TrailingStop.{
  TrailingStop, is_sell, is_percent, calculate_stop_sell, init, raise_stop, update_sell,
  update_price, feed,
}

module _ {F : Type 0} ⦃f : Float F⦄ where
  -- The stop compares equal to the one calculated from the mark.
  abbrev pub AtMark : TrailingStop F → Type 0
  AtMark s =
      (calculate_stop_sell s s.high_water ≼ s.stop_price)
      × (s.stop_price ≼ calculate_stop_sell s s.high_water)

  -- A percentage of at most a hundred.
  abbrev pub IsTrailable : TrailingStop F → Type 0
  IsTrailable s = is_percent s ≡ true → nought ≼ f.sub one (f.quot s.trail_amount (f.lit 100 0))

  raise_stop-keeps :
      (p : F) (s : TrailingStop F)
      → ((raise_stop p s).side ≡ s.side)
        × ((raise_stop p s).trail_mode ≡ s.trail_mode)
        × ((raise_stop p s).trail_amount ≡ s.trail_amount)
  unfolding raise_stop
  raise_stop-keeps p s = ground arith

  module _ (laws : IsOrdered F) (mono : IsMonotone F) where
    open mono use {sub_mono, mul_mono, round_mono}

    calculate_stop_sell-mono :
        (s : TrailingStop F) (p q : F)
        → IsTrailable s
        → p ≼ q
        → calculate_stop_sell s p ≼ calculate_stop_sell s q
    unfolding calculate_stop_sell
    calculate_stop_sell-mono s p q t h = elim (Bool-cases (is_percent s)) [
      | inl percent ↦ rw percent (round_mono _ _ 4 (mul_mono p q _ (t percent) h))
      | inr amount ↦ rw amount (round_mono _ _ 4 (sub_mono p q _ h))
    ]

    raise_stop-AtMark :
        (p : F) (s : TrailingStop F) → IsTrailable s → AtMark s → AtMark (raise_stop p s)
    unfolding raise_stop calculate_stop_sell is_percent
    raise_stop-AtMark p s t h =
        let old = calculate_stop_sell s s.high_water in
        let new = calculate_stop_sell s p in
        ground (
          arith,
          calculate_stop_sell-mono s s.high_water p t,
          le_of_lt laws s.high_water p,
          le_refl laws new,
          le_of_not_lt laws s.stop_price new,
          laws.le_trans s.stop_price old new,
        )

    update_price-AtMark :
        (p : F) (s : TrailingStop F)
        → is_sell s ≡ true
        → IsTrailable s
        → AtMark s
        → let s' = (update_price p s).0 in (is_sell s' ≡ true) × IsTrailable s' × AtMark s'
    unfolding update_price update_sell is_sell is_percent calculate_stop_sell
    update_price-AtMark p s sell t h =
        let counted = record s { update_count = s.update_count + 1 } in
        ground (arith, raise_stop-AtMark p counted t h, raise_stop-keeps p counted)

    feed-AtMark :
        (ps : List F) (s : TrailingStop F)
        → is_sell s ≡ true
        → IsTrailable s
        → AtMark s
        → AtMark (feed ps s)
    unfolding feed
    feed-AtMark [] s sell t h = h
    feed-AtMark (p ∷ ps) s sell t h =
        let (sell', t', h') = update_price-AtMark p s sell t h in
        feed-AtMark ps (update_price p s).0 sell' t' h'

    init-AtMark :
        (id token side : String) (price amount : F) (mode : String)
        → upper_is side "SELL" ≡ true
        → let s = init id token side price amount mode in (is_sell s ≡ true) × AtMark s
    unfolding init is_sell calculate_stop_sell is_percent
    init-AtMark id token side price amount mode sell = ground (
      arith,
      sell,
      le_refl laws (f.round (f.mul price (f.sub one (f.quot amount (f.lit 100 0)))) 4),
      le_refl laws (f.round (f.sub price amount) 4),
    )

    -- For a SELL order, with at most a hundred per cent where it trails by a percentage, after any
    -- prices the stop compares equal to the one calculated from the high-water mark.
    pub feed-init :
        (id token side : String) (price amount : F) (mode : String) (ps : List F)
        → upper_is side "SELL" ≡ true
        → IsTrailable (init id token side price amount mode)
        → AtMark (feed ps (init id token side price amount mode))
    feed-init id token side price amount mode ps sell t =
        let (is, mark) = init-AtMark id token side price amount mode sell in
        feed-AtMark ps (init id token side price amount mode) is t mark
