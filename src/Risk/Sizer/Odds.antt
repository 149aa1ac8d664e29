-- ===== src/Risk/Sizer/Odds.antt =====
-- The divisions of risk/sizer.py.
use poly_cortex.Base.{◌≡◌, ◌&&◌, some, String, str_eq, if◌then◌else◌, arith, Bool-cases, inl, inr}
use poly_cortex.Float.{
  Float, ◌≼◌, ◌≺◌, nought, one, fmax, fmin, IsOrdered, IsMonotone, IsScaled, le-fmax_left, fmax-le,
  fmin-le_right, lt_trans_le, lt_of_le_lt, le_of_lt, div-pos,
}
use poly_cortex.Risk.Sizer.{
  UnifiedPositionSizer, EdgeResult, clamp_price, odds, win_prob, kelly, traded_kelly, get_or,
}

module _ {F : Type 0} ⦃f : Float F⦄ (laws : IsOrdered F) (mono : IsMonotone F)
    (scaled : IsScaled F) where
  price_pos : (x : F) → nought ≺ clamp_price x
  price_pos x =
      lt_trans_le laws nought (f.lit 1 2) (clamp_price x) scaled.cent_pos
        (le-fmax_left laws (f.lit 1 2) (fmin x (f.lit 99 2)))

  price_below : (x : F) → clamp_price x ≺ one
  price_below x =
      lt_of_le_lt laws (clamp_price x) (f.lit 99 2) one
        (fmax-le laws (f.lit 1 2) (fmin x (f.lit 99 2)) (f.lit 99 2) scaled.cent-le
          (fmin-le_right laws x (f.lit 99 2)))
        scaled.below_one

  quot_pos : (x y : F) → nought ≺ x → nought ≺ y → y ≼ one → nought ≺ f.quot x y
  quot_pos x y h k l =
      lt_trans_le laws nought x (f.quot x y) h (scaled.le-quot x y (le_of_lt laws nought x h) k l)

  -- The odds are above zero.
  pub odds_pos : (d : String) (x : F) → (b : F) × (odds d (clamp_price x) ≡ some b) × (nought ≺ b)
  unfolding odds
  odds_pos d x =
      let p = clamp_price x in
      let q = f.sub one p in
      let p_pos = price_pos x in
      let q_pos = mono.sub_pos p one (price_below x) in
      elim (Bool-cases (str_eq d "YES")) [
        | inl hit ↦ (
          f.quot q p,
          rw hit (div-pos laws q p p_pos),
          quot_pos q p q_pos p_pos (le_of_lt laws p one (price_below x)),
        )
        | inr miss ↦ (
          f.quot p q,
          rw miss (div-pos laws p q q_pos),
          quot_pos p q p_pos q_pos (mono.sub-le one p (le_of_lt laws nought p p_pos)),
        )
      ]

  kelly-total :
      (b p : F)
      → nought ≺ b
      → kelly b p ≡ some (f.quot (f.sub (f.mul b p) (f.sub one p)) (f.add b (f.lit 1 8)))
  unfolding kelly
  kelly-total b p h = div-pos laws _ _ (scaled.add_pos b (f.lit 1 8) h scaled.tiny_nonneg)

  pub traded_kelly-total :
      (s : UnifiedPositionSizer F) (e : EdgeResult F) (b : F)
      → nought ≺ b
      → (k : F) × (traded_kelly s e b ≡ some k)
  unfolding traded_kelly
  traded_kelly-total s e b h =
      let uncertainty = get_or e.uncertainty nought in
      let prob_lower =
        fmax (f.lit 1 2) (f.sub (win_prob e) (f.mul s.uncertainty_z_score uncertainty)) in
      let k =
        f.quot (f.sub (f.mul b (win_prob e)) (f.sub one (win_prob e))) (f.add b (f.lit 1 8)) in
      let lower =
        f.quot (f.sub (f.mul b prob_lower) (f.sub one prob_lower)) (f.add b (f.lit 1 8)) in
      (
        if f.le k nought
            then nought
            else if s.use_uncertainty_bands && f.lt nought uncertainty
            then lower
            else k,
        rw (kelly-total b (win_prob e) h, kelly-total b prob_lower h) (ground arith),
      )
