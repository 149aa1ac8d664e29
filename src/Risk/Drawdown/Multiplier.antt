-- ===== src/Risk/Drawdown/Multiplier.antt =====
-- The multiplier of risk/drawdown.py as a total function of the bankroll.
use poly_cortex.Base.{
  ◌≡◌, refl, Bool, true, false, some, arith, Bool-cases, inl, inr, if◌then◌else◌,
}
use poly_cortex.Float.{
  Float, ◌≼◌, ◌≺◌, nought, one, div, IsOrdered, IsMonotone, le_refl, lt_of_not_le, lt_of_le_lt,
  le_of_lt, div-pos, not-le_of_lt,
}
use poly_cortex.Risk.Drawdown.{
  DrawdownController, daily_limit_hit, scale, get_multiplier, should_close_all,
}

module _ {F : Type 0} ⦃f : Float F⦄ (laws : IsOrdered F) (mono : IsMonotone F) where
  open mono use {
    sub_mono, sub_anti, sub_nonneg, sub_pos, sub-le, zero-le-one, quot_mono, quot_nonneg,
    quot-le_one,
  }

  -- A multiplier, as a fraction of the full size.
  abbrev pub IsFraction : F → Type 0
  IsFraction x = (nought ≼ x) × (x ≼ one)

  -- The total function that the multiplier of a drawdown is.
  abbrev pub scaled : DrawdownController F → F → F
  scaled c dd =
      if f.le c.emergency_at dd
      then nought
      else if f.le c.stop_at dd
      then nought
      else if f.le c.reduce_at dd
      then f.sub one (f.quot (f.sub dd c.reduce_at) (f.sub c.stop_at c.reduce_at))
      else one

  -- Between the thresholds the divisor is above zero.
  band_pos :
      (c : DrawdownController F) (dd : F)
      → f.le c.stop_at dd ≡ false
      → c.reduce_at ≼ dd
      → nought ≺ f.sub c.stop_at c.reduce_at
  band_pos c dd below above =
      sub_pos c.reduce_at c.stop_at
        (lt_of_le_lt laws c.reduce_at dd c.stop_at above (lt_of_not_le laws c.stop_at dd below))

  scale-scaled : (c : DrawdownController F) (dd : F) → scale c dd ≡ some (scaled c dd)
  unfolding scale
  scale-scaled c dd =
      ground (arith, band_pos c dd, not-le_of_lt laws nought (f.sub c.stop_at c.reduce_at))

  band_bounds :
      (c : DrawdownController F) (dd : F)
      → f.le c.stop_at dd ≡ false
      → c.reduce_at ≼ dd
      → IsFraction (f.sub one (f.quot (f.sub dd c.reduce_at) (f.sub c.stop_at c.reduce_at)))
  band_bounds c dd below above =
      let width = f.sub c.stop_at c.reduce_at in
      let part = f.sub dd c.reduce_at in
      let pos = band_pos c dd below above in
      let within = le_of_lt laws dd c.stop_at (lt_of_not_le laws c.stop_at dd below) in
      let q = f.quot part width in
      (
        sub_nonneg q one (quot-le_one part width (sub_mono dd c.stop_at c.reduce_at within) pos),
        sub-le one q (quot_nonneg part width (sub_nonneg c.reduce_at dd above) pos),
      )

  scaled-IsFraction : (c : DrawdownController F) (dd : F) → IsFraction (scaled c dd)
  scaled-IsFraction c dd =
      ground (arith, band_bounds c dd, zero-le-one, le_refl laws nought, le_refl laws one)

  band_anti :
      (c : DrawdownController F) (x y : F)
      → x ≼ y
      → f.le c.stop_at y ≡ false
      → c.reduce_at ≼ y
      → let width = f.sub c.stop_at c.reduce_at in
        f.sub one (f.quot (f.sub y c.reduce_at) width)
        ≼ f.sub one (f.quot (f.sub x c.reduce_at) width)
  band_anti c x y h below above =
      let width = f.sub c.stop_at c.reduce_at in
      sub_anti (f.quot (f.sub x c.reduce_at) width) (f.quot (f.sub y c.reduce_at) width) one (
        quot_mono (f.sub x c.reduce_at) (f.sub y c.reduce_at) width (band_pos c y below above)
          (sub_mono x y c.reduce_at h))

  scaled-anti : (c : DrawdownController F) (x y : F) → x ≼ y → scaled c y ≼ scaled c x
  scaled-anti c x y h = ground (
    arith,
    laws.le_trans c.emergency_at x y,
    laws.le_trans c.stop_at x y,
    laws.le_trans c.reduce_at x y,
    scaled-IsFraction c x,
    scaled-IsFraction c y,
    band_anti c x y h,
    le_refl laws nought,
    le_refl laws one,
  )

  -- The multiplier as a total function.
  abbrev multiplier : F → DrawdownController F → F
  multiplier current c =
      if f.le c.peak nought
      then one
      else if daily_limit_hit c
      then nought
      else scaled c (f.quot (f.sub c.peak current) c.peak)

  div-peak :
      (current : F) (c : DrawdownController F)
      → f.le c.peak nought ≡ false
      → div (f.sub c.peak current) c.peak ≡ some (f.quot (f.sub c.peak current) c.peak)
  div-peak current c h =
      div-pos laws (f.sub c.peak current) c.peak (lt_of_not_le laws c.peak nought h)

  deeper :
      (x y : F) (c : DrawdownController F)
      → x ≼ y
      → f.le c.peak nought ≡ false
      → f.quot (f.sub c.peak y) c.peak ≼ f.quot (f.sub c.peak x) c.peak
  deeper x y c h above =
      quot_mono (f.sub c.peak y) (f.sub c.peak x) c.peak (lt_of_not_le laws c.peak nought above)
        (sub_anti x y c.peak h)

  get_multiplier-multiplier :
      (current : F) (c : DrawdownController F)
      → get_multiplier current c ≡ some (multiplier current c)
  unfolding get_multiplier
  get_multiplier-multiplier current c = elim (Bool-cases (f.le c.peak nought)) [
    | inl flat ↦ rw flat refl
    | inr above ↦ elim (Bool-cases (daily_limit_hit c)) [
      | inl hit ↦ rw (above, hit) refl
      | inr free ↦ rw (above, free) (scale-scaled c _)
    ]
  ]

  -- `get_multiplier` never divides by zero, whatever the thresholds, and its value lies between 0 and 1.
  pub get_multiplier-IsFraction :
      (current : F) (c : DrawdownController F)
      → (m : F) × (get_multiplier current c ≡ some m) × IsFraction m
  get_multiplier-IsFraction current c = (
    multiplier current c,
    get_multiplier-multiplier current c,
    ground (
      arith,
      scaled-IsFraction c (f.quot (f.sub c.peak current) c.peak),
      zero-le-one,
      le_refl laws nought,
      le_refl laws one,
    ),
  )

  -- With a smaller bankroll the multiplier is no greater.
  pub get_multiplier_mono :
      (x y : F) (c : DrawdownController F)
      → x ≼ y
      → (m n : F) × (get_multiplier x c ≡ some m) × (get_multiplier y c ≡ some n) × (m ≼ n)
  get_multiplier_mono x y c h = (
    multiplier x c,
    multiplier y c,
    get_multiplier-multiplier x c,
    get_multiplier-multiplier y c,
    ground (
      arith,
      le_refl laws one,
      le_refl laws nought,
      deeper x y c h,
      scaled-anti c (f.quot (f.sub c.peak y) c.peak) (f.quot (f.sub c.peak x) c.peak),
    ),
  )

  -- Whenever all positions are to be closed, the multiplier is 0.
  pub get_multiplier-should_close_all :
      (current : F) (c : DrawdownController F)
      → should_close_all current c ≡ some true
      → get_multiplier current c ≡ some nought
  unfolding should_close_all
  get_multiplier-should_close_all current c h =
      rw (get_multiplier-multiplier current c) (ground (arith, div-peak current c))

  -- The decision to close all positions divides by zero as little.
  pub should_close_all-total :
      (current : F) (c : DrawdownController F)
      → (close : Bool) × (should_close_all current c ≡ some close)
  unfolding should_close_all
  should_close_all-total current c = elim (Bool-cases (f.le c.peak nought)) [
    | inl flat ↦ (false, rw flat refl)
    | inr above ↦ (f.le c.emergency_at (f.quot (f.sub c.peak current) c.peak), rw above refl)
  ]
