-- ===== src/Intelligence/Anomaly/Severity.antt =====
-- The anomalies that `check` of intelligence/anomaly.py returns.
use poly_cortex.Base.{
  ◌≡◌, refl, ◌&&◌, [], ◌++◌, All, All-append, if_case, Bool-cases, inl, inr, arith,
}
use poly_cortex.Float.{
  Float, IsOrdered, IsMonotone, ◌≼◌, ◌≺◌, nought, one, abs, le-fmin, fmin-le_left, le_refl,
}
use poly_cortex.Intelligence.Anomaly.{
  Anomaly, AnomalyType, volume_spike, price_jump, spread_widening, liquidity_drop, AnomalyDetector,
  Observation, MarketTracker, excess, average, ratio_check, jump_check, price_std, anomalies_of,
  check, get_tracker, has_enough_data,
}

abbrev pub threshold_of : {F : Type 0} → AnomalyDetector F → AnomalyType → F
threshold_of d volume_spike = d.volume_spike_threshold
threshold_of d price_jump = d.price_jump_std_mult
threshold_of d spread_widening = d.spread_widen_threshold
threshold_of d liquidity_drop = d.liquidity_drop_threshold

module _ {F : Type 0} ⦃f : Float F⦄ where
  -- The thresholds are above 0, and the one of a jump at most the score that is shown for an infinite one.
  pub record IsConfigured (d : AnomalyDetector F) : Type 0 where
    pub volume_pos : nought ≺ d.volume_spike_threshold
    pub spread_pos : nought ≺ d.spread_widen_threshold
    pub jump_pos : nought ≺ d.price_jump_std_mult
    pub jump_shown : d.price_jump_std_mult ≼ f.lit 9999 1

  pub record IsFlagged (d : AnomalyDetector F) (o : Observation F) (a : Anomaly F) : Type 0 where
    pub own : a.market_id ≡ o.market_id
    pub over : threshold_of d a.anomaly_type ≼ a.ratio
    pub severity_low : nought ≼ a.severity
    pub severity_high : a.severity ≼ one

module _ {F : Type 0} ⦃f : Float F⦄ (laws : IsOrdered F) (mono : IsMonotone F) where
  excess_bounds :
      (ratio threshold : F)
      → nought ≺ threshold
      → threshold ≼ ratio
      → (nought ≼ excess ratio threshold) × (excess ratio threshold ≼ one)
  excess_bounds ratio threshold pos over = (
    le-fmin laws one (f.quot (f.sub ratio threshold) threshold) nought mono.zero-le-one (
        mono.quot_nonneg (f.sub ratio threshold) threshold (mono.sub_nonneg threshold ratio over)
          pos),
    fmin-le_left laws one (f.quot (f.sub ratio threshold) threshold),
  )

  module _ (d : AnomalyDetector F) (o : Observation F) (c : IsConfigured d) where
    ratio_check-IsFlagged :
        (type : AnomalyType) (value avg : F)
        → nought ≺ threshold_of d type
        → All (IsFlagged d o) (ratio_check type o.market_id (threshold_of d type) value avg)
    unfolding ratio_check
    ratio_check-IsFlagged type value avg pos =
        elim (Bool-cases
          (f.lt nought value && f.lt nought avg && f.le (threshold_of d type) (f.quot value avg))) [
            | inl e ↦ rw e (
              record {
                own = refl;
                over = ground (arith, e);
                severity_low =
                    (excess_bounds (f.quot value avg) (threshold_of d type) pos
                      (ground (arith, e))).0;
                severity_high =
                    (excess_bounds (f.quot value avg) (threshold_of d type) pos
                      (ground (arith, e))).1;
              },
              tt,
            )
            | inr e ↦ rw e tt
          ]

    jump_check-IsFlagged :
        (price avg std : F)
        → All (IsFlagged d o) (jump_check o.market_id d.price_jump_std_mult price avg std)
    unfolding jump_check
    jump_check-IsFlagged price avg std =
        let change = abs (f.sub price avg) in
        let z = f.quot change std in
        elim (Bool-cases (f.lt nought change && f.le nought std)) [
          | inr e ↦ rw e tt
          | inl e ↦ elim (Bool-cases (f.lt (f.lit 1 9) std)) [
            | inr k ↦
                rw (e, k)
                  (
                    record {
                      own = refl;
                      over = c.jump_shown;
                      severity_low = mono.zero-le-one;
                      severity_high = le_refl laws one;
                    },
                    tt,
                  )
            | inl k ↦ elim (Bool-cases (f.le d.price_jump_std_mult z)) [
              | inr l ↦ rw (e, k, l) tt
              | inl l ↦
                  rw (e, k, l)
                    (
                      record {
                        own = refl;
                        over = le-fmin laws z (f.lit 9999 1) d.price_jump_std_mult l c.jump_shown;
                        severity_low = (excess_bounds z d.price_jump_std_mult c.jump_pos l).0;
                        severity_high = (excess_bounds z d.price_jump_std_mult c.jump_pos l).1;
                      },
                      tt,
                    )
            ]
          ]
        ]

    anomalies_of-IsFlagged :
        (sqrt : F → F) (t : MarketTracker F) → All (IsFlagged d o) (anomalies_of sqrt d t o)
    unfolding anomalies_of
    anomalies_of-IsFlagged sqrt t =
        let volumes =
          ratio_check volume_spike o.market_id d.volume_spike_threshold o.volume
            (average t.volumes) in
        let jumps =
          jump_check o.market_id d.price_jump_std_mult o.price (average t.prices)
            (price_std sqrt t) in
        let spreads =
          ratio_check spread_widening o.market_id d.spread_widen_threshold o.spread
            (average t.spreads) in
        if_case (All (IsFlagged d o)) (has_enough_data t) (volumes ++ jumps ++ spreads) []
          (All-append (IsFlagged d o) (volumes ++ jumps) spreads
            (All-append (IsFlagged d o) volumes jumps
              (ratio_check-IsFlagged volume_spike o.volume (average t.volumes) c.volume_pos)
              (jump_check-IsFlagged o.price (average t.prices) (price_std sqrt t)))
            (ratio_check-IsFlagged spread_widening o.spread (average t.spreads) c.spread_pos))
          tt

    -- With thresholds above 0, of which the one for a jump is at most 999.9, the score that is shown at most,
    -- and whatever was observed before: an anomaly that a check returns is of the market checked, its ratio is
    -- at least the threshold of its kind, and its severity lies between 0 and 1.
    pub check-IsFlagged : (sqrt : F → F) → All (IsFlagged d o) (check sqrt o d).1
    unfolding check
    check-IsFlagged sqrt = anomalies_of-IsFlagged sqrt (get_tracker d o.market_id)
