-- ===== src/Intelligence/Anomaly/Tests.antt =====
-- A detector in thousandths, and the theorems at concrete inputs.
use poly_cortex.Base.{◌≡◌, refl, List, [], ◌∷◌, keep, str_eq, All}
use poly_cortex.Base.Int.{ℤ, pos, ◌+ℤ◌, ◌-ℤ◌}
use poly_cortex.Float.Milli.{milli, milli-IsOrdered, milli-IsMonotone}
use poly_cortex.Tracking.Tally.{lookup, text_key}
use poly_cortex.Intelligence.Anomaly.{AnomalyDetector, Observation, check, observe}
use poly_cortex.Intelligence.Anomaly.Windows.{seen, observe-windows}
use poly_cortex.Intelligence.Anomaly.Severity.{IsConfigured, IsFlagged, check-IsFlagged}

abbrev detector : AnomalyDetector ℤ
detector = record {
  volume_spike_threshold = pos 3_000;
  price_jump_std_mult = pos 3_000;
  spread_widen_threshold = pos 2_500;
  liquidity_drop_threshold = pos 500;
  window_size = 2;
  trackers = [];
  anomaly_count = 0;
}

abbrev small : Observation ℤ
small = record { market_id = "m"; price = pos 500; volume = pos 100_000; spread = pos 10 }

abbrev observations : List (Observation ℤ)
observations =
    small
    ∷ record small { price = pos 510; volume = pos 0 }
    ∷ record small { market_id = "other" }
    ∷ record small { price = pos 520 }
    ∷ []

abbrev sqrt : ℤ → ℤ
sqrt x = x

observe-windows_example :
    lookup "m" (observe sqrt observations detector).0.trackers
    ≡ seen 2 (keep (λ o. str_eq o.market_id "m") observations)
observe-windows_example = observe-windows sqrt observations detector "m" refl

abbrev steady : List (Observation ℤ)
steady = small ∷ small ∷ small ∷ small ∷ small ∷ []

abbrev wide : AnomalyDetector ℤ
wide = record detector { window_size = 10 }

abbrev spike : Observation ℤ
spike = record small { volume = pos 900_000; price = pos 700 }

wide-IsConfigured : IsConfigured (observe sqrt steady wide).0
unfolding observe
wide-IsConfigured = record {
  volume_pos = refl;
  spread_pos = refl;
  jump_pos = refl;
  jump_shown = refl;
}

check-IsFlagged_example :
    All
      (IsFlagged (observe sqrt steady wide).0 spike)
      (check sqrt spike (observe sqrt steady wide).0).1
check-IsFlagged_example =
    check-IsFlagged milli-IsOrdered milli-IsMonotone (observe sqrt steady wide).0 spike
      wide-IsConfigured sqrt

-- The spike of the volume and the jump of the price are found.
spike_found : (observe sqrt (spike ∷ []) (observe sqrt steady wide).0).0.anomaly_count ≡ 2
unfolding observe lookup ◌+ℤ◌ ◌-ℤ◌
spike_found = refl
