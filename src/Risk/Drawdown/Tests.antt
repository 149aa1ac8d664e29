-- ===== src/Risk/Drawdown/Tests.antt =====
-- Runs of the drawdown controller and of the daily loss tracker in thousandths, and the theorems at
-- concrete inputs.
use poly_cortex.Base.{◌≡◌, refl, some, none, List, if◌then◌else◌, [], ◌∷◌}
use poly_cortex.Base.Int.{ℤ, pos, negsuc, ◌-ℤ◌, ◌+ℤ◌}
use poly_cortex.Float.{◌≼◌, nought, sum, neg, abs}
use poly_cortex.Float.Milli.{milli, milli-IsOrdered, milli-IsMonotone}
use poly_cortex.Risk.Drawdown.{
  DrawdownController, daily_limit_hit, get_multiplier, scale, record_trade_pnl, update,
  DailyLossTracker,
}
use poly_cortex.Risk.Drawdown.Multiplier.{
  IsFraction, get_multiplier-IsFraction, get_multiplier_mono,
}
use poly_cortex.Risk.Drawdown.Daily.{
  DayCall, traded, updated, amounts, day_run, get_multiplier-day_run,
}

-- Thresholds of 5, 10 and 20 percent, for a bankroll of 100.
abbrev c100 : DrawdownController ℤ
c100 = record {
  reduce_at = pos 50;
  stop_at = pos 100;
  emergency_at = pos 200;
  peak = pos 100_000;
  daily_loss_limit_usdc = some (pos 5000);
  pnl_today = pos 0;
  daily_reset_date = "2026-01-01";
}

-- Half way between the thresholds half of the size is left.
half_way : get_multiplier (pos 92_500) c100 ≡ some (pos 500)
unfolding get_multiplier scale daily_limit_hit ◌-ℤ◌
half_way = refl

get_multiplier-IsFraction_example :
    (m : ℤ) × (get_multiplier (pos 92_500) c100 ≡ some m)
    × IsFraction milli-IsOrdered milli-IsMonotone m
get_multiplier-IsFraction_example =
    get_multiplier-IsFraction milli-IsOrdered milli-IsMonotone (pos 92_500) c100

get_multiplier_mono_example :
    (m n : ℤ) × (get_multiplier (pos 91_000) c100 ≡ some m)
    × (get_multiplier (pos 92_500) c100 ≡ some n)
    × (m ≼ n)
get_multiplier_mono_example =
    get_multiplier_mono milli-IsOrdered milli-IsMonotone (pos 91_000) (pos 92_500) c100 refl

abbrev yesterday : DailyLossTracker ℤ
yesterday = record {
  daily_loss_limit_usdc = pos 5000;
  pnl_today = negsuc 8999;
  reset_date = "2026-01-01";
}

-- Two losses of four, of which the limit of five is reached by the second.
abbrev losses : List (DayCall ℤ)
losses = updated (pos 96_000) ∷ traded (negsuc 3999) ∷ []

halted_day :
    get_multiplier (pos 92_000) (day_run "2026-01-02" (traded (negsuc 3999) ∷ losses) c100)
    ≡ some (pos 0)
unfolding get_multiplier scale daily_limit_hit record_trade_pnl update ◌-ℤ◌ ◌+ℤ◌
halted_day = refl

get_multiplier-day_run_example :
    let c' = day_run "2026-01-02" (traded (negsuc 3999) ∷ losses) c100 in
    get_multiplier (pos 92_000) c' ≡ (
      if milli.le (sum (negsuc 3999 ∷ amounts losses)) (neg (abs (pos 5000)))
      then some nought
      else get_multiplier (pos 92_000) (record c' { daily_loss_limit_usdc = none }))
get_multiplier-day_run_example =
    get_multiplier-day_run milli-IsOrdered "2026-01-02" (negsuc 3999) losses (pos 92_000) (pos 5000)
      c100 refl refl refl
