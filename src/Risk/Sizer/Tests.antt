-- ===== src/Risk/Sizer/Tests.antt =====
-- A position sized in thousandths, and the theorem at a concrete input.
use poly_cortex.Base.{◌≡◌, refl, true, none, some, List, [], ◌∷◌}
use poly_cortex.Base.Int.{ℤ, pos, ◌-ℤ◌, ◌+ℤ◌}
use poly_cortex.Float.Milli.{milli}
use poly_cortex.Risk.Sizer.{
  UnifiedPositionSizer, EdgeResult, Position, calculate_position, odds, kelly, traded_kelly,
  uncapped, capped, place,
}

abbrev sizer : UnifiedPositionSizer ℤ
sizer = record {
  bankroll = pos 1000_000;
  kelly_fraction = pos 250;
  max_position_pct = pos 20;
  max_portfolio_pct = pos 200;
  max_category_exposure_pct = pos 200;
  max_positions = 10;
  max_per_category = 3;
  min_confidence = pos 0;
  use_uncertainty_bands = true;
  uncertainty_z_score = pos 1500;
  min_position = pos 5000;
  max_single_loss_usdc = some (pos 15_000);
}

abbrev edge : EdgeResult ℤ
edge = record {
  estimated_prob = pos 700;
  market_price = pos 500;
  direction = "YES";
  confidence = pos 800;
  regime = "stable";
  category = "sport";
  spread = some (pos 20);
  uncertainty = some (pos 50);
}

abbrev held : List (Position ℤ)
held = record { size = some (pos 100_000); size_usdc = none; category = some "politics" } ∷ []

-- The cap on a single loss is the one that bites.
sized : calculate_position sizer edge held (pos 1000) ≡ some (pos 15_000)
unfolding calculate_position odds kelly traded_kelly uncapped capped place ◌-ℤ◌ ◌+ℤ◌
sized = refl
