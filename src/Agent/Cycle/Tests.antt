-- ===== src/Agent/Cycle/Tests.antt =====
-- A cycle in thousandths, and the theorems at concrete inputs.
use poly_cortex.Base.{
  ℕ, zero, suc, max, ◌≤◌, ◌≡◌, refl, Bool, true, false, none, some, List, [], ◌∷◌, String,
  if◌then◌else◌,
}
use poly_cortex.Base.Int.{ℤ, pos, ◌-ℤ◌, ◌+ℤ◌}
use poly_cortex.Float.Milli.{milli, milli-IsOrdered, milli-IsMonotone, milli-IsScaled}
use poly_cortex.Risk.KillSwitch.{deactivated, failed, worked, is_active, switch_run}
use poly_cortex.Risk.Drawdown.{update, get_multiplier, scale, should_close_all, daily_limit_hit}
use poly_cortex.Risk.Sizer.{
  UnifiedPositionSizer, update_bankroll, calculate_position, odds, kelly, traded_kelly, uncapped,
  capped, place,
}
use poly_cortex.Risk.Sizer.Caps.{IsSane}
use poly_cortex.Execution.Executor.Guard.{Config, init, stored, unreachable}
use poly_cortex.Execution.Executor.Place.{World, PlaceRequest, without_id, place_order}
use poly_cortex.Tracking.Trades.{get_open_positions}
use poly_cortex.Tracking.Tally.{lookup}
use poly_cortex.Agent.Payload.{Opportunity, Texts}
use poly_cortex.Agent.Cycle.{Agent, CycleWorld, traded, halted, trade}
use poly_cortex.Agent.Cycle.Counts.{open_count, category_count}
use poly_cortex.Agent.Cycle.Slots.{trade-within_slots}
use poly_cortex.Agent.Cycle.Emergency.{trade-halts}
use poly_cortex.Agent.Cycle.Total.{trade-never_raises}

abbrev ticks : ℕ → String
ticks zero = String.[]
ticks (suc n) = String.◌∷◌ "a" (ticks n)

abbrev texts : Texts ℤ
texts = record { signals = λ s. "{}"; ids = λ i. "[]"; isoformat = λ t. "2026-01-01" }

abbrev sizer : UnifiedPositionSizer ℤ
sizer = record {
  bankroll = pos 1000_000;
  kelly_fraction = pos 250;
  max_position_pct = pos 20;
  max_portfolio_pct = pos 200;
  max_category_exposure_pct = pos 200;
  max_positions = 2;
  max_per_category = 1;
  min_confidence = pos 0;
  use_uncertainty_bands = true;
  uncertainty_z_score = pos 1500;
  min_position = pos 5000;
  max_single_loss_usdc = none;
}

sizer-IsSane : IsSane sizer
sizer-IsSane = record {
  bankroll_nonneg = refl;
  kelly_fraction_nonneg = refl;
  max_position_pct_nonneg = refl;
  max_loss_nonneg = tt;
}

abbrev executor_config : Config ℤ
executor_config = record {
  dry_run = true;
  split_orders_above = pos 50_000;
  order_expiry_minutes = 60;
  enable_bracket_orders = true;
  bracket_take_profit_pct = pos 60;
  bracket_stop_loss_pct = pos 35;
  gtt_ttl_minutes = 1440;
  paper_fill_on_place = true;
  paper_allow_partial_fills = true;
  paper_partial_fill_ratio = pos 500;
  paper_fill_tolerance = pos 2;
  live_reconcile_enabled = true;
  max_single_order_usdc = pos 500_000;
  dedup_window_seconds = 300;
  max_slippage_bps = pos 50_000;
}

abbrev agent : Agent ℤ
agent = record {
  config = record {
    dry_run = true;
    bankroll = pos 1000_000;
    opportunity_top_n = 10;
    max_slippage_bps = pos 50_000;
    taker_fee_rate = pos 20;
    enable_bracket_orders = true;
    bracket_take_profit_pct = pos 60;
    bracket_stop_loss_pct = pos 35;
    gtt_ttl_minutes = 1440;
  };
  bankroll = pos 1000_000;
  sizer = sizer;
  drawdown = record {
    reduce_at = pos 50;
    stop_at = pos 100;
    emergency_at = pos 200;
    peak = pos 1000_000;
    daily_loss_limit_usdc = none;
    pnl_today = pos 0;
    daily_reset_date = "2026-01-01";
  };
  executor = init executor_config false;
  database = record { rows = []; last_id = 0 };
  kill_file = none;
}

abbrev world : World ℤ
world = record {
  now = 1000;
  kill = (false, "");
  intent = stored;
  balance = unreachable;
  max_gas_gwei = pos 200_000;
  gas = unreachable;
  posts = λ i. without_id;
}

abbrev cycle_world : CycleWorld ℤ
cycle_world = record {
  worlds = λ i. world;
  order_books = λ m.
      some
        (record { token_id = "yes"; no_token_id = "no"; book = record { bids = []; asks = [] } });
  cancels = λ id. true;
  timestamp = "2026-01-01";
  kill_reply = worked;
  fromisoformat = λ s. none;
  loads = λ s. none;
}

abbrev opportunity : String → String → Opportunity ℤ
opportunity market_id category = record {
  estimated_prob = pos 700;
  market_price = pos 500;
  edge = pos 200;
  direction = "YES";
  confidence = pos 800;
  regime = "stable";
  market_id = market_id;
  question = "q";
  category = category;
  signal_breakdown = [];
  raw_estimated_prob = none;
  calibrated_prob = none;
}

abbrev opportunities : List (Opportunity ℤ)
opportunities =
    opportunity "m1" "sport"
    ∷ opportunity "m2" "sport"
    ∷ opportunity "m3" "politics"
    ∷ opportunity "m4" "art"
    ∷ []

-- The second has no slot in its category, the last none at all.
after_run : (trade ticks texts cycle_world opportunities agent).0.bankroll ≡ pos 960_400
unfolding trade calculate_position odds kelly traded_kelly uncapped capped place place_order
    get_open_positions update get_multiplier scale should_close_all daily_limit_hit update_bankroll
    init lookup ◌-ℤ◌ ◌+ℤ◌
after_run = refl

trade-within_slots_example :
    let after = (trade ticks texts cycle_world opportunities agent).0 in
    (open_count after ≤ max sizer.max_positions (open_count agent))
    × (category_count "sport" after ≤ max sizer.max_per_category (category_count "sport" agent))
trade-within_slots_example =
    trade-within_slots milli-IsOrdered ticks texts cycle_world opportunities agent "sport"

trade-never_raises_example :
    let result = trade ticks texts cycle_world opportunities agent in
    (close : Bool) × (should_close_all agent.bankroll (update agent.bankroll agent.drawdown)
      ≡ some close)
    × (result.1 ≡ (if close then halted else traded))
    × IsSane result.0.sizer
trade-never_raises_example =
    trade-never_raises milli-IsOrdered milli-IsMonotone milli-IsScaled ticks texts cycle_world
      opportunities agent sizer-IsSane (refl, (refl, (refl, (refl, tt)))) refl

-- A quarter of the bankroll is lost.
abbrev losing : Agent ℤ
losing = record agent { bankroll = pos 750_000 }

abbrev request : PlaceRequest ℤ
request = record {
  market_id = "m1";
  direction = "YES";
  size_usdc = pos 10_000;
  price = pos 500;
  token_id = "yes";
  bracket_spec = none;
  market_book = none;
}

-- A reading of the file after a removal that has failed.
abbrev later : World ℤ
later = record world {
  kill =
      is_active (λ s. s) worked
        (switch_run (deactivated (failed "busy") ∷ [])
          (trade ticks texts cycle_world opportunities losing).0.kill_file);
}

trade-halts_example :
    let result = trade ticks texts cycle_world opportunities losing in
    (result.1 ≡ halted)
    × (result.0.database ≡ losing.database)
    × (place_order ticks later request result.0.executor ≡ (result.0.executor, none))
unfolding should_close_all update ◌-ℤ◌ ◌+ℤ◌
trade-halts_example =
    trade-halts milli-IsOrdered milli-IsMonotone ticks texts cycle_world opportunities losing
      (deactivated (failed "busy") ∷ []) (λ s. s) worked later request refl refl refl refl
