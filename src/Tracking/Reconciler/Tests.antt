-- ===== src/Tracking/Reconciler/Tests.antt =====
-- A reconciliation in thousandths, and the theorems at concrete inputs.
use poly_cortex.Base.{◌≡◌, refl, true, false, none, some, List, [], ◌∷◌}
use poly_cortex.Base.Int.{ℤ, pos, negsuc, ◌-ℤ◌}
use poly_cortex.Float.Milli.{milli}
use poly_cortex.Tracking.Trades.{
  Trade, TradeEntry, open_trade, pnl_at, entry_yes_price, exit_yes_price, net_pnl, clamp,
}
use poly_cortex.Tracking.Reconciler.{PositionReconciler, ExecutorOrder, check_phantom_positions}
use poly_cortex.Tracking.Reconciler.Heal.{check_phantom_positions-settled}

abbrev entry : TradeEntry ℤ
entry = record {
  question = "q";
  edge_at_entry = none;
  confidence_at_entry = none;
  raw_estimated_prob = none;
  estimated_prob = none;
  calibrated_prob = none;
  regime_at_entry = none;
  category = none;
  signal_breakdown = none;
  is_paper = true;
  entry_reason = none;
  order_type = "limit";
  source = "agent";
  parent_order_id = none;
  oco_group_id = none;
  trigger_price = none;
  trigger_condition = none;
  reduce_only = false;
  order_kind = "entry";
}

abbrev trade : Trade ℤ
trade = record {
  id = 1;
  market_id = "m1";
  direction = "NO";
  entry_price = pos 300;
  size_usdc = pos 70_000;
  timestamp = "2026-01-01T00:00:00+00:00";
  status = open_trade;
  exit_price = none;
  pnl = none;
  closed_at = none;
  exit_reason = none;
  realized_roi = none;
  local_order_id = some "o1";
  entry_order_status = some "filled";
  filled_size_usdc = none;
  average_fill_price = none;
  bracket_state = some "inactive";
  last_fill_at = none;
  fee_usdc = none;
  gas_cost_usdc = none;
  is_maker = none;
  notes = none;
  remaining_size_usdc = none;
  exchange_order_ids = none;
  take_profit_price = none;
  stop_loss_price = none;
  bracket_order_ids = none;
  entry = entry;
}

abbrev lost : Trade ℤ
lost = record trade { id = 2; market_id = "m2"; local_order_id = some "o2" }

abbrev order : ExecutorOrder ℤ
order = record {
  order_id = "o1";
  market_id = "m1";
  status = "filled";
  order_kind = "entry";
  filled_size_usdc = pos 70_000;
}

abbrev closing : PositionReconciler ℤ
closing = record { stale_hours = pos 48_000; auto_close_phantoms = true }

abbrev trades : List (Trade ℤ)
trades = lost ∷ trade ∷ []

-- A NO trade that is closed at its own entry price, 0.3, loses 40 of 70.
closed_at_entry : pnl_at trade trade.entry_price ≡ negsuc 39_999
unfolding pnl_at entry_yes_price exit_yes_price net_pnl clamp ◌-ℤ◌
closed_at_entry = refl

check_phantom_positions-settled_example :
    let ts' = (check_phantom_positions closing "now" (order ∷ []) trades).1 in
    check_phantom_positions closing "later" (order ∷ []) ts' ≡ ([], ts')
check_phantom_positions-settled_example =
    check_phantom_positions-settled closing "now" "later" (order ∷ []) trades refl
