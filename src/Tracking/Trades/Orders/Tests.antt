-- ===== src/Tracking/Trades/Orders/Tests.antt =====
-- A trade in thousandths, and the theorems at concrete inputs.
use poly_cortex.Base.{
  ℕ, ◌≡◌, ◌≢◌, refl, true, false, Option, none, some, List, [], ◌∷◌, String, map_option,
}
use poly_cortex.Base.Int.{ℤ, pos, negsuc, ◌-ℤ◌}
use poly_cortex.Float.Milli.{milli}
use poly_cortex.Tracking.Trades.{Trade, closed, resolved, or_else}
use poly_cortex.Tracking.Trades.Orders.{
  OrderDict, EdgeDict, Meta, Database, get_trade, get_trade_id_for_order, close_trade_for_order,
  given, new_row, derive_entry_reason,
}
use poly_cortex.Tracking.Trades.Orders.Closed.{booking, close_trade_for_order-booked}
use poly_cortex.Tracking.Trades.Orders.Exits.{ExitsAt, IsYesPrice}
use poly_cortex.Tracking.Trades.Orders.History.{
  Call, insert, close, close_for_order, run, run-rows-Kept,
}
use poly_cortex.Tracking.Trades.Orders.Rows.{Kept}

abbrev order : OrderDict ℤ
order = record {
  order_id = some "o1";
  parent_order_id = none;
  status = some "filled";
  order_kind = none;
  order_type = none;
  filled_size_usdc = none;
  remaining_size_usdc = none;
  average_fill_price = some (pos 500);
  price = none;
  exchange_order_ids = none;
  oco_group_id = none;
  trigger_price = none;
  trigger_condition = none;
  take_profit_price = none;
  stop_loss_price = none;
  bracket_order_ids = none;
  bracket_state = none;
  last_fill_at = none;
  reduce_only = false;
}

abbrev exit : OrderDict ℤ
exit = record order {
  order_id = some "o2";
  parent_order_id = some "o1";
  average_fill_price = some (pos 600);
}

abbrev edge : EdgeDict ℤ
edge = record {
  market_id = "m";
  question = "q";
  direction = "YES";
  market_price = pos 500;
  edge = none;
  confidence = none;
  raw_estimated_prob = none;
  estimated_prob = some (pos 600);
  calibrated_prob = none;
  regime = none;
  category = none;
  signal_breakdown = some (("a", some (pos 10)) ∷ ("b", some (negsuc 19)) ∷ []);
}

abbrev meta : Meta
meta = record {
  entry_reason = none;
  timestamp = none;
  status = none;
  order_type = none;
  source = none;
  notes = none;
}

abbrev no_text : List (String × Option ℤ) → String
no_text signals = "{}"

abbrev row : ℕ → EdgeDict ℤ → OrderDict ℤ → Trade ℤ
row id e o = new_row no_text "now" id e (pos 10_000) false o meta

abbrev filled : Database ℤ
filled = record {
  rows = row 1 edge order ∷ row 2 edge (record order { order_id = some "o3" }) ∷ [];
  last_id = 2;
}

-- The signal of the greatest size is a negative one.
reason_of_edge : derive_entry_reason edge.signal_breakdown ≡ "strongest_signal:b"
unfolding derive_entry_reason ◌-ℤ◌
reason_of_edge = refl

close_trade_for_order-booked_example :
    let (ts', pnl) =
      close_trade_for_order true "later" closed "take_profit" none exit filled.rows in
    ((u : Trade ℤ) × (get_trade 1 ts' ≡ some u)
      × (u.status ≡ closed)
      × (u.pnl ≡ some pnl)
      × (u.closed_at ≡ some (or_else (given exit.last_fill_at) "later"))
      × ((p y : ℤ) × ExitsAt exit none p × IsYesPrice edge.direction p y × (u.exit_price ≡ some y)))
    × ((k : ℕ)
        → k ≢ 1
        → map_option booking (get_trade k ts') ≡ map_option booking (get_trade k filled.rows))
unfolding get_trade get_trade_id_for_order new_row
close_trade_for_order-booked_example =
    close_trade_for_order-booked "later" closed "take_profit" none exit filled.rows "o1" 1
      (row 1 edge order) refl refl refl

abbrev calls : List (String × Call ℤ)
calls =
    ("a", close_for_order true none "take_profit" closed exit)
    ∷ ("b", insert edge (pos 5_000) false order meta)
    ∷ ("c", close 1 (pos 0) resolved "again" none)
    ∷ []

run-rows-Kept_example :
    (u : Trade ℤ) × (get_trade 1 (run no_text filled calls).rows ≡ some u)
    × Kept ℤ (row 1 edge order) u
unfolding get_trade new_row
run-rows-Kept_example = run-rows-Kept no_text filled calls 1 (row 1 edge order) refl refl
