-- ===== src/Tracking/Metrics/Tests.antt =====
-- Metrics in thousandths, and the theorems at concrete inputs.
use poly_cortex.Base.{
  ℕ, ◌≡◌, refl, true, false, Option, none, some, List, [], ◌∷◌, String, keep, str_eq,
}
use poly_cortex.Base.Int.{ℤ, pos, negsuc}
use poly_cortex.Float.Milli.{milli}
use poly_cortex.Tracking.Trades.{Trade, TradeEntry, closed, open_trade}
use poly_cortex.Tracking.Streaks.{Outcome, win, loss, flat, streaks}
use poly_cortex.Tracking.Streaks.Longest.{longest_run, last_of, closing_run, streaks_lem}
use poly_cortex.Tracking.Tally.{lookup, text_key}
use poly_cortex.Tracking.Metrics.{get_metrics}
use poly_cortex.Tracking.Metrics.Totals.{closed_rows, or_text}
use poly_cortex.Tracking.Metrics.Tables.{category_of}
use poly_cortex.Tracking.Metrics.Categories.{report_of, get_metrics-groups}

abbrev entry : TradeEntry ℤ
entry = record {
  question = "q";
  edge_at_entry = some (pos 100);
  confidence_at_entry = none;
  raw_estimated_prob = none;
  estimated_prob = some (pos 600);
  calibrated_prob = none;
  regime_at_entry = none;
  category = some "sports";
  signal_breakdown = none;
  is_paper = true;
  entry_reason = none;
  order_type = "limit";
  source = "agent";
  parent_order_id = none;
  oco_group_id = none;
  trigger_price = none;
  trigger_condition = none;
  reduce_only = false;
  order_kind = "entry";
}

abbrev row : Trade ℤ
row = record {
  id = 1;
  market_id = "m";
  direction = "YES";
  entry_price = pos 500;
  size_usdc = pos 10_000;
  timestamp = "2026-01-01";
  status = closed;
  exit_price = some (pos 600);
  pnl = some (pos 2_000);
  closed_at = some "2026-01-02";
  exit_reason = none;
  realized_roi = none;
  local_order_id = none;
  entry_order_status = some "filled";
  filled_size_usdc = none;
  average_fill_price = none;
  bracket_state = none;
  last_fill_at = none;
  fee_usdc = none;
  gas_cost_usdc = none;
  is_maker = none;
  notes = none;
  remaining_size_usdc = none;
  exchange_order_ids = none;
  take_profit_price = none;
  stop_loss_price = none;
  bracket_order_ids = none;
  entry = entry;
}

abbrev rows : List (Trade ℤ)
rows =
    row
    ∷ record row { id = 2; pnl = some (negsuc 999); entry = record entry { category = none } }
    ∷ record row { id = 3; status = open_trade; pnl = none }
    ∷ record row { id = 4; pnl = some (negsuc 499) }
    ∷ []

abbrev no_moment : String → Option ℕ
no_moment s = none

abbrev no_signals : String → Option (List (String × Option ℤ))
no_signals s = none

get_metrics-groups_example :
    let m = get_metrics no_moment no_signals rows in
    (lookup "sports" m.per_category_stats
      ≡ report_of (keep (λ t. str_eq (category_of t) "sports") (closed_rows rows)))
    × (lookup "sports" m.regime_stats
        ≡ report_of (
            keep
              (λ t. str_eq (or_text t.entry.regime_at_entry "unknown") "sports")
              (closed_rows rows)))
get_metrics-groups_example = get_metrics-groups no_moment no_signals rows "sports"

abbrev outcomes : List Outcome
outcomes = win ∷ win ∷ loss ∷ win ∷ flat ∷ loss ∷ loss ∷ []

current_streak : (streaks outcomes).current_count ≡ 2
unfolding streaks
current_streak = refl

streaks_lem_example :
    ((streaks outcomes).longest_win_streak ≡ longest_run win outcomes)
    × ((streaks outcomes).longest_loss_streak ≡ longest_run loss outcomes)
    × ((streaks outcomes).current_type ≡ last_of flat outcomes)
    × ((streaks outcomes).current_count ≡ closing_run (last_of flat outcomes) outcomes)
streaks_lem_example = streaks_lem outcomes
