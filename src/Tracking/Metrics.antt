-- ===== src/Tracking/Metrics.antt =====
-- src/polymarket_agent/tracking/tracker.py: `get_metrics`, and the snapshot that is taken of it.
pub mod Totals
pub mod Tables
mod Fees
pub mod Categories
mod Tests
use poly_cortex.Base.{
  ℕ, ◌-◌, Bool, not, Option, none, some, List, [], ◌∷◌, ◌++◌, map, keep, count, length, String,
  str_eq,
}
use poly_cortex.Float.{Float, nought}
use poly_cortex.Tracking.Trades.{Trade}
use poly_cortex.Tracking.Streaks.{Streaks, streaks}
use poly_cortex.Tracking.Tally.{lookup, text_key}
use poly_cortex.Tracking.Metrics.Totals.{
  or_text, closed_rows, open_rows, ordered_closed, given_values, is_paper, pnl_or_zero, is_win,
  outcome, effective_size_usdc, per, mean, total_of, gross_profit, gross_loss, profit_factor,
  avg_loss, best_trade, worst_trade, last_ten,
}
use poly_cortex.Tracking.Metrics.Tables.{
  Bucket, GroupReport, SignalReport, brier_score, raw_brier_score, calibration, per_category_stats,
  regime_stats, exposure_by_category, direction_stats, exposure_by_direction, per_signal_accuracy,
  counts_by, status_text,
}

pub record Metrics (F : Type 0) : Type 0 where
  pub total_pnl : F
  pub win_rate : F
  pub trade_count : ℕ
  pub closed_count : ℕ
  pub brier_score : Option F
  pub raw_brier_score : Option F
  pub calibration_gain : Option F
  pub avg_edge : F
  pub avg_confidence : F
  pub avg_trade_size : F
  pub gross_profit : F
  pub gross_loss : F
  pub profit_factor : Option F
  pub avg_win : F
  pub avg_loss : F
  pub expectancy : F
  pub best_trade : F
  pub worst_trade : F
  pub per_category_stats : List (String × GroupReport F)
  pub per_signal_accuracy : List (String × SignalReport F)
  pub direction_stats : List (String × GroupReport F)
  pub regime_stats : List (String × GroupReport F)
  pub open_count : ℕ
  pub current_exposure : F
  pub exposure_by_category : List (String × F)
  pub exposure_by_direction : List (String × F)
  pub paper_count : ℕ
  pub live_count : ℕ
  pub paper_open_count : ℕ
  pub live_open_count : ℕ
  pub streaks : Streaks
  pub recent_trade_count : ℕ
  pub recent_pnl : F
  pub recent_win_rate : F
  pub calibration : List (ℕ × Bucket F)
  pub status_counts : List (String × ℕ)
  pub source_counts : List (String × ℕ)
  pub entry_status_counts : List (String × ℕ)
  pub pending_entry_count : ℕ
  pub partial_fill_count : ℕ
  pub armed_bracket_count : ℕ

abbrev pub or_none : {A : Type 0} → A → Option A → A
or_none d none = d
or_none d (some x) = x

abbrev pub gain : {F : Type 0} → (F → F → F) → Option F → Option F → Option F
gain sub none b = none
gain sub (some a) none = none
gain sub (some a) (some b) = some (sub a b)

module _ {F : Type 0} ⦃f : Float F⦄ where
  -- `datetime.fromisoformat` and `json.loads` are arguments.
  unfoldable pub get_metrics :
      (String → Option ℕ)
      → (String → Option (List (String × Option F)))
      → List (Trade F)
      → Metrics F
  unfolding closed_rows open_rows ordered_closed gross_profit gross_loss profit_factor avg_loss
      best_trade worst_trade brier_score raw_brier_score calibration per_category_stats regime_stats
      exposure_by_category direction_stats exposure_by_direction per_signal_accuracy counts_by
  get_metrics fromisoformat loads rows =
      let done = closed_rows rows in
      let active = open_rows rows in
      let recent = last_ten (ordered_closed fromisoformat rows) in
      let entry_statuses = counts_by (λ t. or_text t.entry_order_status "unknown") rows in
      record {
        total_pnl = total_of pnl_or_zero done;
        win_rate = per (f.lit (count is_win done) 0) (length done);
        trade_count = length done;
        closed_count = length done;
        brier_score = brier_score done;
        raw_brier_score = raw_brier_score done;
        calibration_gain = gain f.sub (raw_brier_score done) (brier_score done);
        avg_edge = mean (given_values (λ t. t.entry.edge_at_entry) done);
        avg_confidence = mean (given_values (λ t. t.entry.confidence_at_entry) done);
        avg_trade_size = per (total_of effective_size_usdc done) (length done);
        gross_profit = gross_profit done;
        gross_loss = gross_loss done;
        profit_factor = profit_factor done;
        avg_win = per (gross_profit done) (count is_win done);
        avg_loss = avg_loss done;
        expectancy = per (total_of pnl_or_zero done) (length done);
        best_trade = best_trade done;
        worst_trade = worst_trade done;
        per_category_stats = per_category_stats done;
        per_signal_accuracy = per_signal_accuracy loads done;
        direction_stats = direction_stats done;
        regime_stats = regime_stats done;
        open_count = length active;
        current_exposure = total_of effective_size_usdc active;
        exposure_by_category = exposure_by_category active;
        exposure_by_direction = exposure_by_direction active;
        paper_count = count is_paper rows;
        live_count = length rows - count is_paper rows;
        paper_open_count = count is_paper active;
        live_open_count = length active - count is_paper active;
        streaks = streaks (map outcome (ordered_closed fromisoformat rows));
        recent_trade_count = length recent;
        recent_pnl = total_of pnl_or_zero recent;
        recent_win_rate = per (f.lit (count is_win recent) 0) (length recent);
        calibration = calibration done;
        status_counts = counts_by (λ t. status_text t.status) rows;
        source_counts = counts_by (λ t. or_text (some t.entry.source) "agent") rows;
        entry_status_counts = entry_statuses;
        pending_entry_count = or_none 0 (lookup "placed" entry_statuses);
        partial_fill_count = or_none 0 (lookup "partially_filled" entry_statuses);
        armed_bracket_count = count (λ t. str_eq (or_text t.bracket_state "") "armed") rows;
      }

-- A row of the table `snapshots`.
pub record Snapshot (F : Type 0) : Type 0 where
  pub timestamp : String
  pub bankroll : F
  pub total_pnl : F
  pub open_positions_count : ℕ
  pub drawdown : F
  pub brier : Option F
  pub win_rate : F
  pub profit_factor : Option F
  pub open_exposure : F

abbrev pub snapshot : {F : Type 0} → String → F → F → Metrics F → Snapshot F
snapshot now bankroll drawdown m = record {
  timestamp = now;
  bankroll = bankroll;
  total_pnl = m.total_pnl;
  open_positions_count = m.open_count;
  drawdown = drawdown;
  brier = m.brier_score;
  win_rate = m.win_rate;
  profit_factor = m.profit_factor;
  open_exposure = m.current_exposure;
}

module _ {F : Type 0} ⦃f : Float F⦄ where
  unfoldable pub record_snapshot :
      (String → Option ℕ)
      → (String → Option (List (String × Option F)))
      → String
      → F
      → F
      → List (Trade F)
      → List (Snapshot F)
      → List (Snapshot F)
  record_snapshot fromisoformat loads now bankroll drawdown rows snapshots =
      snapshots ++ (snapshot now bankroll drawdown (get_metrics fromisoformat loads rows) ∷ [])
