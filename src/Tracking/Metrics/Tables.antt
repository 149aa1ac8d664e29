-- ===== src/Tracking/Metrics/Tables.antt =====
-- The tables of `get_metrics` of src/polymarket_agent/tracking/tracker.py: calibration, categories, directions,
-- regimes, signals and statuses.
use poly_cortex.Base.{
  ℕ, ◌+◌, min, Bool, false, not, ◌&&◌, ◌||◌, Option, none, some, List, [], ◌∷◌, map, keep, count,
  length, ltb, sorted, ◌++◌, String, str_eq, if◌then◌else◌,
}
use poly_cortex.Float.{Float, nought, one}
use poly_cortex.Tracking.Trades.{Trade, TradeStatus, open_trade, closed, resolved}
use poly_cortex.Tracking.Tally.{tally, text_key, number_key}
use poly_cortex.Tracking.Metrics.Totals.{
  or_text, pnl_or_zero, is_win, effective_size_usdc, per, mean, total_of,
}

pub record Bucket (F : Type 0) : Type 0 where
  pub predicted : F
  pub actual : F
  pub count : ℕ

pub record GroupStats (F : Type 0) : Type 0 where
  pub count : ℕ
  pub total_pnl : F
  pub wins : ℕ

-- As returned, with the share of wins in place of their number.
pub record GroupReport (F : Type 0) : Type 0 where
  pub count : ℕ
  pub total_pnl : F
  pub win_rate : F

pub record SignalStats : Type 0 where
  pub correct : ℕ
  pub total : ℕ

pub record SignalReport (F : Type 0) : Type 0 where
  pub accuracy : F
  pub count : ℕ

-- A row with an estimate, its outcome and the estimate before the calibration.
pub record Forecast (F : Type 0) : Type 0 where
  pub prob : F
  pub raw_prob : F
  pub outcome : F

abbrev pub status_text : TradeStatus → String
status_text open_trade = "open"
status_text closed = "closed"
status_text resolved = "resolved"

abbrev pub on_values : {A B C : Type 0} → (B → C) → List (A × B) → List (A × C)
on_values g [] = []
on_values g ((k, v) ∷ m) = (k, g v) ∷ on_values g m

module _ {F : Type 0} ⦃f : Float F⦄ where
  unfoldable pub forecasts : List (Trade F) → List (Forecast F)
  forecasts [] = []
  forecasts (t ∷ ts) =
      let rest = forecasts ts in
      elim t.entry.estimated_prob [
        | none ↦ rest
        | some prob ↦
            record {
              prob = prob;
              raw_prob = elim t.entry.raw_estimated_prob [ none ↦ prob | some raw ↦ raw ];
              outcome = if is_win t then one else nought;
            }
            ∷ rest
      ]

  abbrev pub square_error : F → F → F
  square_error p o = f.mul (f.sub p o) (f.sub p o)

  abbrev pub mean_or_none : List F → Option F
  mean_or_none [] = none
  mean_or_none (x ∷ xs) = some (mean (x ∷ xs))

  unfoldable pub brier_score : List (Trade F) → Option F
  unfolding forecasts
  brier_score rows = mean_or_none (map (λ c. square_error c.prob c.outcome) (forecasts rows))

  unfoldable pub raw_brier_score : List (Trade F) → Option F
  unfolding forecasts
  raw_brier_score rows =
      mean_or_none (map (λ c. square_error c.raw_prob c.outcome) (forecasts rows))

  abbrev pub bucket_of : Forecast F → ℕ
  bucket_of c = min (f.trunc (f.mul c.prob (f.lit 10 0))) 9

  abbrev pub no_bucket : Bucket F
  no_bucket = record { predicted = nought; actual = nought; count = 0 }

  abbrev pub add_forecast : Forecast F → Bucket F → Bucket F
  add_forecast c b = record {
    predicted = f.add b.predicted c.prob;
    actual = f.add b.actual c.outcome;
    count = b.count + 1;
  }

  -- The buckets in their order, with averages.
  unfoldable pub calibration : List (Trade F) → List (ℕ × Bucket F)
  unfolding forecasts
  calibration rows =
      on_values
        (λ b. record {
          predicted = per b.predicted b.count;
          actual = per b.actual b.count;
          count = b.count;
        })
        (sorted (λ a b. ltb a.0 b.0)
          (tally (λ c. some (bucket_of c)) no_bucket add_forecast (forecasts rows)))

  abbrev pub no_stats : GroupStats F
  no_stats = record { count = 0; total_pnl = nought; wins = 0 }

  abbrev pub add_stats : Trade F → GroupStats F → GroupStats F
  add_stats t s = record {
    count = s.count + 1;
    total_pnl = f.add s.total_pnl (pnl_or_zero t);
    wins = if is_win t then s.wins + 1 else s.wins;
  }

  abbrev pub report : GroupStats F → GroupReport F
  report s = record {
    count = s.count;
    total_pnl = s.total_pnl;
    win_rate = per (f.lit s.wins 0) s.count;
  }

  abbrev pub category_of : Trade F → String
  category_of t = or_text t.entry.category "unknown"

  unfoldable pub per_category_stats : List (Trade F) → List (String × GroupReport F)
  per_category_stats rows =
      on_values report (tally (λ t. some (category_of t)) no_stats add_stats rows)

  unfoldable pub regime_stats : List (Trade F) → List (String × GroupReport F)
  regime_stats rows =
      on_values report
        (tally (λ t. some (or_text t.entry.regime_at_entry "unknown")) no_stats add_stats rows)

  unfoldable pub exposure_by_category : List (Trade F) → List (String × F)
  exposure_by_category rows =
      tally (λ t. some (category_of t)) nought (λ t x. f.add x (effective_size_usdc t)) rows

  abbrev pub in_direction : String → List (Trade F) → List (Trade F)
  in_direction d rows = keep (λ t. str_eq t.direction d) rows

  unfoldable pub direction_report : String → List (Trade F) → GroupReport F
  direction_report d rows =
      let own = in_direction d rows in
      record {
        count = length own;
        total_pnl = total_of pnl_or_zero own;
        win_rate = per (f.lit (count is_win own) 0) (length own);
      }

  unfoldable pub direction_stats : List (Trade F) → List (String × GroupReport F)
  unfolding direction_report
  direction_stats rows =
      ("YES", direction_report "YES" rows) ∷ ("NO", direction_report "NO" rows) ∷ []

  unfoldable pub exposure_by_direction : List (Trade F) → List (String × F)
  exposure_by_direction rows =
      ("YES", total_of effective_size_usdc (in_direction "YES" rows))
      ∷ ("NO", total_of effective_size_usdc (in_direction "NO" rows))
      ∷ []

  -- The signals of a row with whether the trade won; `json.loads` gives none for a text that is no dictionary,
  -- and a value that is no number is none.
  unfoldable pub votes :
      (String → Option (List (String × Option F)))
      → List (Trade F)
      → List (String × Option F × Bool)
  votes loads [] = []
  votes loads (t ∷ ts) =
      let rest = votes loads ts in
      let text = or_text t.entry.signal_breakdown "" in
      if str_eq text "" then rest else elim (loads text) [
        | none ↦ rest
        | some signals ↦ map (λ s. (s.0, s.1, is_win t)) signals ++ rest
      ]

  abbrev pub voter : String × Option F × Bool → Option String
  voter (name, none, won) = none
  voter (name, some x, won) = some name

  abbrev pub is_correct : String × Option F × Bool → Bool
  is_correct (name, none, won) = false
  is_correct (name, some x, won) =
      let positive = f.lt nought x in (positive && won) || (not positive && not won)

  unfoldable pub per_signal_accuracy :
      (String → Option (List (String × Option F))) → List (Trade F) → List (String × SignalReport F)
  unfolding votes
  per_signal_accuracy loads rows =
      on_values
        (λ (s : SignalStats). record {
          accuracy = per (f.lit s.correct 0) s.total;
          count = s.total;
        })
        (tally voter (record { correct = 0; total = 0 })
          (λ v s. record {
            correct = if is_correct v then s.correct + 1 else s.correct;
            total = s.total + 1;
          })
          (votes loads rows))

  unfoldable pub counts_by : (Trade F → String) → List (Trade F) → List (String × ℕ)
  counts_by key rows = tally (λ t. some (key t)) 0 (λ t n. n + 1) rows
