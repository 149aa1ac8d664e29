-- ===== src/Tracking/Metrics/Categories.antt =====
-- The tables by category and by regime in `get_metrics` of tracking/tracker.py, against the rows of one key.
use poly_cortex.Base.{
  ℕ, ◌+◌, ◌≡◌, refl, ◌∙◌, ap, Option, none, some, List, [], ◌∷◌, map, keep, count, length, String,
  str_eq, map_option, arith, Bool-cases, inl, inr,
}
use poly_cortex.Float.{Float, sum_from}
use poly_cortex.Tracking.Trades.{Trade}
use poly_cortex.Tracking.Tally.{lookup, tally, text_key}
use poly_cortex.Tracking.Tally.Groups.{folded, lookup-tally}
use poly_cortex.Tracking.Metrics.{get_metrics}
use poly_cortex.Tracking.Metrics.Totals.{pnl_or_zero, is_win, per, total_of, closed_rows, or_text}
use poly_cortex.Tracking.Metrics.Tables.{
  GroupStats, GroupReport, on_values, no_stats, add_stats, report, category_of, per_category_stats,
  regime_stats,
}

lookup-on_values :
    {B C : Type 0} (k : String) (g : B → C) (m : List (String × B))
    → lookup k (on_values g m) ≡ map_option g (lookup k m)
unfolding lookup
lookup-on_values k g [] = refl
lookup-on_values k g ((j, v) ∷ m) = elim (Bool-cases (str_eq j k)) [
  | inl e ↦ rw e refl
  | inr e ↦ rw e (lookup-on_values k g m)
]

module _ {F : Type 0} ⦃f : Float F⦄ where
  -- The statistics of some rows and of those that follow them.
  abbrev with_rows : GroupStats F → List (Trade F) → GroupStats F
  with_rows s ts = record {
    count = s.count + length ts;
    total_pnl = sum_from s.total_pnl (map pnl_or_zero ts);
    wins = s.wins + count is_win ts;
  }

  folded-add_stats :
      (key : Trade F → Option String) (s : GroupStats F) (ts : List (Trade F))
      → folded key no_stats add_stats (some s) ts ≡ some (with_rows s ts)
  folded-add_stats key s [] = ground arith
  folded-add_stats key s (t ∷ ts) = ground (arith, folded-add_stats key (add_stats t s) ts)

  -- The report of some rows alone, and none of no rows.
  pub report_of : List (Trade F) → Option (GroupReport F)
  report_of [] = none
  report_of (t ∷ ts) = some (record {
    count = length (t ∷ ts);
    total_pnl = total_of pnl_or_zero (t ∷ ts);
    win_rate = per (f.lit (count is_win (t ∷ ts)) 0) (length (t ∷ ts));
  })

  report-folded :
      (key : Trade F → Option String) (ts : List (Trade F))
      → map_option report (folded key no_stats add_stats none ts) ≡ report_of ts
  unfolding report_of
  report-folded key [] = refl
  report-folded key (t ∷ ts) =
      ap (map_option report) (folded-add_stats key (add_stats t no_stats) ts) ∙ ground arith

  lookup-report :
      (key : Trade F → String) (k : String) (ts : List (Trade F))
      → lookup k (on_values report (tally (λ t. some (key t)) no_stats add_stats ts))
        ≡ report_of (keep (λ t. str_eq (key t) k) ts)
  lookup-report key k ts =
      lookup-on_values k report (tally (λ t. some (key t)) no_stats add_stats ts)
      ∙ ap (map_option report) (lookup-tally (λ t. some (key t)) no_stats add_stats k ts)
      ∙ report-folded (λ t. some (key t)) (keep (λ t. str_eq (key t) k) ts)

  -- In the metrics, the entry of a category has the number, the total profit and the share of wins of the closed
  -- rows of that category taken alone, and there is none where no closed row has it; likewise for a regime.
  pub get_metrics-groups :
      (fromisoformat : String → Option ℕ) (loads : String → Option (List (String × Option F)))
      (rows : List (Trade F)) (k : String)
      → let m = get_metrics fromisoformat loads rows in
        (lookup k m.per_category_stats
          ≡ report_of (keep (λ t. str_eq (category_of t) k) (closed_rows rows)))
        × (lookup k m.regime_stats
            ≡ report_of (
                keep
                  (λ t. str_eq (or_text t.entry.regime_at_entry "unknown") k)
                  (closed_rows rows)))
  unfolding get_metrics per_category_stats regime_stats
  get_metrics-groups fromisoformat loads rows k =
      (lookup-report category_of k (closed_rows rows), lookup-report _ k (closed_rows rows))
