-- ===== src/Tracking/Metrics/Fees.antt =====
-- `get_fee_summary` of src/polymarket_agent/tracking/tracker.py.
use poly_cortex.Base.{ℕ, ◌+◌, Bool, false, not, none, some, List, count, keep, ◌==◌, if◌then◌else◌}
use poly_cortex.Float.{Float, nought, sum}
use poly_cortex.Tracking.Trades.{Trade}
use poly_cortex.Tracking.Metrics.Totals.{given_values}

pub record FeeSummary (F : Type 0) : Type 0 where
  pub total_fees_usdc : F
  pub total_gas_usdc : F
  pub total_cost_usdc : F
  pub maker_count : ℕ
  pub taker_count : ℕ
  pub maker_ratio : F

abbrev made : {F : Type 0} → Trade F → Bool
made t = elim t.is_maker [ none ↦ false | some b ↦ b ]

abbrev taken : {F : Type 0} → Trade F → Bool
taken t = elim t.is_maker [ none ↦ false | some b ↦ not b ]

module _ {F : Type 0} ⦃f : Float F⦄ where
  -- `WHERE fee_usdc IS NOT NULL AND fee_usdc > 0`
  abbrev has_fee : Trade F → Bool
  has_fee t = elim t.fee_usdc [ none ↦ false | some x ↦ f.lt nought x ]

  pub get_fee_summary : List (Trade F) → FeeSummary F
  get_fee_summary rows =
      let paid = keep has_fee rows in
      let fees = sum (given_values (λ t. t.fee_usdc) paid) in
      let gas = sum (given_values (λ t. t.gas_cost_usdc) paid) in
      let makers = count made paid in
      let takers = count taken paid in
      record {
        total_fees_usdc = f.round fees 4;
        total_gas_usdc = f.round gas 4;
        total_cost_usdc = f.round (f.add fees gas) 4;
        maker_count = makers;
        taker_count = takers;
        maker_ratio =
            if makers + takers == 0
            then nought
            else f.round (f.quot (f.lit makers 0) (f.lit (makers + takers) 0)) 4;
      }
