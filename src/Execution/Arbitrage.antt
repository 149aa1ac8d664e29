-- ===== src/Execution/Arbitrage.antt =====
-- src/polymarket_agent/execution/arbitrage.py. A key that a market may lack is an option.
pub mod Found
mod Tests
use poly_cortex.Base.{
  Bool, true, false, not, ◌&&◌, ◌||◌, Option, none, some, List, [], ◌∷◌, sorted, String,
  if◌then◌else◌,
}
use poly_cortex.Float.{Float, nought, one}

pub record Market (F : Type 0) : Type 0 where
  pub market_id : String
  pub question : String
  pub yes_ask : Option F
  pub no_ask : Option F
  pub spread : Option F

pub record ArbitrageOpportunity (F : Type 0) : Type 0 where
  pub market_id : String
  pub question : String
  pub yes_price : F
  pub no_price : F
  pub gap : F
  pub spread_cost : F
  pub fee : F
  pub profit_after_costs : F

module _ {F : Type 0} ⦃f : Float F⦄ where
  -- Twice the spread, of two cents where it is not given.
  abbrev pub spread_cost_of : Market F → F
  spread_cost_of market =
      f.mul (elim market.spread [ none ↦ f.lit 2 2 | some spread ↦ spread ]) (f.lit 2 0)

  unfoldable pub opportunity : F → Market F → F → F → Option (ArbitrageOpportunity F)
  opportunity fee market yes_ask no_ask =
      let gap = f.sub one (f.add yes_ask no_ask) in
      let spread_cost = spread_cost_of market in
      let cost = f.add spread_cost fee in
      if f.le yes_ask nought || f.le no_ask nought
      then none
      else if f.lt cost gap
      then some (record {
        market_id = market.market_id;
        question = market.question;
        yes_price = yes_ask;
        no_price = no_ask;
        gap = gap;
        spread_cost = spread_cost;
        fee = fee;
        profit_after_costs = f.sub gap cost;
      })
      else none

  unfoldable pub check_single : F → Market F → Option (ArbitrageOpportunity F)
  unfolding opportunity
  check_single fee market = elim market.yes_ask [
    | none ↦ none
    | some yes_ask ↦ elim market.no_ask [
      | none ↦ none
      | some no_ask ↦ opportunity fee market yes_ask no_ask
    ]
  ]

  -- The loop of `scan`, whose body is that of `check_single`.
  unfoldable pub collect : F → List (Market F) → List (ArbitrageOpportunity F)
  unfolding check_single
  collect fee [] = []
  collect fee (market ∷ markets) =
      let rest = collect fee markets in
      elim (check_single fee market) [ none ↦ rest | some opp ↦ opp ∷ rest ]

  unfoldable pub scan : F → List (Market F) → List (ArbitrageOpportunity F)
  unfolding collect
  scan fee markets =
      sorted (λ a b. f.lt b.profit_after_costs a.profit_after_costs) (collect fee markets)
