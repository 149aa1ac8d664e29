-- ===== src/Execution/Slippage.antt =====
-- src/polymarket_agent/execution/slippage.py. An infinite slippage is `none`; a book is two lists of
-- levels.
use poly_cortex.Base.{
  ℕ, suc, Bool, false, ◌&&◌, Option, none, some, List, [], ◌∷◌, map, sorted, String, upper_is,
  if◌then◌else◌,
}
use poly_cortex.Float.{Float, nought, fmin, sum}

-- `(price, size)`
pub record Level (F : Type 0) : Type 0 where
  pub price : F
  pub size : F

pub record SlippageEstimate (F : Type 0) : Type 0 where
  pub estimated_vwap : F
  pub midpoint : F
  pub slippage_bps : Option F
  pub total_depth_usdc : F
  pub levels_consumed : ℕ
  pub sufficient_liquidity : Bool

-- The variables of the loop that walks the book.
pub record Walk (F : Type 0) : Type 0 where
  pub remaining : F
  pub total_cost : F
  pub total_filled : F
  pub levels_consumed : ℕ

module _ {F : Type 0} ⦃f : Float F⦄ where
  unfoldable pub consume : Level F → Walk F → Walk F
  consume l w =
      let fill_amount = fmin w.remaining l.size in
      record {
        remaining = f.sub w.remaining fill_amount;
        total_cost = f.add w.total_cost (f.mul fill_amount l.price);
        total_filled = f.add w.total_filled fill_amount;
        levels_consumed = suc w.levels_consumed;
      }

  unfoldable pub walk_book : List (Level F) → Walk F → Walk F
  unfolding consume
  walk_book [] w = w
  walk_book (l ∷ ls) w =
      let rest = walk_book ls (consume l w) in if f.le w.remaining nought then w else rest

  unfoldable pub estimate_slippage :
      F → String → List (Level F) → List (Level F) → SlippageEstimate F
  unfolding walk_book
  estimate_slippage order_size_usdc side (b ∷ bids) (a ∷ asks) =
      let midpoint = f.quot (f.add b.price a.price) (f.lit 2 0) in
      let buys = upper_is side "BUY" in
      let levels =
        if buys
        then sorted (λ k l. f.lt k.price l.price) (a ∷ asks)
        else sorted (λ k l. f.lt l.price k.price) (b ∷ bids) in
      let depth = sum (map (λ l. f.mul l.price l.size) levels) in
      let w : Walk F = walk_book levels (record {
        remaining = order_size_usdc;
        total_cost = nought;
        total_filled = nought;
        levels_consumed = 0;
      }) in
      let vwap = f.quot w.total_cost w.total_filled in
      let slippage =
        if f.lt nought midpoint
        then f.quot (if buys then f.sub vwap midpoint else f.sub midpoint vwap) midpoint
        else nought in
      if f.le w.total_filled nought
      then record {
        estimated_vwap = nought;
        midpoint = midpoint;
        slippage_bps = none;
        total_depth_usdc = depth;
        levels_consumed = 0;
        sufficient_liquidity = false;
      }
      else record {
        estimated_vwap = vwap;
        midpoint = midpoint;
        slippage_bps = some (f.round (f.mul slippage (f.lit 10000 0)) 2);
        total_depth_usdc = f.round depth 2;
        levels_consumed = w.levels_consumed;
        sufficient_liquidity = f.le w.remaining nought;
      }
  estimate_slippage order_size_usdc side bids asks = record {
    estimated_vwap = nought;
    midpoint = nought;
    slippage_bps = none;
    total_depth_usdc = nought;
    levels_consumed = 0;
    sufficient_liquidity = false;
  }

  unfoldable pub check_slippage_ok :
      F → String → List (Level F) → List (Level F) → F → Bool × SlippageEstimate F
  unfolding estimate_slippage
  check_slippage_ok order_size_usdc side bids asks max_slippage_bps =
      let est : SlippageEstimate F = estimate_slippage order_size_usdc side bids asks in
      (
        est.sufficient_liquidity
            && elim est.slippage_bps [ none ↦ false | some bps ↦ f.le bps max_slippage_bps ],
        est,
      )
