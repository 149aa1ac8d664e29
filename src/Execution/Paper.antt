-- ===== src/Execution/Paper.antt =====
-- src/polymarket_agent/execution/paper_engine.py. The draws of `random` and the clock are arguments; the
-- dictionary of orders is the list of its values in the order of insertion. A side is kept as it is given
-- and read in capitals. The bounds of the latency are those of its draw.
pub mod Fill
pub mod Closed
mod Tests
use poly_cortex.Base.{
  ℕ, ◌+◌, Bool, true, false, ◌&&◌, ◌||◌, Option, none, some, List, [], ◌∷◌, ◌++◌, map, length, keep,
  String, str_eq, upper_is, if◌then◌else◌,
}
use poly_cortex.Float.{Float, nought, fmax, fmin}

pub data FillType : Type 0 where
  full partial : FillType

pub data PaperStatus : Type 0 where
  opened filled cancelled : PaperStatus

pub record SimulatedFill (F : Type 0) : Type 0 where
  pub order_id : String
  pub fill_type : FillType
  pub fill_price : F
  pub fill_size : F
  pub remaining_size : F
  pub fee_usdc : F
  pub is_maker : Bool
  pub latency_ms : F
  pub timestamp : F

pub record PaperOrder (F : Type 0) : Type 0 where
  pub order_id : String
  pub token_id : String
  pub side : String
  pub price : F
  pub size : F
  pub filled_size : F
  pub status : PaperStatus
  pub created_at : F
  pub fills : List (SimulatedFill F)

pub record PaperTradingEngine (F : Type 0) : Type 0 where
  pub taker_fee_rate : F
  pub maker_fee_rate : F
  pub partial_fill_prob : F
  pub miss_prob : F
  pub orders : List (PaperOrder F)
  pub fill_count : ℕ
  pub total_volume : F
  pub total_fees : F

-- What `random` gives for one order: the latency, the miss, the chance of a partial fill, its factor.
pub record Draws (F : Type 0) : Type 0 where
  pub latency : F
  pub miss : F
  pub chance : F
  pub factor : F

pub record Level (F : Type 0) : Type 0 where
  pub price : F
  pub size : F

pub record Stats (F : Type 0) : Type 0 where
  pub total_orders : ℕ
  pub open_orders : ℕ
  pub total_fills : ℕ
  pub total_volume : F
  pub total_fees : F

abbrev pub is_open : PaperStatus → Bool
is_open opened = true
is_open filled = false
is_open cancelled = false

module _ {F : Type 0} where
  abbrev pub put : PaperOrder F → List (PaperOrder F) → List (PaperOrder F)
  put o [] = o ∷ []
  put o (o' ∷ os) = if str_eq o'.order_id o.order_id then o ∷ os else o' ∷ put o os

  abbrev pub find : String → List (PaperOrder F) → Option (PaperOrder F)
  find id [] = none
  find id (o ∷ os) = if str_eq o.order_id id then some o else find id os

  pub get_order : String → PaperTradingEngine F → Option (PaperOrder F)
  get_order id e = find id e.orders

  cancel_one : String → PaperOrder F → PaperOrder F
  cancel_one id o =
      if str_eq o.order_id id && is_open o.status then record o { status = cancelled } else o

  pub cancel_order : String → PaperTradingEngine F → Bool × PaperTradingEngine F
  unfolding cancel_one
  cancel_order id e = elim (find id e.orders) [
    | none ↦ (false, e)
    | some o ↦ (is_open o.status, record e { orders = map (cancel_one id) e.orders })
  ]

  pub open_orders : PaperTradingEngine F → List (PaperOrder F)
  open_orders e = keep (λ o. is_open o.status) e.orders

module _ {F : Type 0} ⦃f : Float F⦄ where
  pub submit_order :
      F → String → String → String → F → F → PaperTradingEngine F → PaperTradingEngine F
  submit_order now order_id token_id side price size e = record e {
    orders =
        put
          (record {
            order_id = order_id;
            token_id = token_id;
            side = side;
            price = price;
            size = size;
            filled_size = nought;
            status = opened;
            created_at = now;
            fills = [];
          })
          e.orders;
  }

  -- `sorted` is stable, in both directions.
  insert_by : (Level F → Level F → Bool) → Level F → List (Level F) → List (Level F)
  insert_by before l [] = l ∷ []
  insert_by before l (k ∷ ks) = if before k l then k ∷ insert_by before l ks else l ∷ k ∷ ks

  sort_by : (Level F → Level F → Bool) → List (Level F) → List (Level F)
  unfolding insert_by
  sort_by before [] = []
  sort_by before (l ∷ ls) = insert_by before l (sort_by before ls)

  -- The levels that an order meets, best first.
  levels_for : String → List (Level F) → List (Level F) → List (Level F)
  unfolding sort_by
  levels_for side bids asks =
      if upper_is side "BUY"
      then sort_by (λ k l. f.lt k.price l.price) asks
      else sort_by (λ k l. f.lt l.price k.price) bids

  -- A limit order rests while the best level is beyond its price.
  abbrev pub rests : PaperOrder F → Level F → Bool
  rests o best = if upper_is o.side "BUY" then f.lt o.price best.price else f.lt best.price o.price

  abbrev pub beyond : PaperOrder F → Level F → Bool
  beyond o l =
      (upper_is o.side "BUY" && f.lt o.price l.price)
      || (upper_is o.side "SELL" && f.lt l.price o.price)

  -- Walk the book: the size filled and its cost.
  walk : PaperOrder F → F → F × F → List (Level F) → F × F
  walk o remaining so_far [] = so_far
  walk o remaining (size, cost) (l ∷ ls) =
      let available = fmin (f.sub remaining size) l.size in
      let size' = f.add size available in
      let cost' = f.add cost (f.mul available l.price) in
      let rest = walk o remaining (size', cost') ls in
      if beyond o l then (size, cost) else if f.le remaining size' then (size', cost') else rest

  -- The partial fill simulation.
  thin : F → Draws F → F × F → F × F
  thin partial_fill_prob d (size, cost) =
      let size' = f.mul size d.factor in
      if f.lt d.chance partial_fill_prob && f.lt (f.lit 10 0) size
      then (size', f.mul size' (f.quot cost (fmax size' (f.lit 1 2))))
      else (size, cost)

  fill_at : PaperTradingEngine F → Draws F → F → PaperOrder F → F → Bool → F × F → SimulatedFill F
  fill_at e d now o remaining maker (size, cost) =
      let vwap = if f.lt nought size then f.quot cost size else o.price in
      let fee = f.mul size (if maker then e.maker_fee_rate else e.taker_fee_rate) in
      record {
        order_id = o.order_id;
        fill_type = if f.le remaining size then full else partial;
        fill_price = f.round vwap 4;
        fill_size = f.round size 2;
        remaining_size = f.round (f.sub remaining size) 2;
        fee_usdc = f.round fee 4;
        is_maker = maker;
        latency_ms = f.round d.latency 1;
        timestamp = now;
      }

  against :
      PaperTradingEngine F
      → Draws F
      → F
      → PaperOrder F
      → F
      → List (Level F)
      → Option (SimulatedFill F)
  unfolding walk thin fill_at
  against e d now o remaining [] = none
  against e d now o remaining (best ∷ ls) =
      let taken = walk o remaining (nought, nought) (best ∷ ls) in
      if rests o best
      then none
      else if f.le taken.0 nought
      then none
      else some (fill_at e d now o remaining (rests o best) (thin e.partial_fill_prob d taken))

  pub try_fill :
      PaperTradingEngine F
      → Draws F
      → F
      → PaperOrder F
      → F
      → List (Level F)
      → List (Level F)
      → Option (SimulatedFill F)
  unfolding levels_for against
  try_fill e d now o remaining bids asks =
      if f.lt d.miss e.miss_prob
      then none
      else against e d now o remaining (levels_for o.side bids asks)

  filled_by : PaperOrder F → Option (SimulatedFill F) → PaperOrder F
  filled_by o none = o
  filled_by o (some fill) =
      let filled_size = f.add o.filled_size fill.fill_size in
      record o {
        fills = o.fills ++ fill ∷ [];
        filled_size = filled_size;
        status = if f.le o.size filled_size then filled else o.status;
      }

  -- One round of the loop: the order afterwards, and its fill.
  step :
      PaperTradingEngine F
      → Draws F
      → F
      → List (Level F)
      → List (Level F)
      → PaperOrder F
      → PaperOrder F × Option (SimulatedFill F)
  unfolding filled_by
  step e d now bids asks o =
      let remaining = f.sub o.size o.filled_size in
      let fill = try_fill e d now o remaining bids asks in
      if is_open o.status
      then (if f.le remaining nought
          then (record o { status = filled }, none)
          else (filled_by o fill, fill))
      else (o, none)

  tally : Option (SimulatedFill F) → PaperTradingEngine F → PaperTradingEngine F
  tally none e = e
  tally (some fill) e = record e {
    fill_count = e.fill_count + 1;
    total_volume = f.add e.total_volume fill.fill_size;
    total_fees = f.add e.total_fees fill.fee_usdc;
  }

  abbrev pub and_fill : Option (SimulatedFill F) → List (SimulatedFill F) → List (SimulatedFill F)
  and_fill none fills = fills
  and_fill (some fill) fills = fill ∷ fills

  -- The loop over the orders: those already seen are in `seen`, and `e` holds the counters.
  fill_loop :
      (String → Draws F)
      → F
      → List (Level F)
      → List (Level F)
      → List (PaperOrder F)
      → List (PaperOrder F)
      → PaperTradingEngine F
      → List (SimulatedFill F) × PaperTradingEngine F
  unfolding step tally
  fill_loop draws now bids asks seen [] e = ([], record e { orders = seen })
  fill_loop draws now bids asks seen (o ∷ os) e =
      let (o', fill) = step e (draws o.order_id) now bids asks o in
      let (fills, e') = fill_loop draws now bids asks (seen ++ o' ∷ []) os (tally fill e) in
      (and_fill fill fills, e')

  pub simulate_fills :
      (String → Draws F)
      → F
      → List (Level F)
      → List (Level F)
      → PaperTradingEngine F
      → List (SimulatedFill F) × PaperTradingEngine F
  unfolding fill_loop
  simulate_fills draws now bids asks e = fill_loop draws now bids asks [] e.orders e

  pub stats : PaperTradingEngine F → Stats F
  unfolding open_orders
  stats e = record {
    total_orders = length e.orders;
    open_orders = length (open_orders e);
    total_fills = e.fill_count;
    total_volume = f.round e.total_volume 2;
    total_fees = f.round e.total_fees 4;
  }

  pub reset : PaperTradingEngine F → PaperTradingEngine F
  reset e = record e { orders = []; fill_count = 0; total_volume = nought; total_fees = nought }
