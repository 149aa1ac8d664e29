-- ===== src/Agent/Cycle.antt =====
-- `run_cycle` of src/polymarket_agent/main.py, from the opportunities that a scan has found on: the drawdown's
-- emergency, the loop that sizes, places and records, and the bankroll after it. What the surroundings
-- answer to each order, `json.dumps`, `isoformat` and `uuid4` are arguments.
pub mod Counts
pub mod Slots
pub mod Emergency
pub mod Total
mod Tests
use poly_cortex.Base.{
  ℕ, suc, min, Bool, true, false, not, ◌&&◌, ◌||◌, Option, none, some, List, [], ◌∷◌, map,
  map_option, take, String, str_eq, if◌then◌else◌,
}
use poly_cortex.Float.{Float, nought, fmax, sum}
use poly_cortex.Risk.KillSwitch.{FileReply, worked, failed, activate}
use poly_cortex.Risk.Drawdown.{DrawdownController, update, get_multiplier, should_close_all}
use poly_cortex.Risk.Sizer.{
  UnifiedPositionSizer, EdgeResult, Position, update_bankroll, calculate_position,
}
use poly_cortex.Execution.Slippage.{Level, check_slippage_ok}
use poly_cortex.Execution.Executor.Orders.{
  Order, OrderStatus, OrderKind, Condition, BracketState, BracketSpec, is_filled,
}
use poly_cortex.Execution.Executor.Guard.{OrderExecutor, Book}
use poly_cortex.Execution.Executor.Place.{World, PlaceRequest, place_order}
use poly_cortex.Execution.Executor.Cancel.{cancel_all_open_orders}
use poly_cortex.Tracking.Trades.{Trade, get_open_positions}
use poly_cortex.Tracking.Trades.Orders.{
  OrderDict, EdgeDict, Meta, Database, get_trade_id_for_order, insert_trade, record_fee,
}
use poly_cortex.Tracking.Tally.{lookup, text_key}
use poly_cortex.Tracking.Metrics.{get_metrics}
use poly_cortex.Agent.Payload.{
  Opportunity, CycleConfig, BookData, Texts, no_meta, order_payload, edge_dict, sized_edge,
  position_of, request_of,
}

pub record Agent (F : Type 0) : Type 0 where
  pub config : CycleConfig F
  pub bankroll : F
  pub sizer : UnifiedPositionSizer F
  pub drawdown : DrawdownController F
  pub executor : OrderExecutor F
  pub database : Database F
  pub kill_file : Option String

-- What the surroundings answer during one cycle: to each turn of the loop, to the cancelling and to the kill
-- switch; the order books that the scan has read, and the readers of times and of JSON.
pub record CycleWorld (F : Type 0) : Type 0 where
  pub worlds : ℕ → World F
  pub order_books : String → Option (BookData F)
  pub cancels : String → Bool
  pub timestamp : String
  pub kill_reply : FileReply
  pub fromisoformat : String → Option ℕ
  pub loads : String → Option (List (String × Option F))

-- How a cycle ends: it goes on after its trades, returns at the emergency, or an exception leaves it.
pub data Outcome : Type 0 where
  traded halted raised : Outcome

module _ {F : Type 0} ⦃f : Float F⦄ where
  -- The check of the book before a live order, where both sides have levels.
  unfoldable pub book_allows : CycleConfig F → F → Option (BookData F) → Bool
  book_allows c size none = true
  book_allows c size (some market) = elim market.book.bids [
    | [] ↦ true
    | b ∷ bids ↦ elim market.book.asks [
      | [] ↦ true
      | a ∷ asks ↦
          c.dry_run || (check_slippage_ok size "BUY" (b ∷ bids) (a ∷ asks) c.max_slippage_bps).0
    ]
  ]

  -- The fee of the row that the order has.
  unfoldable pub charge : CycleConfig F → F → Order F → List (Trade F) → List (Trade F)
  unfolding get_trade_id_for_order record_fee
  charge c size o rows = elim (get_trade_id_for_order o.order_id rows) [
    | none ↦ rows
    | some id ↦
        if o.is_paper || is_filled o.status
        then record_fee id (f.mul size c.taker_fee_rate) false nought rows
        else rows
  ]

  -- The order is recorded, and the bankroll pays for a fill.
  unfoldable pub track : Texts F → ℕ → Opportunity F → F → Order F → Agent F → Agent F
  unfolding insert_trade charge
  track texts now e size o a =
      let db =
        (insert_trade texts.signals (texts.isoformat now) (edge_dict e) size o.is_paper
          (order_payload texts o) no_meta a.database).0 in
      let left = fmax nought (f.sub a.bankroll size) in
      let tracked : Agent F = record a {
        database = record db { rows = charge a.config size o db.rows };
      } in
      if is_filled o.status
      then record tracked { bankroll = left; sizer = update_bankroll left a.sizer }
      else tracked

  -- The agent, and the open positions as the loop last read them.
  unfoldable pub execute :
      (ℕ → String)
      → Texts F
      → World F
      → Option (BookData F)
      → Opportunity F
      → F
      → Agent F × List (Trade F)
      → Agent F × List (Trade F)
  unfolding place_order track get_open_positions
  execute uuid texts w market e size (a, open_positions) =
      let placed = place_order uuid w (request_of a.config e size market) a.executor in
      let a' = record a { executor = placed.0 } in
      elim placed.1 [
        | none ↦ (a', open_positions)
        | some o ↦
            let tracked = track texts w.now e size o a' in
            (tracked, get_open_positions tracked.database.rows)
      ]

  -- A turn of the loop from the size on.
  unfoldable pub trade_sized :
      (ℕ → String)
      → Texts F
      → World F
      → Option (BookData F)
      → Opportunity F
      → Agent F × List (Trade F)
      → F
      → Agent F × List (Trade F)
  unfolding book_allows execute
  trade_sized uuid texts w market e (a, open_positions) size =
      if f.le size nought
      then (a, open_positions)
      else if not (book_allows a.config size market)
      then (a, open_positions)
      else execute uuid texts w market e size (a, open_positions)

  -- A turn of the loop; `none` is ZeroDivisionError in the sizer.
  unfoldable pub trade_one :
      (ℕ → String)
      → Texts F
      → World F
      → (String → Option (BookData F))
      → F
      → Opportunity F
      → Agent F × List (Trade F)
      → Option (Agent F × List (Trade F))
  unfolding trade_sized
  trade_one uuid texts w order_books dd_mult e st =
      map_option (trade_sized uuid texts w (order_books e.market_id) e st)
        (calculate_position st.0.sizer (sized_edge e) (map position_of st.1) dd_mult)

  -- The loop, with whether an exception has left it. `worlds` is what each turn meets.
  unfoldable pub trade_each :
      (ℕ → String)
      → Texts F
      → (ℕ → World F)
      → (String → Option (BookData F))
      → F
      → ℕ
      → List (Opportunity F)
      → Agent F × List (Trade F)
      → (Agent F × List (Trade F)) × Outcome
  unfolding trade_one
  trade_each uuid texts worlds order_books dd_mult i [] st = (st, traded)
  trade_each uuid texts worlds order_books dd_mult i (e ∷ es) st =
      elim (trade_one uuid texts (worlds i) order_books dd_mult e st) [
        | none ↦ (st, raised)
        | some st' ↦ trade_each uuid texts worlds order_books dd_mult (suc i) es st'
      ]

  -- The emergency: every open order is cancelled and the kill switch's file written.
  unfoldable pub close_all : (String → Bool) → String → FileReply → Agent F → Agent F × Outcome
  unfolding cancel_all_open_orders activate
  close_all cancels timestamp reply a = (
    record a {
      executor = (cancel_all_open_orders cancels a.executor).0;
      kill_file = activate timestamp "Emergency drawdown threshold breached" reply a.kill_file;
    },
    elim reply [ worked ↦ halted | failed error ↦ raised ],
  )

  -- After the trades: the starting bankroll, the profits and the capital in the open positions.
  unfoldable pub settle :
      (String → Option ℕ)
      → (String → Option (List (String × Option F)))
      → Agent F × List (Trade F)
      → Agent F
  unfolding get_metrics
  settle fromisoformat loads (a, open_positions) =
      let realized_pnl = (get_metrics fromisoformat loads a.database.rows).total_pnl in
      let open_capital = sum (map (λ (t : Trade F). t.size_usdc) open_positions) in
      let bankroll = fmax nought (f.sub (f.add a.config.bankroll realized_pnl) open_capital) in
      record a {
        bankroll = bankroll;
        sizer = update_bankroll bankroll a.sizer;
        drawdown = update bankroll a.drawdown;
      }

  -- What follows the loop.
  unfoldable pub after_trades :
      (String → Option ℕ)
      → (String → Option (List (String × Option F)))
      → (Agent F × List (Trade F)) × Outcome
      → Agent F × Outcome
  unfolding settle
  after_trades fromisoformat loads (st, traded) = (settle fromisoformat loads st, traded)
  after_trades fromisoformat loads (st, outcome) = (st.0, raised)

  -- The emergency, or the loop over the first opportunities and the bankroll after it.
  unfoldable pub trade :
      (ℕ → String) → Texts F → CycleWorld F → List (Opportunity F) → Agent F → Agent F × Outcome
  unfolding close_all get_open_positions trade_each after_trades
  trade uuid texts w opportunities a =
      let d = update a.bankroll a.drawdown in
      let a' : Agent F = record a { drawdown = d } in
      let top = take (min 5 a.config.opportunity_top_n) opportunities in
      let start : Agent F × List (Trade F) = (a', get_open_positions a.database.rows) in
      elim (get_multiplier a.bankroll d) [
        | none ↦ (a', raised)
        | some dd_mult ↦ elim (should_close_all a.bankroll d) [
          | none ↦ (a', raised)
          | some close ↦
              if close
              then close_all w.cancels w.timestamp w.kill_reply a'
              else after_trades w.fromisoformat w.loads
                  (trade_each uuid texts w.worlds w.order_books dd_mult 0 top start)
        ]
      ]
