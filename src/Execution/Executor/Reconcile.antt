-- ===== src/Execution/Executor/Reconcile.antt =====
-- src/polymarket_agent/execution/executor.py: reconciling the orders with the market and with the
-- exchange. The lifecycle events, which only report, are left out.
use poly_cortex.Base.{
  ℕ, ◌==◌, Bool, true, false, not, ◌&&◌, ◌||◌, Option, none, some, List, [], ◌∷◌, map, any, String,
  str_eq, if◌then◌else◌,
}
use poly_cortex.Float.{Float, nought, fmax, fmin, sum}
use poly_cortex.Execution.Executor.Orders.{
  Order, OrderStatus, placed, partially_filled, filled, BracketState, pending_fill, find, is_final,
  is_working, is_taken, is_entry, is_child, contract_price, apply_fill,
}
use poly_cortex.Execution.Executor.Guard.{OrderExecutor, default_bracket_spec}
use poly_cortex.Execution.Executor.Brackets.{set_order, arm_bracket_orders, active_price}
use poly_cortex.Execution.Executor.Cancel.{ids_of}
use poly_cortex.Execution.Executor.Status.{StatusRow}
use poly_cortex.Execution.Executor.Children.{MarketData, Surroundings, or_else, reconcile_child}

-- The status text of two orders differs.
abbrev pub rank : OrderStatus → ℕ
rank placed = 0
rank partially_filled = 1
rank filled = 2
rank OrderStatus.armed = 3
rank OrderStatus.cancelled = 4
rank OrderStatus.expired = 5

abbrev pub changed : OrderStatus → OrderStatus → Bool
changed s t = not (rank s == rank t)

abbrev pub is_waiting : BracketState → Bool
is_waiting pending_fill = true
is_waiting BracketState.armed = true
is_waiting _ = false

module _ {F : Type 0} where
  -- The prices of the rows, the last row first.
  abbrev pub last_price : List (StatusRow F) → F → F
  last_price [] default = default
  last_price (r ∷ rs) default = last_price rs (or_else r.average_fill_price default)

  abbrev pub has_status : String → List (StatusRow F) → Bool
  has_status s rows = any (λ r. str_eq r.status s) rows

  abbrev pub rows_of : (String → Option (StatusRow F)) → List String → List (StatusRow F)
  rows_of fetched [] = []
  rows_of fetched (id ∷ ids) =
      let rest = rows_of fetched ids in elim (fetched id) [ none ↦ rest | some row ↦ row ∷ rest ]

  -- The end of the status check: only an order without a fill ends here.
  unfoldable pub end_unfilled : List (StatusRow F) → Order F → Order F
  end_unfilled rows o =
      if is_taken o.status
      then o
      else if has_status "cancelled" rows || has_status "canceled" rows
      then record o { status = OrderStatus.cancelled }
      else if has_status "expired" rows
      then record o { status = OrderStatus.expired }
      else o

module _ {F : Type 0} ⦃f : Float F⦄ where
  -- The fill that the rows report.
  unfoldable pub live_fill : ℕ → List (StatusRow F) → Order F → Order F
  unfolding apply_fill
  live_fill now rows o =
      let total_filled = sum (map (λ r. r.filled_size_usdc) rows) in
      let delta_filled = fmax (f.sub total_filled o.filled_size_usdc) nought in
      if f.lt nought delta_filled
      then apply_fill delta_filled (last_price rows (active_price o)) now o
      else o

  -- An entry with a fill gets its brackets.
  unfoldable pub arm_default : (ℕ → String) → ℕ → Order F → OrderExecutor F → OrderExecutor F
  unfolding default_bracket_spec arm_bracket_orders
  arm_default uuid now o e = elim (default_bracket_spec e.config) [
    | none ↦ e
    | some spec ↦ arm_bracket_orders uuid spec now o e
  ]

  unfoldable pub reconcile_live_entry :
      (ℕ → String) → Surroundings F → Order F → OrderExecutor F → OrderExecutor F
  unfolding live_fill end_unfilled set_order arm_default
  reconcile_live_entry uuid s o e = elim (rows_of s.fetched o.exchange_order_ids) [
    | [] ↦ e
    | row ∷ rows ↦
        let o' = end_unfilled (row ∷ rows) (live_fill s.now (row ∷ rows) o) in
        let e' = set_order o' e in
        if f.lt nought o'.filled_size_usdc then arm_default uuid s.now o' e' else e'
  ]

  unfoldable pub fill_size : OrderExecutor F → Order F → F
  fill_size e o =
      if e.config.paper_allow_partial_fills && f.lt nought o.remaining_size_usdc
      then fmin o.remaining_size_usdc
          (fmax (f.mul o.size_usdc e.config.paper_partial_fill_ratio) nought)
      else o.remaining_size_usdc

  -- A paper entry against its market.
  unfoldable pub reconcile_paper_entry :
      (ℕ → String) → ℕ → MarketData F → Order F → OrderExecutor F → OrderExecutor F
  unfolding contract_price fill_size apply_fill set_order arm_default
  reconcile_paper_entry uuid now market o e =
      let price = contract_price o.direction (or_else market.midpoint o.price) in
      let o' = apply_fill (fill_size e o) price now o in
      let e' = set_order o' e in
      if f.le price (f.add o.price e.config.paper_fill_tolerance)
      then if changed o.status o'.status then arm_default uuid now o' e' else e'
      else e

  -- "pending_fill" or "armed", with a fill and no brackets yet.
  unfoldable pub late_arm : (ℕ → String) → ℕ → String → OrderExecutor F → OrderExecutor F
  unfolding find arm_default
  late_arm uuid now id e = elim (find id e.orders) [
    | none ↦ e
    | some o ↦ elim o.bracket_order_ids [
      | [] ↦
          if is_waiting o.bracket_state && f.lt nought o.filled_size_usdc
          then arm_default uuid now o e
          else e
      | id ∷ ids ↦ e
    ]
  ]

  unfoldable pub reconcile_entry :
      (ℕ → String) → Surroundings F → Order F → OrderExecutor F → OrderExecutor F
  unfolding reconcile_live_entry reconcile_paper_entry late_arm
  reconcile_entry uuid s o e =
      if is_final o.status
      then e
      else if not o.is_paper && (e.config.live_reconcile_enabled && e.has_clob)
      then late_arm uuid s.now o.order_id (reconcile_live_entry uuid s o e)
      else if o.is_paper && is_working o.status
      then elim (s.market_books o.market_id) [
        | none ↦ e
        | some market ↦ late_arm uuid s.now o.order_id (reconcile_paper_entry uuid s.now market o e)
      ]
      else late_arm uuid s.now o.order_id e

  -- One turn of the loop.
  unfoldable pub reconcile_one :
      (ℕ → String) → Surroundings F → String → OrderExecutor F → OrderExecutor F
  unfolding find reconcile_entry reconcile_child
  reconcile_one uuid s id e = elim (find id e.orders) [
    | none ↦ e
    | some o ↦
        if is_entry o.order_kind
        then reconcile_entry uuid s o e
        else if is_child o.order_kind
        then reconcile_child s o e
        else e
  ]

  unfoldable pub reconcile_each :
      (ℕ → String) → Surroundings F → List String → OrderExecutor F → OrderExecutor F
  unfolding reconcile_one
  reconcile_each uuid s [] e = e
  reconcile_each uuid s (id ∷ ids) e = reconcile_each uuid s ids (reconcile_one uuid s id e)

  -- `_reconcile_orders_unlocked`
  unfoldable pub reconcile_orders :
      (ℕ → String) → Surroundings F → OrderExecutor F → OrderExecutor F
  unfolding reconcile_each
  reconcile_orders uuid s e = reconcile_each uuid s (ids_of e.orders) e
