-- ===== src/Execution/Executor/Children.antt =====
-- src/polymarket_agent/execution/executor.py: the children of a bracket when the orders are reconciled with
-- the market. The lifecycle events, which only report, are left out.
use poly_cortex.Base.{
  ℕ, Bool, true, false, not, ◌&&◌, Option, none, some, List, [], ◌∷◌, String, str_eq, if◌then◌else◌,
}
use poly_cortex.Float.{Float}
use poly_cortex.Execution.Executor.Orders.{
  Order, OrderStatus, OrderKind, take_profit, gte, lte, BracketState, modify, is_armed, same_text,
  contract_price, apply_fill, or_size,
}
use poly_cortex.Execution.Executor.Guard.{OrderExecutor}
use poly_cortex.Execution.Executor.Brackets.{set_order}
use poly_cortex.Execution.Executor.Cancel.{is_past}
use poly_cortex.Execution.Executor.Status.{StatusRow}

-- The prices of a market's book, where they are given.
pub record MarketData (F : Type 0) : Type 0 where
  pub midpoint : Option F
  pub best_bid : Option F
  pub best_ask : Option F

-- What the clock, the markets and the exchange answer during one call; `fetched` is what
-- `fetch_live_exchange_status` gives for an identifier of the exchange.
pub record Surroundings (F : Type 0) : Type 0 where
  pub now : ℕ
  pub market_books : String → Option (MarketData F)
  pub fetched : String → Option (StatusRow F)

abbrev pub is_take_profit : OrderKind → Bool
is_take_profit take_profit = true
is_take_profit _ = false

module _ {F : Type 0} where
  abbrev pub or_else : Option F → F → F
  or_else none x = x
  or_else (some y) x = y

  -- A parent changes with its child; `none` and an unknown identifier are skipped.
  unfoldable pub set_bracket_state : Option String → BracketState → List (Order F) → List (Order F)
  unfolding modify
  set_bracket_state none state os = os
  set_bracket_state (some id) state os = modify id (λ p. record p { bracket_state = state }) os

  -- The sibling of a triggered order.
  abbrev pub is_sibling : Order F → Order F → Bool
  is_sibling o candidate =
      same_text candidate.oco_group_id o.oco_group_id
      && (not (str_eq candidate.order_id o.order_id) && is_armed candidate.status)

  unfoldable pub cancel_sibling : Order F → Order F → Order F
  cancel_sibling o c = if is_sibling o c then record c { status = OrderStatus.cancelled } else c

  -- The loop over the candidates.
  unfoldable pub cancel_siblings : Order F → List (Order F) → List (Order F)
  unfolding cancel_sibling
  cancel_siblings o [] = []
  cancel_siblings o (c ∷ cs) = cancel_sibling o c ∷ cancel_siblings o cs

module _ {F : Type 0} ⦃f : Float F⦄ where
  -- The price that a trigger is judged by.
  abbrev pub eval_price : MarketData F → Order F → F
  eval_price market o =
      let best = if is_take_profit o.order_kind then market.best_bid else market.best_ask in
      or_else best (or_else market.midpoint o.price)

  unfoldable pub should_trigger : F → Order F → Bool
  should_trigger price o = elim o.trigger_condition [
    | none ↦ false
    | some condition ↦ elim o.trigger_price [
      | none ↦ false
      | some trigger ↦ elim condition [ gte ↦ f.le trigger price | lte ↦ f.le price trigger ]
    ]
  ]

  unfoldable pub trigger : F → ℕ → Order F → OrderExecutor F → OrderExecutor F
  unfolding apply_fill set_order set_bracket_state cancel_siblings
  trigger price now o e =
      let o' = apply_fill (or_size o.remaining_size_usdc o.size_usdc) price now o in
      let e' = set_order o' e in
      record e' {
        orders =
            cancel_siblings o' (set_bracket_state o.parent_order_id BracketState.closed e'.orders);
      }

  unfoldable pub expire_child : Order F → OrderExecutor F → OrderExecutor F
  unfolding set_order set_bracket_state
  expire_child o e =
      let e' = set_order (record o { status = OrderStatus.expired }) e in
      record e' { orders = set_bracket_state o.parent_order_id BracketState.expired e'.orders }

  unfoldable pub reconcile_child : Surroundings F → Order F → OrderExecutor F → OrderExecutor F
  unfolding contract_price should_trigger trigger expire_child
  reconcile_child s o e = if not (is_armed o.status) then e else elim (s.market_books o.market_id) [
    | none ↦ e
    | some market ↦
        let price = contract_price o.direction (eval_price market o) in
        if is_past s.now o.gtt_expiry_at
        then expire_child o e
        else if should_trigger price o
        then trigger price s.now o e
        else e
  ]
