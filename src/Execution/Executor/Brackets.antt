-- ===== src/Execution/Executor/Brackets.antt =====
-- src/polymarket_agent/execution/executor.py: arming the brackets of an entry. The
-- lifecycle events, which only report, are left out.
use poly_cortex.Base.{
  ℕ, suc, ◌+◌, ◌*◌, Bool, true, false, not, none, some, List, [], ◌∷◌, ◌++◌, String, is_some,
  if◌then◌else◌,
}
use poly_cortex.Float.{Float, nought}
use poly_cortex.Execution.Executor.Orders.{
  Order, OrderStatus, placed, OrderKind, take_profit, stop_loss, Condition, gte, lte, BracketState,
  inactive, BracketSpec, find, put, modify, is_armed, is_entry, post_init, or_size,
  build_bracket_levels,
}
use poly_cortex.Execution.Executor.Guard.{OrderExecutor}

module _ {F : Type 0} where
  -- `self.orders[order.order_id] = order`
  unfoldable pub insert : Order F → List (Order F) → List (Order F)
  unfolding find put
  insert o os = if is_some (find o.order_id os) then put o.order_id o os else os ++ (o ∷ [])

  unfoldable pub set_order : Order F → OrderExecutor F → OrderExecutor F
  unfolding put
  set_order o e = record e { orders = put o.order_id o e.orders }

module _ {F : Type 0} ⦃f : Float F⦄ where
  -- An order at the defaults of the class, before `__post_init__`.
  abbrev pub fresh :
      String → String → String → String → String → F → F → ℕ → ℕ → Bool → OrderKind → Order F
  fresh order_id market_id token_id direction side size_usdc price timestamp chunks is_paper
        order_kind =
      record {
        order_id = order_id;
        market_id = market_id;
        token_id = token_id;
        direction = direction;
        side = side;
        size_usdc = size_usdc;
        price = price;
        status = placed;
        timestamp = timestamp;
        chunks = chunks;
        is_paper = is_paper;
        exchange_order_ids = [];
        filled_size_usdc = nought;
        remaining_size_usdc = size_usdc;
        average_fill_price = none;
        last_fill_at = none;
        order_type = "limit";
        order_kind = order_kind;
        reduce_only = false;
        parent_order_id = none;
        oco_group_id = none;
        trigger_price = none;
        trigger_condition = none;
        take_profit_price = none;
        stop_loss_price = none;
        bracket_order_ids = [];
        bracket_state = inactive;
        gtt_expiry_at = none;
      }

  -- A trigger order of a bracket.
  unfoldable pub bracket_child :
      String → String → Order F → F → F → OrderKind → Condition → ℕ → ℕ → Order F
  unfolding post_init
  bracket_child order_id oco_group_id parent size price order_kind condition now expiry_at =
      post_init
        (record (fresh order_id parent.market_id parent.token_id parent.direction "SELL" size price
          now 1 parent.is_paper order_kind) {
            status = OrderStatus.armed;
            order_type = "gtt";
            reduce_only = true;
            parent_order_id = some parent.order_id;
            oco_group_id = some oco_group_id;
            trigger_price = some price;
            trigger_condition = some condition;
            gtt_expiry_at = some expiry_at;
          })

  -- The size of a parent's children.
  abbrev pub active_size : Order F → F
  active_size parent = or_size parent.filled_size_usdc parent.size_usdc

  abbrev pub resize : F → Order F → Order F
  resize size child =
      if is_armed child.status
      then record child { size_usdc = size; remaining_size_usdc = size }
      else child

  unfoldable pub sync_child_sizes : F → List String → List (Order F) → List (Order F)
  unfolding modify
  sync_child_sizes size [] os = os
  sync_child_sizes size (id ∷ ids) os = sync_child_sizes size ids (modify id (resize size) os)

  -- The price that the brackets stand around.
  abbrev pub active_price : Order F → F
  active_price parent = elim parent.average_fill_price [
    | none ↦ parent.price
    | some average ↦ or_size average parent.price
  ]

  abbrev pub levelled : BracketSpec F → Order F → Order F
  levelled spec parent =
      let levels = build_bracket_levels (active_price parent) spec in
      record parent {
        take_profit_price = some levels.0;
        stop_loss_price = some levels.1;
        bracket_state = BracketState.armed;
      }

  -- The branch that creates the children.
  unfoldable pub arm_new :
      (ℕ → String) → BracketSpec F → ℕ → Order F → OrderExecutor F → OrderExecutor F
  unfolding set_order insert bracket_child build_bracket_levels
  arm_new uuid spec now parent e =
      let levels = build_bracket_levels (active_price parent) spec in
      let size = active_size parent in
      let expiry_at = now + spec.ttl_minutes * 60000000 in
      let tp_id = uuid (suc e.drawn) in
      let sl_id = uuid (suc (suc e.drawn)) in
      let take_profit_order =
        bracket_child tp_id (uuid e.drawn) parent size levels.0 take_profit gte now expiry_at in
      let stop_loss_order =
        bracket_child sl_id (uuid e.drawn) parent size levels.1 stop_loss lte now expiry_at in
      let e' =
        set_order (record (levelled spec parent) { bracket_order_ids = tp_id ∷ sl_id ∷ [] }) e in
      record e' {
        orders = insert stop_loss_order (insert take_profit_order e'.orders);
        drawn = suc (suc (suc e.drawn));
      }

  -- The branch that resizes the children that exist.
  unfoldable pub arm_again : BracketSpec F → Order F → OrderExecutor F → OrderExecutor F
  unfolding set_order sync_child_sizes build_bracket_levels
  arm_again spec parent e =
      let e' = set_order (levelled spec parent) e in
      record e' {
        orders = sync_child_sizes (active_size parent) parent.bracket_order_ids e'.orders;
      }

  unfoldable pub arm_bracket_orders :
      (ℕ → String) → BracketSpec F → ℕ → Order F → OrderExecutor F → OrderExecutor F
  unfolding arm_new arm_again
  arm_bracket_orders uuid spec now parent e =
      if not (is_entry parent.order_kind) then e else elim parent.bracket_order_ids [
        | [] ↦ arm_new uuid spec now parent e
        | id ∷ ids ↦ arm_again spec parent e
      ]
