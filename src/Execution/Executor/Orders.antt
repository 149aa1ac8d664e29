-- ===== src/Execution/Executor/Orders.antt =====
-- The data of execution/executor.py: an order, its fills, and the store of orders.
use poly_cortex.Base.{
  ℕ, Bool, true, false, not, ◌&&◌, Option, none, some, List, [], ◌∷◌, String, str_eq, if◌then◌else◌,
}
use poly_cortex.Float.{Float, nought, one, fmax, fmin}

pub data OrderStatus : Type 0 where
  placed partially_filled filled armed cancelled expired : OrderStatus

pub data OrderKind : Type 0 where
  entry take_profit stop_loss exit : OrderKind

pub data Condition : Type 0 where
  gte lte : Condition

pub data BracketState : Type 0 where
  inactive pending_fill armed closed expired cancelled : BracketState

pub record BracketSpec (F : Type 0) : Type 0 where
  pub take_profit_pct : F
  pub stop_loss_pct : F
  pub ttl_minutes : ℕ

pub record Order (F : Type 0) : Type 0 where
  pub order_id : String
  pub market_id : String
  pub token_id : String
  pub direction : String
  pub side : String
  pub size_usdc : F
  pub price : F
  pub status : OrderStatus
  pub timestamp : ℕ
  pub chunks : ℕ
  pub is_paper : Bool
  pub exchange_order_ids : List String
  pub filled_size_usdc : F
  pub remaining_size_usdc : F
  pub average_fill_price : Option F
  pub last_fill_at : Option ℕ
  pub order_type : String
  pub order_kind : OrderKind
  pub reduce_only : Bool
  pub parent_order_id : Option String
  pub oco_group_id : Option String
  pub trigger_price : Option F
  pub trigger_condition : Option Condition
  pub take_profit_price : Option F
  pub stop_loss_price : Option F
  pub bracket_order_ids : List String
  pub bracket_state : BracketState
  pub gtt_expiry_at : Option ℕ

-- FINAL_ORDER_STATUSES
abbrev pub is_final : OrderStatus → Bool
is_final filled = true
is_final cancelled = true
is_final expired = true
is_final _ = false

abbrev pub is_armed : OrderStatus → Bool
is_armed armed = true
is_armed _ = false

abbrev pub is_filled : OrderStatus → Bool
is_filled filled = true
is_filled _ = false

-- "filled" and "partially_filled"
abbrev pub is_taken : OrderStatus → Bool
is_taken filled = true
is_taken partially_filled = true
is_taken _ = false

-- "placed" and "partially_filled"
abbrev pub is_working : OrderStatus → Bool
is_working placed = true
is_working partially_filled = true
is_working _ = false

abbrev pub is_entry : OrderKind → Bool
is_entry entry = true
is_entry _ = false

abbrev pub is_child : OrderKind → Bool
is_child take_profit = true
is_child stop_loss = true
is_child _ = false

-- The same text, where there is one.
abbrev pub same_text : Option String → Option String → Bool
same_text (some s) (some t) = str_eq s t
same_text _ _ = false

module _ {F : Type 0} where
  -- `self.orders.get(id)`
  unfoldable pub find : String → List (Order F) → Option (Order F)
  find id [] = none
  find id (o ∷ os) = if str_eq o.order_id id then some o else find id os

  -- `self.orders[id]` changes.
  unfoldable pub put : String → Order F → List (Order F) → List (Order F)
  put id o' [] = []
  put id o' (o ∷ os) = if str_eq o.order_id id then o' ∷ os else o ∷ put id o' os

  -- An order changes where it is in the store.
  unfoldable pub modify : String → (Order F → Order F) → List (Order F) → List (Order F)
  unfolding find put
  modify id g os = elim (find id os) [ none ↦ os | some o ↦ put id (g o) os ]

module _ {F : Type 0} ⦃f : Float F⦄ where
  -- `__post_init__`
  unfoldable pub post_init : Order F → Order F
  post_init o =
      let remaining =
        if f.le o.remaining_size_usdc nought && not (is_final o.status) && not (is_armed o.status)
        then f.sub o.size_usdc o.filled_size_usdc
        else o.remaining_size_usdc in
      if is_filled o.status
      then record o {
        remaining_size_usdc = nought;
        filled_size_usdc =
            if f.le o.filled_size_usdc nought then o.size_usdc else o.filled_size_usdc;
        average_fill_price = some (elim o.average_fill_price [ none ↦ o.price | some a ↦ a ]);
      }
      else if is_armed o.status
      then record o { remaining_size_usdc = o.size_usdc }
      else record o { remaining_size_usdc = remaining }

  unfoldable pub contract_price : String → F → F
  contract_price direction market_price =
      if str_eq direction "YES" then market_price else f.sub one market_price

  abbrev pub clamp_price : F → F
  clamp_price price = fmax (f.lit 1 2) (fmin price (f.lit 99 2))

  -- The average after a fill; the divisor is above zero.
  unfoldable pub average_after : F → F → F → Option F → F
  average_after previous fill price average = elim average [
    | none ↦ price
    | some a ↦
        if f.lt nought previous
        then f.quot (f.add (f.mul a previous) (f.mul price fill)) (f.add previous fill)
        else price
  ]

  unfoldable pub apply_fill : F → F → ℕ → Order F → Order F
  unfolding average_after
  apply_fill fill_size_usdc fill_price now o =
      let fill_size = fmax nought (fmin fill_size_usdc o.remaining_size_usdc) in
      let filled_size = f.round (f.add o.filled_size_usdc fill_size) 8 in
      let remaining = f.round (fmax (f.sub o.size_usdc filled_size) nought) 8 in
      let done = f.le remaining (f.lit 1 8) in
      if f.le fill_size nought then o else record o {
        average_fill_price =
            some (average_after o.filled_size_usdc fill_size fill_price o.average_fill_price);
        filled_size_usdc = filled_size;
        remaining_size_usdc = if done then nought else remaining;
        last_fill_at = some now;
        status = if done then filled else partially_filled;
      }

  -- `x or y` for a size: 0.0 is false.
  abbrev pub or_size : F → F → F
  or_size x y = if f.le x nought && f.le nought x then y else x

  unfoldable pub build_bracket_levels : F → BracketSpec F → F × F
  build_bracket_levels entry_price b = (
    clamp_price (f.mul entry_price (f.add one b.take_profit_pct)),
    clamp_price (f.mul entry_price (f.sub one b.stop_loss_pct)),
  )
