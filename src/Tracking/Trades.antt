-- ===== src/Tracking/Trades.antt =====
-- The table `trades` of src/polymarket_agent/tracking/tracker.py: its rows, reading the open positions and
-- closing one. A column that may be NULL is an option; a text in it may be empty.
pub mod Open
pub mod Orders
use poly_cortex.Base.{
  ℕ, Bool, true, false, not, Option, none, some, List, [], ◌∷◌, map, keep, String, str_eq, str_lt,
  if◌then◌else◌, ◌==◌,
}
use poly_cortex.Float.{Float, nought, one, fmax, fmin, truthy}

pub data TradeStatus : Type 0 where
  open_trade closed resolved : TradeStatus

-- The columns that only the insertion of a row writes, beside those of `Trade`.
pub record TradeEntry (F : Type 0) : Type 0 where
  pub question : String
  pub edge_at_entry : Option F
  pub confidence_at_entry : Option F
  pub raw_estimated_prob : Option F
  pub estimated_prob : Option F
  pub calibrated_prob : Option F
  pub regime_at_entry : Option String
  pub category : Option String
  pub signal_breakdown : Option String
  pub is_paper : Bool
  pub entry_reason : Option String
  pub order_type : String
  pub source : String
  pub parent_order_id : Option String
  pub oco_group_id : Option String
  pub trigger_price : Option F
  pub trigger_condition : Option String
  pub reduce_only : Bool
  pub order_kind : String

pub record Trade (F : Type 0) : Type 0 where
  pub id : ℕ
  pub market_id : String
  pub direction : String
  pub entry_price : F
  pub size_usdc : F
  pub timestamp : String
  pub status : TradeStatus
  pub exit_price : Option F
  pub pnl : Option F
  pub closed_at : Option String
  pub exit_reason : Option String
  pub realized_roi : Option F
  pub local_order_id : Option String
  pub entry_order_status : Option String
  pub filled_size_usdc : Option F
  pub average_fill_price : Option F
  pub bracket_state : Option String
  pub last_fill_at : Option String
  pub fee_usdc : Option F
  pub gas_cost_usdc : Option F
  pub is_maker : Option Bool
  pub notes : Option String
  pub remaining_size_usdc : Option F
  pub exchange_order_ids : Option String
  pub take_profit_price : Option F
  pub stop_loss_price : Option F
  pub bracket_order_ids : Option String
  pub entry : TradeEntry F

abbrev pub is_open : TradeStatus → Bool
is_open open_trade = true
is_open closed = false
is_open resolved = false

-- `x or y`, for a value that may be None.
abbrev pub or_else {ℓ} : {A : Type ℓ} → Option A → A → A
or_else none y = y
or_else (some x) y = x

module _ {F : Type 0} ⦃f : Float F⦄ where
  -- `x or y` for a float: 0.0 is false too.
  abbrev pub or_float : Option F → F → F
  or_float none y = y
  or_float (some x) y = if truthy x then x else y

  unfoldable pub clamp : F → F
  clamp x = fmax nought (fmin one x)

  unfoldable pub entry_yes_price : Trade F → F
  unfolding clamp
  entry_yes_price t = elim t.average_fill_price [
    | none ↦ t.entry_price
    | some avg ↦ if str_eq t.direction "NO" then clamp (f.sub one avg) else avg
  ]

  unfoldable pub exit_yes_price : Trade F → F → F
  unfolding clamp
  exit_yes_price t price = if str_eq t.direction "NO" then clamp (f.sub one price) else price

  unfoldable pub net_pnl : F → Trade F → F
  net_pnl pnl t = f.sub (f.sub pnl (or_float t.fee_usdc nought)) (or_float t.gas_cost_usdc nought)

  -- The quotient, or 0.0 for a divisor that is false.
  abbrev pub quot_or_zero : F → F → F
  quot_or_zero x y = if truthy y then f.quot x y else nought

  unfoldable pub pnl_at : Trade F → F → F
  unfolding entry_yes_price exit_yes_price net_pnl
  pnl_at t price =
      let entry = entry_yes_price t in
      let exit = exit_yes_price t price in
      let size = or_float t.filled_size_usdc t.size_usdc in
      net_pnl
        (if str_eq t.direction "YES"
          then quot_or_zero (f.mul (f.sub exit entry) size) entry
          else quot_or_zero (f.mul (f.sub entry exit) size) (f.sub one entry))
        t

  unfoldable pub close_row : F → TradeStatus → String → String → Trade F → Trade F
  unfolding pnl_at exit_yes_price
  close_row price status reason now t =
      let pnl = pnl_at t price in
      record t {
        status = status;
        exit_price = some (exit_yes_price t price);
        pnl = some pnl;
        closed_at = some now;
        exit_reason = some reason;
        realized_roi = some (quot_or_zero pnl (or_float t.filled_size_usdc t.size_usdc));
        bracket_state = some "closed";
        entry_order_status = some (or_else t.entry_order_status "filled");
      }

  -- The row with the id is read and updated.
  unfoldable pub close_position :
      ℕ → F → TradeStatus → String → String → List (Trade F) → List (Trade F)
  unfolding close_row
  close_position id price status reason now ts =
      map (λ t. if t.id == id then close_row price status reason now t else t) ts

  -- `ORDER BY timestamp DESC`.
  newest_first : Trade F → List (Trade F) → List (Trade F)
  newest_first t [] = t ∷ []
  newest_first t (u ∷ us) =
      if str_lt t.timestamp u.timestamp then u ∷ newest_first t us else t ∷ u ∷ us

  by_timestamp : List (Trade F) → List (Trade F)
  unfolding newest_first
  by_timestamp [] = []
  by_timestamp (t ∷ ts) = newest_first t (by_timestamp ts)

  unfoldable pub get_open_positions : List (Trade F) → List (Trade F)
  unfolding by_timestamp
  get_open_positions ts = by_timestamp (keep (λ t. is_open t.status) ts)
