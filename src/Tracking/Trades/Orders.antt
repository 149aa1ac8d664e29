-- ===== src/Tracking/Trades/Orders.antt =====
-- src/polymarket_agent/tracking/tracker.py: recording the trade of an order, keeping it in step with the
-- order, its fees and its running profit, and closing it with its bracket. A key that a dictionary may lack
-- is an option; whether the database commits is an argument, and a rollback leaves the table.
pub mod Lookup
pub mod Exits
pub mod Closed
pub mod Rows
pub mod History
mod Tests
use poly_cortex.Base.{
  ℕ, ◌+◌, Bool, true, false, not, ◌==◌, ◌++◌, Option, none, some, List, [], ◌∷◌, map, map_option,
  keep, count, is_some, String, str_eq, str_lt, concat, sorted, take, if◌then◌else◌,
}
use poly_cortex.Float.{Float, nought, one, fmax, abs, sum}
use poly_cortex.Tracking.Trades.{
  Trade, TradeEntry, TradeStatus, open_trade, is_open, or_else, or_float, quot_or_zero,
  entry_yes_price, net_pnl, pnl_at, close_position,
}

-- The dictionary of an order, with its lists of identifiers and times as the texts that are stored.
pub record OrderDict (F : Type 0) : Type 0 where
  pub order_id : Option String
  pub parent_order_id : Option String
  pub status : Option String
  pub order_kind : Option String
  pub order_type : Option String
  pub filled_size_usdc : Option F
  pub remaining_size_usdc : Option F
  pub average_fill_price : Option F
  pub price : Option F
  pub exchange_order_ids : Option String
  pub oco_group_id : Option String
  pub trigger_price : Option F
  pub trigger_condition : Option String
  pub take_profit_price : Option F
  pub stop_loss_price : Option F
  pub bracket_order_ids : Option String
  pub bracket_state : Option String
  pub last_fill_at : Option String
  pub reduce_only : Bool

-- The dictionary of an edge, in which two keys may hold None as well. A signal that is no number is none.
pub record EdgeDict (F : Type 0) : Type 0 where
  pub market_id : String
  pub question : String
  pub direction : String
  pub market_price : F
  pub edge : Option F
  pub confidence : Option F
  pub raw_estimated_prob : Option (Option F)
  pub estimated_prob : Option F
  pub calibrated_prob : Option (Option F)
  pub regime : Option String
  pub category : Option String
  pub signal_breakdown : Option (List (String × Option F))

pub record Meta : Type 0 where
  pub entry_reason : Option String
  pub timestamp : Option String
  pub status : Option TradeStatus
  pub order_type : Option String
  pub source : Option String
  pub notes : Option String

-- The rows in the order of their ids, and the last id that AUTOINCREMENT has given out.
pub record Database (F : Type 0) : Type 0 where
  pub rows : List (Trade F)
  pub last_id : ℕ

-- A text that is not empty.
abbrev pub given : Option String → Option String
given none = none
given (some s) = if str_eq s "" then none else some s

abbrev pub same_order : String → Option String → Bool
same_order id none = false
same_order id (some s) = str_eq s id

abbrev pub or_option {ℓ} : {A : Type ℓ} → Option A → Option A → Option A
or_option none y = y
or_option (some x) y = some x

module _ {F : Type 0} where
  unfoldable pub get_trade : ℕ → List (Trade F) → Option (Trade F)
  get_trade id [] = none
  get_trade id (t ∷ ts) = if t.id == id then some t else get_trade id ts

  unfoldable pub get_trade_id_for_order : String → List (Trade F) → Option ℕ
  get_trade_id_for_order order_id [] = none
  get_trade_id_for_order order_id (t ∷ ts) =
      if same_order order_id t.local_order_id then some t.id else get_trade_id_for_order order_id ts

  -- `UPDATE trades SET … WHERE id = ?`
  unfoldable pub update_row : ℕ → (Trade F → Trade F) → List (Trade F) → List (Trade F)
  update_row id g ts = map (λ t. if t.id == id then g t else t) ts

  unfoldable pub sync_entry_row : OrderDict F → Trade F → Trade F
  sync_entry_row o t = record t {
    entry_order_status = o.status;
    filled_size_usdc = o.filled_size_usdc;
    remaining_size_usdc = o.remaining_size_usdc;
    average_fill_price = o.average_fill_price;
    exchange_order_ids = o.exchange_order_ids;
    take_profit_price = o.take_profit_price;
    stop_loss_price = o.stop_loss_price;
    bracket_order_ids = o.bracket_order_ids;
    bracket_state = some (or_else o.bracket_state "inactive");
    last_fill_at = o.last_fill_at;
  }

  -- The id that is given, unless it is 0, or that of the row with the order's id.
  abbrev pub entry_id : OrderDict F → Option ℕ → List (Trade F) → Option ℕ
  entry_id o none ts = get_trade_id_for_order (or_else o.order_id "") ts
  entry_id o (some id) ts =
      if id == 0 then get_trade_id_for_order (or_else o.order_id "") ts else some id

  unfoldable pub sync_entry_order : OrderDict F → Option ℕ → List (Trade F) → List (Trade F) × Bool
  unfolding sync_entry_row update_row get_trade_id_for_order
  sync_entry_order o trade_id ts = elim (entry_id o trade_id ts) [
    | none ↦ (ts, false)
    | some id ↦ (update_row id (sync_entry_row o) ts, true)
  ]

  unfoldable pub sync_row : OrderDict F → String → Trade F → Trade F
  sync_row o parent t =
      if same_order parent t.local_order_id
      then record t {
        bracket_state = o.status;
        last_fill_at = or_option o.last_fill_at t.last_fill_at;
        notes = or_option t.notes (some (concat "bracket:" (or_else o.order_kind "gtt")));
      }
      else t

  unfoldable pub sync_bracket_state_no_commit : OrderDict F → List (Trade F) → List (Trade F)
  unfolding sync_row
  sync_bracket_state_no_commit o ts = elim (given o.parent_order_id) [
    | none ↦ ts
    | some parent ↦ map (sync_row o parent) ts
  ]

  -- With whether a row was changed.
  unfoldable pub sync_bracket_state : OrderDict F → List (Trade F) → List (Trade F) × Bool
  unfolding sync_bracket_state_no_commit get_trade_id_for_order
  sync_bracket_state o ts = elim (given o.parent_order_id) [
    | none ↦ (ts, false)
    | some parent ↦ (sync_bracket_state_no_commit o ts, is_some (get_trade_id_for_order parent ts))
  ]

  -- `ORDER BY COALESCE(closed_at, timestamp) DESC LIMIT ?`
  unfoldable pub get_closed_trades : Option ℕ → List (Trade F) → List (Trade F)
  get_closed_trades limit ts =
      let at = λ (t : Trade F). or_else t.closed_at t.timestamp in
      let rows = sorted (λ t u. str_lt (at t) (at u)) (keep (λ t. not (is_open t.status)) ts) in
      elim limit [ none ↦ rows | some n ↦ take n rows ]

  -- The ids go on after the deletion.
  unfoldable pub reset : Database F → Database F
  reset db = record db { rows = [] }

module _ {F : Type 0} ⦃f : Float F⦄ where
  -- The first of the signals with the greatest size, after one found so far.
  unfoldable pub strongest_from : String × F → List (String × Option F) → String
  strongest_from (k, v) [] = k
  strongest_from (k, v) ((j, none) ∷ signals) = strongest_from (k, v) signals
  strongest_from (k, v) ((j, some w) ∷ signals) =
      strongest_from (if f.lt (abs v) (abs w) then (j, w) else (k, v)) signals

  unfoldable pub strongest : List (String × Option F) → Option String
  unfolding strongest_from
  strongest [] = none
  strongest ((j, none) ∷ signals) = strongest signals
  strongest ((j, some w) ∷ signals) = some (strongest_from (j, w) signals)

  unfoldable pub derive_entry_reason : Option (List (String × Option F)) → String
  unfolding strongest
  derive_entry_reason none = "system_signal"
  derive_entry_reason (some signals) = elim (strongest signals) [
    | none ↦ "system_signal"
    | some k ↦ concat "strongest_signal:" k
  ]

  -- `json.dumps` of the signals is an argument.
  unfoldable pub new_entry :
      (List (String × Option F) → String) → EdgeDict F → Bool → OrderDict F → Meta → TradeEntry F
  unfolding derive_entry_reason
  new_entry dumps e is_paper o meta = record {
    question = e.question;
    edge_at_entry = e.edge;
    confidence_at_entry = e.confidence;
    raw_estimated_prob = or_else e.raw_estimated_prob e.estimated_prob;
    estimated_prob = e.estimated_prob;
    calibrated_prob = or_else e.calibrated_prob e.estimated_prob;
    regime_at_entry = e.regime;
    category = e.category;
    signal_breakdown = map_option dumps e.signal_breakdown;
    is_paper = is_paper;
    entry_reason =
        some (or_else (given meta.entry_reason) (derive_entry_reason e.signal_breakdown));
    order_type = or_else meta.order_type (or_else o.order_type "limit");
    source = or_else meta.source "agent";
    parent_order_id = o.parent_order_id;
    oco_group_id = o.oco_group_id;
    trigger_price = o.trigger_price;
    trigger_condition = o.trigger_condition;
    reduce_only = o.reduce_only;
    order_kind = or_else o.order_kind "entry";
  }

  -- Without a size filled, all of it where the order has the status filled.
  unfoldable pub filled_of : F → OrderDict F → F
  filled_of size o =
      or_else o.filled_size_usdc (if same_order "filled" o.status then size else nought)

  unfoldable pub new_row :
      (List (String × Option F) → String)
      → String
      → ℕ
      → EdgeDict F
      → F
      → Bool
      → OrderDict F
      → Meta
      → Trade F
  unfolding new_entry filled_of
  new_row dumps now id e size is_paper o meta = record {
    id = id;
    market_id = e.market_id;
    direction = e.direction;
    entry_price = e.market_price;
    size_usdc = size;
    timestamp = or_else meta.timestamp now;
    status = or_else meta.status open_trade;
    exit_price = none;
    pnl = none;
    closed_at = none;
    exit_reason = none;
    realized_roi = none;
    local_order_id = o.order_id;
    entry_order_status = some (or_else o.status "filled");
    filled_size_usdc = some (filled_of size o);
    average_fill_price = o.average_fill_price;
    bracket_state = some (or_else o.bracket_state "inactive");
    last_fill_at = o.last_fill_at;
    fee_usdc = some nought;
    gas_cost_usdc = some nought;
    is_maker = none;
    notes = meta.notes;
    remaining_size_usdc =
        some (or_else o.remaining_size_usdc (fmax (f.sub size (filled_of size o)) nought));
    exchange_order_ids = o.exchange_order_ids;
    take_profit_price = o.take_profit_price;
    stop_loss_price = o.stop_loss_price;
    bracket_order_ids = o.bracket_order_ids;
    entry = new_entry dumps e is_paper o meta;
  }

  -- `_insert_trade`, with the id of the new row.
  unfoldable pub insert_trade :
      (List (String × Option F) → String)
      → String
      → EdgeDict F
      → F
      → Bool
      → OrderDict F
      → Meta
      → Database F
      → Database F × ℕ
  unfolding new_row
  insert_trade dumps now e size is_paper o meta db =
      let id = db.last_id + 1 in
      (
        record {
          rows = db.rows ++ (new_row dumps now id e size is_paper o meta ∷ []);
          last_id = id;
        },
        id,
      )

  -- The profit at a price of YES, as for a close but with the price as it is.
  unfoldable pub running_row : F → Trade F → Trade F
  running_row price t =
      let entry = entry_yes_price t in
      let size = or_float t.filled_size_usdc t.size_usdc in
      let pnl =
        if str_eq t.direction "YES"
        then quot_or_zero (f.mul (f.sub price entry) size) entry
        else quot_or_zero (f.mul (f.sub entry price) size) (f.sub one entry) in
      record t { pnl = some (net_pnl pnl t) }

  unfoldable pub update_position : ℕ → F → List (Trade F) → List (Trade F)
  unfolding running_row update_row
  update_position id price ts = update_row id (running_row price) ts

  unfoldable pub fee_row : F → Bool → F → Trade F → Trade F
  fee_row fee is_maker gas t = record t {
    fee_usdc = some (f.add (or_else t.fee_usdc nought) fee);
    is_maker = some is_maker;
    gas_cost_usdc = some (f.add (or_else t.gas_cost_usdc nought) gas);
  }

  unfoldable pub record_fee : ℕ → F → Bool → F → List (Trade F) → List (Trade F)
  unfolding fee_row update_row
  record_fee id fee is_maker gas ts = update_row id (fee_row fee is_maker gas) ts

  -- The price of the exit: the one given, not below 0.0, or that of the order.
  abbrev pub closing_price : OrderDict F → Option F → F
  closing_price o none = or_float o.average_fill_price (or_float o.price nought)
  closing_price o (some x) = if f.lt x nought then nought else x

  -- What `_close_position_no_commit` returns.
  unfoldable pub pnl_of : ℕ → F → List (Trade F) → F
  unfolding get_trade
  pnl_of id price ts = elim (get_trade id ts) [ none ↦ nought | some t ↦ pnl_at t price ]

  unfoldable pub close_trade_for_order :
      Bool
      → String
      → TradeStatus
      → String
      → Option F
      → OrderDict F
      → List (Trade F)
      → List (Trade F) × F
  unfolding get_trade_id_for_order sync_bracket_state_no_commit pnl_of close_position
  close_trade_for_order commits now status reason exit_price o ts =
      let price = closing_price o exit_price in
      elim (or_option (given o.parent_order_id) (given o.order_id)) [
        | none ↦ (ts, nought)
        | some order_id ↦ elim (get_trade_id_for_order order_id ts) [
          | none ↦ (ts, nought)
          | some id ↦
              if commits
              then (
                close_position id price status reason (or_else (given o.last_fill_at) now)
                    (sync_bracket_state_no_commit o ts),
                pnl_of id price (sync_bracket_state_no_commit o ts),
              )
              else (ts, nought)
        ]
      ]
