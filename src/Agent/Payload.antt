-- ===== src/Agent/Payload.antt =====
-- What src/polymarket_agent/main.py passes between the edge detector, the sizer, the executor and the tracker.
use poly_cortex.Base.{
  ℕ, Bool, not, ◌&&◌, Option, none, some, List, map, map_option, String, str_eq, if◌then◌else◌,
}
use poly_cortex.Risk.Sizer.{EdgeResult, Position}
use poly_cortex.Execution.Executor.Orders.{
  Order, OrderStatus, OrderKind, Condition, BracketState, BracketSpec,
}
use poly_cortex.Execution.Executor.Guard.{Book}
use poly_cortex.Execution.Executor.Place.{PlaceRequest}
use poly_cortex.Tracking.Trades.{Trade}
use poly_cortex.Tracking.Trades.Orders.{OrderDict, EdgeDict, Meta}
use poly_cortex.Tracking.Tally.{lookup, text_key}

-- `EdgeResult` of models/edge.py.
pub record Opportunity (F : Type 0) : Type 0 where
  pub estimated_prob : F
  pub market_price : F
  pub edge : F
  pub direction : String
  pub confidence : F
  pub regime : String
  pub market_id : String
  pub question : String
  pub category : String
  pub signal_breakdown : List (String × F)
  pub raw_estimated_prob : Option F
  pub calibrated_prob : Option F

-- What the configuration says of the cycle.
pub record CycleConfig (F : Type 0) : Type 0 where
  pub dry_run : Bool
  pub bankroll : F
  pub opportunity_top_n : ℕ
  pub max_slippage_bps : F
  pub taker_fee_rate : F
  pub enable_bracket_orders : Bool
  pub bracket_take_profit_pct : F
  pub bracket_stop_loss_pct : F
  pub gtt_ttl_minutes : ℕ

-- An entry of `order_books`. An identifier that a market lacks is empty.
pub record BookData (F : Type 0) : Type 0 where
  pub token_id : String
  pub no_token_id : String
  pub book : Book F

-- The texts that an order is stored with.
pub record Texts (F : Type 0) : Type 0 where
  pub signals : List (String × Option F) → String
  pub ids : List String → String
  pub isoformat : ℕ → String

abbrev pub status_text : OrderStatus → String
status_text OrderStatus.placed = "placed"
status_text OrderStatus.partially_filled = "partially_filled"
status_text OrderStatus.filled = "filled"
status_text OrderStatus.armed = "armed"
status_text OrderStatus.cancelled = "cancelled"
status_text OrderStatus.expired = "expired"

abbrev pub kind_text : OrderKind → String
kind_text OrderKind.entry = "entry"
kind_text OrderKind.take_profit = "take_profit"
kind_text OrderKind.stop_loss = "stop_loss"
kind_text OrderKind.exit = "exit"

abbrev pub condition_text : Condition → String
condition_text Condition.gte = "gte"
condition_text Condition.lte = "lte"

abbrev pub bracket_text : BracketState → String
bracket_text BracketState.inactive = "inactive"
bracket_text BracketState.pending_fill = "pending_fill"
bracket_text BracketState.armed = "armed"
bracket_text BracketState.closed = "closed"
bracket_text BracketState.expired = "expired"
bracket_text BracketState.cancelled = "cancelled"

abbrev pub no_meta : Meta
no_meta = record {
  entry_reason = none;
  timestamp = none;
  status = none;
  order_type = none;
  source = none;
  notes = none;
}

module _ {F : Type 0} where
  -- `asdict(order)`
  abbrev pub order_payload : Texts F → Order F → OrderDict F
  order_payload texts o = record {
    order_id = some o.order_id;
    parent_order_id = o.parent_order_id;
    status = some (status_text o.status);
    order_kind = some (kind_text o.order_kind);
    order_type = some o.order_type;
    filled_size_usdc = some o.filled_size_usdc;
    remaining_size_usdc = some o.remaining_size_usdc;
    average_fill_price = o.average_fill_price;
    price = some o.price;
    exchange_order_ids = some (texts.ids o.exchange_order_ids);
    oco_group_id = o.oco_group_id;
    trigger_price = o.trigger_price;
    trigger_condition = map_option condition_text o.trigger_condition;
    take_profit_price = o.take_profit_price;
    stop_loss_price = o.stop_loss_price;
    bracket_order_ids = some (texts.ids o.bracket_order_ids);
    bracket_state = some (bracket_text o.bracket_state);
    last_fill_at = map_option texts.isoformat o.last_fill_at;
    reduce_only = o.reduce_only;
  }

  -- The dictionary `edge_dict` as the tracker reads it.
  abbrev pub edge_dict : Opportunity F → EdgeDict F
  edge_dict e = record {
    market_id = e.market_id;
    question = e.question;
    direction = e.direction;
    market_price = e.market_price;
    edge = some e.edge;
    confidence = some e.confidence;
    raw_estimated_prob = some e.raw_estimated_prob;
    estimated_prob = some e.estimated_prob;
    calibrated_prob = some e.calibrated_prob;
    regime = some e.regime;
    category = some e.category;
    signal_breakdown = some (map (λ s. (s.0, some s.1)) e.signal_breakdown);
  }

  -- The same dictionary as the sizer reads it: it has no key for an uncertainty.
  abbrev pub sized_edge : Opportunity F → EdgeResult F
  sized_edge e = record {
    estimated_prob = e.estimated_prob;
    market_price = e.market_price;
    direction = e.direction;
    confidence = e.confidence;
    regime = e.regime;
    category = e.category;
    spread = lookup "spread" e.signal_breakdown;
    uncertainty = none;
  }

  -- A row of the tracker as the sizer reads it.
  abbrev pub position_of : Trade F → Position F
  position_of t = record { size = none; size_usdc = some t.size_usdc; category = t.entry.category }

  abbrev pub build_bracket_spec : CycleConfig F → Option (BracketSpec F)
  build_bracket_spec c =
      if c.enable_bracket_orders
      then some (record {
        take_profit_pct = c.bracket_take_profit_pct;
        stop_loss_pct = c.bracket_stop_loss_pct;
        ttl_minutes = c.gtt_ttl_minutes;
      })
      else none

  -- The token of the direction, where the market has one for NO.
  abbrev pub token_of : String → Option (BookData F) → String
  token_of direction none = ""
  token_of direction (some b) =
      if str_eq direction "NO" && not (str_eq b.no_token_id "") then b.no_token_id else b.token_id

  abbrev pub request_of : CycleConfig F → Opportunity F → F → Option (BookData F) → PlaceRequest F
  request_of c e size market = record {
    market_id = e.market_id;
    direction = e.direction;
    size_usdc = size;
    price = e.market_price;
    token_id = token_of e.direction market;
    bracket_spec = build_bracket_spec c;
    market_book = map_option (λ b. b.book) market;
  }
