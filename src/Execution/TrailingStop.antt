-- ===== src/Execution/TrailingStop.antt =====
-- src/polymarket_agent/execution/trailing_stop.py, with a mark for each side.
pub mod Follow
pub mod Mark
mod Tests
use poly_cortex.Base.{
  ℕ, ◌+◌, Bool, true, false, Option, none, some, String, str_eq, upper_is, if◌then◌else◌, List, [],
  ◌∷◌,
}
use poly_cortex.Float.{Float, one, nought}

-- `low_water` is `none` for float("inf"), its value until a BUY stop sets it.
pub record TrailingStop (F : Type 0) : Type 0 where
  pub order_id : String
  pub token_id : String
  pub side : String
  pub initial_price : F
  pub trail_amount : F
  pub trail_mode : String
  pub high_water : F
  pub low_water : Option F
  pub stop_price : F
  pub triggered : Bool
  pub trigger_price : Option F
  pub update_count : ℕ

module _ {F : Type 0} ⦃f : Float F⦄ where
  unfoldable pub is_sell : TrailingStop F → Bool
  is_sell s = upper_is s.side "SELL"

  pub is_percent : TrailingStop F → Bool
  is_percent s = str_eq s.trail_mode "percent"

  pub calculate_stop_sell : TrailingStop F → F → F
  calculate_stop_sell s price =
      if is_percent s
      then f.round (f.mul price (f.sub one (f.quot s.trail_amount (f.lit 100 0)))) 4
      else f.round (f.sub price s.trail_amount) 4

  pub calculate_stop_buy : TrailingStop F → F → F
  calculate_stop_buy s price =
      if is_percent s
      then f.round (f.mul price (f.add one (f.quot s.trail_amount (f.lit 100 0)))) 4
      else f.round (f.add price s.trail_amount) 4

  -- The water mark of the side and the stop at a reference price, as at the start and in `reset`.
  pub anchor : F → TrailingStop F → TrailingStop F
  anchor price s =
      if is_sell s
      then record s { high_water = price; stop_price = calculate_stop_sell s price }
      else record s { low_water = some price; stop_price = calculate_stop_buy s price }

  -- The constructor with `__post_init__`.
  pub init : String → String → String → F → F → String → TrailingStop F
  unfolding anchor
  init order_id token_id side initial_price trail_amount trail_mode = anchor initial_price (record {
    order_id = order_id;
    token_id = token_id;
    side = side;
    initial_price = initial_price;
    trail_amount = trail_amount;
    trail_mode = trail_mode;
    high_water = nought;
    low_water = none;
    stop_price = nought;
    triggered = false;
    trigger_price = none;
    update_count = 0;
  })

  abbrev pub trigger : F → TrailingStop F → TrailingStop F
  trigger price s = record s { triggered = true; trigger_price = some price }

  -- A new high moves a SELL stop up.
  pub raise_stop : F → TrailingStop F → TrailingStop F
  raise_stop price s =
      let new_stop = calculate_stop_sell s price in
      if f.lt s.high_water price
      then (if f.lt s.stop_price new_stop
          then record s { high_water = price; stop_price = new_stop }
          else record s { high_water = price })
      else s

  pub update_sell : F → TrailingStop F → TrailingStop F × Bool
  update_sell price s =
      let s' = raise_stop price s in
      if f.le price s'.stop_price then (trigger price s', true) else (s', false)

  abbrev pub below_low : F → Option F → Bool
  below_low price none = true
  below_low price (some low) = f.lt price low

  -- A new low moves a BUY stop down.
  pub lower_stop : F → TrailingStop F → TrailingStop F
  lower_stop price s =
      let new_stop = calculate_stop_buy s price in
      if below_low price s.low_water
      then (if f.lt new_stop s.stop_price
          then record s { low_water = some price; stop_price = new_stop }
          else record s { low_water = some price })
      else s

  pub update_buy : F → TrailingStop F → TrailingStop F × Bool
  update_buy price s =
      let s' = lower_stop price s in
      if f.le s'.stop_price price then (trigger price s', true) else (s', false)

  pub update_price : F → TrailingStop F → TrailingStop F × Bool
  update_price price s =
      let counted = record s { update_count = s.update_count + 1 } in
      if s.triggered
      then (s, true)
      else if is_sell s
      then update_sell price counted
      else update_buy price counted

  pub reset : F → TrailingStop F → TrailingStop F
  unfolding anchor
  reset new_price s =
      anchor new_price (record s { triggered = false; trigger_price = none; update_count = 0 })

  -- A feed of prices.
  pub feed : List F → TrailingStop F → TrailingStop F
  feed [] s = s
  feed (p ∷ ps) s = feed ps (update_price p s).0
