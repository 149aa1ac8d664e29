-- ===== src/Execution/Executor/Place.antt =====
-- src/polymarket_agent/execution/executor.py: placing entries and closing a position. What the
-- exchange and the surroundings answer during a call is an argument.
use poly_cortex.Base.{
  ℕ, zero, suc, min, Bool, true, false, not, ◌&&◌, ◌||◌, Option, none, some, List, [], ◌∷◌, ◌++◌,
  String, str_eq, if◌then◌else◌,
}
use poly_cortex.Float.{Float, nought, one}
use poly_cortex.Execution.Executor.Orders.{
  Order, cancelled, entry, exit, pending_fill, BracketSpec, find, post_init, clamp_price,
  apply_fill,
}
use poly_cortex.Execution.Executor.Guard.{
  OrderExecutor, Placement, IntentReply, ChainReply, Book, persist_order_intent,
  assert_sufficient_balance, check_gas_price, validate_order, slippage_allows, default_bracket_spec,
  note_placement, is_duplicate,
}
use poly_cortex.Execution.Executor.Brackets.{fresh, insert, set_order, arm_bracket_orders}

-- What the exchange answers to one post: an identifier, none, or an exception.
pub data PostReply : Type 0 where
  with_id : String → PostReply
  without_id raised : PostReply

-- What the surroundings answer during one call.
pub record World (F : Type 0) : Type 0 where
  pub now : ℕ
  pub kill : Bool × String
  pub intent : IntentReply
  pub balance : ChainReply
  pub max_gas_gwei : F
  pub gas : ChainReply
  pub posts : ℕ → PostReply

pub record PlaceRequest (F : Type 0) : Type 0 where
  pub market_id : String
  pub direction : String
  pub size_usdc : F
  pub price : F
  pub token_id : String
  pub bracket_spec : Option (BracketSpec F)
  pub market_book : Option (Book F)

-- `exchange_ids`; `none` is an exception.
unfoldable pub post_chunks : ℕ → ℕ → (ℕ → PostReply) → List String → Option (List String)
post_chunks zero i posts ids = some ids
post_chunks (suc n) i posts ids = elim (posts i) [
  | with_id id ↦ post_chunks n (suc i) posts (ids ++ (id ∷ []))
  | without_id ↦ post_chunks n (suc i) posts ids
  | raised ↦ none
]

abbrev pub has_raised : PostReply → Bool
has_raised raised = true
has_raised _ = false

module _ {F : Type 0} ⦃f : Float F⦄ where
  unfoldable pub build_entry_order :
      String → String → String → F → F → String → ℕ → Bool → ℕ → Order F
  unfolding post_init
  build_entry_order order_id market_id direction size_usdc price token_id chunks is_paper
        timestamp =
      post_init (
        fresh order_id market_id token_id direction "BUY" size_usdc price timestamp chunks is_paper
          entry)

  -- The price of an entry, a tenth of a cent below the market.
  unfoldable pub entry_limit : String → F → F
  entry_limit direction price = clamp_price (
      if str_eq direction "YES"
      then f.sub price (f.lit 1 3)
      else f.sub (f.sub one price) (f.lit 1 3))

  unfoldable pub n_chunks : F → F → ℕ
  n_chunks split_orders_above size_usdc =
      if f.lt split_orders_above size_usdc
      then min (f.ceil (f.quot size_usdc (f.lit 20 0))) 15
      else 1

  -- The call's result: the executor, and the order as it stands there.
  abbrev pub returned : String → OrderExecutor F → OrderExecutor F × Option (Order F)
  returned id e = (e, find id e.orders)

  unfoldable pub place_paper :
      (ℕ → String) → ℕ → Option (BracketSpec F) → Order F → OrderExecutor F → OrderExecutor F
  unfolding set_order apply_fill arm_bracket_orders
  place_paper uuid now bracket o e =
      let o' = apply_fill o.size_usdc o.price now o in
      let e' = set_order o' e in
      if not e.config.paper_fill_on_place
      then e
      else elim bracket [ none ↦ e' | some spec ↦ arm_bracket_orders uuid spec now o' e' ]

  -- What the `try` block posts; `none` is a duplicate or an exception.
  unfoldable pub submit : World F → F → ℕ → Option (List String)
  unfolding persist_order_intent assert_sufficient_balance check_gas_price post_chunks
  submit w size_usdc chunks =
      if persist_order_intent w.intent
        && (assert_sufficient_balance false size_usdc w.balance
            && check_gas_price false w.max_gas_gwei w.gas)
      then post_chunks chunks 0 w.posts []
      else none

  abbrev pub pended : Option (BracketSpec F) → Order F → Order F
  pended none o = o
  pended (some spec) o = record o { bracket_state = pending_fill }

  unfoldable pub place_live :
      World F
      → Option (BracketSpec F)
      → Order F
      → OrderExecutor F
      → OrderExecutor F × Option (Order F)
  unfolding set_order submit
  place_live w bracket o e = elim (submit w o.size_usdc o.chunks) [
    | none ↦ (set_order (record o { status = cancelled }) e, none)
    | some ids ↦
        returned o.order_id (set_order (pended bracket (record o { exchange_order_ids = ids })) e)
  ]

  abbrev pub or_spec : Option (BracketSpec F) → Option (BracketSpec F) → Option (BracketSpec F)
  or_spec none other = other
  or_spec (some spec) other = some spec

  -- The order that a request builds.
  unfoldable pub entry_order : (ℕ → String) → ℕ → PlaceRequest F → OrderExecutor F → Order F
  unfolding build_entry_order entry_limit n_chunks
  entry_order uuid now r e =
      build_entry_order (uuid e.drawn) r.market_id r.direction r.size_usdc
        (entry_limit r.direction r.price) r.token_id
        (n_chunks e.config.split_orders_above r.size_usdc) (e.config.dry_run || not e.has_clob) now

  abbrev pub placement_of : PlaceRequest F → ℕ → Placement
  placement_of r now = record {
    market_id = r.market_id;
    direction = r.direction;
    order_kind = "entry";
    at = now;
  }

  -- The entry is stored and its placement noted.
  abbrev pub store_entry : PlaceRequest F → ℕ → Order F → OrderExecutor F → OrderExecutor F
  store_entry r now o e = record e {
    orders = insert o e.orders;
    recent_placements = note_placement (placement_of r now) e.recent_placements;
    drawn = suc e.drawn;
  }

  -- After the checks.
  unfoldable pub place_entry :
      (ℕ → String) → World F → PlaceRequest F → OrderExecutor F → OrderExecutor F × Option (Order F)
  unfolding entry_order insert note_placement default_bracket_spec place_paper place_live
  place_entry uuid w r e =
      let o = entry_order uuid w.now r e in
      let e' = store_entry r w.now o e in
      let bracket = or_spec r.bracket_spec (default_bracket_spec e.config) in
      if e.config.dry_run || not e.has_clob
      then returned o.order_id (place_paper uuid w.now bracket o e')
      else place_live w bracket o e'

  -- `_place_order_unlocked`
  unfoldable pub place_order :
      (ℕ → String) → World F → PlaceRequest F → OrderExecutor F → OrderExecutor F × Option (Order F)
  unfolding validate_order slippage_allows is_duplicate place_entry
  place_order uuid w r e =
      let key : Placement = record {
        market_id = r.market_id;
        direction = r.direction;
        order_kind = "entry";
        at = w.now;
      } in
      let found =
        is_duplicate e.config.dedup_window_seconds w.now (placement_of r w.now)
          e.recent_placements in
      let e' : OrderExecutor F = record e { recent_placements = found.1 } in
      elim (validate_order e.config w.kill r.market_id r.token_id r.direction r.size_usdc r.price) [
        | some reason ↦ (e, none)
        | none ↦
            if not (slippage_allows e.config r.size_usdc r.market_book)
            then (e, none)
            else if found.0
            then (e', none)
            else place_entry uuid w r e'
      ]

  unfoldable pub exit_order :
      (ℕ → String) → ℕ → String → String → String → F → F → OrderExecutor F → Order F
  unfolding post_init
  exit_order uuid now market_id token_id direction size_usdc price e =
      post_init
        (record (fresh (uuid e.drawn) market_id token_id direction "SELL" size_usdc
          (clamp_price price) now 1 (e.config.dry_run || not e.has_clob) exit) {
            reduce_only = true;
          })

  abbrev pub posted : PostReply → Order F → Order F
  posted (with_id id) o = record o { exchange_order_ids = id ∷ [] }
  posted without_id o = o
  posted raised o = record o { status = cancelled }

  unfoldable pub close_position :
      (ℕ → String)
      → World F
      → String
      → String
      → String
      → F
      → F
      → OrderExecutor F
      → OrderExecutor F × Option (Order F)
  unfolding exit_order insert set_order apply_fill
  close_position uuid w market_id token_id direction size_usdc price e =
      let o = exit_order uuid w.now market_id token_id direction size_usdc price e in
      let e' : OrderExecutor F = record e { orders = insert o e.orders; drawn = suc e.drawn } in
      let live = set_order (posted (w.posts 0) o) e' in
      if not (f.lt nought price && f.lt price one)
      then (e, none)
      else if f.le size_usdc nought
      then (e, none)
      else if e.config.dry_run || not e.has_clob
      then returned o.order_id (set_order (apply_fill o.size_usdc o.price w.now o) e')
      else if has_raised (w.posts 0)
      then (live, none)
      else returned o.order_id live
