-- ===== src/Execution/Executor/Guard.antt =====
-- src/polymarket_agent/execution/executor.py: the executor's state and what it checks before it
-- places an order. Times are microseconds; what the kill switch, the database and the network answer
-- are arguments.
use poly_cortex.Base.{
  ℕ, ◌+◌, ◌*◌, leb, ltb, Bool, true, false, not, ◌&&◌, ◌||◌, Option, none, some, List, [], ◌∷◌,
  length, take, any, keep, sorted, String, str_eq, if◌then◌else◌,
}
use poly_cortex.Float.{Float}
use poly_cortex.Execution.Executor.Orders.{BracketSpec, Order}
use poly_cortex.Execution.Slippage.{Level, check_slippage_ok}

-- The configuration.
pub record Config (F : Type 0) : Type 0 where
  pub dry_run : Bool
  pub split_orders_above : F
  pub order_expiry_minutes : ℕ
  pub enable_bracket_orders : Bool
  pub bracket_take_profit_pct : F
  pub bracket_stop_loss_pct : F
  pub gtt_ttl_minutes : ℕ
  pub paper_fill_on_place : Bool
  pub paper_allow_partial_fills : Bool
  pub paper_partial_fill_ratio : F
  pub paper_fill_tolerance : F
  pub live_reconcile_enabled : Bool
  pub max_single_order_usdc : F
  pub dedup_window_seconds : ℕ
  pub max_slippage_bps : F

-- An entry of `_recent_placements`.
pub record Placement : Type 0 where
  pub market_id : String
  pub direction : String
  pub order_kind : String
  pub at : ℕ

-- `drawn` counts the identifiers drawn from `uuid4`.
pub record OrderExecutor (F : Type 0) : Type 0 where
  pub config : Config F
  pub has_clob : Bool
  pub orders : List (Order F)
  pub recent_placements : List Placement
  pub drawn : ℕ

-- The reasons of `_validate_order`.
pub data Rejection : Type 0 where
  kill_switch_active : String → Rejection
  price_out_of_range size_too_small size_too_large bad_direction no_token no_market : Rejection

pub data IntentReply : Type 0 where
  stored duplicate db_failed : IntentReply

-- The answer of the chain: no wallet is set, a failure, or a number.
pub data ChainReply : Type 0 where
  not_set unreachable : ChainReply
  reads : ℕ → ChainReply

pub record Book (F : Type 0) : Type 0 where
  pub bids : List (Level F)
  pub asks : List (Level F)

-- `__init__` outside of the database and the client.
unfoldable pub init : {F : Type 0} → Config F → Bool → OrderExecutor F
init config has_clob = record {
  config = config;
  has_clob = not config.dry_run && has_clob;
  orders = [];
  recent_placements = [];
  drawn = 0;
}

-- `_persist_order_intent`: only a duplicate says no.
unfoldable pub persist_order_intent : IntentReply → Bool
persist_order_intent duplicate = false
persist_order_intent _ = true

module _ {F : Type 0} ⦃f : Float F⦄ where
  -- `_assert_sufficient_balance`; `false` raises.
  unfoldable pub assert_sufficient_balance : Bool → F → ChainReply → Bool
  assert_sufficient_balance dry_run order_size_usdc (reads balance_raw) =
      dry_run || not (f.lt (f.quot (f.lit balance_raw 0) (f.lit 1000000 0)) order_size_usdc)
  assert_sufficient_balance dry_run order_size_usdc _ = true

  -- `_check_gas_price`; `false` raises.
  unfoldable pub check_gas_price : Bool → F → ChainReply → Bool
  check_gas_price dry_run max_gas_gwei (reads gas_wei) =
      dry_run || not (f.lt max_gas_gwei (f.quot (f.lit gas_wei 0) (f.lit 1000000000 0)))
  check_gas_price dry_run max_gas_gwei _ = true

  -- The kill switch's reading comes first.
  unfoldable pub validate_order :
      Config F → Bool × String → String → String → String → F → F → Option Rejection
  validate_order c kill market_id token_id direction size_usdc price =
      if kill.0
      then some (kill_switch_active kill.1)
      else if not (f.le (f.lit 1 2) price && f.le price (f.lit 99 2))
      then some price_out_of_range
      else if f.lt size_usdc (f.lit 5 1)
      then some size_too_small
      else if f.lt c.max_single_order_usdc size_usdc
      then some size_too_large
      else if not (str_eq direction "YES" || str_eq direction "NO")
      then some bad_direction
      else if str_eq token_id "" && not c.dry_run
      then some no_token
      else if str_eq market_id ""
      then some no_market
      else none

  -- The check of the book in `_place_order_unlocked`, where both sides have levels.
  unfoldable pub slippage_allows : Config F → F → Option (Book F) → Bool
  slippage_allows c size_usdc none = true
  slippage_allows c size_usdc (some book) = elim book.bids [
    | [] ↦ true
    | b ∷ bids ↦ elim book.asks [
      | [] ↦ true
      | a ∷ asks ↦
          c.dry_run
          || (check_slippage_ok size_usdc "BUY" (b ∷ bids) (a ∷ asks) c.max_slippage_bps).0
    ]
  ]

  unfoldable pub default_bracket_spec : Config F → Option (BracketSpec F)
  default_bracket_spec c =
      if c.enable_bracket_orders
      then some (record {
        take_profit_pct = c.bracket_take_profit_pct;
        stop_loss_pct = c.bracket_stop_loss_pct;
        ttl_minutes = c.gtt_ttl_minutes;
      })
      else none

-- The same key of the dictionary.
abbrev pub same_key : Placement → Placement → Bool
same_key p q =
    str_eq p.market_id q.market_id
    && (str_eq p.direction q.direction && str_eq p.order_kind q.order_kind)

-- `self._recent_placements[key] = now`
unfoldable pub note_placement : Placement → List Placement → List Placement
note_placement p [] = p ∷ []
note_placement p (q ∷ qs) =
    let rest = note_placement p qs in if same_key p q then p ∷ qs else q ∷ rest

-- The hard cap: the oldest 5000 go where there are more than 10000.
unfoldable pub cap_placements : List Placement → List Placement
cap_placements ps =
    let oldest = take 5000 (sorted (λ p q. ltb p.at q.at) ps) in
    if ltb 10000 (length ps) then keep (λ p. not (any (same_key p) oldest)) ps else ps

unfoldable pub cleanup_recent_placements : ℕ → ℕ → List Placement → List Placement
unfolding cap_placements
cleanup_recent_placements dedup_window_seconds now ps =
    cap_placements (keep (λ p. leb now (p.at + dedup_window_seconds * 1000000)) ps)

-- `_is_duplicate`, with the placements that are left.
unfoldable pub is_duplicate : ℕ → ℕ → Placement → List Placement → Bool × List Placement
unfolding cleanup_recent_placements
is_duplicate dedup_window_seconds now key ps =
    let left = cleanup_recent_placements dedup_window_seconds now ps in
    (any (same_key key) left, left)
