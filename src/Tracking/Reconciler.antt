-- ===== src/Tracking/Reconciler.antt =====
-- src/polymarket_agent/tracking/reconciler.py. The tracker is its table of trades; of an executor's order
-- the fields that are read stand here. The texts `description` and `resolution` are left out.
pub mod Heal
pub mod Report
mod Tests
use poly_cortex.Base.{
  ℕ, Bool, true, false, not, ◌&&◌, ◌||◌, Option, none, some, List, [], ◌∷◌, ◌++◌, any, String,
  str_eq, if◌then◌else◌, is_some,
}
use poly_cortex.Float.{Float, nought, abs}
use poly_cortex.Tracking.Trades.{
  Trade, TradeStatus, closed, or_float, close_position, get_open_positions,
}

pub data IssueType : Type 0 where
  phantom_position stale_position orphan_order size_mismatch : IssueType

pub data Severity : Type 0 where
  info warning : Severity

pub record ReconciliationIssue : Type 0 where
  pub issue_type : IssueType
  pub market_id : String
  pub severity : Severity
  pub auto_resolved : Bool

pub record ExecutorOrder (F : Type 0) : Type 0 where
  pub order_id : String
  pub market_id : String
  pub status : String
  pub order_kind : String
  pub filled_size_usdc : F

pub record PositionReconciler (F : Type 0) : Type 0 where
  pub stale_hours : F
  pub auto_close_phantoms : Bool

module _ {F : Type 0} where
  abbrev pub find_order : String → List (ExecutorOrder F) → Option (ExecutorOrder F)
  find_order id [] = none
  find_order id (o ∷ os) = if str_eq o.order_id id then some o else find_order id os

  -- Neither cancelled nor expired.
  abbrev pub is_live : ExecutorOrder F → Bool
  is_live o = not (str_eq o.status "cancelled" || str_eq o.status "expired")

  -- The order that a text or None names; the empty text counts as None.
  abbrev pub order_of : Option String → List (ExecutorOrder F) → Option (ExecutorOrder F)
  order_of none os = none
  order_of (some id) os = if str_eq id "" then none else find_order id os

  -- The executor knows the trade's order, or has a live order in the trade's market.
  pub is_matched : List (ExecutorOrder F) → Trade F → Bool
  is_matched os t =
      is_some (order_of t.local_order_id os)
      || any (λ o. is_live o && str_eq o.market_id t.market_id) os

  abbrev pub phantom : Bool → Trade F → ReconciliationIssue
  phantom resolved t = record {
    issue_type = phantom_position;
    market_id = t.market_id;
    severity = warning;
    auto_resolved = resolved;
  }

  -- The tracked order ids hold the order's.
  abbrev pub tracks : String → Trade F → Bool
  tracks id t = elim t.local_order_id [
    | none ↦ false
    | some oid ↦ not (str_eq oid "") && str_eq oid id
  ]

  abbrev pub is_orphan : List (Trade F) → ExecutorOrder F → Bool
  is_orphan positions o =
      is_live o && str_eq o.order_kind "entry" && not (any (tracks o.order_id) positions)

  abbrev pub orphan : ExecutorOrder F → ReconciliationIssue
  orphan o = record {
    issue_type = orphan_order;
    market_id = o.market_id;
    severity = warning;
    auto_resolved = false;
  }

  orphans : List (Trade F) → List (ExecutorOrder F) → List ReconciliationIssue
  orphans positions [] = []
  orphans positions (o ∷ os) =
      if is_orphan positions o then orphan o ∷ orphans positions os else orphans positions os

-- `fromisoformat` gives a text's moment in seconds, in UTC where the text names no zone; `none` is
-- ValueError.
module _ {F : Type 0} ⦃f : Float F⦄ where
  -- The loop of `_check_phantom_positions` over the open positions.
  pub phantoms :
      PositionReconciler F
      → String
      → List (ExecutorOrder F)
      → List (Trade F)
      → List (Trade F)
      → List ReconciliationIssue × List (Trade F)
  unfolding is_matched
  phantoms r now os [] ts = ([], ts)
  phantoms r now os (p ∷ ps) ts =
      let close = close_position p.id p.entry_price closed "phantom_reconciliation" now ts in
      let ts' = if is_matched os p then ts else if r.auto_close_phantoms then close else ts in
      let (issues, ts'') = phantoms r now os ps ts' in
      (if is_matched os p then issues else phantom r.auto_close_phantoms p ∷ issues, ts'')

  pub check_phantom_positions :
      PositionReconciler F
      → String
      → List (ExecutorOrder F)
      → List (Trade F)
      → List ReconciliationIssue × List (Trade F)
  unfolding phantoms
  check_phantom_positions r now os ts = phantoms r now os (get_open_positions ts) ts

  last_update : Trade F → String
  last_update t = elim t.last_fill_at [
    | none ↦ t.timestamp
    | some s ↦ if str_eq s "" then t.timestamp else s
  ]

  stale_since : PositionReconciler F → F → Trade F → F → List ReconciliationIssue
  stale_since r now t ts =
      let hours = f.quot (f.sub now ts) (f.lit 3600 0) in
      if f.lt ts (f.sub now (f.mul r.stale_hours (f.lit 3600 0)))
      then record {
        issue_type = stale_position;
        market_id = t.market_id;
        severity = if f.lt hours (f.mul r.stale_hours (f.lit 2 0)) then info else warning;
        auto_resolved = false;
      }
        ∷ []
      else []

  stale_one : (String → Option F) → PositionReconciler F → F → Trade F → List ReconciliationIssue
  unfolding last_update stale_since
  stale_one fromisoformat r now t =
      if str_eq (last_update t) ""
      then []
      else elim (fromisoformat (last_update t)) [ none ↦ [] | some ts ↦ stale_since r now t ts ]

  stales :
      (String → Option F) → PositionReconciler F → F → List (Trade F) → List ReconciliationIssue
  unfolding stale_one
  stales fromisoformat r now [] = []
  stales fromisoformat r now (p ∷ ps) =
      stale_one fromisoformat r now p ++ stales fromisoformat r now ps

  pub check_stale_positions :
      (String → Option F) → PositionReconciler F → F → List (Trade F) → List ReconciliationIssue
  unfolding stales
  check_stale_positions fromisoformat r now ts = stales fromisoformat r now (get_open_positions ts)

  pub check_orphan_orders : List (ExecutorOrder F) → List (Trade F) → List ReconciliationIssue
  unfolding orphans
  check_orphan_orders os ts = orphans (get_open_positions ts) os

  mismatch : Trade F → Option (ExecutorOrder F) → List ReconciliationIssue
  mismatch t none = []
  mismatch t (some o) =
      let db_filled = or_float t.filled_size_usdc (or_float (some t.size_usdc) nought) in
      let diff = abs (f.sub db_filled o.filled_size_usdc) in
      if f.le o.filled_size_usdc nought
      then []
      else if f.lt (f.lit 1 2) diff
      then record {
        issue_type = size_mismatch;
        market_id = o.market_id;
        severity = if f.lt (f.lit 1 0) diff then warning else info;
        auto_resolved = false;
      }
        ∷ []
      else []

  mismatches : List (ExecutorOrder F) → List (Trade F) → List ReconciliationIssue
  unfolding mismatch
  mismatches os [] = []
  mismatches os (p ∷ ps) = mismatch p (order_of p.local_order_id os) ++ mismatches os ps

  pub check_size_mismatches : List (ExecutorOrder F) → List (Trade F) → List ReconciliationIssue
  unfolding mismatches
  check_size_mismatches os ts = mismatches os (get_open_positions ts)

  -- The clock is read as a text for the table and as seconds for the age of a position.
  pub reconcile :
      (String → Option F)
      → PositionReconciler F
      → String
      → F
      → List (ExecutorOrder F)
      → List (Trade F)
      → List ReconciliationIssue × List (Trade F)
  reconcile fromisoformat r now_iso now os ts =
      let (found, ts') = check_phantom_positions r now_iso os ts in
      (
        found
            ++ check_stale_positions fromisoformat r now ts'
            ++ check_orphan_orders os ts'
            ++ check_size_mismatches os ts',
        ts',
      )
