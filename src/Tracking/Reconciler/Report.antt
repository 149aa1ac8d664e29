-- ===== src/Tracking/Reconciler/Report.antt =====
-- What the checks of tracking/reconciler.py report, in terms of the table and of the executor's orders.
use poly_cortex.Base.{
  ◌≡◌, refl, not, ◌&&◌, List, [], ◌∷◌, any, count, length, arith, if◌then◌else◌, Bool-cases, inl,
  inr, ◌∙◌, String, str_eq,
}
use poly_cortex.Float.{Float}
use poly_cortex.Tracking.Trades.{Trade, closed, is_open, close_position, get_open_positions}
use poly_cortex.Tracking.Trades.Open.{get_open_positions-any, get_open_positions-count}
use poly_cortex.Tracking.Reconciler.{
  PositionReconciler, ExecutorOrder, is_matched, phantoms, check_phantom_positions, is_live, tracks,
  orphans, check_orphan_orders,
}

module _ {F : Type 0} ⦃f : Float F⦄ where
  phantoms-count :
      (r : PositionReconciler F) (now : String) (os : List (ExecutorOrder F))
      (ps ts : List (Trade F))
      → length (phantoms r now os ps ts).0 ≡ count (λ p. not (is_matched os p)) ps
  unfolding phantoms
  phantoms-count r now os [] ts = refl
  phantoms-count r now os (p ∷ ps) ts =
      let close = close_position p.id p.entry_price closed "phantom_reconciliation" now ts in
      elim (Bool-cases (is_matched os p)) [
        | inl m ↦ rw m (omega (arith, phantoms-count r now os ps ts))
        | inr m ↦ rw m (
            omega (arith, phantoms-count r now os ps (if r.auto_close_phantoms then close else ts)))
      ]

  -- One phantom is reported for each open trade of the table whose order the executor does not know and
  -- in whose market it has no live order.
  pub check_phantom_positions-count :
      (r : PositionReconciler F) (now : String) (os : List (ExecutorOrder F)) (ts : List (Trade F))
      → length (check_phantom_positions r now os ts).0
        ≡ count (λ t. is_open t.status && not (is_matched os t)) ts
  unfolding check_phantom_positions
  check_phantom_positions-count r now os ts =
      phantoms-count r now os (get_open_positions ts) ts
      ∙ get_open_positions-count (λ p. not (is_matched os p)) ts

  orphans-count :
      (ts : List (Trade F)) (os : List (ExecutorOrder F))
      → length (orphans (get_open_positions ts) os)
        ≡ count
            (λ o.
              is_live o
              && str_eq o.order_kind "entry"
              && not (any (λ t. is_open t.status && tracks o.order_id t) ts))
            os
  unfolding orphans
  orphans-count ts [] = refl
  orphans-count ts (o ∷ os) =
      ground (arith, orphans-count ts os, get_open_positions-any (tracks o.order_id) ts)

  -- One orphan is reported for each live entry order of the executor that no open trade of the table
  -- names, in whatever order the trades stand.
  pub check_orphan_orders-count :
      (os : List (ExecutorOrder F)) (ts : List (Trade F))
      → length (check_orphan_orders os ts)
        ≡ count
            (λ o.
              is_live o
              && str_eq o.order_kind "entry"
              && not (any (λ t. is_open t.status && tracks o.order_id t) ts))
            os
  unfolding check_orphan_orders
  check_orphan_orders-count os ts = orphans-count ts os
