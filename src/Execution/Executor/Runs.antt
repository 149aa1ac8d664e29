-- ===== src/Execution/Executor/Runs.antt =====
-- Any sequence of operations of execution/executor.py.
use poly_cortex.Base.{ℕ, ◌≡◌, Bool, true, false, some, List, [], ◌∷◌, String, str_eq, arith}
use poly_cortex.Float.{Float}
use poly_cortex.Execution.Executor.Orders.{Order, find, is_final, is_taken}
use poly_cortex.Execution.Executor.Guard.{Config, OrderExecutor, init}
use poly_cortex.Execution.Executor.Place.{World, PlaceRequest, place_order, close_position}
use poly_cortex.Execution.Executor.Cancel.{
  cancel_order, cancel_all_open_orders, cancel_expired_orders,
}
use poly_cortex.Execution.Executor.Children.{Surroundings}
use poly_cortex.Execution.Executor.Reconcile.{reconcile_orders}
use poly_cortex.Execution.Executor.Moves.{Moves, and_then, IsInjective, IsSound, is_gone}
use poly_cortex.Execution.Executor.Refine.Arm.{same-moves}
use poly_cortex.Execution.Executor.Refine.Place.{place_order-moves, close_position-moves}
use poly_cortex.Execution.Executor.Refine.Cancel.{
  cancel_order-moves, cancel_all_open_orders-moves, cancel_expired_orders-moves,
}
use poly_cortex.Execution.Executor.Refine.Reconcile.{reconcile_orders-moves}
use poly_cortex.Execution.Executor.Traces.{moves-IsSound, moves-forward}

pub data Operation (F : Type 0) : Type 0 where
  places : World F → PlaceRequest F → Operation F
  closes : World F → String → String → String → F → F → Operation F
  cancels : (String → Bool) → String → Operation F
  cancels_all : (String → Bool) → Operation F
  cancels_expired : (String → Bool) → ℕ → Operation F
  reconciles : Surroundings F → Operation F

module _ {F : Type 0} ⦃f : Float F⦄ (uuid : ℕ → String) where
  unfoldable pub perform : Operation F → OrderExecutor F → OrderExecutor F
  unfolding place_order close_position cancel_order cancel_all_open_orders cancel_expired_orders
      reconcile_orders
  perform (places w r) e = (place_order uuid w r e).0
  perform (closes w market_id token_id direction size_usdc price) e =
      (close_position uuid w market_id token_id direction size_usdc price e).0
  perform (cancels replies id) e = (cancel_order replies id e).0
  perform (cancels_all replies) e = (cancel_all_open_orders replies e).0
  perform (cancels_expired replies now) e = (cancel_expired_orders replies now e).0
  perform (reconciles s) e = reconcile_orders uuid s e

  unfoldable pub run : List (Operation F) → OrderExecutor F → OrderExecutor F
  unfolding perform
  run [] e = e
  run (op ∷ ops) e = run ops (perform op e)

  -- Every operation of the executor is a sequence of moves of the store: changes of orders that leave
  -- final statuses and fill no child, a new order outside of any group, a new pair of armed children, or
  -- the trigger of an armed child with the cancellation of its siblings.
  pub perform-moves : (op : Operation F) (e : OrderExecutor F) → Moves uuid e (perform op e)
  unfolding perform
  perform-moves (places w r) e = (place_order-moves uuid w r e).moves
  perform-moves (closes w m t d size price) e =
      (close_position-moves uuid w m t d size price e).moves
  perform-moves (cancels replies id) e = (cancel_order-moves uuid replies id e).moves
  perform-moves (cancels_all replies) e = (cancel_all_open_orders-moves uuid replies e).moves
  perform-moves (cancels_expired replies now) e =
      (cancel_expired_orders-moves uuid replies now e).moves
  perform-moves (reconciles s) e = reconcile_orders-moves uuid s e

  run-moves : (ops : List (Operation F)) (e : OrderExecutor F) → Moves uuid e (run ops e)
  unfolding run
  run-moves [] e = same-moves uuid e
  run-moves (op ∷ ops) e =
      and_then e (perform op e) _ (perform-moves op e) (run-moves ops (perform op e))

  init-IsSound : (c : Config F) (has_clob : Bool) → IsSound uuid 0 (init c has_clob).orders
  unfolding init find
  init-IsSound c has_clob = record {
    ids_drawn = λ i o h. absurd (ground arith);
    groups_drawn = λ i g o h k. absurd (ground arith);
    grouped_child = λ i g o h k. absurd (ground arith);
    grouped_not_placed = λ i g o h k. absurd (ground arith);
    exclusive = λ i j g a b h k. absurd (ground arith);
  }

  module _ (inj : IsInjective uuid) (c : Config F) (has_clob : Bool) where
    pub run-IsSound :
        (ops : List (Operation F))
        → IsSound uuid (run ops (init c has_clob)).drawn (run ops (init c has_clob)).orders
    unfolding init
    run-IsSound ops =
        moves-IsSound uuid inj (init c has_clob) (run ops (init c has_clob))
          (run-moves ops (init c has_clob)) (init-IsSound c has_clob)

    -- The identifiers that are drawn being different, after any sequence of operations from the start:
    -- where one order of an OCO group has a fill, every other order of the group is cancelled or expired.
    pub run-exclusive :
        (ops : List (Operation F)) (i j g : String) (a b : Order F)
        → find i (run ops (init c has_clob)).orders ≡ some a
        → find j (run ops (init c has_clob)).orders ≡ some b
        → str_eq i j ≡ false
        → a.oco_group_id ≡ some g
        → b.oco_group_id ≡ some g
        → is_taken a.status ≡ true
        → is_gone b.status ≡ true
    run-exclusive ops i j g a b = (run-IsSound ops).exclusive i j g a b

    -- The identifiers that are drawn being different, an order that is filled, cancelled or expired after
    -- some operations is kept, with that status, by any operations that follow.
    pub run-kept :
        (ops more : List (Operation F)) (i : String) (a : Order F)
        → find i (run ops (init c has_clob)).orders ≡ some a
        → is_final a.status ≡ true
        → (b : Order F) × (find i (run more (run ops (init c has_clob))).orders ≡ some b)
          × (b.status ≡ a.status)
    run-kept ops more i a found final =
        let w =
          moves-forward uuid inj _ _ (run-moves more (run ops (init c has_clob))) (run-IsSound ops)
            i a found in
        (w.0, w.1, w.2 final)
