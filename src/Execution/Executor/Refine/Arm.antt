-- ===== src/Execution/Executor/Refine/Arm.antt =====
-- Arming the brackets in execution/executor.py, as moves of the store.
use poly_cortex.Base.{ℕ, suc, ◌≡◌, refl, true, inl, some, List, [], ◌∷◌, String}
use poly_cortex.Float.{Float}
use poly_cortex.Execution.Executor.Orders.{
  Order, OrderKind, take_profit, stop_loss, Condition, BracketSpec, find, is_child, post_init,
}
use poly_cortex.Execution.Executor.Guard.{OrderExecutor, default_bracket_spec}
use poly_cortex.Execution.Executor.Brackets.{
  set_order, resize, sync_child_sizes, levelled, bracket_child, arm_new, arm_again,
  arm_bracket_orders,
}
use poly_cortex.Execution.Executor.Reconcile.{arm_default}
use poly_cortex.Execution.Executor.Store.{
  IsKept, IsKeptAll, IsKeptAll-refl, IsKeptAll-trans, modify-IsKeptAll,
}
use poly_cortex.Execution.Executor.Moves.{IsArmedIn, Moves, kept, paired, and_then}
use poly_cortex.Execution.Executor.Refine.{
  if_case, list_case, option_case, resize-IsKept, set_order-moves,
}

module _ {F : Type 0} ⦃f : Float F⦄ where
  sync_child_sizes-IsKeptAll :
      (size : F) (ids : List String) (os : List (Order F))
      → IsKeptAll os (sync_child_sizes size ids os)
  unfolding sync_child_sizes
  sync_child_sizes-IsKeptAll size [] os = IsKeptAll-refl os
  sync_child_sizes-IsKeptAll size (id ∷ ids) os =
      IsKeptAll-trans _ _ _ (modify-IsKeptAll id (resize size) os (resize-IsKept size))
        (sync_child_sizes-IsKeptAll size ids _)

  levelled-IsKept :
      (spec : BracketSpec F) (ids : List String) (o : Order F)
      → IsKept o (record (levelled spec o) { bracket_order_ids = ids })
  levelled-IsKept spec ids o = record {
    same_id = refl;
    same_group = refl;
    same_child = refl;
    final_kept = λ h. refl;
    taken_kept = λ h. inl h;
    placed_kept = λ h. h;
  }

  bracket_child-IsArmedIn :
      (id group : String) (parent : Order F) (size price : F) (k : OrderKind) (c : Condition)
      (now expiry : ℕ)
      → is_child k ≡ true
      → IsArmedIn id group (bracket_child id group parent size price k c now expiry)
  unfolding bracket_child post_init
  bracket_child-IsArmedIn id group parent size price k c now expiry h = record {
    its_id = refl;
    in_group = refl;
    child = h;
    armed = refl;
  }

  module _ (uuid : ℕ → String) where
    arm_new-moves :
        (spec : BracketSpec F) (now : ℕ) (parent : Order F) (e : OrderExecutor F)
        → find parent.order_id e.orders ≡ some parent
        → Moves uuid e (arm_new uuid spec now parent e)
    unfolding arm_new set_order
    arm_new-moves spec now parent e h =
        let ids = uuid (suc e.drawn) ∷ uuid (suc (suc e.drawn)) ∷ [] in
        let e' : OrderExecutor F =
          set_order (record (levelled spec parent) { bracket_order_ids = ids }) e in
        and_then e e' (arm_new uuid spec now parent e)
          (set_order-moves uuid parent _ e h (levelled-IsKept spec ids parent))
          (paired e' (arm_new uuid spec now parent e) _ _
            (bracket_child-IsArmedIn _ _ parent _ _ take_profit _ now _ refl)
            (bracket_child-IsArmedIn _ _ parent _ _ stop_loss _ now _ refl) refl refl)

    arm_again-moves :
        (spec : BracketSpec F) (parent : Order F) (e : OrderExecutor F)
        → find parent.order_id e.orders ≡ some parent
        → Moves uuid e (arm_again spec parent e)
    unfolding arm_again set_order
    arm_again-moves spec parent e h =
        and_then e (set_order (levelled spec parent) e) (arm_again spec parent e)
          (set_order-moves uuid parent (levelled spec parent) e h
            (levelled-IsKept spec parent.bracket_order_ids parent))
          (kept _ _ refl (sync_child_sizes-IsKeptAll _ parent.bracket_order_ids _))

    pub same-moves : (e : OrderExecutor F) → Moves uuid e e
    same-moves e = kept e e refl (IsKeptAll-refl e.orders)

    pub arm_bracket_orders-moves :
        (spec : BracketSpec F) (now : ℕ) (parent : Order F) (e : OrderExecutor F)
        → find parent.order_id e.orders ≡ some parent
        → Moves uuid e (arm_bracket_orders uuid spec now parent e)
    unfolding arm_bracket_orders
    arm_bracket_orders-moves spec now parent e h =
        if_case (λ x. Moves uuid e x) _ _ _ (same-moves e)
          (list_case (λ x. Moves uuid e x) parent.bracket_order_ids _ _
            (arm_new-moves spec now parent e h) (λ id ids. arm_again-moves spec parent e h))

    pub arm_default-moves :
        (now : ℕ) (o : Order F) (e : OrderExecutor F)
        → find o.order_id e.orders ≡ some o
        → Moves uuid e (arm_default uuid now o e)
    unfolding arm_default
    arm_default-moves now o e h =
        option_case (λ x. Moves uuid e x) (default_bracket_spec e.config) _ _ (same-moves e)
          (λ spec q. arm_bracket_orders-moves spec now o e h)
