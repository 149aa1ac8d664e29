-- ===== src/Execution/Executor/Refine/Reconcile.antt =====
-- Reconciling orders in execution/executor.py, as moves of the store.
use poly_cortex.Base.{
  ℕ, ◌≡◌, refl, ◌∙◌, ap, true, false, not, ◌&&◌, inl, inr, Option, none, some, List, [], ◌∷◌,
  String, arith, subst, Bool-cases,
}
use poly_cortex.Float.{Float, nought}
use poly_cortex.Execution.Executor.Orders.{
  Order, OrderStatus, OrderKind, BracketState, find, put, is_child, is_final, is_entry, is_armed,
  is_working, apply_fill, or_size, contract_price,
}
use poly_cortex.Execution.Executor.Guard.{OrderExecutor}
use poly_cortex.Execution.Executor.Brackets.{set_order}
use poly_cortex.Execution.Executor.Cancel.{ids_of, is_past}
use poly_cortex.Execution.Executor.Children.{
  Surroundings, MarketData, or_else, set_bracket_state, should_trigger, eval_price, trigger,
  expire_child, reconcile_child,
}
use poly_cortex.Execution.Executor.Reconcile.{
  rows_of, live_fill, end_unfilled, reconcile_live_entry, changed, fill_size, reconcile_paper_entry,
  late_arm, reconcile_entry, reconcile_one, reconcile_each, reconcile_orders, is_waiting,
}
use poly_cortex.Execution.Executor.Store.{
  IsKeptAll, IsKeptAll-refl, modify-IsKeptAll, find-order_id,
}
use poly_cortex.Execution.Executor.Moves.{IsTriggered, Moves, kept, triggered, and_then}
use poly_cortex.Execution.Executor.Refine.{
  if_case, option_case, list_case, bracket_state-IsKept, ended-IsKept, apply_fill-IsFill,
  live_fill-IsFill, fill-IsKept, end_unfilled-IsKept, set_order-moves, set_order-find,
}
use poly_cortex.Execution.Executor.Refine.Arm.{same-moves, arm_default-moves}

module _ {F : Type 0} where
  set_bracket_state-IsKeptAll :
      (id : Option String) (state : BracketState) (os : List (Order F))
      → IsKeptAll os (set_bracket_state id state os)
  unfolding set_bracket_state
  set_bracket_state-IsKeptAll none state os = IsKeptAll-refl os
  set_bracket_state-IsKeptAll (some id) state os =
      modify-IsKeptAll id (λ p. record p { bracket_state = state }) os (bracket_state-IsKept state)

entry_no_child : (k : OrderKind) → is_entry k ≡ true → is_child k ≡ false
entry_no_child k h = ground arith

armed_open : (s : OrderStatus) → is_armed s ≡ true → is_final s ≡ false
armed_open s h = ground arith

module _ {F : Type 0} ⦃f : Float F⦄ (uuid : ℕ → String) where
  -- An entry that has not ended.
  module _ (o : Order F) (e : OrderExecutor F) (h : find o.order_id e.orders ≡ some o)
      (live : is_final o.status ≡ false) (lone : is_child o.order_kind ≡ false) where
    reconcile_live_entry-moves :
        (s : Surroundings F) → Moves uuid e (reconcile_live_entry uuid s o e)
    unfolding reconcile_live_entry
    reconcile_live_entry-moves s =
        list_case (λ x. Moves uuid e x) (rows_of s.fetched o.exchange_order_ids) _ _
          (same-moves uuid e)
          (λ row rows.
            let o' = end_unfilled (row ∷ rows) (live_fill s.now (row ∷ rows) o) in
            let k =
              end_unfilled-IsKept (row ∷ rows) o _ (live_fill-IsFill s.now (row ∷ rows) o) live
                lone in
            let e' : OrderExecutor F = set_order o' e in
            let first = set_order-moves uuid o o' e h k in
            if_case (λ x. Moves uuid e x) (f.lt nought o'.filled_size_usdc) _ _
              (and_then e e' _ first
                (arm_default-moves uuid s.now o' e' (set_order-find o o' e h k)))
              first)

    reconcile_paper_entry-moves :
        (now : ℕ) (market : MarketData F) → Moves uuid e (reconcile_paper_entry uuid now market o e)
    unfolding reconcile_paper_entry
    reconcile_paper_entry-moves now market =
        let price = contract_price o.direction (or_else market.midpoint o.price) in
        let o' = apply_fill (fill_size e o) price now o in
        let k = fill-IsKept o o' (apply_fill-IsFill _ price now o) live lone in
        let e' : OrderExecutor F = set_order o' e in
        let first = set_order-moves uuid o o' e h k in
        if_case (λ x. Moves uuid e x) (f.le price (f.add o.price e.config.paper_fill_tolerance)) _ _
          (if_case (λ x. Moves uuid e x) (changed o.status o'.status) _ _
            (and_then e e' _ first (arm_default-moves uuid now o' e' (set_order-find o o' e h k)))
            first)
          (same-moves uuid e)

  -- An order stands under its own identifier.
  own_id :
      (id : String) (o : Order F) (os : List (Order F))
      → find id os ≡ some o
      → find o.order_id os ≡ some o
  own_id id o os h = ap (λ i. find i os) (find-order_id id o os h) ∙ h

  late_arm-moves :
      (now : ℕ) (id : String) (e : OrderExecutor F) → Moves uuid e (late_arm uuid now id e)
  unfolding late_arm
  late_arm-moves now id e =
      option_case (λ x. Moves uuid e x) (find id e.orders) _ _ (same-moves uuid e)
        (λ o h.
          list_case (λ x. Moves uuid e x) o.bracket_order_ids _ _
            (if_case (λ x. Moves uuid e x)
              (is_waiting o.bracket_state && f.lt nought o.filled_size_usdc) _ _
              (arm_default-moves uuid now o e (own_id id o e.orders h)) (same-moves uuid e))
            (λ i ids. same-moves uuid e))

  reconcile_entry-moves :
      (s : Surroundings F) (o : Order F) (e : OrderExecutor F)
      → find o.order_id e.orders ≡ some o
      → is_child o.order_kind ≡ false
      → Moves uuid e (reconcile_entry uuid s o e)
  unfolding reconcile_entry
  reconcile_entry-moves s o e h lone = elim (Bool-cases (is_final o.status)) [
    | inl d ↦ rw d (same-moves uuid e)
    | inr d ↦ rw d (
        if_case (λ x. Moves uuid e x)
          (not o.is_paper && (e.config.live_reconcile_enabled && e.has_clob)) _ _
          (and_then e (reconcile_live_entry uuid s o e) _
            (reconcile_live_entry-moves o e h d lone s) (late_arm-moves s.now o.order_id _))
          (if_case (λ x. Moves uuid e x) (o.is_paper && is_working o.status) _ _
            (option_case (λ x. Moves uuid e x) (s.market_books o.market_id) _ _ (same-moves uuid e)
              (λ market q.
                and_then e (reconcile_paper_entry uuid s.now market o e) _
                  (reconcile_paper_entry-moves o e h d lone s.now market)
                  (late_arm-moves s.now o.order_id _)))
            (late_arm-moves s.now o.order_id e)))
  ]

  -- An armed child.
  module _ (o : Order F) (e : OrderExecutor F) (h : find o.order_id e.orders ≡ some o)
      (armed : is_armed o.status ≡ true) where
    trigger-moves : (price : F) (now : ℕ) → Moves uuid e (trigger price now o e)
    unfolding trigger set_order
    trigger-moves price now =
        let o' = apply_fill (or_size o.remaining_size_usdc o.size_usdc) price now o in
        let w = apply_fill-IsFill (or_size o.remaining_size_usdc o.size_usdc) price now o in
        let t : IsTriggered o o' = record {
          was_armed = armed;
          same_id = w.same_id;
          same_group = w.same_group;
          same_child = w.same_child;
          not_placed = ground (arith, w.same_or_taken);
        } in
        let os = put o'.order_id o' e.orders in
        let mid = set_bracket_state o.parent_order_id BracketState.closed os in
        triggered e _ o o' mid h t
          (subst (λ i. IsKeptAll (put i o' e.orders) mid) w.same_id
            (set_bracket_state-IsKeptAll o.parent_order_id BracketState.closed os))
          refl refl

    expire_child-moves : Moves uuid e (expire_child o e)
    unfolding expire_child
    expire_child-moves =
        let o' = record o { status = OrderStatus.expired } in
        let e' : OrderExecutor F = set_order o' e in
        and_then e e' _
          (set_order-moves uuid o o' e h (
            ended-IsKept OrderStatus.expired o.bracket_state o (armed_open o.status armed) refl
              refl))
          (kept e' _ refl
            (set_bracket_state-IsKeptAll o.parent_order_id BracketState.expired e'.orders))

  reconcile_child-moves :
      (s : Surroundings F) (o : Order F) (e : OrderExecutor F)
      → find o.order_id e.orders ≡ some o
      → Moves uuid e (reconcile_child s o e)
  unfolding reconcile_child
  reconcile_child-moves s o e h = elim (Bool-cases (is_armed o.status)) [
    | inl d ↦ rw d (
        option_case (λ x. Moves uuid e x) (s.market_books o.market_id) _ _ (same-moves uuid e)
          (λ market q.
            let price = contract_price o.direction (eval_price market o) in
            if_case (λ x. Moves uuid e x) (is_past s.now o.gtt_expiry_at) _ _
              (expire_child-moves o e h d)
              (if_case (λ x. Moves uuid e x) (should_trigger price o) _ _
                (trigger-moves o e h d price s.now) (same-moves uuid e))))
    | inr d ↦ rw d (same-moves uuid e)
  ]

  reconcile_one-moves :
      (s : Surroundings F) (id : String) (e : OrderExecutor F)
      → Moves uuid e (reconcile_one uuid s id e)
  unfolding reconcile_one
  reconcile_one-moves s id e =
      option_case (λ x. Moves uuid e x) (find id e.orders) _ _ (same-moves uuid e)
        (λ o q.
          let h = own_id id o e.orders q in
          elim (Bool-cases (is_entry o.order_kind)) [
            | inl d ↦ rw d (reconcile_entry-moves s o e h (entry_no_child o.order_kind d))
            | inr d ↦ rw d (
                if_case (λ x. Moves uuid e x) (is_child o.order_kind) _ _
                  (reconcile_child-moves s o e h) (same-moves uuid e))
          ])

  reconcile_each-moves :
      (s : Surroundings F) (ids : List String) (e : OrderExecutor F)
      → Moves uuid e (reconcile_each uuid s ids e)
  unfolding reconcile_each
  reconcile_each-moves s [] e = same-moves uuid e
  reconcile_each-moves s (id ∷ ids) e =
      and_then e (reconcile_one uuid s id e) _ (reconcile_one-moves s id e)
        (reconcile_each-moves s ids _)

  pub reconcile_orders-moves :
      (s : Surroundings F) (e : OrderExecutor F) → Moves uuid e (reconcile_orders uuid s e)
  unfolding reconcile_orders
  reconcile_orders-moves s e = reconcile_each-moves s (ids_of e.orders) e
