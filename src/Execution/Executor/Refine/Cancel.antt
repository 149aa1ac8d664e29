-- ===== src/Execution/Executor/Refine/Cancel.antt =====
-- Cancelling in execution/executor.py, as moves of the store.
use poly_cortex.Base.{
  ℕ, suc, ◌+◌, ◌*◌, ltb, ◌≡◌, refl, ◌∙◌, ap, Bool, true, false, not, ◌||◌, ◌&&◌, inl, inr, some,
  List, [], ◌∷◌, all, String, arith, if◌then◌else◌, Bool-cases,
}
use poly_cortex.Execution.Executor.Orders.{
  Order, OrderStatus, BracketState, find, is_final, is_entry, is_armed, is_working,
}
use poly_cortex.Execution.Executor.Guard.{OrderExecutor}
use poly_cortex.Execution.Executor.Brackets.{set_order}
use poly_cortex.Execution.Executor.Cancel.{
  drop_child, cancel_children, cancel_local, cancel_live, cancel_found, cancel_order,
  cancel_if_open, cancel_each, cancel_all_open_orders, expire_found, expire_one, expire_each,
  cancel_expired_orders, is_open, is_past, ids_of,
}
use poly_cortex.Execution.Executor.Store.{
  IsKept, IsKeptAll, IsKeptAll-refl, IsKeptAll-trans, modify-IsKeptAll, find-order_id,
}
use poly_cortex.Execution.Executor.Moves.{Moves, kept, and_then}
use poly_cortex.Execution.Executor.Refine.{
  if_case, option_case, IsReached, ended-IsKept, drop_child-IsKept, set_order-moves,
}

module _ {F : Type 0} where
  pub cancel_children-IsKeptAll :
      (ids : List String) (os : List (Order F)) → IsKeptAll os (cancel_children ids os)
  unfolding cancel_children
  cancel_children-IsKeptAll [] os = IsKeptAll-refl os
  cancel_children-IsKeptAll (id ∷ ids) os =
      IsKeptAll-trans _ _ _ (modify-IsKeptAll id drop_child os drop_child-IsKept)
        (cancel_children-IsKeptAll ids _)

  module _ (uuid : ℕ → String) (cancels : String → Bool) where
    unchanged : {R : Type 0} (e : OrderExecutor F) (r : R) → IsReached uuid e (e, r)
    unchanged e r = record { moves = kept e e refl (IsKeptAll-refl e.orders) }

    module _ (o : Order F) (e : OrderExecutor F) (h : find o.order_id e.orders ≡ some o) where
      module _ (live : is_final o.status ≡ false) where
        ended :
            (s : BracketState)
            → IsKept o (record o { status = OrderStatus.cancelled; bracket_state = s })
        ended s = ended-IsKept OrderStatus.cancelled s o live refl refl

        cancel_local-moves : Moves uuid e (cancel_local o e)
        unfolding cancel_local
        cancel_local-moves =
            let o' = record o {
              status = OrderStatus.cancelled;
              bracket_state = BracketState.cancelled;
            } in
            let e' : OrderExecutor F = set_order o' e in
            if_case (λ x. Moves uuid e x) (is_entry o.order_kind) _ _
              (and_then e e' _ (set_order-moves uuid o o' e h (ended BracketState.cancelled))
                (kept e' _ refl (cancel_children-IsKeptAll o.bracket_order_ids e'.orders)))
              (set_order-moves uuid o _ e h (ended o.bracket_state))

        cancel_live-moves : IsReached uuid e (cancel_live cancels o e)
        unfolding cancel_live
        cancel_live-moves =
            if_case (IsReached {R = Bool} uuid e) (all cancels o.exchange_order_ids) _ _
              (record { moves = set_order-moves uuid o _ e h (ended BracketState.cancelled) })
              (unchanged e false)

      cancel_found-moves : IsReached uuid e (cancel_found cancels o e)
      unfolding cancel_found
      cancel_found-moves = elim (Bool-cases (is_final o.status)) [
        | inl d ↦ rw d (unchanged e true)
        | inr d ↦ rw d (
            if_case (IsReached {R = Bool} uuid e)
              (o.is_paper || (not e.has_clob || not (is_entry o.order_kind))) _ _
              (record { moves = cancel_local-moves d }) (cancel_live-moves d))
      ]

      expire_found-moves : (now : ℕ) → IsReached uuid e (expire_found cancels now o e)
      unfolding expire_found
      expire_found-moves now = elim (Bool-cases (is_armed o.status)) [
        | inl d ↦ rw d (
            if_case (IsReached {R = Bool} uuid e) (is_past now o.gtt_expiry_at) _ _
              (record {
                moves =
                    set_order-moves uuid o _ e h
                      (ended-IsKept OrderStatus.expired o.bracket_state o (ground arith) refl refl);
              })
              (unchanged e false))
        | inr d ↦ rw d (
            if_case (IsReached {R = Bool} uuid e)
              (is_working o.status
                && ltb (o.timestamp + e.config.order_expiry_minutes * 60000000) now)
              _ _ cancel_found-moves (unchanged e false))
      ]

    -- An order stands under its own identifier.
    own_id :
        (id : String) (o : Order F) (os : List (Order F))
        → find id os ≡ some o
        → find o.order_id os ≡ some o
    own_id id o os h = ap (λ i. find i os) (find-order_id id o os h) ∙ h

    pub cancel_order-moves :
        (id : String) (e : OrderExecutor F) → IsReached uuid e (cancel_order cancels id e)
    unfolding cancel_order
    cancel_order-moves id e =
        option_case (IsReached {R = Bool} uuid e) (find id e.orders) _ _ (unchanged e false)
          (λ o h. cancel_found-moves o e (own_id id o e.orders h))

    pub cancel_if_open-moves :
        (id : String) (e : OrderExecutor F) → IsReached uuid e (cancel_if_open cancels id e)
    unfolding cancel_if_open
    cancel_if_open-moves id e =
        option_case (IsReached {R = Bool} uuid e) (find id e.orders) _ _ (unchanged e false) (λ o h.
          if_case (IsReached {R = Bool} uuid e) (is_open o) _ _ (cancel_order-moves id e)
            (unchanged e false))

    pub cancel_each-moves :
        (ids : List String) (e : OrderExecutor F) (n : ℕ)
        → IsReached uuid e (cancel_each cancels ids e n)
    unfolding cancel_each
    cancel_each-moves [] e n = unchanged e n
    cancel_each-moves (id ∷ ids) e n =
        let done : OrderExecutor F × Bool = cancel_if_open cancels id e in
        record {
          moves =
              and_then e done.0 _ (cancel_if_open-moves id e).moves
                (cancel_each-moves ids done.0 (if done.1 then suc n else n)).moves;
        }

    pub cancel_all_open_orders-moves :
        (e : OrderExecutor F) → IsReached uuid e (cancel_all_open_orders cancels e)
    unfolding cancel_all_open_orders
    cancel_all_open_orders-moves e = cancel_each-moves (ids_of e.orders) e 0

    expire_one-moves :
        (now : ℕ) (id : String) (e : OrderExecutor F)
        → IsReached uuid e (expire_one cancels now id e)
    unfolding expire_one
    expire_one-moves now id e =
        option_case (IsReached {R = Bool} uuid e) (find id e.orders) _ _ (unchanged e false)
          (λ o h. expire_found-moves o e (own_id id o e.orders h) now)

    expire_each-moves :
        (now : ℕ) (ids : List String) (e : OrderExecutor F)
        → IsReached uuid e (expire_each cancels now ids e)
    unfolding expire_each
    expire_each-moves now [] e = unchanged e []
    expire_each-moves now (id ∷ ids) e =
        let done : OrderExecutor F × Bool = expire_one cancels now id e in
        record {
          moves =
              and_then e done.0 _ (expire_one-moves now id e).moves
                (expire_each-moves now ids done.0).moves;
        }

    pub cancel_expired_orders-moves :
        (now : ℕ) (e : OrderExecutor F) → IsReached uuid e (cancel_expired_orders cancels now e)
    unfolding cancel_expired_orders
    cancel_expired_orders-moves now e = expire_each-moves now (ids_of e.orders) e
