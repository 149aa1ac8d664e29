-- ===== src/Execution/Executor/Cancel.antt =====
-- src/polymarket_agent/execution/executor.py: cancelling. `cancels` is what the exchange answers for
-- each of its identifiers; `false` is a timeout or another exception.
use poly_cortex.Base.{
  ℕ, suc, ◌+◌, ◌*◌, ltb, Bool, true, false, not, ◌&&◌, ◌||◌, Option, none, some, List, [], ◌∷◌, map,
  all, String, if◌then◌else◌,
}
use poly_cortex.Execution.Executor.Orders.{
  Order, OrderStatus, BracketState, find, modify, is_final, is_armed, is_working, is_entry,
}
use poly_cortex.Execution.Executor.Guard.{OrderExecutor}
use poly_cortex.Execution.Executor.Brackets.{set_order}

abbrev pub is_past : ℕ → Option ℕ → Bool
is_past now none = false
is_past now (some expiry_at) = ltb expiry_at now

module _ {F : Type 0} where
  -- The open statuses.
  abbrev pub is_open : Order F → Bool
  is_open o = is_working o.status || is_armed o.status

  abbrev pub ids_of : List (Order F) → List String
  ids_of os = map (λ o. o.order_id) os

  abbrev pub drop_child : Order F → Order F
  drop_child o = if is_final o.status then o else record o { status = OrderStatus.cancelled }

  unfoldable pub cancel_children : List String → List (Order F) → List (Order F)
  unfolding modify
  cancel_children [] os = os
  cancel_children (id ∷ ids) os = cancel_children ids (modify id drop_child os)

  -- The branch without the exchange.
  unfoldable pub cancel_local : Order F → OrderExecutor F → OrderExecutor F
  unfolding set_order cancel_children
  cancel_local o e =
      let o' = record o { status = OrderStatus.cancelled } in
      let e' = set_order (record o' { bracket_state = BracketState.cancelled }) e in
      if is_entry o.order_kind
      then record e' { orders = cancel_children o.bracket_order_ids e'.orders }
      else set_order o' e

  unfoldable pub cancel_live : (String → Bool) → Order F → OrderExecutor F → OrderExecutor F × Bool
  unfolding set_order
  cancel_live cancels o e =
      if all cancels o.exchange_order_ids
      then (
        set_order
            (record o { status = OrderStatus.cancelled; bracket_state = BracketState.cancelled }) e,
        true,
      )
      else (e, false)

  unfoldable pub cancel_found : (String → Bool) → Order F → OrderExecutor F → OrderExecutor F × Bool
  unfolding cancel_local cancel_live
  cancel_found cancels o e =
      if is_final o.status
      then (e, true)
      else if o.is_paper || (not e.has_clob || not (is_entry o.order_kind))
      then (cancel_local o e, true)
      else cancel_live cancels o e

  unfoldable pub cancel_order : (String → Bool) → String → OrderExecutor F → OrderExecutor F × Bool
  unfolding find cancel_found
  cancel_order cancels id e = elim (find id e.orders) [
    | none ↦ (e, false)
    | some o ↦ cancel_found cancels o e
  ]

  -- "unknown" is `none`.
  unfoldable pub get_order_status : String → OrderExecutor F → Option OrderStatus
  unfolding find
  get_order_status id e = elim (find id e.orders) [ none ↦ none | some o ↦ some o.status ]

  -- One turn of the loop of `cancel_all_open_orders`.
  unfoldable pub cancel_if_open :
      (String → Bool) → String → OrderExecutor F → OrderExecutor F × Bool
  unfolding find cancel_order
  cancel_if_open cancels id e = elim (find id e.orders) [
    | none ↦ (e, false)
    | some o ↦ if is_open o then cancel_order cancels id e else (e, false)
  ]

  unfoldable pub cancel_each :
      (String → Bool) → List String → OrderExecutor F → ℕ → OrderExecutor F × ℕ
  unfolding cancel_if_open
  cancel_each cancels [] e n = (e, n)
  cancel_each cancels (id ∷ ids) e n =
      let done = cancel_if_open cancels id e in
      cancel_each cancels ids done.0 (if done.1 then suc n else n)

  unfoldable pub cancel_all_open_orders : (String → Bool) → OrderExecutor F → OrderExecutor F × ℕ
  unfolding cancel_each
  cancel_all_open_orders cancels e = cancel_each cancels (ids_of e.orders) e 0

  -- One turn of the loop of `cancel_expired_orders`, by the order.
  unfoldable pub expire_found :
      (String → Bool) → ℕ → Order F → OrderExecutor F → OrderExecutor F × Bool
  unfolding set_order cancel_found
  expire_found cancels now o e =
      let too_old = ltb (o.timestamp + e.config.order_expiry_minutes * 60000000) now in
      if is_armed o.status
      then if is_past now o.gtt_expiry_at
        then (set_order (record o { status = OrderStatus.expired }) e, true)
        else (e, false)
      else if is_working o.status && too_old
      then cancel_found cancels o e
      else (e, false)

  unfoldable pub expire_one :
      (String → Bool) → ℕ → String → OrderExecutor F → OrderExecutor F × Bool
  unfolding find expire_found
  expire_one cancels now id e = elim (find id e.orders) [
    | none ↦ (e, false)
    | some o ↦ expire_found cancels now o e
  ]

  unfoldable pub expire_each :
      (String → Bool) → ℕ → List String → OrderExecutor F → OrderExecutor F × List String
  unfolding expire_one
  expire_each cancels now [] e = (e, [])
  expire_each cancels now (id ∷ ids) e =
      let done = expire_one cancels now id e in
      let rest = expire_each cancels now ids done.0 in
      (rest.0, if done.1 then id ∷ rest.1 else rest.1)

  unfoldable pub cancel_expired_orders :
      (String → Bool) → ℕ → OrderExecutor F → OrderExecutor F × List String
  unfolding expire_each
  cancel_expired_orders cancels now e = expire_each cancels now (ids_of e.orders) e
