-- ===== src/Tracking/Trades/Orders/Closed.antt =====
-- Closing the trade of an order in tracking/tracker.py.
use poly_cortex.Base.{
  ℕ, ◌≡◌, ◌≢◌, subst, refl, sym, ◌∙◌, ap, true, ◌==◌, ==_iff, Option, some, List, String,
  map_option, Bool-cases, Option-cases, inl, inr, none, if◌then◌else◌,
}
use poly_cortex.Float.{Float}
use poly_cortex.Tracking.Trades.{
  Trade, TradeStatus, or_else, exit_yes_price, close_row, close_position, pnl_at,
}
use poly_cortex.Tracking.Trades.Orders.{
  OrderDict, given, or_option, get_trade, get_trade_id_for_order, sync_row,
  sync_bracket_state_no_commit, closing_price, pnl_of, close_trade_for_order, same_order,
}
use poly_cortex.Tracking.Trades.Orders.Lookup.{get_trade-map, id-update_row, get_trade-id}
use poly_cortex.Tracking.Trades.Orders.Exits.{
  ExitsAt, IsYesPrice, exit_yes_price-IsYesPrice, closing_price-ExitsAt,
}

module _ {F : Type 0} where
  -- What a sync of the brackets does to a row.
  abbrev synced : OrderDict F → Trade F → Trade F
  synced o t = elim (given o.parent_order_id) [ none ↦ t | some parent ↦ sync_row o parent t ]

  -- What closing a trade books.
  abbrev pub booking : Trade F → TradeStatus × Option F × Option F × Option String
  booking t = (t.status, t.pnl, t.exit_price, t.closed_at)

  sync_row-booking :
      (o : OrderDict F) (parent : String) (t : Trade F)
      → ((sync_row o parent t).id ≡ t.id) × (booking (sync_row o parent t) ≡ booking t)
  unfolding sync_row
  sync_row-booking o parent t = elim (Bool-cases (same_order parent t.local_order_id)) [
    | inl e ↦ rw e (refl, refl)
    | inr e ↦ rw e (refl, refl)
  ]

  synced-booking :
      (o : OrderDict F) (t : Trade F)
      → ((synced o t).id ≡ t.id) × (booking (synced o t) ≡ booking t)
  synced-booking o t = elim (Option-cases (given o.parent_order_id)) [
    | inl e ↦ rw (e, synced) (refl, refl)
    | inr (p, e) ↦ rw (e, synced) (sync_row-booking o p t)
  ]

  synced-direction : (o : OrderDict F) (t : Trade F) → (synced o t).direction ≡ t.direction
  unfolding sync_row
  synced-direction o t = elim (Option-cases (given o.parent_order_id)) [
    | inl e ↦ rw (e, synced) refl
    | inr (p, e) ↦ elim (Bool-cases (same_order p t.local_order_id)) [
      | inl h ↦ rw (e, synced, h) refl
      | inr h ↦ rw (e, synced, h) refl
    ]
  ]

  map_option_id : (o : Option (Trade F)) → o ≡ map_option (λ t. t) o
  map_option_id none = refl
  map_option_id (some t) = refl

  get_trade-sync :
      (id : ℕ) (o : OrderDict F) (ts : List (Trade F))
      → get_trade id (sync_bracket_state_no_commit o ts) ≡ map_option (synced o) (get_trade id ts)
  unfolding sync_bracket_state_no_commit
  get_trade-sync id o ts = elim (Option-cases (given o.parent_order_id)) [
    | inl e ↦ rw (e, sync_bracket_state_no_commit, synced) (map_option_id (get_trade id ts))
    | inr (p, e) ↦
        rw (e, sync_bracket_state_no_commit, synced)
          (get_trade-map id (sync_row o p) ts (λ t. (sync_row-booking o p t).0))
  ]

module _ {F : Type 0} ⦃f : Float F⦄ where
  closed_row : F → TradeStatus → String → String → ℕ → Trade F → Trade F
  closed_row price status reason now id t =
      if t.id == id then close_row price status reason now t else t

  pnl_of-found :
      (id : ℕ) (price : F) (t : Trade F) (ts : List (Trade F))
      → get_trade id ts ≡ some t
      → pnl_of id price ts ≡ pnl_at t price
  unfolding pnl_of
  pnl_of-found id price t ts h = rw (pnl_of, h) refl

  closed_row-own :
      (price : F) (status : TradeStatus) (reason now : String) (id : ℕ) (t : Trade F)
      → t.id ≡ id
      → closed_row price status reason now id t ≡ close_row price status reason now t
  unfolding closed_row
  closed_row-own price status reason now id t h = rw ((==_iff t.id id).1 h) refl

  closed_row-other :
      (price : F) (status : TradeStatus) (reason now : String) (id : ℕ) (t : Trade F)
      → t.id ≢ id
      → booking (closed_row price status reason now id t) ≡ booking t
  unfolding closed_row
  closed_row-other price status reason now id t ne = elim (Bool-cases (t.id == id)) [
    | inl e ↦ absurd (ne ((==_iff t.id id).0 e))
    | inr e ↦ rw e refl
  ]

  get_trade-close :
      (k id : ℕ) (price : F) (status : TradeStatus) (reason now : String) (ts : List (Trade F))
      → get_trade k (close_position id price status reason now ts)
        ≡ map_option (closed_row price status reason now id) (get_trade k ts)
  unfolding close_position closed_row
  get_trade-close k id price status reason now ts =
      get_trade-map k (closed_row price status reason now id) ts
        (id-update_row id (close_row price status reason now) (λ t. refl))

  module _ (now : String) (status : TradeStatus) (reason : String) (exit_price : Option F)
      (o : OrderDict F) (ts : List (Trade F)) where
    abbrev rows_after : ℕ → List (Trade F)
    rows_after id =
        close_position id (closing_price o exit_price) status reason
          (or_else (given o.last_fill_at) now) (sync_bracket_state_no_commit o ts)

    close_trade_for_order-eq :
        (order_id : String) (id : ℕ)
        → or_option (given o.parent_order_id) (given o.order_id) ≡ some order_id
        → get_trade_id_for_order order_id ts ≡ some id
        → close_trade_for_order true now status reason exit_price o ts ≡ (
          rows_after id,
          pnl_of id (closing_price o exit_price) (sync_bracket_state_no_commit o ts),
        )
    unfolding close_trade_for_order
    close_trade_for_order-eq order_id id h k = rw (close_trade_for_order, h, k) refl

    abbrev closing : ℕ → Trade F → Trade F
    closing id =
        closed_row (closing_price o exit_price) status reason (or_else (given o.last_fill_at) now)
          id

    get_trade-rows_after :
        (id k : ℕ)
        → get_trade k (rows_after id)
          ≡ map_option (closing id) (map_option (synced o) (get_trade k ts))
    get_trade-rows_after id k =
        get_trade-close k id (closing_price o exit_price) status reason
          (or_else (given o.last_fill_at) now) (sync_bracket_state_no_commit o ts)
        ∙ ap (map_option (closing id)) (get_trade-sync k o ts)

    rows_after-closed :
        (id : ℕ) (t : Trade F)
        → get_trade id ts ≡ some t
        → (u : Trade F) × (get_trade id (rows_after id) ≡ some u)
          × (u.status ≡ status)
          × (u.pnl
              ≡ some (pnl_of id (closing_price o exit_price) (sync_bracket_state_no_commit o ts)))
          × (u.closed_at ≡ some (or_else (given o.last_fill_at) now))
          × ((p y : F) × ExitsAt o exit_price p
              × IsYesPrice t.direction p y
              × (u.exit_price ≡ some y))
    unfolding close_row
    rows_after-closed id t found =
        let price = closing_price o exit_price in
        let now' = or_else (given o.last_fill_at) now in
        let own : (synced o t).id ≡ id = (synced-booking o t).0 ∙ get_trade-id id t ts found in
        let at = get_trade-sync id o ts ∙ ap (map_option (synced o)) found in
        (
          close_row price status reason now' (synced o t),
          get_trade-rows_after id id
              ∙ ap (λ r. map_option (closing id) (map_option (synced o) r)) found
              ∙ ap some (closed_row-own price status reason now' id (synced o t) own),
          refl,
          sym (ap some (pnl_of-found id price (synced o t) (sync_bracket_state_no_commit o ts) at)),
          refl,
          (
            price,
            exit_yes_price (synced o t) price,
            closing_price-ExitsAt o exit_price,
            subst (λ d. IsYesPrice d price (exit_yes_price (synced o t) price))
                (synced-direction o t) (exit_yes_price-IsYesPrice (synced o t) price),
            refl,
          ),
        )

    rows_after-others :
        (id k : ℕ)
        → k ≢ id
        → map_option booking (get_trade k (rows_after id)) ≡ map_option booking (get_trade k ts)
    rows_after-others id k ne = elim (Option-cases (get_trade k ts)) [
      | inl e ↦ rw (get_trade-rows_after id k, e) refl
      | inr (w, e) ↦
          rw (get_trade-rows_after id k, e)
            (ap some (
              closed_row-other (closing_price o exit_price) status reason
                (or_else (given o.last_fill_at) now) id (synced o w)
                (λ q. ne (sym (get_trade-id k w ts e) ∙ sym (synced-booking o w).0 ∙ q))
              ∙ (synced-booking o w).1))
    ]

    -- With the database committing: the trade that is found for an order, or for its parent, is closed with
    -- the status given, and the profit that is returned is the one in its row. Its exit price is that of YES at
    -- the price given, or zero where that is below; where none is given, at the average price of the order's
    -- fills, or at the order's price where that is missing or zero, or else at zero; for NO it is what that price
    -- leaves of 1, between 0 and 1. The booking of every other row is as before.
    pub close_trade_for_order-booked :
        (order_id : String) (id : ℕ) (t : Trade F)
        → or_option (given o.parent_order_id) (given o.order_id) ≡ some order_id
        → get_trade_id_for_order order_id ts ≡ some id
        → get_trade id ts ≡ some t
        → let (ts', pnl) = close_trade_for_order true now status reason exit_price o ts in
          ((u : Trade F) × (get_trade id ts' ≡ some u)
            × (u.status ≡ status)
            × (u.pnl ≡ some pnl)
            × (u.closed_at ≡ some (or_else (given o.last_fill_at) now))
            × ((p y : F) × ExitsAt o exit_price p
                × IsYesPrice t.direction p y
                × (u.exit_price ≡ some y)))
          × ((k : ℕ)
              → k ≢ id
              → map_option booking (get_trade k ts') ≡ map_option booking (get_trade k ts))
    close_trade_for_order-booked order_id id t h k found =
        rw (close_trade_for_order-eq order_id id h k)
          (rows_after-closed id t found, λ j ne. rows_after-others id j ne)
