-- ===== src/Tracking/Trades/Orders/History.antt =====
-- Any sequence of calls of the tracker of tracking/tracker.py that write to the table of trades, but for
-- `reset`: what becomes of a row.
use poly_cortex.Base.{
  ℕ, ◌≡◌, ◌+◌, refl, Bool, true, false, not, ◌==◌, Option, some, List, [], ◌∷◌, String, arith,
  Bool-cases, Option-cases, inl, inr, if◌then◌else◌, option_case, is_some, all,
}
use poly_cortex.Float.{Float}
use poly_cortex.Tracking.Trades.{Trade, TradeStatus, is_open, close_position, close_row, or_else}
use poly_cortex.Tracking.Trades.Orders.{
  OrderDict, EdgeDict, Meta, Database, given, or_option, get_trade, get_trade_id_for_order,
  entry_id, sync_entry_row, sync_bracket_state_no_commit, sync_bracket_state, sync_entry_order,
  update_position, running_row, record_fee, fee_row, insert_trade, new_row, closing_price,
  close_trade_for_order, update_row,
}
use poly_cortex.Tracking.Trades.Orders.Rows.{
  Kept, Follows, Kept-if, Follows-refl, Follows-trans, Follows-append, Follows-map,
  Follows-update_row, Follows-sync, get_trade-Follows,
}

pub data Call (F : Type 0) : Type 0 where
  insert : EdgeDict F → F → Bool → OrderDict F → Meta → Call F
  sync_entry : OrderDict F → Option ℕ → Call F
  sync_bracket : OrderDict F → Call F
  update : ℕ → F → Call F
  close : ℕ → F → TradeStatus → String → Option String → Call F
  close_for_order : Bool → Option F → String → TradeStatus → OrderDict F → Call F
  fee : ℕ → F → Bool → F → Call F

-- A close does not give the status open.
abbrev pub closes_well : {F : Type 0} → Call F → Bool
closes_well (close id price status reason at) = not (is_open status)
closes_well (close_for_order commits price reason status o) = not (is_open status)
closes_well _ = true

eq_false_of_not : {b : Bool} → not b ≡ true → b ≡ false
eq_false_of_not h = ground (arith, h)

module _ {F : Type 0} ⦃f : Float F⦄ (dumps : List (String × Option F) → String) where
  pub step : Database F → String × Call F → Database F
  unfolding insert_trade sync_entry_order sync_bracket_state update_position close_position
      close_trade_for_order record_fee
  step db (now, insert e size is_paper o meta) =
      (insert_trade dumps now e size is_paper o meta db).0
  step db (now, sync_entry o id) = record db { rows = (sync_entry_order o id db.rows).0 }
  step db (now, sync_bracket o) = record db { rows = (sync_bracket_state o db.rows).0 }
  step db (now, update id price) = record db { rows = update_position id price db.rows }
  step db (now, close id price status reason at) = record db {
    rows = close_position id price status reason (or_else (given at) now) db.rows;
  }
  step db (now, close_for_order commits price reason status o) = record db {
    rows = (close_trade_for_order commits now status reason price o db.rows).0;
  }
  step db (now, fee id x is_maker gas) = record db { rows = record_fee id x is_maker gas db.rows }

  pub run : Database F → List (String × Call F) → Database F
  unfolding step
  run db [] = db
  run db (c ∷ cs) = run (step db c) cs

  close_row-Kept :
      (price : F) (status : TradeStatus) (reason now : String) (t : Trade F)
      → is_open status ≡ false
      → Kept F t (close_row price status reason now t)
  unfolding close_row
  close_row-Kept price status reason now t h = record { entered_same = refl; final = λ e. h }

  close_position-Follows :
      (id : ℕ) (price : F) (status : TradeStatus) (reason now : String) (ts : List (Trade F))
      → is_open status ≡ false
      → Follows F ts (close_position id price status reason now ts)
  unfolding close_position
  close_position-Follows id price status reason now ts h =
      Follows-map (λ t. if t.id == id then close_row price status reason now t else t) ts
        (λ t.
          Kept-if (t.id == id) (close_row price status reason now) t
            (close_row-Kept price status reason now t h))

  close_trade_for_order-Follows :
      (commits : Bool) (now : String) (status : TradeStatus) (reason : String)
      (exit_price : Option F) (o : OrderDict F) (ts : List (Trade F))
      → is_open status ≡ false
      → Follows F ts (close_trade_for_order commits now status reason exit_price o ts).0
  unfolding close_trade_for_order
  close_trade_for_order-Follows commits now status reason exit_price o ts h =
      elim (Option-cases (or_option (given o.parent_order_id) (given o.order_id))) [
        | inl e ↦ rw (close_trade_for_order, e) (Follows-refl ts)
        | inr (order_id, e) ↦ elim (Option-cases (get_trade_id_for_order order_id ts)) [
          | inl k ↦ rw (close_trade_for_order, e, k) (Follows-refl ts)
          | inr (id, k) ↦ elim (Bool-cases commits) [
            | inl c ↦
                rw (close_trade_for_order, e, k, c)
                  (Follows-trans ts (sync_bracket_state_no_commit o ts) _ (Follows-sync o ts) (
                    close_position-Follows id (closing_price o exit_price) status reason
                      (or_else (given o.last_fill_at) now) (sync_bracket_state_no_commit o ts) h))
            | inr c ↦ rw (close_trade_for_order, e, k, c) (Follows-refl ts)
          ]
        ]
      ]

  sync_entry_order-Follows :
      (o : OrderDict F) (id : Option ℕ) (ts : List (Trade F))
      → Follows F ts (sync_entry_order o id ts).0
  unfolding sync_entry_order sync_entry_row
  sync_entry_order-Follows o id ts =
      option_case (λ (r : List (Trade F) × Bool). Follows F ts r.0) (entry_id o id ts) (ts, false)
        (λ k. (update_row k (sync_entry_row o) ts, true)) (Follows-refl ts)
        (λ k _.
          Follows-update_row k (sync_entry_row o) ts
            (λ t. record { entered_same = refl; final = λ h. h }))

  sync_bracket_state-Follows :
      (o : OrderDict F) (ts : List (Trade F)) → Follows F ts (sync_bracket_state o ts).0
  unfolding sync_bracket_state
  sync_bracket_state-Follows o ts =
      option_case (λ (r : List (Trade F) × Bool). Follows F ts r.0) (given o.parent_order_id)
        (ts, false)
        (λ parent. (sync_bracket_state_no_commit o ts, is_some (get_trade_id_for_order parent ts)))
        (Follows-refl ts) (λ parent _. Follows-sync o ts)

  running_row-Kept : (price : F) (t : Trade F) → Kept F t (running_row price t)
  unfolding running_row
  running_row-Kept price t = record { entered_same = refl; final = λ h. h }

  fee_row-Kept :
      (x : F) (is_maker : Bool) (gas : F) (t : Trade F) → Kept F t (fee_row x is_maker gas t)
  unfolding fee_row
  fee_row-Kept x is_maker gas t = record { entered_same = refl; final = λ h. h }

  step-Follows :
      (db : Database F) (c : String × Call F)
      → closes_well c.1 ≡ true
      → Follows F db.rows (step db c).rows
  unfolding step insert_trade update_position record_fee
  step-Follows db (now, insert e size is_paper o meta) h =
      Follows-append db.rows (new_row dumps now (db.last_id + 1) e size is_paper o meta ∷ [])
  step-Follows db (now, sync_entry o id) h = sync_entry_order-Follows o id db.rows
  step-Follows db (now, sync_bracket o) h = sync_bracket_state-Follows o db.rows
  step-Follows db (now, update id price) h =
      Follows-update_row id (running_row price) db.rows (running_row-Kept price)
  step-Follows db (now, close id price status reason at) h =
      close_position-Follows id price status reason (or_else (given at) now) db.rows
        (eq_false_of_not h)
  step-Follows db (now, close_for_order commits price reason status o) h =
      close_trade_for_order-Follows commits now status reason price o db.rows (eq_false_of_not h)
  step-Follows db (now, fee id x is_maker gas) h =
      Follows-update_row id (fee_row x is_maker gas) db.rows (fee_row-Kept x is_maker gas)

  run-Follows :
      (db : Database F) (cs : List (String × Call F))
      → all (λ c. closes_well c.1) cs ≡ true
      → Follows F db.rows (run db cs).rows
  unfolding run
  run-Follows db [] h = Follows-refl db.rows
  run-Follows db (c ∷ cs) h =
      Follows-trans db.rows (step db c).rows (run (step db c) cs).rows
        (step-Follows db c (ground (arith, h))) (run-Follows (step db c) cs (ground (arith, h)))

  -- Whatever rows are inserted, synced, repriced, charged and closed, without a `reset` of the table, as long as
  -- no call closes a trade with the status open: a row that was found by its id still is, with the market, the
  -- direction, the entry price, the size, the time, the order and the columns that it was entered with; and once
  -- it is closed or resolved it is never open again.
  pub run-rows-Kept :
      (db : Database F) (cs : List (String × Call F)) (id : ℕ) (t : Trade F)
      → all (λ c. closes_well c.1) cs ≡ true
      → get_trade id db.rows ≡ some t
      → (u : Trade F) × (get_trade id (run db cs).rows ≡ some u) × Kept F t u
  run-rows-Kept db cs id t h k =
      get_trade-Follows id t db.rows (run db cs).rows (run-Follows db cs h) k
