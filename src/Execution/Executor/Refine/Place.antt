-- ===== src/Execution/Executor/Refine/Place.antt =====
-- Placing an entry and closing a position in execution/executor.py, as moves of the store.
use poly_cortex.Base.{
  ℕ, suc, ◌≡◌, refl, false, not, ◌||◌, ◌&&◌, inl, Option, none, some, List, [], ◌∷◌, String,
}
use poly_cortex.Float.{Float, nought, one}
use poly_cortex.Execution.Executor.Orders.{
  Order, OrderStatus, BracketSpec, find, is_child, is_final, post_init, apply_fill,
}
use poly_cortex.Execution.Executor.Guard.{
  OrderExecutor, validate_order, slippage_allows, is_duplicate, default_bracket_spec,
}
use poly_cortex.Execution.Executor.Brackets.{set_order, insert}
use poly_cortex.Execution.Executor.Place.{
  PostReply, with_id, without_id, raised, World, PlaceRequest, build_entry_order, entry_order,
  place_paper, place_live, submit, pended, place_entry, place_order, store_entry, or_spec,
  placement_of, has_raised, exit_order, posted, close_position,
}
use poly_cortex.Execution.Executor.Store.{IsKept, IsKeptAll-refl, find-insert_self}
use poly_cortex.Execution.Executor.Moves.{IsLone, Moves, kept, placed, and_then}
use poly_cortex.Execution.Executor.Refine.{
  if_case, option_case, IsReached, ended-IsKept, apply_fill-IsFill, fill-IsKept, set_order-moves,
  set_order-find,
}
use poly_cortex.Execution.Executor.Refine.Arm.{same-moves, arm_bracket_orders-moves}

module _ {F : Type 0} ⦃f : Float F⦄ where
  pended-IsKept :
      (bracket : Option (BracketSpec F)) (ids : List String) (o : Order F)
      → IsKept o (pended bracket (record o { exchange_order_ids = ids }))
  pended-IsKept none ids o = record {
    same_id = refl;
    same_group = refl;
    same_child = refl;
    final_kept = λ h. refl;
    taken_kept = λ h. inl h;
    placed_kept = λ h. h;
  }
  pended-IsKept (some spec) ids o = record {
    same_id = refl;
    same_group = refl;
    same_child = refl;
    final_kept = λ h. refl;
    taken_kept = λ h. inl h;
    placed_kept = λ h. h;
  }

  -- A new order that has no group.
  record IsNew (id : String) (o : Order F) : Type 0 where
    lone : IsLone id o
    open_status : is_final o.status ≡ false
    no_child : is_child o.order_kind ≡ false

  entry_order-IsNew :
      (uuid : ℕ → String) (now : ℕ) (r : PlaceRequest F) (e : OrderExecutor F)
      → IsNew (uuid e.drawn) (entry_order uuid now r e)
  unfolding entry_order build_entry_order post_init
  entry_order-IsNew uuid now r e = record {
    lone = record { its_id = refl; no_group = refl };
    open_status = refl;
    no_child = refl;
  }

  exit_order-IsNew :
      (uuid : ℕ → String) (now : ℕ) (m t d : String) (size price : F) (e : OrderExecutor F)
      → IsNew (uuid e.drawn) (exit_order uuid now m t d size price e)
  unfolding exit_order post_init
  exit_order-IsNew uuid now m t d size price e = record {
    lone = record { its_id = refl; no_group = refl };
    open_status = refl;
    no_child = refl;
  }

  module _ (uuid : ℕ → String) where
    module _ (o : Order F) (e : OrderExecutor F) (h : find o.order_id e.orders ≡ some o)
        (open_status : is_final o.status ≡ false) (no_child : is_child o.order_kind ≡ false) where
      filled-IsKept : (size price : F) (now : ℕ) → IsKept o (apply_fill size price now o)
      filled-IsKept size price now =
          fill-IsKept o _ (apply_fill-IsFill size price now o) open_status no_child

      place_paper-moves :
          (now : ℕ) (bracket : Option (BracketSpec F))
          → Moves uuid e (place_paper uuid now bracket o e)
      unfolding place_paper
      place_paper-moves now bracket =
          let k = filled-IsKept o.size_usdc o.price now in
          if_case (λ x. Moves uuid e x) (not e.config.paper_fill_on_place) _ _ (same-moves uuid e)
            (option_case (λ x. Moves uuid e x) bracket _ _ (set_order-moves uuid o _ e h k)
              (λ spec q.
                and_then e (set_order (apply_fill o.size_usdc o.price now o) e) _
                  (set_order-moves uuid o _ e h k)
                  (arm_bracket_orders-moves uuid spec now _ _ (set_order-find o _ e h k))))

      place_live-moves :
          (w : World F) (bracket : Option (BracketSpec F))
          → IsReached uuid e (place_live w bracket o e)
      unfolding place_live
      place_live-moves w bracket =
          option_case (IsReached {R = Option (Order F)} uuid e) (submit w o.size_usdc o.chunks) _ _
            (record {
              moves =
                  set_order-moves uuid o _ e h
                    (ended-IsKept OrderStatus.cancelled o.bracket_state o open_status refl refl);
            })
            (λ ids q. record { moves = set_order-moves uuid o _ e h (pended-IsKept bracket ids o) })

    unchanged : (e : OrderExecutor F) (r : Option (Order F)) → IsReached uuid e (e, r)
    unchanged e r = record { moves = same-moves uuid e }

    -- What follows the insertion of a new order.
    then-IsReached :
        (e e' : OrderExecutor F) (r : OrderExecutor F × Option (Order F))
        → Moves uuid e e'
        → IsReached uuid e' r
        → IsReached uuid e r
    then-IsReached e e' r h k = record { moves = and_then e e' r.0 h k.moves }

    place_entry-moves :
        (w : World F) (r : PlaceRequest F) (e : OrderExecutor F)
        → IsReached uuid e (place_entry uuid w r e)
    unfolding place_entry
    place_entry-moves w r e =
        let o = entry_order uuid w.now r e in
        let new = entry_order-IsNew uuid w.now r e in
        let e' = store_entry r w.now o e in
        let bracket = or_spec r.bracket_spec (default_bracket_spec e.config) in
        let here = find-insert_self o e.orders in
        let first = placed e e' o new.lone refl refl in
        if_case (IsReached {R = Option (Order F)} uuid e) (e.config.dry_run || not e.has_clob) _ _
          (record {
            moves =
                and_then e e' _ first
                  (place_paper-moves o e' here new.open_status new.no_child w.now bracket);
          })
          (then-IsReached e e' _ first
            (place_live-moves o e' here new.open_status new.no_child w bracket))

    pub place_order-moves :
        (w : World F) (r : PlaceRequest F) (e : OrderExecutor F)
        → IsReached uuid e (place_order uuid w r e)
    unfolding place_order
    place_order-moves w r e =
        let found =
          is_duplicate e.config.dedup_window_seconds w.now (placement_of r w.now)
            e.recent_placements in
        let e' : OrderExecutor F = record e { recent_placements = found.1 } in
        let same : Moves uuid e e' = kept e e' refl (IsKeptAll-refl e.orders) in
        option_case (IsReached {R = Option (Order F)} uuid e)
          (validate_order e.config w.kill r.market_id r.token_id r.direction r.size_usdc r.price) _
          _
          (if_case (IsReached {R = Option (Order F)} uuid e)
            (not (slippage_allows e.config r.size_usdc r.market_book)) _ _ (unchanged e none)
            (if_case (IsReached {R = Option (Order F)} uuid e) found.0 _ _ (record { moves = same })
              (then-IsReached e e' _ same (place_entry-moves w r e'))))
          (λ reason q. unchanged e none)

    posted-IsKept :
        (reply : PostReply) (o : Order F) → is_final o.status ≡ false → IsKept o (posted reply o)
    posted-IsKept (with_id id) o h = pended-IsKept none (id ∷ []) o
    posted-IsKept without_id o h = pended-IsKept none o.exchange_order_ids o
    posted-IsKept raised o h = ended-IsKept OrderStatus.cancelled o.bracket_state o h refl refl

    pub close_position-moves :
        (w : World F) (m t d : String) (size price : F) (e : OrderExecutor F)
        → IsReached uuid e (close_position uuid w m t d size price e)
    unfolding close_position
    close_position-moves w m t d size price e =
        let o = exit_order uuid w.now m t d size price e in
        let new = exit_order-IsNew uuid w.now m t d size price e in
        let e' : OrderExecutor F = record e { orders = insert o e.orders; drawn = suc e.drawn } in
        let first = placed e e' o new.lone refl refl in
        let here = find-insert_self o e.orders in
        let live =
          and_then e e' _ first
            (set_order-moves uuid o _ e' here (posted-IsKept (w.posts 0) o new.open_status)) in
        let paper = and_then e e' _ first (
          set_order-moves uuid o _ e' here
            (filled-IsKept o e' here new.open_status new.no_child o.size_usdc o.price w.now)) in
        if_case (IsReached {R = Option (Order F)} uuid e)
          (not (f.lt nought price && f.lt price one)) _ _ (unchanged e none)
          (if_case (IsReached {R = Option (Order F)} uuid e) (f.le size nought) _ _
            (unchanged e none)
            (if_case (IsReached {R = Option (Order F)} uuid e) (e.config.dry_run || not e.has_clob)
              _ _ (record { moves = paper })
              (if_case (IsReached {R = Option (Order F)} uuid e) (has_raised (w.posts 0)) _ _
                (record { moves = live }) (record { moves = live }))))
