-- ===== src/Execution/Executor/Dedup.antt =====
-- The deduplication of execution/executor.py.
use poly_cortex.Base.{
  ℕ, suc, ◌+◌, ◌*◌, ◌≤◌, le→leb, ◌≡◌, refl, Bool, true, false, not, ◌||◌, Option, none, List, [],
  ◌∷◌, any, length, String, is_some, arith, if◌then◌else◌, inl, inr, ◌⊎◌, ◌∙◌, All,
}
use poly_cortex.Float.{Float}
use poly_cortex.Execution.Executor.Orders.{Order, BracketSpec, is_entry, apply_fill}
use poly_cortex.Execution.Executor.Guard.{
  Config, OrderExecutor, Placement, same_key, note_placement, cleanup_recent_placements,
  is_duplicate, validate_order, slippage_allows,
}
use poly_cortex.Execution.Executor.Brackets.{arm_new, arm_again, arm_bracket_orders, set_order}
use poly_cortex.Execution.Executor.Place.{
  World, PlaceRequest, placement_of, place_paper, place_live, place_entry, place_order, submit,
  entry_order, store_entry,
}
use poly_cortex.Execution.Executor.Store.{str_eq_refl}
use poly_cortex.Execution.Executor.Refine.{if_case, option_case, list_case}
use poly_cortex.Execution.Executor.Placements.{
  note_placement-holds, length-note_placement, length-cleanup_recent_placements, is_duplicate-holds,
  cleanup-holds, note_placement-keeps, holds,
}

if_held {ℓ κ} :
    {A : Type ℓ} (P : A → Type κ) (b : Bool) (x y : A) → b ≡ true → P x → P (if b then x else y)
if_held P true x y h k = k
if_held P false x y h k = absurd (ground arith)

module _ {F : Type 0} ⦃f : Float F⦄ (uuid : ℕ → String) where
  -- The configuration and the placements stay.
  record IsQuiet (e e' : OrderExecutor F) : Type 0 where
    config_same : e'.config ≡ e.config
    recent_same : e'.recent_placements ≡ e.recent_placements

  quiet : (e : OrderExecutor F) → IsQuiet e e
  quiet e = record { config_same = refl; recent_same = refl }

  arm_bracket_orders-IsQuiet :
      (spec : BracketSpec F) (now : ℕ) (o : Order F) (e : OrderExecutor F)
      → IsQuiet e (arm_bracket_orders uuid spec now o e)
  unfolding arm_bracket_orders arm_new arm_again set_order
  arm_bracket_orders-IsQuiet spec now o e =
      if_case (λ x. IsQuiet e x) (not (is_entry o.order_kind)) _ _ (quiet e)
        (list_case (λ x. IsQuiet e x) o.bracket_order_ids _ _
          (record { config_same = refl; recent_same = refl })
          (λ id ids. record { config_same = refl; recent_same = refl }))

  place_paper-IsQuiet :
      (now : ℕ) (bracket : Option (BracketSpec F)) (o : Order F) (e : OrderExecutor F)
      → IsQuiet e (place_paper uuid now bracket o e)
  unfolding place_paper set_order
  place_paper-IsQuiet now bracket o e =
      if_case (λ x. IsQuiet e x) (not e.config.paper_fill_on_place) _ _ (quiet e)
        (option_case (λ x. IsQuiet e x) bracket _ _
          (record { config_same = refl; recent_same = refl })
          (λ spec q.
            let r =
              arm_bracket_orders-IsQuiet spec now (apply_fill o.size_usdc o.price now o)
                (set_order (apply_fill o.size_usdc o.price now o) e) in
            record { config_same = r.config_same; recent_same = r.recent_same }))

  -- What a call leaves for the next one.
  record IsNoted (w : World F) (r : PlaceRequest F) (e : OrderExecutor F)
      (x : OrderExecutor F × Option (Order F)) : Type 0 where
    config_same : x.0.config ≡ e.config
    noted : x.0.recent_placements ≡ note_placement (placement_of r w.now) e.recent_placements

  quiet-IsNoted :
      (w : World F) (r : PlaceRequest F) (e e' : OrderExecutor F) (o : Order F)
      (res : Option (Order F))
      → IsQuiet (store_entry r w.now o e) e'
      → IsNoted w r e (e', res)
  quiet-IsNoted w r e e' o res q = record { config_same = q.config_same; noted = q.recent_same }

  place_entry-IsNoted :
      (w : World F) (r : PlaceRequest F) (e : OrderExecutor F)
      → IsNoted w r e (place_entry uuid w r e)
  unfolding place_entry place_live set_order
  place_entry-IsNoted w r e =
      let o = entry_order uuid w.now r e in
      if_case (IsNoted w r e) (e.config.dry_run || not e.has_clob) _ _
        (quiet-IsNoted w r e _ o _ (place_paper-IsQuiet w.now _ o (store_entry r w.now o e)))
        (option_case (IsNoted w r e) (submit w o.size_usdc o.chunks) _ _
          (record { config_same = refl; noted = refl })
          (λ ids q. record { config_same = refl; noted = refl }))

  -- A call that returns an order has noted it among the placements that were left.
  place_order-IsNoted :
      (w : World F) (r : PlaceRequest F) (e : OrderExecutor F)
      → is_some (place_order uuid w r e).1 ≡ true
      → ((place_order uuid w r e).0.config ≡ e.config)
        × ((place_order uuid w r e).0.recent_placements
            ≡ note_placement
                (placement_of r w.now)
                (cleanup_recent_placements e.config.dedup_window_seconds w.now e.recent_placements))
  unfolding place_order is_duplicate
  place_order-IsNoted w r e =
      let key = placement_of r w.now in
      let found = is_duplicate e.config.dedup_window_seconds w.now key e.recent_placements in
      let e' : OrderExecutor F = record e { recent_placements = found.1 } in
      let P = λ (x : OrderExecutor F × Option (Order F)).
        is_some x.1 ≡ true
        → (x.0.config ≡ e.config) × (x.0.recent_placements ≡ note_placement key found.1) in
      option_case P
        (validate_order e.config w.kill r.market_id r.token_id r.direction r.size_usdc r.price) _ _
        (if_case P (not (slippage_allows e.config r.size_usdc r.market_book)) _ _
          (λ h. absurd (ground arith))
          (if_case P found.0 _ _ (λ h. absurd (ground arith))
            (λ h. let n = place_entry-IsNoted w r e' in (n.config_same, n.noted))))
        (λ reason q h. absurd (ground arith))

  place_order-refused :
      (w : World F) (r : PlaceRequest F) (e : OrderExecutor F)
      → (is_duplicate e.config.dedup_window_seconds w.now
          (placement_of r w.now)
          e.recent_placements).0
        ≡ true
      → (place_order uuid w r e).1 ≡ none
  unfolding place_order
  place_order-refused w r e h =
      let P = λ (x : OrderExecutor F × Option (Order F)). x.1 ≡ none in
      option_case P
        (validate_order e.config w.kill r.market_id r.token_id r.direction r.size_usdc r.price) _ _
        (if_case P (not (slippage_allows e.config r.size_usdc r.market_book)) _ _ refl (
          if_held P
            (is_duplicate e.config.dedup_window_seconds w.now (placement_of r w.now)
              e.recent_placements).0
            _ _ h refl))
        (λ reason q. refl)

  -- What any call makes of the configuration and the placements.
  record IsRecorded (w : World F) (r : PlaceRequest F) (e e' : OrderExecutor F) : Type 0 where
    config_same : e'.config ≡ e.config
    recent :
        (e'.recent_placements ≡ e.recent_placements)
        ⊎ (e'.recent_placements
            ≡ cleanup_recent_placements e.config.dedup_window_seconds w.now e.recent_placements)
        ⊎ (e'.recent_placements
            ≡ note_placement
                (placement_of r w.now)
                (cleanup_recent_placements e.config.dedup_window_seconds w.now e.recent_placements))

  place_order-IsRecorded :
      (w : World F) (r : PlaceRequest F) (e : OrderExecutor F)
      → IsRecorded w r e (place_order uuid w r e).0
  unfolding place_order is_duplicate
  place_order-IsRecorded w r e =
      let key = placement_of r w.now in
      let found = is_duplicate e.config.dedup_window_seconds w.now key e.recent_placements in
      let e' : OrderExecutor F = record e { recent_placements = found.1 } in
      let P = λ (x : OrderExecutor F × Option (Order F)). IsRecorded w r e x.0 in
      let same : IsRecorded w r e e = record { config_same = refl; recent = inl refl } in
      let n = place_entry-IsNoted w r e' in
      option_case P
        (validate_order e.config w.kill r.market_id r.token_id r.direction r.size_usdc r.price) _ _
        (if_case P (not (slippage_allows e.config r.size_usdc r.market_book)) _ _ same (
          if_case P found.0 _ _ (record { config_same = refl; recent = inr (inl refl) })
            (record { config_same = n.config_same; recent = inr (inr n.noted) })))
        (λ reason q. same)

  -- The calls one after the other.
  pub place_all : List (World F × PlaceRequest F) → OrderExecutor F → OrderExecutor F
  place_all [] e = e
  place_all (c ∷ cs) e = place_all cs (place_order uuid c.0 c.1 e).0

  -- A young placement of a key, for a later time.
  record IsHeld (c : Config F) (key : Placement) (now n : ℕ) (e : OrderExecutor F) : Type 0 where
    config_same : e.config ≡ c
    short : length e.recent_placements ≤ n
    held : any (holds c.dedup_window_seconds key now) e.recent_placements ≡ true

  place_order-IsHeld :
      (c : Config F) (key : Placement) (now n start : ℕ) (w : World F) (r : PlaceRequest F)
      (e : OrderExecutor F)
      → IsHeld c key now n e
      → n ≤ 9999
      → now ≤ start + c.dedup_window_seconds * 1000000
      → (start ≤ w.now) × (w.now ≤ now)
      → IsHeld c key now (suc n) (place_order uuid w r e).0
  place_order-IsHeld c key now n start w r e h small soon between =
      let window = c.dedup_window_seconds in
      let rec = place_order-IsRecorded w r e in
      let left = cleanup_recent_placements window w.now e.recent_placements in
      let p = placement_of r w.now in
      let cleaned : any (holds window key now) left ≡ true =
        cleanup-holds window w.now now key e.recent_placements between.1
          (omega (arith, h.short, small)) h.held in
      let bound = length-cleanup_recent_placements window w.now e.recent_placements in
      let recent : (ps : List Placement) × ((place_order uuid w r e).0.recent_placements ≡ ps)
          × (length ps ≤ suc n)
          × (any (holds window key now) ps ≡ true) =
        elim rec.recent [
          | inl q ↦ (e.recent_placements, q, omega (arith, h.short), h.held)
          | inr (inl q) ↦ (left, rw (← h.config_same) q, omega (arith, h.short, bound), cleaned)
          | inr (inr q) ↦ (
            note_placement p left,
            rw (← h.config_same) q,
            omega (arith, h.short, bound, length-note_placement p left),
            note_placement-keeps window key p now left (omega (arith, soon, between.0)) cleaned,
          )
        ] in
      record {
        config_same = rec.config_same ∙ h.config_same;
        short = rw recent.1 recent.2;
        held = rw recent.1 recent.3;
      }

  place_all-IsHeld :
      (c : Config F) (key : Placement) (now n start : ℕ) (calls : List (World F × PlaceRequest F))
      (e : OrderExecutor F)
      → IsHeld c key now n e
      → n + length calls ≤ 10000
      → now ≤ start + c.dedup_window_seconds * 1000000
      → All (λ x. (start ≤ x.0.now) × (x.0.now ≤ now)) calls
      → IsHeld c key now (n + length calls) (place_all calls e)
  unfolding place_all
  place_all-IsHeld c key now n start [] e h small soon between = record {
    config_same = h.config_same;
    short = omega (arith, h.short);
    held = h.held;
  }
  place_all-IsHeld c key now n start (x ∷ calls) e h small soon between =
      let next =
        place_order-IsHeld c key now n start x.0 x.1 e h (omega (arith, small)) soon between.0 in
      let rest =
        place_all-IsHeld c key now (suc n) start calls (place_order uuid x.0 x.1 e).0 next
          (omega (arith, small)) soon between.1 in
      record { config_same = rest.config_same; short = omega (arith, rest.short); held = rest.held }

  -- With the placements noted and the calls between together below 10000: where a call of place_order has
  -- returned an order, and whatever other calls of place_order follow, a call for the same market and direction
  -- within the window returns none. The calls between are made at times from the first call to the last.
  pub place_order-deduplicated :
      (w w' : World F) (r r' : PlaceRequest F) (calls : List (World F × PlaceRequest F))
      (e : OrderExecutor F)
      → length e.recent_placements + length calls ≤ 9999
      → is_some (place_order uuid w r e).1 ≡ true
      → r'.market_id ≡ r.market_id
      → r'.direction ≡ r.direction
      → w'.now ≤ w.now + e.config.dedup_window_seconds * 1000000
      → All (λ x. (w.now ≤ x.0.now) × (x.0.now ≤ w'.now)) calls
      → (place_order uuid w' r' (place_all calls (place_order uuid w r e).0)).1 ≡ none
  place_order-deduplicated w w' r r' calls e small done market direction soon between =
      let n = place_order-IsNoted w r e done in
      let window = e.config.dedup_window_seconds in
      let left = cleanup_recent_placements window w.now e.recent_placements in
      let key = placement_of r' w'.now in
      let m = suc (length e.recent_placements) in
      let same : same_key key (placement_of r w.now) ≡ true =
        rw (market, direction, str_eq_refl r.market_id, str_eq_refl r.direction) refl in
      let held : holds window key w'.now (placement_of r w.now) ≡ true =
        rw (same, le→leb _ _ soon) refl in
      let short : length (note_placement (placement_of r w.now) left) ≤ m = omega (
        arith,
        length-note_placement (placement_of r w.now) left,
        length-cleanup_recent_placements window w.now e.recent_placements,
      ) in
      let first : IsHeld e.config key w'.now m (place_order uuid w r e).0 = record {
        config_same = n.0;
        short = rw n.1 short;
        held = rw n.1 (note_placement-holds window w'.now key (placement_of r w.now) left held);
      } in
      let last =
        place_all-IsHeld e.config key w'.now m w.now calls (place_order uuid w r e).0 first
          (omega (arith, small)) soon between in
      place_order-refused w' r' (place_all calls (place_order uuid w r e).0) (
        rw last.config_same
          (is_duplicate-holds window w'.now key _ (omega (arith, last.short, small)) last.held))
