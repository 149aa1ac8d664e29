-- ===== src/Execution/Executor/Lost.antt =====
-- Live placements of execution/executor.py that fail on the way.
use poly_cortex.Base.{
  ℕ, zero, suc, ◌+◌, ◌<◌, ◌≡◌, refl, sym, ◌∙◌, ap, Bool, true, false, not, ◌&&◌, ◌||◌, Option, none,
  some, List, [], ◌∷◌, ◌++◌, String, arith, if◌then◌else◌, subst,
}
use poly_cortex.Float.{Float}
use poly_cortex.Execution.Executor.Orders.{Order, OrderStatus, BracketSpec, find, post_init}
use poly_cortex.Execution.Executor.Guard.{
  OrderExecutor, default_bracket_spec, persist_order_intent, assert_sufficient_balance,
  check_gas_price,
}
use poly_cortex.Execution.Executor.Brackets.{set_order}
use poly_cortex.Execution.Executor.Place.{
  PostReply, raised, with_id, without_id, has_raised, World, PlaceRequest, post_chunks, submit,
  place_live, entry_order, build_entry_order, store_entry, or_spec, place_entry,
}
use poly_cortex.Execution.Executor.Store.{find-insert_self, find-put_self}
use poly_cortex.Execution.Executor.Refine.{if_case}

raised_of : (r : PostReply) → has_raised r ≡ true → r ≡ raised
raised_of (with_id id) h = absurd (ground arith)
raised_of without_id h = absurd (ground arith)
raised_of raised h = refl

-- A chunk that raises ends the loop without identifiers, whatever was accepted before.
post_chunks-raised :
    (n i k : ℕ) (posts : ℕ → PostReply) (ids : List String)
    → k < n
    → has_raised (posts (i + k)) ≡ true
    → post_chunks n i posts ids ≡ none
unfolding post_chunks
post_chunks-raised zero i k posts ids h r = absurd (omega arith)
post_chunks-raised (suc n) i zero posts ids h r =
    let now : posts i ≡ raised = ap posts (omega arith) ∙ raised_of (posts (i + 0)) r in
    rw (post_chunks, now) refl
post_chunks-raised (suc n) i (suc k) posts ids h r =
    let later : has_raised (posts (suc i + k)) ≡ true =
      ap (λ j. has_raised (posts j)) (omega arith) ∙ r in
    let rest : (js : List String) → post_chunks n (suc i) posts js ≡ none =
      λ js. post_chunks-raised n (suc i) k posts js (omega (arith, h)) later in
    elim (posts i)
      as (λ q.
        elim q as (λ z. Option (List String)) [
          | with_id id ↦ post_chunks n (suc i) posts (ids ++ (id ∷ []))
          | without_id ↦ post_chunks n (suc i) posts ids
          | raised ↦ none
        ]
        ≡ none) [ with_id id ↦ rest (ids ++ (id ∷ [])) | without_id ↦ rest ids | raised ↦ refl ]

if_not {ℓ} : {A : Type ℓ} (b : Bool) (x y : A) → b ≡ false → (if b then x else y) ≡ y
if_not true x y h = absurd (ground arith)
if_not false x y h = refl

-- No order is returned, and the one that is stored is cancelled, without an identifier of the exchange.
abbrev pub IsLost : {F : Type 0} → String → OrderExecutor F × Option (Order F) → Type 0
IsLost id x =
    (x.1 ≡ none)
    × (o : Order _) × (find id x.0.orders ≡ some o)
    × (o.status ≡ OrderStatus.cancelled)
    × (o.exchange_order_ids ≡ [])

module _ {F : Type 0} ⦃f : Float F⦄ where
  submit-raised :
      (w : World F) (size : F) (chunks k : ℕ)
      → k < chunks
      → has_raised (w.posts k) ≡ true
      → submit w size chunks ≡ none
  unfolding submit
  submit-raised w size chunks k h r =
      if_case (λ x. x ≡ none)
        (persist_order_intent w.intent
          && (assert_sufficient_balance false size w.balance
              && check_gas_price false w.max_gas_gwei w.gas))
        _ _
        (post_chunks-raised chunks 0 k w.posts [] h
          (ap (λ j. has_raised (w.posts j)) (omega arith) ∙ r))
        refl

  place_live-none :
      (w : World F) (bracket : Option (BracketSpec F)) (o : Order F) (e : OrderExecutor F)
      → submit w o.size_usdc o.chunks ≡ none
      → place_live w bracket o e ≡ (set_order (record o { status = OrderStatus.cancelled }) e, none)
  unfolding place_live
  place_live-none w bracket o e h = rw (place_live, h) refl

  -- A live entry that passed the checks: where the post of one of its chunks raises, the call returns
  -- none, and the order is kept as cancelled without any identifier of the exchange, also where earlier
  -- chunks were accepted.
  pub place_entry-IsLost :
      (uuid : ℕ → String) (w : World F) (r : PlaceRequest F) (e : OrderExecutor F) (k : ℕ)
      → e.config.dry_run ≡ false
      → e.has_clob ≡ true
      → k < (entry_order uuid w.now r e).chunks
      → has_raised (w.posts k) ≡ true
      → IsLost (uuid e.drawn) (place_entry uuid w r e)
  unfolding place_entry set_order entry_order build_entry_order post_init
  place_entry-IsLost uuid w r e k dry clob h raise =
      let o = entry_order uuid w.now r e in
      let e' = store_entry r w.now o e in
      let o' = record o { status = OrderStatus.cancelled } in
      let none_posted = submit-raised w o.size_usdc o.chunks k h raise in
      let result =
        place_live-none w (or_spec r.bracket_spec (default_bracket_spec e.config)) o e'
          none_posted in
      let live : place_entry uuid w r e
          ≡ place_live w (or_spec r.bracket_spec (default_bracket_spec e.config)) o e' =
        if_not (e.config.dry_run || not e.has_clob) _ _ (rw (dry, clob) refl) in
      subst (λ x. IsLost (uuid e.drawn) x) (sym (live ∙ result))
        (refl, o', find-put_self o o' e'.orders (find-insert_self o e.orders), refl, refl)
