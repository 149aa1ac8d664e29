-- ===== src/Tracking/Reconciler/Heal.antt =====
-- What the phantom check of tracking/reconciler.py does to the table of trades.
use poly_cortex.Base.{
  ◌≡◌, refl, Bool, true, false, not, ◌&&◌, List, [], ◌∷◌, map, any, any_self, any-map, Bool-cases,
  inl, inr, arith, ap, if◌then◌else◌, ◌==◌, ==_iff, sym, ◌∙◌, String,
}
use poly_cortex.Float.{Float}
use poly_cortex.Tracking.Trades.{
  Trade, closed, is_open, close_row, close_position, get_open_positions,
}
use poly_cortex.Tracking.Trades.Open.{get_open_positions-any}
use poly_cortex.Tracking.Reconciler.{
  PositionReconciler, ExecutorOrder, is_matched, phantoms, check_phantom_positions,
}

module _ {F : Type 0} ⦃f : Float F⦄ where
  module _ (now : String) (os : List (ExecutorOrder F)) where
    -- What the loop over some positions makes of one row.
    settle_one : Trade F → Trade F → Trade F
    settle_one p t =
        if is_matched os p
        then t
        else if t.id == p.id
        then close_row p.entry_price closed "phantom_reconciliation" now t
        else t

    settle : List (Trade F) → Trade F → Trade F
    unfolding settle_one
    settle [] t = t
    settle (p ∷ ps) t = settle ps (settle_one p t)

    settle-map_one :
        (p : Trade F) (ts : List (Trade F)) → is_matched os p ≡ true → map (settle_one p) ts ≡ ts
    unfolding settle_one
    settle-map_one p [] h = refl
    settle-map_one p (t ∷ ts) h = rw h (ap (λ l. t ∷ l) (settle-map_one p ts h))

    settle-map_two :
        (p : Trade F) (ts : List (Trade F))
        → is_matched os p ≡ false
        → map (settle_one p) ts
          ≡ close_position p.id p.entry_price closed "phantom_reconciliation" now ts
    unfolding settle_one close_position
    settle-map_two p [] h = refl
    settle-map_two p (t ∷ ts) h = rw h (
        ap
          (λ l.
            (if t.id == p.id
              then close_row p.entry_price closed "phantom_reconciliation" now t
              else t)
            ∷ l)
          (settle-map_two p ts h))

    map-settle :
        (p : Trade F) (ps ts : List (Trade F))
        → map (settle ps) (map (settle_one p) ts) ≡ map (settle (p ∷ ps)) ts
    unfolding settle
    map-settle p ps [] = refl
    map-settle p ps (t ∷ ts) = ap (λ l. settle ps (settle_one p t) ∷ l) (map-settle p ps ts)

    settle-id : (ts : List (Trade F)) → map (settle []) ts ≡ ts
    unfolding settle
    settle-id [] = refl
    settle-id (t ∷ ts) = ap (λ l. t ∷ l) (settle-id ts)

    phantoms-settle :
        (r : PositionReconciler F) (ps ts : List (Trade F))
        → r.auto_close_phantoms ≡ true
        → (phantoms r now os ps ts).1 ≡ map (settle ps) ts
    unfolding phantoms
    phantoms-settle r [] ts on = sym (settle-id ts)
    phantoms-settle r (p ∷ ps) ts on = elim (Bool-cases (is_matched os p)) [
      | inl h ↦
          rw (on, h)
            (phantoms-settle r ps ts on
              ∙ ap (map (settle ps)) (sym (settle-map_one p ts h))
              ∙ map-settle p ps ts)
      | inr h ↦
          rw (on, h)
            (phantoms-settle r ps
                (close_position p.id p.entry_price closed "phantom_reconciliation" now ts) on
              ∙ ap (map (settle ps)) (sym (settle-map_two p ts h))
              ∙ map-settle p ps ts)
    ]

    -- The check does not change what decides about a row.
    settle_one-matched : (p t : Trade F) → is_matched os (settle_one p t) ≡ is_matched os t
    unfolding settle_one close_row is_matched
    settle_one-matched p t = ground arith

    settle_one-closed :
        (p t : Trade F) → is_open t.status ≡ false → is_open (settle_one p t).status ≡ false
    unfolding settle_one close_row
    settle_one-closed p t h = ground arith

    settle-closed :
        (ps : List (Trade F)) (t : Trade F)
        → is_open t.status ≡ false
        → is_open (settle ps t).status ≡ false
    unfolding settle
    settle-closed [] t h = h
    settle-closed (p ∷ ps) t h = settle-closed ps (settle_one p t) (settle_one-closed p t h)

    abbrev covers : Trade F → Trade F → Bool
    covers t p = (p.id == t.id) && not (is_matched os p)

    settle_one-id : (p t : Trade F) → (settle_one p t).id ≡ t.id
    unfolding settle_one close_row
    settle_one-id p t = ground arith

    settle_one-covers :
        (p t : Trade F) → covers t p ≡ true → is_open (settle_one p t).status ≡ false
    unfolding settle_one close_row
    settle_one-covers p t h = ground (arith, ==_iff t.id p.id, ==_iff p.id t.id)

    any-covers :
        (p t : Trade F) (ps : List (Trade F)) → any (covers (settle_one p t)) ps ≡ any (covers t) ps
    any-covers p t ps =
        ap (λ i. any (λ q. (q.id == i) && not (is_matched os q)) ps) (settle_one-id p t)

    settle-covers :
        (ps : List (Trade F)) (t : Trade F)
        → any (covers t) ps ≡ true
        → is_open (settle ps t).status ≡ false
    unfolding settle
    settle-covers [] t h = absurd (ground arith)
    settle-covers (p ∷ ps) t h = ground (
      arith,
      settle-closed ps (settle_one p t),
      settle_one-covers p t,
      any-covers p t ps,
      settle-covers ps (settle_one p t),
    )

    settle-matched :
        (ps : List (Trade F)) (t : Trade F) → is_matched os (settle ps t) ≡ is_matched os t
    unfolding settle
    settle-matched [] t = refl
    settle-matched (p ∷ ps) t = settle-matched ps (settle_one p t) ∙ settle_one-matched p t

    settle-healed :
        (ps : List (Trade F)) (t : Trade F)
        → (is_open t.status && covers t t ≡ true → any (covers t) ps ≡ true)
        → is_open (settle ps t).status && not (is_matched os (settle ps t)) ≡ false
    settle-healed ps t h = ground (
      arith,
      settle-closed ps t,
      settle-covers ps t,
      settle-matched ps t,
      ==_iff t.id t.id,
      h,
      Bool-cases (is_open t.status),
      Bool-cases (is_matched os t),
    )

  phantoms-none :
      (r : PositionReconciler F) (now : String) (os : List (ExecutorOrder F))
      (ps ts : List (Trade F))
      → any (λ p. not (is_matched os p)) ps ≡ false
      → phantoms r now os ps ts ≡ ([], ts)
  unfolding phantoms
  phantoms-none r now os [] ts h = refl
  phantoms-none r now os (p ∷ ps) ts h = elim (Bool-cases (is_matched os p)) [
    | inl m ↦ rw m (phantoms-none r now os ps ts (ground arith))
    | inr m ↦ absurd (ground arith)
  ]

  healed :
      (r : PositionReconciler F) (now : String) (os : List (ExecutorOrder F)) (ts : List (Trade F))
      → r.auto_close_phantoms ≡ true
      → any
          (λ t. is_open t.status && not (is_matched os t))
          (phantoms r now os (get_open_positions ts) ts).1
        ≡ false
  healed r now os ts on =
      let ps = get_open_positions ts in
      let R : Trade F → Trade F → Bool = λ t u. is_open u.status && covers now os t u in
      rw (phantoms-settle now os r ps ts on) (
        any-map (λ t. R t t ≡ true → any (R t) ts ≡ true)
          (λ t. is_open t.status && not (is_matched os t)) (settle now os ps) ts
          (λ t h.
            settle-healed now os ps t (λ k. get_open_positions-any (covers now os t) ts ∙ h k))
          (any_self R ts))

  -- With the closing of phantoms on, a second check finds none, at whatever time, and leaves the trades
  -- as they are.
  pub check_phantom_positions-settled :
      (r : PositionReconciler F) (now later : String) (os : List (ExecutorOrder F))
      (ts : List (Trade F))
      → r.auto_close_phantoms ≡ true
      → let ts' = (check_phantom_positions r now os ts).1 in
        check_phantom_positions r later os ts' ≡ ([], ts')
  unfolding check_phantom_positions
  check_phantom_positions-settled r now later os ts on =
      phantoms-none r later os (get_open_positions _) _
        (get_open_positions-any (λ p. not (is_matched os p)) _ ∙ healed r now os ts on)
