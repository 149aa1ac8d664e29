-- ===== src/Agent/Cycle/Total.antt =====
-- No exception of the sizer or of the drawdown leaves the cycle of main.py.
use poly_cortex.Base.{
  ℕ, suc, ◌≡◌, refl, Bool, true, false, not, Option, some, List, [], ◌∷◌, map, take, min, String,
  All, if◌then◌else◌, if_case, arith, option_case, Bool-cases, inl, inr, zero,
}
use poly_cortex.Float.{Float, ◌≼◌, nought, one, IsOrdered, IsMonotone, IsScaled}
use poly_cortex.Risk.KillSwitch.{worked}
use poly_cortex.Risk.Drawdown.{update, should_close_all}
use poly_cortex.Risk.Drawdown.Multiplier.{get_multiplier-IsFraction, should_close_all-total}
use poly_cortex.Risk.Sizer.Caps.{IsSane, calculate_position-IsCapped, update_bankroll-IsSane}
use poly_cortex.Execution.Executor.Orders.{Order, is_filled}
use poly_cortex.Execution.Executor.Place.{World, place_order}
use poly_cortex.Tracking.Trades.{Trade, get_open_positions}
use poly_cortex.Agent.Payload.{Opportunity, BookData, Texts, position_of, sized_edge, request_of}
use poly_cortex.Agent.Cycle.{
  Agent, CycleWorld, Outcome, traded, halted, raised, track, execute, book_allows, trade_sized,
  trade_one, trade_each, trade, close_all, after_trades, settle,
}

module _ {F : Type 0} ⦃f : Float F⦄ where
  abbrev pub IsConfident : Opportunity F → Type 0
  IsConfident e = nought ≼ e.confidence

  take-All :
      (P : Opportunity F → Type 0) (n : ℕ) (es : List (Opportunity F))
      → All P es
      → All P (take n es)
  take-All P zero es h = tt
  take-All P (suc n) [] h = tt
  take-All P (suc n) (e ∷ es) h = (h.0, take-All P n es h.1)

  module _ (laws : IsOrdered F) (mono : IsMonotone F) (scaled : IsScaled F) where
    track-IsSane :
        (texts : Texts F) (now : ℕ) (e : Opportunity F) (size : F) (o : Order F) (a : Agent F)
        → IsSane a.sizer
        → IsSane (track texts now e size o a).sizer
    unfolding track
    track-IsSane texts now e size o a h = elim (Bool-cases (is_filled o.status)) [
      | inl d ↦ rw d (update_bankroll-IsSane laws mono scaled (f.sub a.bankroll size) a.sizer h)
      | inr d ↦ rw d h
    ]

    execute-IsSane :
        (uuid : ℕ → String) (texts : Texts F) (w : World F) (market : Option (BookData F))
        (e : Opportunity F) (size : F) (st : Agent F × List (Trade F))
        → IsSane st.0.sizer
        → IsSane (execute uuid texts w market e size st).0.sizer
    unfolding execute
    execute-IsSane uuid texts w market e size (a, open_positions) h =
        let placed = place_order uuid w (request_of a.config e size market) a.executor in
        let a' : Agent F = record a { executor = placed.0 } in
        option_case (λ (x : Agent F × List (Trade F)). IsSane x.0.sizer) placed.1
          (a', open_positions)
          (λ o.
            let tracked = track texts w.now e size o a' in
            (tracked, get_open_positions tracked.database.rows))
          h (λ o _. track-IsSane texts w.now e size o a' h)

    trade_sized-IsSane :
        (uuid : ℕ → String) (texts : Texts F) (w : World F) (market : Option (BookData F))
        (e : Opportunity F) (st : Agent F × List (Trade F)) (size : F)
        → IsSane st.0.sizer
        → IsSane (trade_sized uuid texts w market e st size).0.sizer
    unfolding trade_sized
    trade_sized-IsSane uuid texts w market e (a, open_positions) size h =
        let P = λ (x : Agent F × List (Trade F)). IsSane x.0.sizer in
        let st : Agent F × List (Trade F) = (a, open_positions) in
        let done = execute uuid texts w market e size st in
        let placed =
          if_case P (not (book_allows a.config size market)) st done h
            (execute-IsSane uuid texts w market e size st h) in
        if_case P (f.le size nought) st
          (if not (book_allows a.config size market) then st else done) h placed

    trade_each-traded :
        (uuid : ℕ → String) (texts : Texts F) (worlds : ℕ → World F)
        (order_books : String → Option (BookData F)) (dd_mult : F) (i : ℕ)
        (es : List (Opportunity F)) (st : Agent F × List (Trade F))
        → dd_mult ≼ one
        → All IsConfident es
        → IsSane st.0.sizer
        → let done = trade_each uuid texts worlds order_books dd_mult i es st in
          (done.1 ≡ traded) × IsSane done.0.0.sizer
    unfolding trade_each trade_one
    trade_each-traded uuid texts worlds order_books dd_mult i [] st m_le h sane = (refl, sane)
    trade_each-traded uuid texts worlds order_books dd_mult i (e ∷ es) st m_le h sane =
        let (size, sized, capped) =
          calculate_position-IsCapped laws mono scaled st.0.sizer (sized_edge e)
            (map position_of st.1) dd_mult sane h.0 m_le in
        let market = order_books e.market_id in
        rw (trade_each, trade_one, sized)
          (trade_each-traded uuid texts worlds order_books dd_mult (suc i) es
            (trade_sized uuid texts (worlds i) market e st size) m_le h.1
            (trade_sized-IsSane uuid texts (worlds i) market e st size sane))

    after_trades-traded :
        (w : CycleWorld F) (done : (Agent F × List (Trade F)) × Outcome)
        → done.1 ≡ traded
        → IsSane done.0.0.sizer
        → ((after_trades w.fromisoformat w.loads done).1 ≡ traded)
          × IsSane (after_trades w.fromisoformat w.loads done).0.sizer
    unfolding after_trades settle
    after_trades-traded w (st, traded) h sane =
        (refl, update_bankroll-IsSane laws mono scaled _ st.0.sizer sane)
    after_trades-traded w (st, halted) h sane = absurd (ground (arith, h))
    after_trades-traded w (st, raised) h sane = absurd (ground (arith, h))

    ended :
        (close : Bool) (w : CycleWorld F) (a : Agent F)
        (done : (Agent F × List (Trade F)) × Outcome)
        → w.kill_reply ≡ worked
        → done.1 ≡ traded
        → IsSane a.sizer
        → IsSane done.0.0.sizer
        → let r =
            if close
            then close_all w.cancels w.timestamp w.kill_reply a
            else after_trades w.fromisoformat w.loads done in
          (r.1 ≡ (if close then halted else traded)) × IsSane r.0.sizer
    unfolding close_all
    ended true w a done written h sane after = (rw written refl, sane)
    ended false w a done written h sane after = after_trades-traded w done h after

    -- With settings of the sizer that are not below zero, confidences that are not below zero and a kill switch
    -- whose file can be written, neither the sizer nor the drawdown divides by zero: a cycle stops at the
    -- emergency or goes through all its trades, and the sizer's settings are such again after it.
    pub trade-never_raises :
        (uuid : ℕ → String) (texts : Texts F) (w : CycleWorld F)
        (opportunities : List (Opportunity F)) (a : Agent F)
        → IsSane a.sizer
        → All IsConfident opportunities
        → w.kill_reply ≡ worked
        → let (after, outcome) = trade uuid texts w opportunities a in
          (close : Bool) × (should_close_all a.bankroll (update a.bankroll a.drawdown) ≡ some close)
          × (outcome ≡ (if close then halted else traded))
          × IsSane after.sizer
    unfolding trade close_all
    trade-never_raises uuid texts w opportunities a sane confident written =
        let d = update a.bankroll a.drawdown in
        let (dd_mult, of_mult, fraction) = get_multiplier-IsFraction laws mono a.bankroll d in
        let (close, of_close) = should_close_all-total laws mono a.bankroll d in
        let a' : Agent F = record a { drawdown = d } in
        let top = take (min 5 a.config.opportunity_top_n) opportunities in
        let start : Agent F × List (Trade F) = (a', get_open_positions a.database.rows) in
        let done = trade_each uuid texts w.worlds w.order_books dd_mult 0 top start in
        let through =
          trade_each-traded uuid texts w.worlds w.order_books dd_mult 0 top start fraction.1
            (take-All IsConfident (min 5 a.config.opportunity_top_n) opportunities confident)
            sane in
        let last = ended close w a' done written through.0 sane through.1 in
        (
          close,
          of_close,
          rw (trade, of_mult, of_close) last.0,
          rw (trade, of_mult, of_close) last.1,
        )
