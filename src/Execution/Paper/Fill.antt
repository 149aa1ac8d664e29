-- ===== src/Execution/Paper/Fill.antt =====
-- What a simulated fill of execution/paper_engine.py may be, and how the fills are counted.
use poly_cortex.Base.{
  ◌+◌, ◌≡◌, false, Option, none, some, List, [], ◌∷◌, ◌++◌, length, length-append, String, arith,
}
use poly_cortex.Float.{Float}
use poly_cortex.Execution.Paper.{
  SimulatedFill, PaperOrder, PaperTradingEngine, Draws, Level, fill_at, against, levels_for,
  try_fill, step, tally, and_fill, fill_loop, simulate_fills,
}

module _ {F : Type 0} ⦃f : Float F⦄ where
  against-taker :
      (e : PaperTradingEngine F) (d : Draws F) (now : F) (o : PaperOrder F) (remaining : F)
      (ls : List (Level F)) (fill : SimulatedFill F)
      → against e d now o remaining ls ≡ some fill
      → (fill.is_maker ≡ false) × (fill.order_id ≡ o.order_id) × (fill.timestamp ≡ now)
  unfolding against fill_at
  against-taker e d now o remaining [] fill h = absurd (ground arith)
  against-taker e d now o remaining (best ∷ ls) fill h = ground arith

  -- A fill that `try_fill` returns is for the order that was tried, and it is never a maker's: the
  -- maker's fee is charged on no fill.
  pub try_fill-taker :
      (e : PaperTradingEngine F) (d : Draws F) (now : F) (o : PaperOrder F) (remaining : F)
      (bids asks : List (Level F)) (fill : SimulatedFill F)
      → try_fill e d now o remaining bids asks ≡ some fill
      → (fill.is_maker ≡ false) × (fill.order_id ≡ o.order_id)
  unfolding try_fill
  try_fill-taker e d now o remaining bids asks fill h =
      ground (arith, against-taker e d now o remaining (levels_for o.side bids asks) fill)

  and_fill-tally :
      (fill : Option (SimulatedFill F)) (fills : List (SimulatedFill F))
      (e e' : PaperTradingEngine F)
      → e'.fill_count ≡ (tally fill e).fill_count + length fills
      → e'.fill_count ≡ e.fill_count + length (and_fill fill fills)
  unfolding tally
  and_fill-tally none fills e e' h = h
  and_fill-tally (some x) fills e e' h = omega arith

  fill_loop-count :
      (draws : String → Draws F) (now : F) (bids asks : List (Level F))
      (seen os : List (PaperOrder F)) (e : PaperTradingEngine F)
      → let (fills, e') = fill_loop draws now bids asks seen os e in
        (e'.fill_count ≡ e.fill_count + length fills) × (length e'.orders ≡ length seen + length os)
  unfolding fill_loop
  fill_loop-count draws now bids asks seen [] e = (omega arith, omega arith)
  fill_loop-count draws now bids asks seen (o ∷ os) e =
      let (o', fill) = step e (draws o.order_id) now bids asks o in
      let rest = fill_loop draws now bids asks (seen ++ o' ∷ []) os (tally fill e) in
      let ih = fill_loop-count draws now bids asks (seen ++ o' ∷ []) os (tally fill e) in
      (and_fill-tally fill rest.0 e rest.1 ih.0, omega (arith, ih.1, length-append seen (o' ∷ [])))

  -- `simulate_fills` counts each fill that it returns once, and keeps as many orders as there were.
  pub simulate_fills-count :
      (draws : String → Draws F) (now : F) (bids asks : List (Level F)) (e : PaperTradingEngine F)
      → let (fills, e') = simulate_fills draws now bids asks e in
        (e'.fill_count ≡ e.fill_count + length fills) × (length e'.orders ≡ length e.orders)
  unfolding simulate_fills
  simulate_fills-count draws now bids asks e =
      let both = fill_loop-count draws now bids asks [] e.orders e in
      (both.0, omega (arith, both.1))
