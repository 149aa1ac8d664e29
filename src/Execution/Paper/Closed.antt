-- ===== src/Execution/Paper/Closed.antt =====
-- Filled and cancelled orders of execution/paper_engine.py.
use poly_cortex.Base.{
  ◌≡◌, refl, true, false, Option, none, some, List, [], ◌∷◌, ◌++◌, map, append-nil, String, arith,
  ◌∙◌, ap, sym,
}
use poly_cortex.Float.{Float}
use poly_cortex.Execution.Paper.{
  SimulatedFill, PaperOrder, cancelled, PaperTradingEngine, Draws, Level, try_fill, step, tally,
  filled_by, fill_loop, simulate_fills, is_open, find, get_order, cancel_order, cancel_one,
}

pub data Event (F : Type 0) : Type 0 where
  simulates : (String → Draws F) → F → List (Level F) → List (Level F) → Event F
  cancels : String → Event F

module _ {F : Type 0} where
  cancel_one-closed :
      (id id' : String) (o : PaperOrder F) (os : List (PaperOrder F))
      → find id os ≡ some o
      → is_open o.status ≡ false
      → find id (map (cancel_one id') os) ≡ some o
  unfolding cancel_one
  cancel_one-closed id id' o [] h closed = h
  cancel_one-closed id id' o (x ∷ xs) h closed = ground (arith, cancel_one-closed id id' o xs)

  cancel_order-closed :
      (id id' : String) (o : PaperOrder F) (e : PaperTradingEngine F)
      → get_order id e ≡ some o
      → is_open o.status ≡ false
      → get_order id (cancel_order id' e).1 ≡ some o
  unfolding get_order cancel_order
  cancel_order-closed id id' o e h closed =
      ground (arith, cancel_one-closed id id' o e.orders h closed)

  cancel_one-find :
      (id : String) (o : PaperOrder F) (os : List (PaperOrder F))
      → find id os ≡ some o
      → is_open o.status ≡ true
      → find id (map (cancel_one id) os) ≡ some (record o { status = cancelled })
  unfolding cancel_one
  cancel_one-find id o [] h live = absurd (ground arith)
  cancel_one-find id o (x ∷ xs) h live = ground (arith, cancel_one-find id o xs)

  cancel_order-find :
      (id : String) (o : PaperOrder F) (e : PaperTradingEngine F)
      → get_order id e ≡ some o
      → (cancel_order id e).0 ≡ true
      → get_order id (cancel_order id e).1 ≡ some (record o { status = cancelled })
  unfolding get_order cancel_order
  cancel_order-find id o e h done = ground (arith, cancel_one-find id o e.orders h)

module _ {F : Type 0} ⦃f : Float F⦄ where
  apply : Event F → PaperTradingEngine F → PaperTradingEngine F
  apply (simulates draws now bids asks) e = (simulate_fills draws now bids asks e).1
  apply (cancels id) e = (cancel_order id e).1

  -- Any sequence of simulations and cancellations.
  pub run : List (Event F) → PaperTradingEngine F → PaperTradingEngine F
  unfolding apply
  run [] e = e
  run (v ∷ vs) e = run vs (apply v e)

  filled_by-order_id :
      (o : PaperOrder F) (fill : Option (SimulatedFill F))
      → (filled_by o fill).order_id ≡ o.order_id
  unfolding filled_by
  filled_by-order_id o none = refl
  filled_by-order_id o (some x) = refl

  module _ (d : String → Draws F) (now : F) (bids asks : List (Level F))
      (e : PaperTradingEngine F) where
    step-order_id :
        (o : PaperOrder F) → (step e (d o.order_id) now bids asks o).0.order_id ≡ o.order_id
    unfolding step
    step-order_id o = ground (
      arith,
      filled_by-order_id o (try_fill e (d o.order_id) now o (f.sub o.size o.filled_size) bids asks),
    )

    step-closed :
        (o : PaperOrder F)
        → is_open o.status ≡ false
        → step e (d o.order_id) now bids asks o ≡ (o, none)
    unfolding step
    step-closed o closed = rw closed refl

    find-step :
        (id : String) (o x : PaperOrder F) (seen xs : List (PaperOrder F))
        → find id (seen ++ x ∷ xs) ≡ some o
        → is_open o.status ≡ false
        → find id ((seen ++ (step e (d x.order_id) now bids asks x).0 ∷ []) ++ xs) ≡ some o
    find-step id o x [] xs h closed = ground (arith, step-order_id x, step-closed x)
    find-step id o x (y ∷ ys) xs h closed = ground (arith, find-step id o x ys xs)

  fill_loop-closed :
      (draws : String → Draws F) (now : F) (bids asks : List (Level F)) (id : String)
      (o : PaperOrder F) (seen os : List (PaperOrder F)) (e : PaperTradingEngine F)
      → find id (seen ++ os) ≡ some o
      → is_open o.status ≡ false
      → find id (fill_loop draws now bids asks seen os e).1.orders ≡ some o
  unfolding fill_loop
  fill_loop-closed draws now bids asks id o seen [] e h closed =
      ap (find id) (sym (append-nil seen)) ∙ h
  fill_loop-closed draws now bids asks id o seen (x ∷ xs) e h closed =
      let (x', fill) = step e (draws x.order_id) now bids asks x in
      fill_loop-closed draws now bids asks id o (seen ++ x' ∷ []) xs (tally fill e)
        (find-step draws now bids asks e id o x seen xs h closed) closed

  apply-closed :
      (v : Event F) (id : String) (o : PaperOrder F) (e : PaperTradingEngine F)
      → get_order id e ≡ some o
      → is_open o.status ≡ false
      → get_order id (apply v e) ≡ some o
  unfolding apply simulate_fills get_order
  apply-closed (simulates draws now bids asks) id o e h closed =
      fill_loop-closed draws now bids asks id o [] e.orders e h closed
  apply-closed (cancels id') id o e h closed = cancel_order-closed id id' o e h closed

  -- An order that is filled or cancelled is still there, with its fills, after any sequence of
  -- simulations and cancellations.
  pub run-closed :
      (vs : List (Event F)) (id : String) (o : PaperOrder F) (e : PaperTradingEngine F)
      → get_order id e ≡ some o
      → is_open o.status ≡ false
      → get_order id (run vs e) ≡ some o
  unfolding run
  run-closed [] id o e h closed = h
  run-closed (v ∷ vs) id o e h closed =
      run-closed vs id o (apply v e) (apply-closed v id o e h closed) closed

  -- An order that `cancel_order` reports as cancelled keeps the fills it has, and takes no further one
  -- in any sequence of simulations and cancellations.
  pub cancel_order-run :
      (vs : List (Event F)) (id : String) (o : PaperOrder F) (e : PaperTradingEngine F)
      → get_order id e ≡ some o
      → (cancel_order id e).0 ≡ true
      → get_order id (run vs (cancel_order id e).1) ≡ some (record o { status = cancelled })
  cancel_order-run vs id o e h done =
      run-closed vs id (record o { status = cancelled }) (cancel_order id e).1
        (cancel_order-find id o e h done) refl
