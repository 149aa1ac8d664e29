-- ===== src/Agent/Cycle/Slots.antt =====
-- The slots of the sizer over the loop of main.py that places trades.
use poly_cortex.Base.{
  ℕ, suc, ◌≤◌, max, ◌≡◌, refl, ◌∙◌, Bool, false, not, Option, none, some, List, [], ◌∷◌, map,
  String, arith, if◌then◌else◌, Bool-cases, inl, inr, if_case, option_case, subst, min, take,
}
use poly_cortex.Float.{Float, nought, IsOrdered, le_refl}
use poly_cortex.Risk.KillSwitch.{FileReply}
use poly_cortex.Risk.Drawdown.{update, get_multiplier, should_close_all}
use poly_cortex.Risk.Sizer.{calculate_position}
use poly_cortex.Risk.Sizer.Slots.{is_full, calculate_position-full}
use poly_cortex.Execution.Executor.Orders.{Order}
use poly_cortex.Execution.Executor.Place.{World, place_order}
use poly_cortex.Tracking.Trades.{Trade, get_open_positions}
use poly_cortex.Execution.Executor.Siblings.{map_option-some}
use poly_cortex.Agent.Cycle.Counts.{
  open_count, category_count, track-sizer, track-open_count, track-category_count,
  category_count_same, length-map,
}
use poly_cortex.Agent.Payload.{Opportunity, BookData, Texts, position_of, sized_edge, request_of}
use poly_cortex.Agent.Cycle.{
  Agent, CycleWorld, Outcome, traded, raised, track, execute, trade_sized, trade_one, trade_each,
  book_allows, trade, close_all, settle, halted, after_trades,
}

module _ {F : Type 0} ⦃f : Float F⦄ where
  -- The state of the loop: the positions are those read last, and the limits of the slots are met as far as
  -- they were at the start.
  record Within (start : Agent F) (c : String) (st : Agent F × List (Trade F)) : Type 0 where
    read : st.1 ≡ get_open_positions st.0.database.rows
    max_positions_same : st.0.sizer.max_positions ≡ start.sizer.max_positions
    max_per_category_same : st.0.sizer.max_per_category ≡ start.sizer.max_per_category
    slots : open_count st.0 ≤ max start.sizer.max_positions (open_count start)
    category_slots :
        category_count c st.0 ≤ max start.sizer.max_per_category (category_count c start)

  track-Within :
      (start : Agent F) (c : String) (texts : Texts F) (now : ℕ) (e : Opportunity F) (size : F)
      (o : Order F) (a : Agent F) (open_positions : List (Trade F))
      → Within start c (a, open_positions)
      → is_full a.sizer (sized_edge e) (map position_of open_positions) ≡ false
      → let after = track texts now e size o a in
        Within start c (after, get_open_positions after.database.rows)
  track-Within start c texts now e size o a open_positions h free =
      let same = track-sizer texts now e size o a in
      let now_open = get_open_positions a.database.rows in
      let left : is_full a.sizer (sized_edge e) (map position_of now_open) ≡ false =
        subst (λ ps. is_full a.sizer (sized_edge e) (map position_of ps) ≡ false) h.read free in
      record {
        read = refl;
        max_positions_same = same.0 ∙ h.max_positions_same;
        max_per_category_same = same.1 ∙ h.max_per_category_same;
        slots = ground (
          arith,
          h.slots,
          h.max_positions_same,
          left,
          length-map now_open,
          track-open_count texts now e size o a,
        );
        category_slots = ground (
          arith,
          h.category_slots,
          h.max_per_category_same,
          left,
          category_count_same c e.category a,
          track-category_count c texts now e size o a,
        );
      }

  execute-Within :
      (start : Agent F) (c : String) (uuid : ℕ → String) (texts : Texts F) (w : World F)
      (market : Option (BookData F)) (e : Opportunity F) (size : F) (st : Agent F × List (Trade F))
      → Within start c st
      → is_full st.0.sizer (sized_edge e) (map position_of st.1) ≡ false
      → Within start c (execute uuid texts w market e size st)
  unfolding execute
  execute-Within start c uuid texts w market e size (a, open_positions) h free =
      let placed = place_order uuid w (request_of a.config e size market) a.executor in
      let a' : Agent F = record a { executor = placed.0 } in
      let kept : Within start c (a', open_positions) = record {
        read = h.read;
        max_positions_same = h.max_positions_same;
        max_per_category_same = h.max_per_category_same;
        slots = h.slots;
        category_slots = h.category_slots;
      } in
      option_case (Within start c) placed.1 (a', open_positions)
        (λ o.
          let tracked = track texts w.now e size o a' in
          (tracked, get_open_positions tracked.database.rows))
        kept (λ o _. track-Within start c texts w.now e size o a' open_positions kept free)

  -- A size above zero is one for which there is a slot.
  sized-free :
      (laws : IsOrdered F) (a : Agent F) (e : Opportunity F) (open_positions : List (Trade F))
      (dd_mult size : F)
      → calculate_position a.sizer (sized_edge e) (map position_of open_positions) dd_mult
        ≡ some size
      → f.le size nought ≡ false
      → is_full a.sizer (sized_edge e) (map position_of open_positions) ≡ false
  sized-free laws a e open_positions dd_mult size h above = ground (
    arith,
    calculate_position-full a.sizer (sized_edge e) (map position_of open_positions) dd_mult size,
    le_refl laws nought,
    h,
    above,
  )

  trade_sized-Within :
      (laws : IsOrdered F) (start : Agent F) (c : String) (uuid : ℕ → String) (texts : Texts F)
      (w : World F) (market : Option (BookData F)) (dd_mult : F) (e : Opportunity F)
      (st : Agent F × List (Trade F)) (size : F)
      → Within start c st
      → calculate_position st.0.sizer (sized_edge e) (map position_of st.1) dd_mult ≡ some size
      → Within start c (trade_sized uuid texts w market e st size)
  unfolding trade_sized
  trade_sized-Within laws start c uuid texts w market dd_mult e (a, open_positions) size h k =
      let st : Agent F × List (Trade F) = (a, open_positions) in
      elim (Bool-cases (f.le size nought)) [
        | inl low ↦ rw low h
        | inr above ↦
            let free = sized-free laws a e open_positions dd_mult size k above in
            rw above (
              if_case (Within start c) (not (book_allows a.config size market)) st
                (execute uuid texts w market e size st) h
                (execute-Within start c uuid texts w market e size st h free))
      ]

  trade_one-Within :
      (laws : IsOrdered F) (start : Agent F) (c : String) (uuid : ℕ → String) (texts : Texts F)
      (w : World F) (order_books : String → Option (BookData F)) (dd_mult : F) (e : Opportunity F)
      (st st' : Agent F × List (Trade F))
      → Within start c st
      → trade_one uuid texts w order_books dd_mult e st ≡ some st'
      → Within start c st'
  unfolding trade_one
  trade_one-Within laws start c uuid texts w order_books dd_mult e st st' h k =
      let (size, sized, turned) =
        map_option-some
          (calculate_position st.0.sizer (sized_edge e) (map position_of st.1) dd_mult) st' k in
      subst (Within start c) turned (
        trade_sized-Within laws start c uuid texts w (order_books e.market_id) dd_mult e st size h
          sized)

  trade_each-Within :
      (laws : IsOrdered F) (start : Agent F) (c : String) (uuid : ℕ → String) (texts : Texts F)
      (worlds : ℕ → World F) (order_books : String → Option (BookData F)) (dd_mult : F) (i : ℕ)
      (es : List (Opportunity F)) (st : Agent F × List (Trade F))
      → Within start c st
      → Within start c (trade_each uuid texts worlds order_books dd_mult i es st).0
  unfolding trade_each
  trade_each-Within laws start c uuid texts worlds order_books dd_mult i [] st h = h
  trade_each-Within laws start c uuid texts worlds order_books dd_mult i (e ∷ es) st h =
      option_case (λ (r : (Agent F × List (Trade F)) × Outcome). Within start c r.0)
        (trade_one uuid texts (worlds i) order_books dd_mult e st) (st, raised)
        (λ st'. trade_each uuid texts worlds order_books dd_mult (suc i) es st') h
        (λ st' k.
          trade_each-Within laws start c uuid texts worlds order_books dd_mult (suc i) es st'
            (trade_one-Within laws start c uuid texts (worlds i) order_books dd_mult e st st' h k))

  -- The open positions are within the limits of the slots, as far as they were at the start.
  abbrev IsBounded : Agent F → String → Agent F → Type 0
  IsBounded start c a =
      (open_count a ≤ max start.sizer.max_positions (open_count start))
      × (category_count c a ≤ max start.sizer.max_per_category (category_count c start))

  close_all-IsBounded :
      (start : Agent F) (c : String) (cancels : String → Bool) (timestamp : String)
      (reply : FileReply) (a : Agent F)
      → IsBounded start c a
      → IsBounded start c (close_all cancels timestamp reply a).0
  unfolding close_all
  close_all-IsBounded start c cancels timestamp reply a h = h

  after_trades-IsBounded :
      (start : Agent F) (c : String) (fromisoformat : String → Option ℕ)
      (loads : String → Option (List (String × Option F))) (st : Agent F × List (Trade F))
      (outcome : Outcome)
      → IsBounded start c st.0
      → IsBounded start c (after_trades fromisoformat loads (st, outcome)).0
  unfolding after_trades settle
  after_trades-IsBounded start c fromisoformat loads st traded h = h
  after_trades-IsBounded start c fromisoformat loads st halted h = h
  after_trades-IsBounded start c fromisoformat loads st raised h = h

  -- Whatever the market, the exchange and the chain answer, and whether the cycle goes through its trades, stops
  -- at the emergency or is left by an exception: after it the open positions are no more than the sizer's
  -- `max_positions` or than they were before, whichever is greater, and those of any category no more than
  -- `max_per_category` or than they were before.
  pub trade-within_slots :
      (laws : IsOrdered F) (uuid : ℕ → String) (texts : Texts F) (w : CycleWorld F)
      (opportunities : List (Opportunity F)) (a : Agent F) (c : String)
      → let after = (trade uuid texts w opportunities a).0 in
        (open_count after ≤ max a.sizer.max_positions (open_count a))
        × (category_count c after ≤ max a.sizer.max_per_category (category_count c a))
  unfolding trade
  trade-within_slots laws uuid texts w opportunities a c =
      let d = update a.bankroll a.drawdown in
      let a' : Agent F = record a { drawdown = d } in
      let top = take (min 5 a.config.opportunity_top_n) opportunities in
      let start : Agent F × List (Trade F) = (a', get_open_positions a.database.rows) in
      let bounds : IsBounded a c a' = (omega arith, omega arith) in
      let loop =
        λ (dd_mult : F). trade_each uuid texts w.worlds w.order_books dd_mult 0 top start in
      let inner = λ (dd_mult : F) (close : Bool).
        if close
        then close_all w.cancels w.timestamp w.kill_reply a'
        else after_trades w.fromisoformat w.loads (loop dd_mult) in
      let P = λ (r : Agent F × Outcome). IsBounded a c r.0 in
      let begun : Within a c start = record {
        read = refl;
        max_positions_same = refl;
        max_per_category_same = refl;
        slots = bounds.0;
        category_slots = bounds.1;
      } in
      option_case P (get_multiplier a.bankroll d) (a', raised)
        (λ dd_mult. elim (should_close_all a.bankroll d) [
          | none ↦ (a', raised)
          | some close ↦ inner dd_mult close
        ])
        bounds
        (λ dd_mult _.
          option_case P (should_close_all a.bankroll d) (a', raised) (inner dd_mult) bounds
            (λ close _.
              let done =
                trade_each-Within laws a c uuid texts w.worlds w.order_books dd_mult 0 top start
                  begun in
              if_case P close (close_all w.cancels w.timestamp w.kill_reply a')
                (after_trades w.fromisoformat w.loads (loop dd_mult))
                (close_all-IsBounded a c w.cancels w.timestamp w.kill_reply a' bounds)
                (after_trades-IsBounded a c w.fromisoformat w.loads (loop dd_mult).0
                  (loop dd_mult).1 (done.slots, done.category_slots))))
