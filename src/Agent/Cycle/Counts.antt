-- ===== src/Agent/Cycle/Counts.antt =====
-- How many open rows, and how many of a category, the recording of an order in main.py adds.
use poly_cortex.Base.{
  ℕ, suc, ◌+◌, ◌≡◌, refl, ◌∙◌, ap, Bool, true, false, ◌&&◌, ◌||◌, Option, none, some, List, [], ◌∷◌,
  ◌++◌, map, length, count, String, str_eq, arith, if◌then◌else◌, Bool-cases, inl, inr, if_case,
  option_case, eq_iff,
}
use poly_cortex.Float.{Float, nought, fmax}
use poly_cortex.Risk.Sizer.{update_bankroll, in_category}
use poly_cortex.Risk.Sizer.Slots.{update_bankroll-slots}
use poly_cortex.Execution.Executor.Orders.{Order, is_filled}
use poly_cortex.Tracking.Trades.{Trade, is_open, get_open_positions}
use poly_cortex.Tracking.Trades.Open.{get_open_positions-count}
use poly_cortex.Tracking.Trades.Orders.{
  update_row, record_fee, fee_row, insert_trade, new_row, get_trade_id_for_order,
}
use poly_cortex.Agent.Payload.{
  Opportunity, CycleConfig, Texts, position_of, edge_dict, order_payload, no_meta,
}
use poly_cortex.Agent.Cycle.{Agent, charge, track}

-- The category is this one.
abbrev is_category : String → Option String → Bool
is_category c none = false
is_category c (some d) = str_eq d c

abbrev any_category : Option String → Bool
any_category _ = true

module _ {F : Type 0} where
  -- The open rows whose category passes a test.
  abbrev counted : (Option String → Bool) → Trade F → Bool
  counted g t = is_open t.status && g t.entry.category

  count-append :
      (q : Trade F → Bool) (ts us : List (Trade F)) → count q (ts ++ us) ≡ count q ts + count q us
  count-append q [] us = omega arith
  count-append q (t ∷ ts) us = omega (arith, count-append q ts us)

  count-update_row :
      (q : Trade F → Bool) (id : ℕ) (h : Trade F → Trade F) (ts : List (Trade F))
      → ((t : Trade F) → q (h t) ≡ q t)
      → count q (update_row id h ts) ≡ count q ts
  unfolding update_row
  count-update_row q id h [] same = refl
  count-update_row q id h (t ∷ ts) same = ground (arith, same t, count-update_row q id h ts same)

  count-map :
      (c : String) (ts : List (Trade F))
      → count (in_category c) (map position_of ts) ≡ count (λ t. is_category c t.entry.category) ts
  count-map c [] = refl
  count-map c (t ∷ ts) = ground (arith, count-map c ts)

  length-count : (ts : List (Trade F)) → length ts ≡ count (λ t. any_category t.entry.category) ts
  length-count [] = refl
  length-count (t ∷ ts) = omega (arith, length-count ts)

  pub length-map : (ts : List (Trade F)) → length (map position_of ts) ≡ length ts
  length-map [] = refl
  length-map (t ∷ ts) = ap suc (length-map ts)

module _ {F : Type 0} ⦃f : Float F⦄ where
  -- How many rows are open, and how many of them are of a category.
  abbrev pub open_count : Agent F → ℕ
  open_count a = length (get_open_positions a.database.rows)

  abbrev pub category_count : String → Agent F → ℕ
  category_count c a = count (in_category c) (map position_of (get_open_positions a.database.rows))

  open_count-counted : (a : Agent F) → open_count a ≡ count (counted any_category) a.database.rows
  open_count-counted a =
      length-count (get_open_positions a.database.rows)
      ∙ get_open_positions-count (λ t. any_category t.entry.category) a.database.rows

  category_count-counted :
      (c : String) (a : Agent F)
      → category_count c a ≡ count (counted (is_category c)) a.database.rows
  category_count-counted c a =
      count-map c (get_open_positions a.database.rows)
      ∙ get_open_positions-count (λ t. is_category c t.entry.category) a.database.rows

  charge-counted :
      (g : Option String → Bool) (c : CycleConfig F) (size : F) (o : Order F) (ts : List (Trade F))
      → count (counted g) (charge c size o ts) ≡ count (counted g) ts
  unfolding charge record_fee fee_row
  charge-counted g c size o ts =
      let P = λ (us : List (Trade F)). count (counted g) us ≡ count (counted g) ts in
      let fee = f.mul size c.taker_fee_rate in
      option_case P (get_trade_id_for_order o.order_id ts) ts
        (λ id. if o.is_paper || is_filled o.status then record_fee id fee false nought ts else ts)
        refl
        (λ id _.
          if_case P (o.is_paper || is_filled o.status) (record_fee id fee false nought ts) ts
            (count-update_row (counted g) id (fee_row fee false nought) ts (λ t. refl)) refl)

  track-counted :
      (g : Option String → Bool) (texts : Texts F) (now : ℕ) (e : Opportunity F) (size : F)
      (o : Order F) (a : Agent F)
      → count (counted g) (track texts now e size o a).database.rows
        ≡ count (counted g) a.database.rows + (if g (some e.category) then 1 else 0)
  unfolding track insert_trade new_row
  track-counted g texts now e size o a =
      let left = fmax nought (f.sub a.bankroll size) in
      let row : Trade F =
        new_row texts.signals (texts.isoformat now) (a.database.last_id + 1) (edge_dict e) size
          o.is_paper (order_payload texts o) no_meta in
      let rows = a.database.rows ++ (row ∷ []) in
      let tracked : Agent F = record a {
        database = record { rows = charge a.config size o rows; last_id = a.database.last_id + 1 };
      } in
      let counts : count (counted g) tracked.database.rows
          ≡ count (counted g) a.database.rows + (if g (some e.category) then 1 else 0) =
        omega (
          arith,
          charge-counted g a.config size o rows,
          count-append (counted g) a.database.rows (row ∷ []),
        ) in
      if_case
        (λ (b : Agent F).
          count (counted g) b.database.rows
          ≡ count (counted g) a.database.rows + (if g (some e.category) then 1 else 0))
        (is_filled o.status)
        (record tracked { bankroll = left; sizer = update_bankroll left a.sizer }) tracked counts
        counts

  pub track-sizer :
      (texts : Texts F) (now : ℕ) (e : Opportunity F) (size : F) (o : Order F) (a : Agent F)
      → ((track texts now e size o a).sizer.max_positions ≡ a.sizer.max_positions)
        × ((track texts now e size o a).sizer.max_per_category ≡ a.sizer.max_per_category)
  unfolding track
  track-sizer texts now e size o a =
      let left = fmax nought (f.sub a.bankroll size) in
      elim (Bool-cases (is_filled o.status)) [
        | inl h ↦ rw h (update_bankroll-slots left a.sizer)
        | inr h ↦ rw h (refl, refl)
      ]

  pub track-open_count :
      (texts : Texts F) (now : ℕ) (e : Opportunity F) (size : F) (o : Order F) (a : Agent F)
      → open_count (track texts now e size o a) ≡ suc (open_count a)
  track-open_count texts now e size o a = omega (
    arith,
    open_count-counted a,
    open_count-counted (track texts now e size o a),
    track-counted any_category texts now e size o a,
  )

  pub track-category_count :
      (c : String) (texts : Texts F) (now : ℕ) (e : Opportunity F) (size : F) (o : Order F)
      (a : Agent F)
      → category_count c (track texts now e size o a)
        ≡ category_count c a + (if str_eq e.category c then 1 else 0)
  track-category_count c texts now e size o a = omega (
    arith,
    category_count-counted c a,
    category_count-counted c (track texts now e size o a),
    track-counted (is_category c) texts now e size o a,
  )

  pub category_count_same :
      (c d : String) (a : Agent F) → str_eq d c ≡ true → category_count d a ≡ category_count c a
  category_count_same c d a h = ap (λ x. category_count x a) ((eq_iff d c).0 h)
