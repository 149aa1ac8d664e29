-- ===== src/Reporting/Tax/Lots.antt =====
-- The lots of reporting/tax.py.
use poly_cortex.Base.{
  ◌≡◌, ◌⊎◌, refl, ◌∙◌, ap, Bool, true, false, not, ◌&&◌, Option, none, some, List, [], ◌∷◌, ◌++◌,
  map, keep, count, All, sorted, insort, String, str_eq, first_chars, concat, ok, arith, Bool-cases,
  Option-cases, inl, inr, if◌then◌else◌,
}
use poly_cortex.Float.{Float, ◌≺◌, nought}
use poly_cortex.Reporting.Tax.{
  TaxRow, Method, fifo, lifo, Lot, Line, Lots, sold, method_of, iter_closed_trades, set_lots,
  pop_lot, pop_right, lot_of, line_of, lines_from, generate_form_8949, no_lots,
}

-- The time is one of the year.
abbrev pub in_year : String → Option String → Bool
in_year year none = false
in_year year (some t) = str_eq (first_chars 4 t) year

module _ {F : Type 0} where
  -- The row is closed, at a time in the year.
  pub closed_in : String → TaxRow F → Bool
  closed_in year r = r.is_closed && in_year year r.closed_at

  closed_in-some :
      (year : String) (r : TaxRow F)
      → closed_in year r ≡ true
      → (t : String) × (r.closed_at ≡ some t)
  unfolding closed_in
  closed_in-some year r h = elim (Option-cases r.closed_at) [
    | inl e ↦ absurd (ground (arith, h, ap (in_year year) e))
    | inr found ↦ found
  ]

  count-insort :
      (before : TaxRow F → TaxRow F → Bool) (q : TaxRow F → Bool) (r : TaxRow F)
      (rs : List (TaxRow F))
      → count q (insort before r rs) ≡ count q (r ∷ rs)
  count-insort before q r [] = refl
  count-insort before q r (x ∷ rs) = ground (arith, count-insort before q r rs)

  count-sorted :
      (before : TaxRow F → TaxRow F → Bool) (q : TaxRow F → Bool) (rs : List (TaxRow F))
      → count q (sorted before rs) ≡ count q rs
  count-sorted before q [] = refl
  count-sorted before q (r ∷ rs) =
      omega (arith, count-insort before q r (sorted before rs), count-sorted before q rs)

  -- The filter of the query.
  abbrev queried : String → TaxRow F → Bool
  queried year r =
      r.is_closed && elim r.closed_at [ none ↦ false | some t ↦ str_eq (first_chars 4 t) year ]

  queried-closed_in : (year : String) (r : TaxRow F) → queried year r ≡ closed_in year r
  unfolding closed_in
  queried-closed_in year r = elim (Option-cases r.closed_at) [
    | inl e ↦ rw e refl
    | inr (t, e) ↦ rw e refl
  ]

  count-keep :
      (year : String) (q : TaxRow F → Bool) (rs : List (TaxRow F))
      → count q (keep (queried year) rs) ≡ count (λ r. closed_in year r && q r) rs
  count-keep year q [] = refl
  count-keep year q (r ∷ rs) = ground (arith, queried-closed_in year r, count-keep year q rs)

  iter_closed_trades-count :
      (year : String) (rows : List (TaxRow F)) (q : TaxRow F → Bool)
      → count q (iter_closed_trades year rows) ≡ count (λ r. closed_in year r && q r) rows
  unfolding iter_closed_trades
  iter_closed_trades-count year rows q =
      count-sorted _ q (keep (queried year) rows) ∙ count-keep year q rows

  All-count :
      (q : TaxRow F → Bool) (rs : List (TaxRow F))
      → count (λ r. not (q r)) rs ≡ 0
      → All (λ r. q r ≡ true) rs
  All-count q [] h = tt
  All-count q (r ∷ rs) h = (ground (arith, h), All-count q rs (ground (arith, h)))

  count-none : (q : TaxRow F → Bool) (rs : List (TaxRow F)) → count (λ r. q r && not (q r)) rs ≡ 0
  count-none q [] = refl
  count-none q (r ∷ rs) = ground (arith, count-none q rs)

  iter_closed_trades-closed_in :
      (year : String) (rows : List (TaxRow F))
      → All (λ r. closed_in year r ≡ true) (iter_closed_trades year rows)
  iter_closed_trades-closed_in year rows =
      All-count (closed_in year) (iter_closed_trades year rows) (
        iter_closed_trades-count year rows (λ r. not (closed_in year r))
        ∙ count-none (closed_in year) rows)

module _ {F : Type 0} ⦃f : Float F⦄ where
  pop_lot-one : (method : Method) (l : Lot F) → pop_lot method ([] ++ (l ∷ [])) ≡ some (l, [])
  unfolding pop_lot pop_right
  pop_lot-one fifo l = refl
  pop_lot-one lifo l = refl

  set_lots-empty :
      (m d m' d' : String) (lots : Lots F) → lots m' d' ≡ [] → set_lots m d [] lots m' d' ≡ []
  unfolding set_lots
  set_lots-empty m d m' d' lots h = ground (arith, h)

  -- A row with the lot that it brings itself.
  abbrev pub own_line : TaxRow F → Line F
  own_line r = line_of r (lot_of r)

  lines_from-own :
      (method : Method) (rows : List (TaxRow F)) (lots : Lots F)
      → ((m d : String) → lots m d ≡ [])
      → lines_from method rows lots ≡ map own_line rows
  unfolding lines_from
  lines_from-own method [] lots h = refl
  lines_from-own method (r ∷ rows) lots h =
      rw (lines_from, h r.market_id r.direction, pop_lot-one method (lot_of r))
        (ap (λ ls. own_line r ∷ ls)
          (lines_from-own method rows (set_lots r.market_id r.direction [] lots)
            (λ m d. set_lots-empty r.market_id r.direction m d lots (h m d))))

  -- What a round trip brings: its size at the ratio of the prices where the entry price is above zero, and else
  -- its size and its profit.
  abbrev pub IsProceeds : TaxRow F → F → Type 0
  IsProceeds r p =
      ((nought ≺ r.entry_price) × (p ≡ f.mul r.size_usdc (f.quot r.exit_price r.entry_price)))
      ⊎ ((f.lt nought r.entry_price ≡ false) × (p ≡ f.add r.size_usdc r.pnl))

  -- The line of a row: its own day of entry, size and proceeds.
  pub record IsLineOf (r : TaxRow F) (l : Line F) : Type 0 where
    pub closing : String
    pub closing_own : r.closed_at ≡ some closing
    pub described :
        l.description
        ≡ concat r.market_id
            (concat " " (concat r.direction (concat ": " (first_chars 60 r.question))))
    pub acquired : l.date_acquired ≡ first_chars 10 r.timestamp
    pub sold_on : l.date_sold ≡ first_chars 10 closing
    pub cost : l.cost_basis ≡ f.round r.size_usdc 4
    pub amount : F
    pub amount_own : IsProceeds r amount
    pub proceeds : l.proceeds ≡ f.round amount 4
    pub gain : l.gain_loss ≡ f.round (f.sub amount r.size_usdc) 4

  own_line-IsLineOf : (r : TaxRow F) (t : String) → r.closed_at ≡ some t → IsLineOf r (own_line r)
  unfolding line_of
  own_line-IsLineOf r t h = record {
    closing = t;
    closing_own = h;
    described = refl;
    acquired = refl;
    sold_on = ap (λ c. first_chars 10 (sold c)) h;
    cost = refl;
    amount =
        if f.lt nought r.entry_price
        then f.mul r.size_usdc (f.quot r.exit_price r.entry_price)
        else f.add r.size_usdc r.pnl;
    amount_own = elim (Bool-cases (f.lt nought r.entry_price)) [
      | inl e ↦ rw e (inl (refl, refl))
      | inr e ↦ rw e (inr (refl, refl))
    ];
    proceeds = refl;
    gain = refl;
  }

  -- Row by row.
  abbrev pub Lines : List (TaxRow F) → List (Line F) → Type 0
  Lines [] [] = Unit
  Lines (r ∷ rs) (l ∷ ls) = IsLineOf r l × Lines rs ls
  Lines _ _ = ⊥

  Lines-own :
      (year : String) (rs : List (TaxRow F))
      → All (λ r. closed_in year r ≡ true) rs
      → Lines rs (map own_line rs)
  Lines-own year [] h = tt
  Lines-own year (r ∷ rs) h =
      let (t, at) = closed_in-some year r h.0 in (own_line-IsLineOf r t at, Lines-own year rs h.1)

  -- With either method, the form has one line for every row that was closed in the year, as often as it is in
  -- the table, and for no other: with its market, direction and the first 60 characters of its question, the
  -- first ten characters of its times of entry and of closing, its own size as the cost, what it brought itself,
  -- and the gain that is left, amounts rounded to four decimals. The lots of other rows are never used.
  pub generate_form_8949-own :
      (lower : String → String) (year text : String) (method : Method) (rows : List (TaxRow F))
      → method_of lower text ≡ some method
      → (rs : List (TaxRow F)) × (ls : List (Line F)) × (generate_form_8949 lower year text rows
          ≡ ok ls)
        × Lines rs ls
        × ((q : TaxRow F → Bool) → count q rs ≡ count (λ r. closed_in year r && q r) rows)
  unfolding generate_form_8949
  generate_form_8949-own lower year text method rows h =
      let rs = iter_closed_trades year rows in
      (
        rs,
        map own_line rs,
        rw (generate_form_8949, h) (ap ok (lines_from-own method rs no_lots (λ m d. refl))),
        Lines-own year rs (iter_closed_trades-closed_in year rows),
        iter_closed_trades-count year rows,
      )
