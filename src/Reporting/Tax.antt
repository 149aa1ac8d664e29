-- ===== src/Reporting/Tax.antt =====
-- src/polymarket_agent/reporting/tax.py. The table is the list of its rows, and a report is the list of
-- its lines; writing the file is left out. `lower` is `str.lower`, and a missing number is 0.0 already.
pub mod Lots
mod Tests
use poly_cortex.Base.{
  ℕ, ◌≡◌, Bool, true, false, not, ◌&&◌, Option, none, some, List, [], ◌∷◌, ◌++◌, map, keep, take,
  sorted, String, str_eq, str_lt, concat, first_chars, Result, ok, err, if◌then◌else◌,
}
use poly_cortex.Float.{Float, nought}

-- A row of the query.
pub record TaxRow (F : Type 0) : Type 0 where
  pub market_id : String
  pub direction : String
  pub question : String
  pub entry_price : F
  pub exit_price : F
  pub size_usdc : F
  pub pnl : F
  pub timestamp : String
  pub is_closed : Bool
  pub closed_at : Option String

pub data Method : Type 0 where
  fifo lifo : Method

pub record Lot (F : Type 0) : Type 0 where
  pub date_acquired : String
  pub cost_basis : F
  pub entry_price : F

pub record Line (F : Type 0) : Type 0 where
  pub description : String
  pub date_acquired : String
  pub date_sold : String
  pub proceeds : F
  pub cost_basis : F
  pub gain_loss : F

-- "fifo" and "lifo"; another method is a ValueError.
unfoldable pub method_of : (String → String) → String → Option Method
method_of lower text =
    if str_eq (lower text) "fifo"
    then some fifo
    else if str_eq (lower text) "lifo"
    then some lifo
    else none

abbrev pub sold : Option String → String
sold none = ""
sold (some t) = t

-- `lots`, by the market and the direction.
abbrev pub Lots : Type 0 → Type 0
Lots F = String → String → List (Lot F)

module _ {F : Type 0} where
  -- The query: the closed rows of a year, by the time of closing.
  unfoldable pub iter_closed_trades : String → List (TaxRow F) → List (TaxRow F)
  iter_closed_trades year rows =
      sorted (λ r t. str_lt (sold r.closed_at) (sold t.closed_at))
        (keep
          (λ r.
            r.is_closed
            && elim r.closed_at [ none ↦ false | some t ↦ str_eq (first_chars 4 t) year ])
          rows)

  abbrev pub no_lots : Lots F
  no_lots market_id direction = []

  unfoldable pub set_lots : String → String → List (Lot F) → Lots F → Lots F
  set_lots market_id direction ls lots m d =
      if str_eq m market_id && str_eq d direction then ls else lots m d

  -- `popleft` and what is left.
  abbrev pub pop_left : List (Lot F) → Option (Lot F × List (Lot F))
  pop_left [] = none
  pop_left (l ∷ ls) = some (l, ls)

  -- `pop` and what is left.
  unfoldable pub pop_right : List (Lot F) → Option (Lot F × List (Lot F))
  pop_right [] = none
  pop_right (l ∷ ls) = elim (pop_right ls) [ none ↦ some (l, []) | some p ↦ some (p.0, l ∷ p.1) ]

  unfoldable pub pop_lot : Method → List (Lot F) → Option (Lot F × List (Lot F))
  unfolding pop_right
  pop_lot fifo ls = pop_left ls
  pop_lot lifo ls = pop_right ls

module _ {F : Type 0} ⦃f : Float F⦄ where
  abbrev pub lot_of : TaxRow F → Lot F
  lot_of r = record {
    date_acquired = first_chars 10 r.timestamp;
    cost_basis = r.size_usdc;
    entry_price = r.entry_price;
  }

  unfoldable pub line_of : TaxRow F → Lot F → Line F
  line_of r lot =
      let proceeds =
        if f.lt nought r.entry_price
        then f.mul r.size_usdc (f.quot r.exit_price r.entry_price)
        else f.add r.size_usdc r.pnl in
      record {
        description =
            concat r.market_id
              (concat " " (concat r.direction (concat ": " (first_chars 60 r.question))));
        date_acquired = lot.date_acquired;
        date_sold = first_chars 10 (sold r.closed_at);
        proceeds = f.round proceeds 4;
        cost_basis = f.round lot.cost_basis 4;
        gain_loss = f.round (f.sub proceeds lot.cost_basis) 4;
      }

  -- The loop over the rows.
  unfoldable pub lines_from : Method → List (TaxRow F) → Lots F → List (Line F)
  unfolding pop_lot set_lots line_of
  lines_from method [] lots = []
  lines_from method (r ∷ rows) lots =
      elim (pop_lot method (lots r.market_id r.direction ++ (lot_of r ∷ []))) [
        | none ↦ line_of r (lot_of r) ∷ lines_from method rows lots
        | some p ↦
            line_of r p.0 ∷ lines_from method rows (set_lots r.market_id r.direction p.1 lots)
      ]

  unfoldable pub generate_form_8949 :
      (String → String) → String → String → List (TaxRow F) → Result String (List (Line F))
  unfolding method_of iter_closed_trades lines_from
  generate_form_8949 lower year text rows = elim (method_of lower text) [
    | none ↦ err (concat "Unsupported method: " (lower text))
    | some method ↦ ok (lines_from method (iter_closed_trades year rows) no_lots)
  ]
