-- ===== src/Reporting/Tax/Tests.antt =====
-- A tax report in thousandths, and the theorem at a concrete input.
use poly_cortex.Base.{◌≡◌, refl, true, some, List, [], ◌∷◌, ok, Bool, count, ◌&&◌}
use poly_cortex.Base.Int.{ℤ, pos}
use poly_cortex.Float.Milli.{milli}
use poly_cortex.Reporting.Tax.{TaxRow, Line, lifo, method_of, generate_form_8949}
use poly_cortex.Reporting.Tax.Lots.{Lines, closed_in, generate_form_8949-own}

abbrev row : TaxRow ℤ
row = record {
  market_id = "m";
  direction = "YES";
  question = "q";
  entry_price = pos 500;
  exit_price = pos 600;
  size_usdc = pos 10_000;
  pnl = pos 2_000;
  timestamp = "2025-12-31T10:00:00";
  is_closed = true;
  closed_at = some "2026-01-02T10:00:00";
}

abbrev rows : List (TaxRow ℤ)
rows = record row { closed_at = some "2026-03-01T10:00:00" } ∷ row ∷ []

generate_form_8949-own_example :
    (rs : List (TaxRow ℤ)) × (ls : List (Line ℤ)) × (generate_form_8949 (λ s. s) "2026" "lifo" rows
      ≡ ok ls)
    × Lines rs ls
    × ((q : TaxRow ℤ → Bool) → count q rs ≡ count (λ r. closed_in "2026" r && q r) rows)
unfolding method_of
generate_form_8949-own_example = generate_form_8949-own (λ s. s) "2026" "lifo" lifo rows refl
