-- ===== src/Execution/Arbitrage/Tests.antt =====
-- Markets in thousandths, and the theorem at a concrete input.
use poly_cortex.Base.{List, [], ◌∷◌, some, none, All, length, count, ◌≡◌}
use poly_cortex.Base.Int.{ℤ, pos}
use poly_cortex.Float.Milli.{milli, milli-IsOrdered, milli-IsMonotone}
use poly_cortex.Execution.Arbitrage.{Market, scan}
use poly_cortex.Execution.Arbitrage.Found.{IsFound, is_gainful, AtMost, Descending, scan-IsGain}

abbrev market : Market ℤ
market = record {
  market_id = "m";
  question = "q";
  yes_ask = some (pos 400);
  no_ask = some (pos 500);
  spread = some (pos 10);
}

abbrev markets : List (Market ℤ)
markets = market ∷ record market { no_ask = some (pos 300) } ∷ record market { no_ask = none } ∷ []

scan-IsGain_example :
    All (IsFound milli-IsOrdered milli-IsMonotone (pos 20) markets) (scan (pos 20) markets)
    × Descending AtMost (scan (pos 20) markets)
    × (length (scan (pos 20) markets) ≡ count (is_gainful (pos 20)) markets)
scan-IsGain_example = scan-IsGain milli-IsOrdered milli-IsMonotone (pos 20) markets
