-- ===== src/Execution/TrailingStop/Tests.antt =====
-- Runs of the trailing stop, and its theorems at concrete inputs, in thousandths.
use poly_cortex.Base.{◌≡◌, refl, true, List, [], ◌∷◌, upper_is}
use poly_cortex.Base.Int.{ℤ, pos, ◌-ℤ◌}
use poly_cortex.Float.{◌≼◌}
use poly_cortex.Float.Milli.{milli, milli-IsOrdered}
use poly_cortex.Execution.TrailingStop.{
  TrailingStop, is_sell, is_percent, calculate_stop_sell, init, raise_stop, update_sell,
  update_price, feed,
}
use poly_cortex.Execution.TrailingStop.Follow.{feed-sell}

abbrev long : TrailingStop ℤ
long = init "ts-1" "0xabc" "Sell" (pos 600) (pos 50) "amount"

abbrev short : TrailingStop ℤ
short = init "ts-2" "0xabc" "BUY" (pos 600) (pos 50) "amount"

-- The prices of the file's own example.
abbrev prices : List ℤ
prices = pos 650 ∷ pos 700 ∷ pos 630 ∷ []

abbrev after : TrailingStop ℤ
after = feed prices long

stops_out : (after.triggered ≡ true) × (after.stop_price ≡ pos 650)
unfolding feed update_price update_sell raise_stop init is_sell is_percent calculate_stop_sell
    upper_is ◌-ℤ◌
stops_out = (refl, refl)

feed-sell_example : long.stop_price ≼ (feed prices long).stop_price
unfolding init is_sell upper_is
feed-sell_example = feed-sell milli-IsOrdered prices long refl
