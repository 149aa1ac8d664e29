-- ===== src/Execution/Twap/Tests.antt =====
-- Runs of TWAP orders, and the theorems at concrete inputs, in thousandths.
use poly_cortex.Base.{
  ℕ, ◌≡◌, refl, false, none, some, [], ◌∷◌, map, length, All, map_option, decimal,
}
use poly_cortex.Base.Int.{ℤ, pos, ◌+ℤ◌, ◌-ℤ◌}
use poly_cortex.Float.Milli.{milli, milli-IsOrdered}
use poly_cortex.Execution.Twap.{pending, TwapSlice, TwapOrder, build_slices, asks, fails, run}
use poly_cortex.Execution.Twap.Slices.{build_slices-total}

abbrev blank : TwapOrder ℤ
blank = record {
  order_id = "twap-1";
  token_id = "0xabc";
  side = "BUY";
  total_size = pos 100_000;
  price_limit = pos 550;
  num_slices = 3;
  interval_seconds = pos 30_000;
  randomize_size = false;
  slices = [];
  next_slice_idx = 0;
  last_slice_time = pos 0;
  was_cancelled = false;
}

abbrev no_draw : ℕ → ℤ
no_draw i = pos 0

build_slices-total_example :
    (o' : TwapOrder ℤ) × (build_slices no_draw blank ≡ some o')
    × (length o'.slices ≡ 3)
    × All (λ s. s.slice_status ≡ pending) o'.slices
build_slices-total_example = build_slices-total milli-IsOrdered no_draw blank refl refl

-- 100 in three slices: 33.33, 33.33 and 33.34.
last_takes_the_rest :
    map_option (λ o. map (λ s. s.size) o.slices) (build_slices no_draw blank)
    ≡ some (pos 33_330 ∷ pos 33_330 ∷ pos 33_340 ∷ [])
unfolding build_slices ◌-ℤ◌ ◌+ℤ◌
last_takes_the_rest = refl

abbrev slice : ℕ → TwapSlice ℤ
slice i = record {
  slice_id = decimal i;
  slice_number = i;
  token_id = "0xabc";
  side = "BUY";
  size = pos 50_000;
  price_limit = pos 550;
  slice_status = pending;
  fill_price = none;
  fill_size = pos 0;
}

abbrev two : TwapOrder ℤ
two = record blank { slices = slice 0 ∷ slice 1 ∷ []; num_slices = 2 }

-- Both slices are given out, and the second one fails.
abbrev stuck : TwapOrder ℤ
stuck = run (asks (pos 1000) ∷ asks (pos 40_000) ∷ fails "1" ∷ []) two
