-- ===== src/Execution/Paper/Tests.antt =====
-- Runs of the paper engine in thousandths, and the theorems at concrete inputs.
use poly_cortex.Base.{upper_is, ◌≡◌, refl, false, some, List, [], ◌∷◌, String, map_option}
use poly_cortex.Base.Int.{ℤ, pos, ◌-ℤ◌, ◌+ℤ◌}
use poly_cortex.Float.Milli.{milli}
use poly_cortex.Execution.Paper.{
  SimulatedFill, PaperOrder, PaperTradingEngine, Draws, Level, opened, cancelled, partial,
  get_order, cancel_order, try_fill, levels_for, sort_by, insert_by, against, walk, thin, fill_at,
}
use poly_cortex.Execution.Paper.Closed.{Event, simulates, run, cancel_order-run}

abbrev level : ℤ → ℤ → Level ℤ
level p s = record { price = p; size = s }

abbrev asks : List (Level ℤ)
asks = level (pos 560) (pos 300_000) ∷ level (pos 500) (pos 60_000) ∷ []

abbrev buy : PaperOrder ℤ
buy = record {
  order_id = "buy1";
  token_id = "0xabc";
  side = "BUY";
  price = pos 550;
  size = pos 100_000;
  filled_size = pos 0;
  status = opened;
  created_at = pos 0;
  fills = [];
}

abbrev gone : PaperOrder ℤ
gone = record buy { order_id = "buy2"; status = cancelled }

abbrev engine : PaperTradingEngine ℤ
engine = record {
  taker_fee_rate = pos 20;
  maker_fee_rate = pos 0;
  partial_fill_prob = pos 150;
  miss_prob = pos 50;
  orders = buy ∷ gone ∷ [];
  fill_count = 0;
  total_volume = pos 0;
  total_fees = pos 0;
}

-- The whole of what the book has is taken.
abbrev plain : Draws ℤ
plain = record { latency = pos 100_000; miss = pos 500; chance = pos 500; factor = pos 500 }

-- Only half of it is.
abbrev halved : Draws ℤ
halved = record plain { chance = pos 100 }

abbrev bought : SimulatedFill ℤ
bought = record {
  order_id = "buy1";
  fill_type = partial;
  fill_price = pos 500;
  fill_size = pos 60_000;
  remaining_size = pos 40_000;
  fee_usdc = pos 1200;
  is_maker = false;
  latency_ms = pos 100_000;
  timestamp = pos 7;
}

takes_the_best : try_fill engine plain (pos 7) buy (pos 100_000) [] asks ≡ some bought
unfolding try_fill levels_for sort_by insert_by against walk thin fill_at upper_is ◌-ℤ◌ ◌+ℤ◌
takes_the_best = refl

-- Half of a fill at 0.50 is booked at 1.00, beyond the order's price of 0.55: the cost is divided by
-- the size after the reduction.
price_after_reduction :
    map_option {B = ℤ × ℤ}
      (λ x. (x.fill_size, x.fill_price))
      (try_fill engine halved (pos 7) buy (pos 100_000) [] asks)
    ≡ some (pos 30_000, pos 1000)
unfolding try_fill levels_for sort_by insert_by against walk thin fill_at upper_is ◌-ℤ◌ ◌+ℤ◌
price_after_reduction = refl

abbrev always : String → Draws ℤ
always id = plain

abbrev two_rounds : List (Event ℤ)
two_rounds = simulates always (pos 7) [] asks ∷ simulates always (pos 8) [] asks ∷ []

cancel_order-run_example :
    get_order "buy1" (run two_rounds (cancel_order "buy1" engine).1)
    ≡ some (record buy { status = cancelled })
unfolding get_order cancel_order
cancel_order-run_example = cancel_order-run two_rounds "buy1" buy engine refl refl
