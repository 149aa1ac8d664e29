-- ===== src/Execution/Executor/Tests.antt =====
-- Runs of the executor in thousandths, and the theorems at concrete inputs.
use poly_cortex.Base.{
  ℕ, zero, suc, ◌≡◌, refl, sym, ◌∙◌, ap, true, false, none, some, List, [], ◌∷◌, length, codes,
  String, arith,
}
use poly_cortex.Base.Int.{ℤ, pos, ◌-ℤ◌, ◌+ℤ◌}
use poly_cortex.Float.Milli.{milli}
use poly_cortex.Risk.KillSwitch.{
  SwitchCall, deactivated, failed, worked, is_active, switch_run, activate,
}
use poly_cortex.Execution.Executor.Orders.{
  Order, BracketSpec, entry, filled, find, is_final, post_init,
}
use poly_cortex.Execution.Executor.Guard.{Config, OrderExecutor, init, stored, unreachable}
use poly_cortex.Execution.Executor.Brackets.{fresh}
use poly_cortex.Execution.Executor.Place.{
  PostReply, with_id, without_id, raised, World, PlaceRequest, build_entry_order, n_chunks,
  entry_order, place_entry, place_order,
}
use poly_cortex.Execution.Executor.Cancel.{cancel_all_open_orders}
use poly_cortex.Execution.Executor.Children.{Surroundings}
use poly_cortex.Execution.Executor.Reconcile.{reconcile_orders}
use poly_cortex.Execution.Executor.Moves.{IsInjective, is_gone, Moves}
use poly_cortex.Execution.Executor.Runs.{
  Operation, places, reconciles, cancels_all, perform, run, perform-moves, run-exclusive, run-kept,
}
use poly_cortex.Execution.Executor.Halted.{place_order-halted}
use poly_cortex.Execution.Executor.Dedup.{place_all, place_order-deduplicated}
use poly_cortex.Execution.Executor.Lost.{IsLost, place_entry-IsLost}
use poly_cortex.Execution.Executor.Closing.{accepts, run-cancel_all}

-- Identifiers that differ in their length.
abbrev ticks : ℕ → String
ticks zero = String.[]
ticks (suc n) = String.◌∷◌ "a" (ticks n)

length-ticks : (n : ℕ) → length (codes (ticks n)) ≡ n
length-ticks zero = refl
length-ticks (suc n) = ap suc (length-ticks n)

ticks-IsInjective : IsInjective ticks
ticks-IsInjective j k h = sym (length-ticks j) ∙ ap (λ s. length (codes s)) h ∙ length-ticks k

abbrev config : Config ℤ
config = record {
  dry_run = true;
  split_orders_above = pos 50_000;
  order_expiry_minutes = 60;
  enable_bracket_orders = true;
  bracket_take_profit_pct = pos 60;
  bracket_stop_loss_pct = pos 35;
  gtt_ttl_minutes = 1440;
  paper_fill_on_place = true;
  paper_allow_partial_fills = true;
  paper_partial_fill_ratio = pos 500;
  paper_fill_tolerance = pos 2;
  live_reconcile_enabled = true;
  max_single_order_usdc = pos 500_000;
  dedup_window_seconds = 300;
  max_slippage_bps = pos 50_000;
}

abbrev world : World ℤ
world = record {
  now = 1000;
  kill = (false, "");
  intent = stored;
  balance = unreachable;
  max_gas_gwei = pos 200_000;
  gas = unreachable;
  posts = λ i. without_id;
}

abbrev request : PlaceRequest ℤ
request = record {
  market_id = "m";
  direction = "YES";
  size_usdc = pos 100_000;
  price = pos 500;
  token_id = "t";
  bracket_spec = none;
  market_book = none;
}

-- The market has risen above the take-profit price.
abbrev risen : Surroundings ℤ
risen = record {
  now = 2000;
  market_books = λ m.
      some (record {
        midpoint = some (pos 600);
        best_bid = some (pos 590);
        best_ask = some (pos 610);
      });
  fetched = λ id. none;
}

abbrev started : OrderExecutor ℤ
started = init config false

abbrev operations : List (Operation ℤ)
operations = places world request ∷ reconciles risen ∷ []

-- The order at an identifier after the operations.
abbrev order_at : String → Order ℤ
order_at id = elim (find id (run ticks operations started).orders) [
  | none ↦ fresh "" "" "" "" "" (pos 0) (pos 0) 0 0 true entry
  | some o ↦ o
]

triggered_status : (order_at "aa").status ≡ filled
unfolding run perform init place_order reconcile_orders find ◌-ℤ◌ ◌+ℤ◌
triggered_status = refl

perform-moves_example : Moves ticks started (perform ticks (places world request) started)
perform-moves_example = perform-moves ticks (places world request) started

run-exclusive_example : is_gone (order_at "aaa").status ≡ true
unfolding run perform init place_order reconcile_orders find ◌-ℤ◌ ◌+ℤ◌
run-exclusive_example =
    run-exclusive ticks ticks-IsInjective config false operations "aa" "aaa" "a" (order_at "aa")
      (order_at "aaa") refl refl refl refl refl refl

-- The exchange is not asked.
abbrev cancelling : List (Operation ℤ)
cancelling = cancels_all (λ id. false) ∷ []

run-kept_example :
    (b : Order ℤ) × (find "aa" (run ticks cancelling (run ticks operations started)).orders
      ≡ some b)
    × (b.status ≡ (order_at "aa").status)
unfolding run perform init place_order reconcile_orders find ◌-ℤ◌ ◌+ℤ◌
run-kept_example =
    run-kept ticks ticks-IsInjective config false operations cancelling "aa" (order_at "aa") refl
      refl

run-cancel_all_example :
    (a : Order ℤ) × (find ""
        (cancel_all_open_orders accepts (run ticks operations started)).0.orders
      ≡ some a)
    × (is_final a.status ≡ true)
unfolding run perform init place_order reconcile_orders find ◌-ℤ◌ ◌+ℤ◌
run-cancel_all_example =
    run-cancel_all ticks ticks-IsInjective config false operations "" (order_at "") refl

-- The switch is written and a removal fails.
abbrev calls : List SwitchCall
calls = deactivated (failed "busy") ∷ []

abbrev halted : World ℤ
halted = record world { kill = (true, "09:00 | manual\n") }

place_order-halted_example : place_order ticks halted request started ≡ (started, none)
unfolding is_active switch_run activate
place_order-halted_example =
    place_order-halted ticks (λ s. s) "09:00" "manual" calls none worked halted request started refl
      refl

abbrev later : World ℤ
later = record world { now = 300_000_000 }

-- Another market in the meantime.
abbrev other_calls : List (World ℤ × PlaceRequest ℤ)
other_calls = (record world { now = 2_000_000 }, record request { market_id = "n" }) ∷ []

place_order-deduplicated_example :
    (place_order ticks later request
      (place_all ticks other_calls (place_order ticks world request started).0)).1
    ≡ none
unfolding place_order init find ◌-ℤ◌ ◌+ℤ◌
place_order-deduplicated_example =
    place_order-deduplicated ticks world later request request other_calls started (omega arith)
      refl refl refl (omega arith) ((omega arith, omega arith), tt)

abbrev spec : BracketSpec ℤ
spec = record { take_profit_pct = pos 60; stop_loss_pct = pos 35; ttl_minutes = 60 }

-- A live executor whose second chunk times out.
abbrev live : OrderExecutor ℤ
live = init (record config { dry_run = false }) true

abbrev second_raises : ℕ → PostReply
second_raises zero = with_id "0xabc"
second_raises (suc i) = raised

abbrev failing : World ℤ
failing = record world { posts = second_raises }

place_entry-IsLost_example : IsLost "" (place_entry ticks failing request live)
unfolding init entry_order build_entry_order post_init n_chunks ◌-ℤ◌ ◌+ℤ◌
place_entry-IsLost_example =
    place_entry-IsLost ticks failing request live 1 refl refl (omega arith) refl
