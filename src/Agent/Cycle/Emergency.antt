-- ===== src/Agent/Cycle/Emergency.antt =====
-- The emergency of the drawdown in main.py, with the executor after it.
use poly_cortex.Base.{ℕ, ◌≡◌, refl, ◌∙◌, ap, true, false, none, some, List, any, String}
use poly_cortex.Float.{Float, IsOrdered, IsMonotone}
use poly_cortex.Risk.KillSwitch.{
  FileReply, worked, SwitchCall, activate, is_active, switch_run, lifts,
}
use poly_cortex.Risk.Drawdown.{update, should_close_all}
use poly_cortex.Risk.Drawdown.Multiplier.{get_multiplier-should_close_all}
use poly_cortex.Execution.Executor.Cancel.{cancel_all_open_orders}
use poly_cortex.Execution.Executor.Place.{World, PlaceRequest, place_order}
use poly_cortex.Execution.Executor.Halted.{place_order-halted}
use poly_cortex.Agent.Payload.{Opportunity, Texts}
use poly_cortex.Agent.Cycle.{Agent, CycleWorld, halted, trade, close_all}

module _ {F : Type 0} ⦃f : Float F⦄ where
  -- The agent after the emergency.
  abbrev stopped : CycleWorld F → Agent F → Agent F
  stopped w a = record a {
    drawdown = update a.bankroll a.drawdown;
    executor = (cancel_all_open_orders w.cancels a.executor).0;
    kill_file = activate w.timestamp "Emergency drawdown threshold breached" worked a.kill_file;
  }

  trade-stopped :
      (laws : IsOrdered F) (mono : IsMonotone F) (uuid : ℕ → String) (texts : Texts F)
      (w : CycleWorld F) (opportunities : List (Opportunity F)) (a : Agent F)
      → should_close_all a.bankroll (update a.bankroll a.drawdown) ≡ some true
      → w.kill_reply ≡ worked
      → trade uuid texts w opportunities a ≡ (stopped w a, halted)
  unfolding trade close_all
  trade-stopped laws mono uuid texts w opportunities a h k =
      let m =
        get_multiplier-should_close_all laws mono a.bankroll (update a.bankroll a.drawdown) h in
      rw (trade, m, h, close_all, k) refl

  -- Where the drawdown has reached the emergency's threshold and the kill switch's file can be written, a
  -- cycle trades nothing and leaves the table of trades as it is, its open positions with it. From then on,
  -- until a call removes the file, a call of `place_order` of the executor, where it reads that file, returns no
  -- order and keeps the executor's state. The executor's `close_position`, which does not read it, is not covered.
  pub trade-halts :
      (laws : IsOrdered F) (mono : IsMonotone F) (uuid : ℕ → String) (texts : Texts F)
      (w : CycleWorld F) (opportunities : List (Opportunity F)) (a : Agent F)
      (calls : List SwitchCall) (strip : String → String) (reply : FileReply) (later : World F)
      (r : PlaceRequest F)
      → should_close_all a.bankroll (update a.bankroll a.drawdown) ≡ some true
      → w.kill_reply ≡ worked
      → any lifts calls ≡ false
      → later.kill
        ≡ is_active strip reply (switch_run calls (trade uuid texts w opportunities a).0.kill_file)
      → let (after, outcome) = trade uuid texts w opportunities a in
        (outcome ≡ halted)
        × (after.database ≡ a.database)
        × (place_order uuid later r after.executor ≡ (after.executor, none))
  trade-halts laws mono uuid texts w opportunities a calls strip reply later r h k lifted reading =
      let stops = trade-stopped laws mono uuid texts w opportunities a h k in
      (
        ap (λ x. x.1) stops,
        ap (λ x. x.0.database) stops,
        place_order-halted uuid strip w.timestamp "Emergency drawdown threshold breached" calls
            a.kill_file reply later r (trade uuid texts w opportunities a).0.executor lifted
            (reading ∙ ap (λ x. is_active strip reply (switch_run calls x.0.kill_file)) stops),
      )
