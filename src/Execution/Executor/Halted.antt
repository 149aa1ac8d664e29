-- ===== src/Execution/Executor/Halted.antt =====
-- The kill switch of risk/kill_switch.py before the executor of execution/executor.py.
use poly_cortex.Base.{
  ℕ, ◌≡◌, refl, ◌∙◌, ap, true, false, Option, none, some, List, [], ◌∷◌, any, String, arith,
  is_some,
}
use poly_cortex.Float.{Float}
use poly_cortex.Risk.KillSwitch.{
  FileReply, worked, SwitchCall, activated, deactivated, failed, is_active, activate, switch_step,
  switch_run, lifts,
}
use poly_cortex.Execution.Executor.Guard.{OrderExecutor, validate_order}
use poly_cortex.Execution.Executor.Place.{World, PlaceRequest, place_order}

module _ (strip : String → String) where
  is_active-some :
      (reply : FileReply) (file : Option String)
      → is_some file ≡ true
      → (is_active strip reply file).0 ≡ true
  unfolding is_active
  is_active-some reply none h = absurd (ground arith)
  is_active-some worked (some text) h = refl
  is_active-some (failed error) (some text) h = refl

switch_step-some :
    (c : SwitchCall) (file : Option String)
    → lifts c ≡ false
    → is_some file ≡ true
    → is_some (switch_step c file) ≡ true
unfolding switch_step activate
switch_step-some (activated timestamp reason worked) file h k = refl
switch_step-some (activated timestamp reason (failed error)) file h k = k
switch_step-some (deactivated worked) file h k = absurd (ground arith)
switch_step-some (deactivated (failed error)) file h k = k

switch_run-some :
    (cs : List SwitchCall) (file : Option String)
    → any lifts cs ≡ false
    → is_some file ≡ true
    → is_some (switch_run cs file) ≡ true
unfolding switch_run
switch_run-some [] file h k = k
switch_run-some (c ∷ cs) file h k =
    switch_run-some cs (switch_step c file) (ground arith)
      (switch_step-some c file (ground arith) k)

module _ {F : Type 0} ⦃f : Float F⦄ where
  place_order-rejected :
      (uuid : ℕ → String) (w : World F) (r : PlaceRequest F) (e : OrderExecutor F)
      → w.kill.0 ≡ true
      → place_order uuid w r e ≡ (e, none)
  unfolding place_order validate_order
  place_order-rejected uuid w r e h = rw h refl

  -- Once the kill switch's file is written, and until a call removes it, a call of `place_order` of an executor
  -- that reads the file, whether it can be read or not, returns no order and keeps the executor's state. Its
  -- `close_position`, which does not read the file, is not covered.
  pub place_order-halted :
      (uuid : ℕ → String) (strip : String → String) (timestamp reason : String)
      (calls : List SwitchCall) (file : Option String) (reply : FileReply) (w : World F)
      (r : PlaceRequest F) (e : OrderExecutor F)
      → any lifts calls ≡ false
      → w.kill ≡ is_active strip reply (switch_run calls (activate timestamp reason worked file))
      → place_order uuid w r e ≡ (e, none)
  unfolding activate
  place_order-halted uuid strip timestamp reason calls file reply w r e h k =
      place_order-rejected uuid w r e (
        ap (λ p. p.0) k
        ∙ is_active-some strip reply (switch_run calls (activate timestamp reason worked file))
            (switch_run-some calls (activate timestamp reason worked file) h refl))
