-- ===== src/Risk/KillSwitch.antt =====
-- src/polymarket_agent/risk/kill_switch.py. The file is its text, where it exists; whether the file
-- system reads, writes or removes it is a reply.
use poly_cortex.Base.{Bool, true, false, Option, none, some, List, [], ◌∷◌, String, concat}

pub data FileReply : Type 0 where
  worked : FileReply
  failed : String → FileReply

-- `is_active`: `strip` is `str.strip`.
unfoldable pub is_active : (String → String) → FileReply → Option String → Bool × String
is_active strip reply none = (false, "")
is_active strip worked (some text) = (true, strip text)
is_active strip (failed error) (some text) =
    (true, concat "unreadable kill switch file (" (concat error ")"))

-- `activate` with a reason; a write that fails raises and leaves the file.
unfoldable pub activate : String → String → FileReply → Option String → Option String
activate timestamp reason worked file = some (concat timestamp (concat " | " (concat reason "\n")))
activate timestamp reason (failed error) file = file

unfoldable pub deactivate : FileReply → Option String → Option String
deactivate worked file = none
deactivate (failed error) file = file

-- The calls, with what the clock and the file system reply.
pub data SwitchCall : Type 0 where
  activated : String → String → FileReply → SwitchCall
  deactivated : FileReply → SwitchCall

unfoldable pub switch_step : SwitchCall → Option String → Option String
unfolding activate deactivate
switch_step (activated timestamp reason reply) file = activate timestamp reason reply file
switch_step (deactivated reply) file = deactivate reply file

unfoldable pub switch_run : List SwitchCall → Option String → Option String
unfolding switch_step
switch_run [] file = file
switch_run (c ∷ cs) file = switch_run cs (switch_step c file)

-- A call that lifts the halt.
abbrev pub lifts : SwitchCall → Bool
lifts (deactivated worked) = true
lifts _ = false
