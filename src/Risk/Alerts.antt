-- ===== src/Risk/Alerts.antt =====
-- src/polymarket_agent/risk/alerts.py. The alerts are those of the dictionary, in its order; the messages, the
-- times of creation and the counts by status, which only read, are left out. An alert that is returned is as it
-- was when it was triggered.
pub mod Once
mod Tests
use poly_cortex.Base.{
  ℕ, ◌+◌, Bool, true, false, not, ◌&&◌, ◌||◌, Option, none, some, List, [], ◌∷◌, ◌++◌, keep, length,
  any, String, str_eq, if◌then◌else◌,
}
use poly_cortex.Float.{Float, nought, truthy}

pub data AlertCondition : Type 0 where
  price_above price_below volume_above spread_above : AlertCondition

pub data AlertStatus : Type 0 where
  active triggered expired cancelled : AlertStatus

pub record Alert (F : Type 0) : Type 0 where
  pub alert_id : String
  pub market_id : String
  pub condition : AlertCondition
  pub threshold : F
  pub status : AlertStatus
  pub repeating : Bool
  pub cooldown_seconds : F
  pub last_triggered_at : Option F
  pub trigger_count : ℕ

pub record AlertManager (F : Type 0) : Type 0 where
  pub alerts : List (Alert F)
  pub total_triggered : ℕ

-- The arguments of `check`, and the clock.
pub record MarketCheck (F : Type 0) : Type 0 where
  pub market_id : String
  pub price : F
  pub volume : F
  pub spread : F
  pub now : F

abbrev pub is_active : AlertStatus → Bool
is_active active = true
is_active _ = false

module _ {F : Type 0} where
  abbrev pub init : AlertManager F
  init = record { alerts = []; total_triggered = 0 }

  -- The alert of an id is replaced where it stands.
  put : Alert F → List (Alert F) → List (Alert F)
  put a [] = a ∷ []
  put a (b ∷ bs) = if str_eq b.alert_id a.alert_id then a ∷ bs else b ∷ put a bs

  pub add_alert : Alert F → AlertManager F → AlertManager F
  unfolding put
  add_alert a m = record m { alerts = put a m.alerts }

  abbrev has_id : String → Alert F → Bool
  has_id id a = str_eq a.alert_id id

  pub remove_alert : String → AlertManager F → AlertManager F × Bool
  remove_alert id m =
      if any (has_id id) m.alerts
      then (record m { alerts = keep (λ a. not (has_id id a)) m.alerts }, true)
      else (m, false)

  cancel_at : String → List (Alert F) → List (Alert F)
  cancel_at id [] = []
  cancel_at id (a ∷ as') =
      if has_id id a then record a { status = cancelled } ∷ as' else a ∷ cancel_at id as'

  pub cancel_alert : String → AlertManager F → AlertManager F × Bool
  unfolding cancel_at
  cancel_alert id m =
      if any (has_id id) m.alerts
      then (record m { alerts = cancel_at id m.alerts }, true)
      else (m, false)

  find : String → List (Alert F) → Option (Alert F)
  find id [] = none
  find id (a ∷ as') = if has_id id a then some a else find id as'

  pub get_alert : String → AlertManager F → Option (Alert F)
  unfolding find
  get_alert id m = find id m.alerts

  -- With the empty text as for none.
  pub get_active_alerts : Option String → AlertManager F → List (Alert F)
  get_active_alerts none m = keep (λ a. is_active a.status) m.alerts
  get_active_alerts (some market_id) m =
      let found = keep (λ a. is_active a.status) m.alerts in
      if str_eq market_id "" then found else keep (λ a. str_eq a.market_id market_id) found

module _ {F : Type 0} ⦃f : Float F⦄ where
  abbrev reached : F → Bool → Option F
  reached x test = if f.lt nought x && test then some x else none

  -- The value that fires an alert.
  unfoldable pub fires : Alert F → MarketCheck F → Option F
  fires a c = elim a.condition [
    | price_above ↦ reached c.price (f.le a.threshold c.price)
    | price_below ↦ reached c.price (f.le c.price a.threshold)
    | volume_above ↦ reached c.volume (f.le a.threshold c.volume)
    | spread_above ↦ reached c.spread (f.le a.threshold c.spread)
  ]

  -- A last time of 0.0 counts as none.
  abbrev pub cooling : F → Alert F → Bool
  cooling now a = elim a.last_triggered_at [
    | none ↦ false
    | some at ↦ truthy at && a.repeating && f.lt (f.sub now at) a.cooldown_seconds
  ]

  unfoldable pub fired : F → Alert F → Alert F
  fired now a = record a {
    trigger_count = a.trigger_count + 1;
    last_triggered_at = some now;
    status = if a.repeating then a.status else triggered;
  }

  -- The body of the loop of `check`: the alert, and the value where it was triggered.
  unfoldable pub check_alert : MarketCheck F → Alert F → Alert F × Option F
  unfolding fires fired
  check_alert c a =
      if is_active a.status && str_eq a.market_id c.market_id && not (cooling c.now a)
      then elim (fires a c) [ none ↦ (a, none) | some x ↦ (fired c.now a, some x) ]
      else (a, none)

  abbrev pub entry_of : Alert F × Option F → List (Alert F × F)
  entry_of (a, none) = []
  entry_of (a, some x) = (a, x) ∷ []

  unfoldable pub check_each : MarketCheck F → List (Alert F) → List (Alert F) × List (Alert F × F)
  unfolding check_alert
  check_each c [] = ([], [])
  check_each c (a ∷ as') =
      let (a', value) = check_alert c a in
      let (rest, later) = check_each c as' in (a' ∷ rest, entry_of (a', value) ++ later)

  unfoldable pub check : MarketCheck F → AlertManager F → AlertManager F × List (Alert F × F)
  unfolding check_each
  check c m =
      let (alerts, found) = check_each c m.alerts in
      (record { alerts = alerts; total_triggered = m.total_triggered + length found }, found)

  -- Checks one after another, with all that they triggered.
  unfoldable pub checks :
      List (MarketCheck F) → AlertManager F → AlertManager F × List (Alert F × F)
  unfolding check
  checks [] m = (m, [])
  checks (c ∷ cs) m =
      let (m', found) = check c m in let (m'', later) = checks cs m' in (m'', found ++ later)
