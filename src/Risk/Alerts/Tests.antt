-- ===== src/Risk/Alerts/Tests.antt =====
-- Alerts in thousandths, and the theorem at a concrete input.
use poly_cortex.Base.{◌≡◌, refl, true, false, none, List, [], ◌∷◌, map, keep, take, inl, inr}
use poly_cortex.Base.Int.{ℤ, pos}
use poly_cortex.Float.Milli.{milli}
use poly_cortex.Risk.Alerts.{Alert, active, price_below, AlertManager, MarketCheck, checks, fires}
use poly_cortex.Risk.Alerts.Once.{is_of, hits, hit, checks-once}

abbrev drop : Alert ℤ
drop = record {
  alert_id = "drop";
  market_id = "m";
  condition = price_below;
  threshold = pos 400;
  status = active;
  repeating = false;
  cooldown_seconds = pos 300_000;
  last_triggered_at = none;
  trigger_count = 0;
}

abbrev manager : AlertManager ℤ
manager = record {
  alerts = record drop { alert_id = "other"; repeating = true } ∷ drop ∷ [];
  total_triggered = 0;
}

abbrev at : ℤ → MarketCheck ℤ
at price = record {
  market_id = "m";
  price = price;
  volume = pos 0;
  spread = pos 0;
  now = pos 1_000;
}

abbrev falling : List (MarketCheck ℤ)
falling = at (pos 450) ∷ at (pos 380) ∷ at (pos 350) ∷ []

checks-once_example :
    map (λ p. p.1) (keep (is_of "drop") (checks falling manager).1) ≡ take 1 (hits drop falling)
checks-once_example =
    checks-once "drop" drop falling manager (inr (refl, inl (refl, refl, refl))) refl refl

-- Two of the checks meet the condition, and the first of them triggers the alert.
hits_of_falling : hits drop falling ≡ pos 380 ∷ pos 350 ∷ []
unfolding hit fires
hits_of_falling = refl
