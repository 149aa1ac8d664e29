-- ===== src/Risk/Alerts/Once.antt =====
-- How often an alert of risk/alerts.py is triggered.
use poly_cortex.Base.{
  ◌≡◌, refl, ◌∙◌, ap, Bool, true, false, Option, none, some, List, [], ◌∷◌, ◌++◌, keep, map, take,
  subst, any, ◌⊎◌, inl, inr, String, str_eq, if◌then◌else◌, arith, Option-cases, append-nil,
}
use poly_cortex.Float.{Float}
use poly_cortex.Risk.Alerts.{
  Alert, AlertManager, MarketCheck, is_active, fires, fired, cooling, check_alert, entry_of,
  check_each, check, checks,
}

keep-append :
    {A : Type 0} (p : A → Bool) (xs ys : List A) → keep p (xs ++ ys) ≡ keep p xs ++ keep p ys
keep-append p [] ys = refl
keep-append p (x ∷ xs) ys = ground (arith, keep-append p xs ys)

module _ {F : Type 0} ⦃f : Float F⦄ where
  abbrev pub is_of : String → Alert F × F → Bool
  is_of id p = str_eq p.0.alert_id id

  -- The alerts of the dictionary that have the id are `a` alone.
  abbrev pub Holds : String → Alert F → List (Alert F) → Type 0
  Holds id a [] = ⊥
  Holds id a (b ∷ bs) =
      ((b ≡ a) × (str_eq b.alert_id id ≡ true) × (any (λ c. str_eq c.alert_id id) bs ≡ false))
      ⊎ ((str_eq b.alert_id id ≡ false) × Holds id a bs)

  id-check_alert : (c : MarketCheck F) (a : Alert F) → (check_alert c a).0.alert_id ≡ a.alert_id
  unfolding check_alert fired
  id-check_alert c a = ground arith

  keep-entry_of :
      (id : String) (p : Alert F × Option F)
      → keep (is_of id) (entry_of p) ≡ (if str_eq p.0.alert_id id then entry_of p else [])
  keep-entry_of id (a, none) = ground arith
  keep-entry_of id (a, some x) = refl

  check_each-absent :
      (id : String) (c : MarketCheck F) (as' : List (Alert F))
      → any (λ c. str_eq c.alert_id id) as' ≡ false
      → (any (λ c. str_eq c.alert_id id) (check_each c as').0 ≡ false)
        × (keep (is_of id) (check_each c as').1 ≡ [])
  unfolding check_each
  check_each-absent id c [] h = (refl, refl)
  check_each-absent id c (a ∷ as') h =
      let e : str_eq a.alert_id id ≡ false = ground (arith, h) in
      let (k, l) = check_each-absent id c as' (ground (arith, h)) in
      (
        rw (id-check_alert c a, e) k,
        keep-append (is_of id) (entry_of (check_alert c a)) (check_each c as').1
            ∙ rw (keep-entry_of id (check_alert c a), id-check_alert c a, e) l,
      )

  check_each-Holds :
      (id : String) (c : MarketCheck F) (a : Alert F) (as' : List (Alert F))
      → Holds id a as'
      → Holds id (check_alert c a).0 (check_each c as').0
        × (keep (is_of id) (check_each c as').1 ≡ entry_of (check_alert c a))
  unfolding check_each
  check_each-Holds id c a [] h = absurd h
  check_each-Holds id c a (b ∷ bs) (inl (same, own, rest)) =
      let (k, l) = check_each-absent id c bs rest in
      (
        inl (ap (λ x. (check_alert c x).0) same, rw (id-check_alert c b) own, k),
        keep-append (is_of id) (entry_of (check_alert c b)) (check_each c bs).1
            ∙ rw (keep-entry_of id (check_alert c b), id-check_alert c b, own, l, append-nil)
                (ap (λ x. entry_of (check_alert c x)) same),
      )
  check_each-Holds id c a (b ∷ bs) (inr (other, h)) =
      let (k, l) = check_each-Holds id c a bs h in
      (
        inr (rw (id-check_alert c b) other, k),
        keep-append (is_of id) (entry_of (check_alert c b)) (check_each c bs).1
            ∙ rw (keep-entry_of id (check_alert c b), id-check_alert c b, other) l,
      )

  check_alert-idle :
      (c : MarketCheck F) (a : Alert F) → is_active a.status ≡ false → check_alert c a ≡ (a, none)
  unfolding check_alert
  check_alert-idle c a h = ground (arith, h)

  cooling_once : (now : F) (a : Alert F) → a.repeating ≡ false → cooling now a ≡ false
  cooling_once now a h = ground (arith, h)

  fired-idle :
      (now : F) (a : Alert F) → a.repeating ≡ false → is_active (fired now a).status ≡ false
  unfolding fired
  fired-idle now a h = ground (arith, h)

  -- The value where the market is the alert's and its condition holds.
  unfoldable pub hit : Alert F → MarketCheck F → Option F
  hit a c = if str_eq a.market_id c.market_id then fires a c else none

  check_alert-miss :
      (c : MarketCheck F) (a : Alert F) → hit a c ≡ none → check_alert c a ≡ (a, none)
  unfolding check_alert hit
  check_alert-miss c a h = ground (arith, h)

  check_alert-hit :
      (c : MarketCheck F) (a : Alert F) (x : F)
      → is_active a.status ≡ true
      → a.repeating ≡ false
      → hit a c ≡ some x
      → check_alert c a ≡ (fired c.now a, some x)
  unfolding check_alert hit
  check_alert-hit c a x h k l = ground (arith, h, k, l, cooling_once c.now a k)

  checks-idle :
      (id : String) (a : Alert F) (cs : List (MarketCheck F)) (m : AlertManager F)
      → Holds id a m.alerts
      → is_active a.status ≡ false
      → keep (is_of id) (checks cs m).1 ≡ []
  unfolding checks check
  checks-idle id a [] m h k = refl
  checks-idle id a (c ∷ cs) m h k =
      let (held, out) = check_each-Holds id c a m.alerts h in
      let idle = check_alert-idle c a k in
      keep-append (is_of id) (check c m).1 (checks cs (check c m).0).1
      ∙ rw (out, idle)
          (checks-idle id a cs (check c m).0
            (subst (λ p. Holds id p.0 (check_each c m.alerts).0) idle held) k)

  -- The values at the checks of a list that meet the condition of an alert.
  abbrev onto : Option F → List F → List F
  onto none xs = xs
  onto (some x) xs = x ∷ xs

  abbrev pub hits : Alert F → List (MarketCheck F) → List F
  hits a [] = []
  hits a (c ∷ cs) = onto (hit a c) (hits a cs)

  -- An active alert that does not repeat is triggered at the first check of its market that meets its condition,
  -- with the value of that check, and at no other, however many checks are made; if none meets it, never.
  pub checks-once :
      (id : String) (a : Alert F) (cs : List (MarketCheck F)) (m : AlertManager F)
      → Holds id a m.alerts
      → is_active a.status ≡ true
      → a.repeating ≡ false
      → map (λ p. p.1) (keep (is_of id) (checks cs m).1) ≡ take 1 (hits a cs)
  unfolding checks check
  checks-once id a [] m h k l = refl
  checks-once id a (c ∷ cs) m h k l = elim (Option-cases (hit a c)) [
    | inl missed ↦
        let same = check_alert-miss c a missed in
        let (held, out) = check_each-Holds id c a m.alerts h in
        rw missed (
          ap (map (λ p. p.1)) (keep-append (is_of id) (check c m).1 (checks cs (check c m).0).1)
          ∙ rw (out, same)
              (checks-once id a cs (check c m).0
                (subst (λ p. Holds id p.0 (check_each c m.alerts).0) same held) k l))
    | inr (x, met) ↦
        let next = check_alert-hit c a x k l met in
        let (held, out) = check_each-Holds id c a m.alerts h in
        rw met (
          ap (map (λ p. p.1)) (keep-append (is_of id) (check c m).1 (checks cs (check c m).0).1)
          ∙ rw
              (
                out,
                next,
                checks-idle id (fired c.now a) cs (check c m).0
                    (subst (λ p. Holds id p.0 (check_each c m.alerts).0) next held)
                    (fired-idle c.now a l),
              )
              refl)
  ]
