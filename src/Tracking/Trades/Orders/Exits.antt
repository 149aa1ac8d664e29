-- ===== src/Tracking/Trades/Orders/Exits.antt =====
-- The price at which tracking/tracker.py closes the trade of an order.
use poly_cortex.Base.{
  ◌≡◌, ◌≢◌, ◌⊎◌, arith, str_eq, eq_iff, subst, refl, sym, ◌∙◌, true, false, Option, some, String,
  Bool-cases, inl, inr, none,
}
use poly_cortex.Float.{Float, nought, one, fmax, fmin, truthy}
use poly_cortex.Tracking.Trades.{Trade, or_float, clamp, exit_yes_price}
use poly_cortex.Tracking.Trades.Orders.{OrderDict, closing_price}

module _ {F : Type 0} ⦃f : Float F⦄ where
  -- Missing or zero.
  abbrev pub IsFalsy : Option F → Type 0
  IsFalsy x = (x ≡ none) ⊎ ((y : F) × (x ≡ some y) × (truthy y ≡ false))

  -- The price at which a trade is closed: the one given, or zero where it is below; without one, the average
  -- price of the order's fills, or its price where that is missing or zero, or else zero.
  pub data ExitsAt (o : OrderDict F) : Option F → F → Type 0 where
    given_price : (x : F) → f.lt x nought ≡ false → ExitsAt o (some x) x
    given_below : (x : F) → f.lt x nought ≡ true → ExitsAt o (some x) nought
    fill_price : (x : F) → o.average_fill_price ≡ some x → truthy x ≡ true → ExitsAt o none x
    order_price :
        (x : F)
        → IsFalsy o.average_fill_price
        → o.price ≡ some x
        → truthy x ≡ true
        → ExitsAt o none x
    no_price : IsFalsy o.average_fill_price → IsFalsy o.price → ExitsAt o none nought

  -- The price of YES at the price of the contract, which for NO is what it leaves of 1.
  pub IsYesPrice : String → F → F → Type 0
  IsYesPrice direction p y =
      ((direction ≡ "NO") × (y ≡ fmax nought (fmin one (f.sub one p))))
      ⊎ ((direction ≢ "NO") × (y ≡ p))

  pub exit_yes_price-IsYesPrice :
      (t : Trade F) (p : F) → IsYesPrice t.direction p (exit_yes_price t p)
  unfolding exit_yes_price clamp IsYesPrice
  exit_yes_price-IsYesPrice t p = elim (Bool-cases (str_eq t.direction "NO")) [
    | inl e ↦ rw e (inl (ground (arith, eq_iff t.direction "NO", e), refl))
    | inr e ↦ rw e (inr (λ h. ground (arith, eq_iff t.direction "NO", e, h), refl))
  ]

  or_float-cases :
      (x : Option F) (y : F)
      → ((z : F) × (x ≡ some z) × (truthy z ≡ true) × (or_float x y ≡ z))
        ⊎ (IsFalsy x × (or_float x y ≡ y))
  or_float-cases none y = inr (inl refl, refl)
  or_float-cases (some z) y = elim (Bool-cases (truthy z)) [
    | inl e ↦ inl (z, refl, e, rw e refl)
    | inr e ↦ inr (inr (z, refl, e), rw e refl)
  ]

  pub closing_price-ExitsAt :
      (o : OrderDict F) (exit_price : Option F) → ExitsAt o exit_price (closing_price o exit_price)
  closing_price-ExitsAt o (some x) = elim (Bool-cases (f.lt x nought)) [
    | inl e ↦ rw e (given_below x e)
    | inr e ↦ rw e (given_price x e)
  ]
  closing_price-ExitsAt o none =
      elim (or_float-cases o.average_fill_price (or_float o.price nought)) [
        | inl (z, at, true_, same) ↦ subst (ExitsAt o none) (sym same) (fill_price z at true_)
        | inr (empty, same) ↦ elim (or_float-cases o.price nought) [
          | inl (z, at, true_, same') ↦
              subst (ExitsAt o none) (sym (same ∙ same')) (order_price z empty at true_)
          | inr (empty', same') ↦
              subst (ExitsAt o none) (sym (same ∙ same')) (no_price empty empty')
        ]
      ]
