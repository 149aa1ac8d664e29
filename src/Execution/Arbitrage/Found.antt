-- ===== src/Execution/Arbitrage/Found.antt =====
-- What scan of execution/arbitrage.py finds.
use poly_cortex.Base.{
  ◌≡◌, refl, Bool, true, false, ◌||◌, Option, none, some, List, [], ◌∷◌, sorted, insort, All,
  All-weaken, sym, Bool-cases, Option-cases, ◌&&◌, ◌⊎◌, ◌∙◌, ap, suc, length, count, is_some, arith,
  inl, inr, subst,
}
use poly_cortex.Float.{Float, ◌≼◌, ◌≺◌, nought, one, IsOrdered, IsMonotone, le_of_not_lt, le_of_lt}
use poly_cortex.Execution.Arbitrage.{
  Market, ArbitrageOpportunity, opportunity, check_single, collect, scan, spread_cost_of,
}

-- A list whose every entry comes before the later ones.
abbrev pub Descending {ℓ} : {A : Type ℓ} → (A → A → Type 0) → List A → Type ℓ
Descending R [] = Unit
Descending R (x ∷ xs) = All (R x) xs × Descending R xs

-- Of the entry, where there is one.
abbrev AllFound {ℓ} : {A : Type ℓ} → (A → Type 0) → Option A → Type 0
AllFound P none = Unit
AllFound P (some a) = P a

module _ {A : Type 0} (before : A → A → Bool) where
  All-insort : (P : A → Type 0) (x : A) (xs : List A) → P x → All P xs → All P (insort before x xs)
  All-insort P x [] h k = (h, tt)
  All-insort P x (y ∷ ys) h k = elim (Bool-cases (before y x)) [
    | inl e ↦ rw e (k.0, All-insort P x ys h k.1)
    | inr e ↦ rw e (h, k)
  ]

  All-sorted : (P : A → Type 0) (xs : List A) → All P xs → All P (sorted before xs)
  All-sorted P [] h = tt
  All-sorted P (x ∷ xs) h = All-insort P x (sorted before xs) h.0 (All-sorted P xs h.1)

  module _ (R : A → A → Type 0) (trans : (x y z : A) → R x y → R y z → R x z)
      (first : (x y : A) → before x y ≡ true → R x y)
      (second : (x y : A) → before x y ≡ false → R y x) where
    insort-Descending : (x : A) (xs : List A) → Descending R xs → Descending R (insort before x xs)
    insort-Descending x [] h = (tt, tt)
    insort-Descending x (y ∷ ys) h = elim (Bool-cases (before y x)) [
      | inl e ↦ rw e (All-insort (R y) x ys (first y x e) h.0, insort-Descending x ys h.1)
      | inr e ↦
          let r = second y x e in
          rw e ((r, All-weaken (R y) (R x) ys (λ z q. trans x y z r q) h.0), h)
    ]

    sorted-Descending : (xs : List A) → Descending R (sorted before xs)
    sorted-Descending [] = tt
    sorted-Descending (x ∷ xs) = insort-Descending x (sorted before xs) (sorted-Descending xs)

-- Of some entry.
abbrev pub Among {ℓ} : {A : Type ℓ} → (A → Type 0) → List A → Type 0
Among P [] = ⊥
Among P (x ∷ xs) = P x ⊎ Among P xs

length-insort :
    {A : Type 0} (before : A → A → Bool) (x : A) (xs : List A)
    → length (insort before x xs) ≡ suc (length xs)
length-insort before x [] = refl
length-insort before x (y ∷ ys) = elim (Bool-cases (before y x)) [
  | inl e ↦ rw e (ap suc (length-insort before x ys))
  | inr e ↦ rw e refl
]

length-sorted :
    {A : Type 0} (before : A → A → Bool) (xs : List A) → length (sorted before xs) ≡ length xs
length-sorted before [] = refl
length-sorted before (x ∷ xs) =
    length-insort before x (sorted before xs) ∙ ap suc (length-sorted before xs)

module _ {F : Type 0} ⦃f : Float F⦄ where
  -- The spread of a market, which is of two cents where it has none.
  abbrev pub IsSpread : Market F → F → Type 0
  IsSpread market spread =
      (market.spread ≡ some spread) ⊎ ((market.spread ≡ none) × (spread ≡ f.lit 2 2))

  -- The opportunity of a market: its two asks, both above zero, and what they, twice the spread and the fee
  -- leave of one, which is above zero.
  pub record IsGain (fee : F) (a : ArbitrageOpportunity F) (market : Market F) : Type 0 where
    pub own : a.market_id ≡ market.market_id
    pub spread : F
    pub spread_own : IsSpread market spread
    pub yes_ask : market.yes_ask ≡ some a.yes_price
    pub no_ask : market.no_ask ≡ some a.no_price
    pub yes_pos : nought ≺ a.yes_price
    pub no_pos : nought ≺ a.no_price
    pub profit_pos : nought ≺ a.profit_after_costs
    pub profit :
        a.profit_after_costs
        ≡ f.sub (f.sub one (f.add a.yes_price a.no_price)) (f.add (f.mul spread (f.lit 2 0)) fee)

  -- What two asks leave of one is more than the costs.
  abbrev pub pays : F → F → Option F → Option F → Bool
  pays fee spread (some y) (some n) =
      f.lt nought y
      && f.lt nought n
      && f.lt (f.add (f.mul spread (f.lit 2 0)) fee) (f.sub one (f.add y n))
  pays fee spread _ _ = false

  abbrev pub is_gainful : F → Market F → Bool
  is_gainful fee market =
      pays fee (elim market.spread [ none ↦ f.lit 2 2 | some s ↦ s ]) market.yes_ask market.no_ask

  abbrev pub AtMost : ArbitrageOpportunity F → ArbitrageOpportunity F → Type 0
  AtMost a b = b.profit_after_costs ≼ a.profit_after_costs

  spread_of : Market F → F
  spread_of market = elim market.spread [ none ↦ f.lit 2 2 | some s ↦ s ]

  spread_of-IsSpread : (market : Market F) → IsSpread market (spread_of market)
  unfolding spread_of
  spread_of-IsSpread market = elim (Option-cases market.spread) [
    | inl e ↦ rw e (inr (refl, refl))
    | inr (s, e) ↦ rw e (inl refl)
  ]

  module _ (o : IsOrdered F) (m : IsMonotone F) where
    -- What is found for a market, and whether it is.
    abbrev IsChecked : F → Market F → Option (ArbitrageOpportunity F) → Type 0
    IsChecked fee market r =
        AllFound (λ a. IsGain fee a market) r × (is_some r ≡ is_gainful fee market)

    opportunity-IsChecked :
        (fee : F) (market : Market F) (yes_ask no_ask : F)
        → market.yes_ask ≡ some yes_ask
        → market.no_ask ≡ some no_ask
        → IsChecked fee market (opportunity fee market yes_ask no_ask)
    unfolding opportunity spread_of
    opportunity-IsChecked fee market y n at_y at_n =
        let gap = f.sub one (f.add y n) in
        let cost = f.add (spread_cost_of market) fee in
        let above_y = o.lt-eq-not-le nought y in
        let above_n = o.lt-eq-not-le nought n in
        elim (Bool-cases (f.le y nought || f.le n nought)) [
          | inl e ↦ rw (e, at_y, at_n) (tt, ground (arith, e, above_y, above_n))
          | inr e ↦ elim (Bool-cases (f.lt cost gap)) [
            | inr k ↦ rw (e, k, at_y, at_n) (tt, ground (arith, k))
            | inl k ↦
                rw (e, k)
                  (
                    record {
                      own = refl;
                      spread = spread_of market;
                      spread_own = spread_of-IsSpread market;
                      yes_ask = at_y;
                      no_ask = at_n;
                      yes_pos = ground (arith, e, above_y);
                      no_pos = ground (arith, e, above_n);
                      profit_pos = m.sub_pos cost gap k;
                      profit = refl;
                    },
                    rw (at_y, at_n) (ground (arith, e, k, above_y, above_n)),
                  )
          ]
        ]

    check_single-both :
        (fee : F) (market : Market F) (y n : F)
        → market.yes_ask ≡ some y
        → market.no_ask ≡ some n
        → check_single fee market ≡ opportunity fee market y n
    unfolding check_single
    check_single-both fee market y n e k = rw (check_single, e, k) refl

    check_single-IsChecked :
        (fee : F) (market : Market F) → IsChecked fee market (check_single fee market)
    unfolding check_single
    check_single-IsChecked fee market = elim (Option-cases market.yes_ask) [
      | inl e ↦ rw e (tt, refl)
      | inr (y, e) ↦ elim (Option-cases market.no_ask) [
        | inl k ↦ rw (e, k) (tt, refl)
        | inr (n, k) ↦
            subst (IsChecked fee market) (sym (check_single-both fee market y n e k))
              (opportunity-IsChecked fee market y n e k)
      ]
    ]

    -- The opportunity of one of the markets.
    abbrev pub IsFound : F → List (Market F) → ArbitrageOpportunity F → Type 0
    IsFound fee markets a = Among (IsGain fee a) markets

    collect-IsFound :
        (fee : F) (markets : List (Market F))
        → All (IsFound fee markets) (collect fee markets)
          × (length (collect fee markets) ≡ count (is_gainful fee) markets)
    unfolding collect
    collect-IsFound fee [] = (tt, refl)
    collect-IsFound fee (market ∷ markets) =
        let rest = collect-IsFound fee markets in
        let checked = check_single-IsChecked fee market in
        let later =
          All-weaken (IsFound fee markets) (IsFound fee (market ∷ markets)) (collect fee markets)
            (λ a h. inr h) rest.0 in
        elim (Option-cases (check_single fee market)) [
          | inl e ↦ rw (collect, e) (later, ground (arith, rest.1, ap is_some e, checked.1))
          | inr (a, e) ↦
              rw (collect, e)
                (
                  (inl (subst (AllFound (λ b. IsGain fee b market)) e checked.0), later),
                  ground (arith, rest.1, ap is_some e, checked.1),
                )
        ]

    -- In an ordered arithmetic with the laws of rounding: every opportunity of scan is that of one of the
    -- markets, with its two asks, both above zero, and a profit above zero, which is what the asks, twice the
    -- market's spread and the scanner's fee leave of one. They come by falling profit, and there are as many as
    -- there are markets with both asks above zero that leave more of one than those costs.
    pub scan-IsGain :
        (fee : F) (markets : List (Market F))
        → All (IsFound fee markets) (scan fee markets)
          × Descending AtMost (scan fee markets)
          × (length (scan fee markets) ≡ count (is_gainful fee) markets)
    unfolding scan
    scan-IsGain fee markets =
        let found = collect-IsFound fee markets in
        (
          All-sorted _ (IsFound fee markets) (collect fee markets) found.0,
          sorted-Descending _ AtMost (λ x y z h k. o.le_trans _ _ _ k h) (λ x y h. le_of_lt o _ _ h)
              (λ x y h. le_of_not_lt o _ _ h) (collect fee markets),
          length-sorted _ (collect fee markets) ∙ found.1,
        )
