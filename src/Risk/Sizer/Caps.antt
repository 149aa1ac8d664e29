-- ===== src/Risk/Sizer/Caps.antt =====
-- The caps of risk/sizer.py, on the way from an amount to a position.
use poly_cortex.Base.{
  ◌≡◌, refl, false, Option, none, some, List, length, count, leb, ◌⊎◌, inl, inr, String,
  if◌then◌else◌, arith, Bool-cases,
}
use poly_cortex.Float.{
  Float, ◌≼◌, nought, one, fmax, fmin, IsOrdered, IsMonotone, IsScaled, le-fmax_left, le-fmax_right,
  fmin-le_left, fmin-le_right, le-fmin, le_of_lt, le_of_not_lt, le_refl, lt_of_not_le,
}
use poly_cortex.Risk.Sizer.{
  UnifiedPositionSizer, EdgeResult, Position, uncapped, capped, place, remaining,
  category_remaining, in_category, regime_multiplier, calculate_position, get_or, update_bankroll,
}
use poly_cortex.Risk.Sizer.Odds.{odds_pos, traded_kelly-total}

module _ {F : Type 0} ⦃f : Float F⦄ where
  abbrev pub IsBelow : F → Option F → Type 0
  IsBelow x none = Unit
  IsBelow x (some cap) = x ≼ cap

  abbrev pub IsLimit : Option F → Type 0
  IsLimit none = Unit
  IsLimit (some cap) = nought ≼ cap

  -- The settings that are fractions or amounts are none of them below zero.
  pub record IsSane (s : UnifiedPositionSizer F) : Type 0 where
    pub bankroll_nonneg : nought ≼ s.bankroll
    pub kelly_fraction_nonneg : nought ≼ s.kelly_fraction
    pub max_position_pct_nonneg : nought ≼ s.max_position_pct
    pub max_loss_nonneg : IsLimit s.max_single_loss_usdc

  -- An amount that meets every limit of the sizer.
  pub record IsWithin (s : UnifiedPositionSizer F) (e : EdgeResult F)
      (positions : List (Position F)) (x : F) : Type 0 where
    pub at_least : s.min_position ≼ x
    pub per_trade : x ≼ f.mul s.bankroll s.max_position_pct
    pub portfolio : x ≼ fmax (remaining s positions) nought
    pub category : x ≼ fmax (category_remaining s e positions) nought
    pub loss : IsBelow x s.max_single_loss_usdc
    pub slots : leb s.max_positions (length positions) ≡ false
    pub category_slots : leb s.max_per_category (count (in_category e.category) positions) ≡ false

  -- No position, or an amount within the limits, rounded to cents.
  abbrev pub IsCapped : UnifiedPositionSizer F → EdgeResult F → List (Position F) → F → Type 0
  IsCapped s e positions v = (v ≡ nought) ⊎ ((x : F) × (v ≡ f.round x 2) × IsWithin s e positions x)

  module _ (laws : IsOrdered F) (mono : IsMonotone F) (scaled : IsScaled F) where
    open mono use {mul_nonneg}

    le_trans : (x y z : F) → x ≼ y → y ≼ z → x ≼ z
    le_trans = laws.le_trans

    regime_nonneg : (r : String) → nought ≼ regime_multiplier {F = F} r
    regime_nonneg r = ground (arith, mono.zero-le-one, scaled.most_nonneg, scaled.half_nonneg)

    uncapped_nonneg :
        (s : UnifiedPositionSizer F) (e : EdgeResult F) (k : F)
        → IsSane s
        → nought ≼ e.confidence
        → nought ≼ k
        → nought ≼ uncapped s e k
    unfolding uncapped
    uncapped_nonneg s e k sane conf h =
        let spread = get_or e.spread nought in
        let size = f.mul (f.mul k s.kelly_fraction) e.confidence in
        let cut = fmax (f.lit 5 1) (f.sub one (f.mul (f.sub spread (f.lit 5 2)) (f.lit 5 0))) in
        let size_nonneg =
          mul_nonneg (f.mul k s.kelly_fraction) e.confidence
            (mul_nonneg k s.kelly_fraction h sane.kelly_fraction_nonneg) conf in
        let cut_nonneg =
          le_trans nought (f.lit 5 1) cut scaled.half_nonneg (le-fmax_left laws (f.lit 5 1) _) in
        mul_nonneg _ s.bankroll
          (mul_nonneg _ (regime_multiplier e.regime)
            (ground (arith, size_nonneg, mul_nonneg size cut size_nonneg cut_nonneg))
            (regime_nonneg e.regime))
          sane.bankroll_nonneg

    -- What the caps leave of an amount.
    record IsCut (s : UnifiedPositionSizer F) (e : EdgeResult F) (positions : List (Position F))
        (x : F) : Type 0 where
      nonneg : nought ≼ x
      per_trade : x ≼ f.mul s.bankroll s.max_position_pct
      portfolio : x ≼ fmax (remaining s positions) nought
      category : x ≼ fmax (category_remaining s e positions) nought
      loss : IsBelow x s.max_single_loss_usdc

    limited :
        (s : UnifiedPositionSizer F) (e : EdgeResult F) (positions : List (Position F)) (usdc : F)
        → IsSane s
        → nought ≼ usdc
        → let within =
            fmin
              (fmin
                (fmin usdc (f.mul s.bankroll s.max_position_pct))
                (fmax (remaining s positions) nought))
              (fmax (category_remaining s e positions) nought) in
          (nought ≼ within)
          × (within ≼ f.mul s.bankroll s.max_position_pct)
          × (within ≼ fmax (remaining s positions) nought)
          × (within ≼ fmax (category_remaining s e positions) nought)
    limited s e positions usdc sane h =
        let cap = f.mul s.bankroll s.max_position_pct in
        let rest = fmax (remaining s positions) nought in
        let left = fmax (category_remaining s e positions) nought in
        let a = fmin usdc cap in
        let b = fmin a rest in
        let a_nonneg = le-fmin laws usdc cap nought h (
          mul_nonneg s.bankroll s.max_position_pct sane.bankroll_nonneg
            sane.max_position_pct_nonneg) in
        let b_nonneg =
          le-fmin laws a rest nought a_nonneg (le-fmax_right laws (remaining s positions) nought) in
        let c-le = fmin-le_left laws b left in
        let b-le = le_trans (fmin b left) b a c-le (fmin-le_left laws a rest) in
        (
          le-fmin laws b left nought b_nonneg
              (le-fmax_right laws (category_remaining s e positions) nought),
          le_trans (fmin b left) a cap b-le (fmin-le_right laws usdc cap),
          le_trans (fmin b left) b rest c-le (fmin-le_right laws a rest),
          fmin-le_right laws b left,
        )

    -- The cap on a single loss, where there is one.
    loss_cut : F → Option F → F
    loss_cut x none = x
    loss_cut x (some cap) = if f.lt cap x then cap else x

    loss_cut-IsBelow :
        (x : F) (cap : Option F)
        → nought ≼ x
        → IsLimit cap
        → (nought ≼ loss_cut x cap) × (loss_cut x cap ≼ x) × IsBelow (loss_cut x cap) cap
    unfolding loss_cut
    loss_cut-IsBelow x none h k = (h, le_refl laws x, tt)
    loss_cut-IsBelow x (some cap) h k =
        ground
          (arith, k, le_of_lt laws cap x, le_of_not_lt laws cap x, le_refl laws x, le_refl laws cap)

    capped-IsCut :
        (s : UnifiedPositionSizer F) (e : EdgeResult F) (positions : List (Position F)) (usdc : F)
        → IsSane s
        → nought ≼ usdc
        → IsCut s e positions (capped s e positions usdc)
    unfolding capped loss_cut
    capped-IsCut s e positions usdc sane h =
        let within =
          fmin
            (fmin (fmin usdc (f.mul s.bankroll s.max_position_pct))
              (fmax (remaining s positions) nought))
            (fmax (category_remaining s e positions) nought) in
        let bounds = limited s e positions usdc sane h in
        let cut = loss_cut-IsBelow within s.max_single_loss_usdc bounds.0 sane.max_loss_nonneg in
        let x = loss_cut within s.max_single_loss_usdc in
        record {
          nonneg = cut.0;
          per_trade = le_trans x within _ cut.1 bounds.1;
          portfolio = le_trans x within _ cut.1 bounds.2;
          category = le_trans x within _ cut.1 bounds.3;
          loss = cut.2;
        }

    IsBelow-trans : (x y : F) (cap : Option F) → x ≼ y → IsBelow y cap → IsBelow x cap
    IsBelow-trans x y none h k = tt
    IsBelow-trans x y (some c) h k = le_trans x y c h k

    place-IsCapped :
        (s : UnifiedPositionSizer F) (e : EdgeResult F) (positions : List (Position F)) (m k : F)
        → IsSane s
        → nought ≼ e.confidence
        → m ≼ one
        → nought ≼ k
        → IsCapped s e positions (place s e positions m k)
    unfolding place
    place-IsCapped s e positions m k sane conf m_le h =
        let x = capped s e positions (uncapped s e k) in
        let cut =
          capped-IsCut s e positions (uncapped s e k) sane (uncapped_nonneg s e k sane conf h) in
        let y = f.mul x m in
        let y-le : y ≼ x = mono.mul-le x m cut.nonneg m_le in
        elim (Bool-cases (leb s.max_positions (length positions))) [
          | inl full ↦ inl (rw full refl)
          | inr free ↦
              elim (Bool-cases
                (leb s.max_per_category (count (in_category e.category) positions))) [
                  | inl full ↦ inl (rw (free, full) refl)
                  | inr room ↦ elim (Bool-cases (f.lt y s.min_position)) [
                    | inl small ↦ inl (rw (free, room, small) refl)
                    | inr large ↦ inr (
                      y,
                      rw (free, room, large) refl,
                      record {
                        at_least = le_of_not_lt laws y s.min_position large;
                        per_trade = le_trans y x _ y-le cut.per_trade;
                        portfolio = le_trans y x _ y-le cut.portfolio;
                        category = le_trans y x _ y-le cut.category;
                        loss = IsBelow-trans y x s.max_single_loss_usdc y-le cut.loss;
                        slots = free;
                        category_slots = room;
                      },
                    )
                  ]
                ]
        ]

    pub calculate_position-IsCapped :
        (s : UnifiedPositionSizer F) (e : EdgeResult F) (positions : List (Position F)) (m : F)
        → IsSane s
        → nought ≼ e.confidence
        → m ≼ one
        → (v : F) × (calculate_position s e positions m ≡ some v) × IsCapped s e positions v
    unfolding calculate_position
    calculate_position-IsCapped s e positions m sane conf m_le =
        let (b, of_odds, b_pos) = odds_pos laws mono scaled e.direction e.market_price in
        let (k, of_kelly) = traded_kelly-total laws mono scaled s e b b_pos in
        elim (Bool-cases (f.lt e.confidence s.min_confidence)) [
          | inl unsure ↦ (nought, rw unsure refl, inl refl)
          | inr sure ↦ elim (Bool-cases (f.le k nought)) [
            | inl none_left ↦ (nought, rw (sure, of_odds, of_kelly, none_left) refl, inl refl)
            | inr edge ↦ (
              place s e positions m k,
              rw (sure, of_odds, of_kelly, edge) refl,
              place-IsCapped s e positions m k sane conf m_le
                  (le_of_lt laws nought k (lt_of_not_le laws k nought edge)),
            )
          ]
        ]

    pub update_bankroll-IsSane :
        (x : F) (s : UnifiedPositionSizer F) → IsSane s → IsSane (update_bankroll (fmax nought x) s)
    unfolding update_bankroll
    update_bankroll-IsSane x s sane = record {
      bankroll_nonneg = le-fmax_left laws nought x;
      kelly_fraction_nonneg = sane.kelly_fraction_nonneg;
      max_position_pct_nonneg = sane.max_position_pct_nonneg;
      max_loss_nonneg = sane.max_loss_nonneg;
    }
