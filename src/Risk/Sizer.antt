-- ===== src/Risk/Sizer.antt =====
-- src/polymarket_agent/risk/sizer.py. A key that a dictionary may lack is an option.
pub mod Odds
pub mod Caps
pub mod Slots
mod Tests
use poly_cortex.Base.{
  ℕ, Bool, true, false, ◌&&◌, Option, none, some, List, [], ◌∷◌, map, length, count, keep, leb,
  String, str_eq, if◌then◌else◌,
}
use poly_cortex.Float.{Float, nought, one, fmax, fmin, div, sum}

pub record SizerConfig (F : Type 0) : Type 0 where
  pub bankroll : Option F
  pub kelly_fraction : Option F
  pub max_position_pct : Option F
  pub max_portfolio_pct : Option F
  pub max_category_exposure_pct : Option F
  pub max_positions : Option ℕ
  pub max_per_category : Option ℕ
  pub min_confidence : Option F
  pub use_uncertainty_bands : Option Bool
  pub uncertainty_z_score : Option F
  pub max_single_loss_usdc : Option F

pub record UnifiedPositionSizer (F : Type 0) : Type 0 where
  pub bankroll : F
  pub kelly_fraction : F
  pub max_position_pct : F
  pub max_portfolio_pct : F
  pub max_category_exposure_pct : F
  pub max_positions : ℕ
  pub max_per_category : ℕ
  pub min_confidence : F
  pub use_uncertainty_bands : Bool
  pub uncertainty_z_score : F
  pub min_position : F
  pub max_single_loss_usdc : Option F

pub record EdgeResult (F : Type 0) : Type 0 where
  pub estimated_prob : F
  pub market_price : F
  pub direction : String
  pub confidence : F
  pub regime : String
  pub category : String
  pub spread : Option F
  pub uncertainty : Option F

pub record Position (F : Type 0) : Type 0 where
  pub size : Option F
  pub size_usdc : Option F
  pub category : Option String

-- `d.get(key, default)`
abbrev pub get_or {ℓ} : {A : Type ℓ} → Option A → A → A
get_or none default = default
get_or (some x) default = x

abbrev pub in_category : {F : Type 0} → String → Position F → Bool
in_category category p = elim p.category [ none ↦ false | some c ↦ str_eq c category ]

infixl 5 ◌>>=◌
abbrev pub ◌>>=◌ {ℓ κ} : {A : Type ℓ} {B : Type κ} → Option A → (A → Option B) → Option B
none >>= g = none
some a >>= g = g a

module _ {F : Type 0} ⦃f : Float F⦄ where
  pub init : SizerConfig F → UnifiedPositionSizer F
  init c =
      let max_portfolio_pct = get_or c.max_portfolio_pct (f.lit 20 2) in
      record {
        bankroll = get_or c.bankroll (f.lit 100 0);
        kelly_fraction = get_or c.kelly_fraction (f.lit 25 2);
        max_position_pct = get_or c.max_position_pct (f.lit 2 2);
        max_portfolio_pct = max_portfolio_pct;
        max_category_exposure_pct = get_or c.max_category_exposure_pct max_portfolio_pct;
        max_positions = get_or c.max_positions 10;
        max_per_category = get_or c.max_per_category 3;
        min_confidence = get_or c.min_confidence nought;
        use_uncertainty_bands = get_or c.use_uncertainty_bands true;
        uncertainty_z_score = get_or c.uncertainty_z_score (f.lit 15 1);
        min_position = f.lit 5 0;
        max_single_loss_usdc = c.max_single_loss_usdc;
      }

  unfoldable pub update_bankroll : F → UnifiedPositionSizer F → UnifiedPositionSizer F
  update_bankroll new_bankroll s = record s { bankroll = new_bankroll }

  abbrev pub regime_multiplier : String → F
  regime_multiplier regime =
      if str_eq regime "stable"
      then one
      else if str_eq regime "trending"
      then f.lit 8 1
      else f.lit 5 1

  abbrev pub exposure : Position F → F
  exposure p = get_or p.size (get_or p.size_usdc nought)

  abbrev pub clamp_price : F → F
  clamp_price price = fmax (f.lit 1 2) (fmin price (f.lit 99 2))

  -- The odds `b` of a direction.
  unfoldable pub odds : String → F → Option F
  odds direction price =
      if str_eq direction "YES" then div (f.sub one price) price else div price (f.sub one price)

  abbrev pub win_prob : EdgeResult F → F
  win_prob e = if str_eq e.direction "YES" then e.estimated_prob else f.sub one e.estimated_prob

  unfoldable pub kelly : F → F → Option F
  kelly b p = div (f.sub (f.mul b p) (f.sub one p)) (f.add b (f.lit 1 8))

  -- Steps 2 to 6: the size in USDC before the caps.
  unfoldable pub uncapped : UnifiedPositionSizer F → EdgeResult F → F → F
  uncapped s e k =
      let spread = get_or e.spread nought in
      let scaled = f.mul (f.mul k s.kelly_fraction) e.confidence in
      let liquid =
        if f.lt (f.lit 5 2) spread
        then f.mul scaled
            (fmax (f.lit 5 1) (f.sub one (f.mul (f.sub spread (f.lit 5 2)) (f.lit 5 0))))
        else scaled in
      f.mul (f.mul liquid (regime_multiplier e.regime)) s.bankroll

  abbrev pub remaining : UnifiedPositionSizer F → List (Position F) → F
  remaining s positions =
      f.sub (f.mul s.bankroll s.max_portfolio_pct) (sum (map exposure positions))

  abbrev pub category_remaining : UnifiedPositionSizer F → EdgeResult F → List (Position F) → F
  category_remaining s e positions =
      f.sub (f.mul s.bankroll s.max_category_exposure_pct)
        (sum (map exposure (keep (in_category e.category) positions)))

  -- Steps 7, 8, 10 and 11: the caps.
  unfoldable pub capped : UnifiedPositionSizer F → EdgeResult F → List (Position F) → F → F
  capped s e positions usdc =
      let per_trade = fmin usdc (f.mul s.bankroll s.max_position_pct) in
      let in_portfolio = fmin per_trade (fmax (remaining s positions) nought) in
      let within = fmin in_portfolio (fmax (category_remaining s e positions) nought) in
      elim s.max_single_loss_usdc [
        | none ↦ within
        | some cap ↦ if f.lt cap within then cap else within
      ]

  -- Steps 2 to 13, from the Kelly fraction on.
  unfoldable pub place : UnifiedPositionSizer F → EdgeResult F → List (Position F) → F → F → F
  unfolding uncapped capped
  place s e positions drawdown_multiplier k =
      let usdc = f.mul (capped s e positions (uncapped s e k)) drawdown_multiplier in
      if leb s.max_positions (length positions)
      then nought
      else if leb s.max_per_category (count (in_category e.category) positions)
      then nought
      else if f.lt usdc s.min_position
      then nought
      else f.round usdc 2

  -- The Kelly fraction that is traded; a value that is not above zero means no trade.
  unfoldable pub traded_kelly : UnifiedPositionSizer F → EdgeResult F → F → Option F
  unfolding kelly
  traded_kelly s e b =
      let p = win_prob e in
      let uncertainty = get_or e.uncertainty nought in
      let prob_lower = fmax (f.lit 1 2) (f.sub p (f.mul s.uncertainty_z_score uncertainty)) in
      kelly b p >>= (λ k.
        if f.le k nought
        then some nought
        else if s.use_uncertainty_bands && f.lt nought uncertainty
        then kelly b prob_lower
        else some k)

  unfoldable pub calculate_position :
      UnifiedPositionSizer F → EdgeResult F → List (Position F) → F → Option F
  unfolding odds traded_kelly place
  calculate_position s e positions drawdown_multiplier =
      if f.lt e.confidence s.min_confidence
      then some nought
      else odds e.direction (clamp_price e.market_price) >>= traded_kelly s e >>= (λ k.
        if f.le k nought then some nought else some (place s e positions drawdown_multiplier k))
