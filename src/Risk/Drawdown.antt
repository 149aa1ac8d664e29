-- ===== src/Risk/Drawdown.antt =====
-- src/polymarket_agent/risk/drawdown.py. A date is its text; an operation that asks for today's date
-- takes it as an argument.
pub mod Multiplier
pub mod Daily
mod Tests
use poly_cortex.Base.{
  Bool, true, false, ◌&&◌, not, Option, none, some, String, str_eq, if◌then◌else◌, Result, ok, err,
  map_option,
}
use poly_cortex.Float.{Float, nought, one, neg, abs, fmax, div}

pub record DrawdownController (F : Type 0) : Type 0 where
  pub reduce_at : F
  pub stop_at : F
  pub emergency_at : F
  pub peak : F
  pub daily_loss_limit_usdc : Option F
  pub pnl_today : F
  pub daily_reset_date : String

pub data Tier : Type 0 where
  normal reducing stopped emergency : Tier

pub record Status (F : Type 0) : Type 0 where
  pub drawdown_pct : F
  pub multiplier : F
  pub tier : Tier
  pub daily_pnl : F
  pub limit_hit : Bool

-- ValueError and RuntimeError.
pub data TrackerError : Type 0 where
  value_error runtime_error : TrackerError

pub record DailyLossTracker (F : Type 0) : Type 0 where
  pub daily_loss_limit_usdc : F
  pub pnl_today : F
  pub reset_date : String

infixl 5 ◌>>=◌
abbrev pub ◌>>=◌ {ℓ κ} : {A : Type ℓ} {B : Type κ} → Option A → (A → Option B) → Option B
none >>= g = none
some a >>= g = g a

module _ {F : Type 0} ⦃f : Float F⦄ where
  pub init : String → F → F → F → F → DrawdownController F
  init today reduce_at stop_at emergency_at initial_bankroll = record {
    reduce_at = reduce_at;
    stop_at = stop_at;
    emergency_at = emergency_at;
    peak = initial_bankroll;
    daily_loss_limit_usdc = none;
    pnl_today = nought;
    daily_reset_date = today;
  }

  unfoldable pub update : F → DrawdownController F → DrawdownController F
  update current c = record c { peak = fmax c.peak current }

  pub reset_peak : F → DrawdownController F → DrawdownController F
  reset_peak current c = record c { peak = current }

  pub record_trade_pnl : String → F → DrawdownController F → DrawdownController F
  record_trade_pnl today pnl c =
      if str_eq today c.daily_reset_date
      then record c { pnl_today = f.add c.pnl_today pnl }
      else record c { pnl_today = f.add nought pnl; daily_reset_date = today }

  unfoldable pub daily_limit_hit : DrawdownController F → Bool
  daily_limit_hit c = elim c.daily_loss_limit_usdc [
    | none ↦ false
    | some limit ↦ f.le c.pnl_today (neg (abs limit))
  ]

  -- The multiplier of a drawdown; `none` is ZeroDivisionError.
  unfoldable pub scale : DrawdownController F → F → Option F
  scale c drawdown =
      if f.le c.emergency_at drawdown
      then some nought
      else if f.le c.stop_at drawdown
      then some nought
      else if f.le c.reduce_at drawdown
      then map_option (f.sub one) (div (f.sub drawdown c.reduce_at) (f.sub c.stop_at c.reduce_at))
      else some one

  unfoldable pub get_multiplier : F → DrawdownController F → Option F
  unfolding scale
  get_multiplier current c =
      if f.le c.peak nought
      then some one
      else if daily_limit_hit c
      then some nought
      else div (f.sub c.peak current) c.peak >>= scale c

  unfoldable pub should_close_all : F → DrawdownController F → Option Bool
  should_close_all current c =
      if f.le c.peak nought
      then some false
      else map_option (f.le c.emergency_at) (div (f.sub c.peak current) c.peak)

  pub get_drawdown : F → DrawdownController F → Option F
  get_drawdown current c =
      if f.le c.peak nought then some nought else div (f.sub c.peak current) c.peak

  pub tier_of : DrawdownController F → F → Tier
  tier_of c dd =
      if f.le c.emergency_at dd
      then emergency
      else if f.le c.stop_at dd
      then stopped
      else if f.le c.reduce_at dd
      then reducing
      else normal

  pub get_status : F → DrawdownController F → Option (Status F)
  unfolding tier_of
  get_status current c = do
    dd ← get_drawdown current c
    mult ← get_multiplier current c
    some (record {
      drawdown_pct = f.round (f.mul dd (f.lit 100 0)) 2;
      multiplier = f.round mult 4;
      tier = tier_of c dd;
      daily_pnl = f.round c.pnl_today 2;
      limit_hit = daily_limit_hit c;
    })

  pub new_tracker : String → F → Result TrackerError (DailyLossTracker F)
  new_tracker today limit =
      if f.le limit nought
      then err value_error
      else ok (record { daily_loss_limit_usdc = limit; pnl_today = nought; reset_date = today })

  pub maybe_reset : String → DailyLossTracker F → DailyLossTracker F
  maybe_reset today t =
      if str_eq today t.reset_date then t else record t { pnl_today = nought; reset_date = today }

  pub record_pnl : String → F → DailyLossTracker F → DailyLossTracker F
  unfolding maybe_reset
  record_pnl today pnl t =
      let t' = maybe_reset today t in record t' { pnl_today = f.add t'.pnl_today pnl }

  pub daily_pnl : String → DailyLossTracker F → F × DailyLossTracker F
  unfolding maybe_reset
  daily_pnl today t = let t' = maybe_reset today t in (t'.pnl_today, t')

  pub daily_loss : String → DailyLossTracker F → F × DailyLossTracker F
  daily_loss today t = let t' = maybe_reset today t in (fmax nought (neg t'.pnl_today), t')

  pub is_limit_hit : String → DailyLossTracker F → Bool × DailyLossTracker F
  is_limit_hit today t =
      let t' = maybe_reset today t in
      if f.le nought t'.pnl_today
      then (false, t')
      else (f.le t'.daily_loss_limit_usdc (abs t'.pnl_today), t')

  pub assert_trading_allowed :
      String → DailyLossTracker F → Result TrackerError (DailyLossTracker F)
  assert_trading_allowed today t =
      let (hit, t') = is_limit_hit today t in if hit then err runtime_error else ok t'
