-- ===== src/Risk/Drawdown/Daily.antt =====
-- The daily loss limits of risk/drawdown.py: what a day's records leave, and when the limit goes.
use poly_cortex.Base.{
  ◌≡◌, refl, ◌∙◌, ap, none, true, false, some, String, str_eq, List, [], ◌∷◌, arith, Bool-cases,
  inl, inr, if◌then◌else◌, ok, err, eq_iff,
}
use poly_cortex.Float.{
  Float, ◌≼◌, ◌≺◌, nought, abs, neg, sum, sum_from, IsOrdered, le_refl, le-fmax_left, not-le_of_lt,
  lt_trans_le,
}
use poly_cortex.Risk.Drawdown.{
  DrawdownController, daily_limit_hit, get_multiplier, update, record_trade_pnl, DailyLossTracker,
  record_pnl, maybe_reset, is_limit_hit, assert_trading_allowed, runtime_error,
}

str_eq_refl : (day : String) → str_eq day day ≡ true
str_eq_refl day = ground (arith, eq_iff day day)

-- A call of one day: a trade's profit or loss is recorded, or the bankroll updated.
pub data DayCall (F : Type 0) : Type 0 where
  traded updated : F → DayCall F

module _ {F : Type 0} ⦃f : Float F⦄ where
  -- The profits and losses of one day, in order.
  abbrev pub record_all : String → List F → DailyLossTracker F → DailyLossTracker F
  record_all day [] t = t
  record_all day (x ∷ xs) t = record_all day xs (record_pnl day x t)

  -- The tracker that a day's profits and losses leave.
  abbrev pub booked : String → F → List F → DailyLossTracker F → DailyLossTracker F
  booked day start xs t = record t { pnl_today = sum_from start xs; reset_date = day }

  -- A further record on the tracker's own day adds up.
  record_all-booked :
      (day : String) (xs : List F) (p : F) (t : DailyLossTracker F)
      → record_all day xs (record t { pnl_today = p; reset_date = day }) ≡ booked day p xs t
  unfolding record_pnl maybe_reset
  record_all-booked day [] p t = refl
  record_all-booked day (x ∷ xs) p t = rw (str_eq_refl day) (record_all-booked day xs (f.add p x) t)

  record_all-first :
      (day : String) (x : F) (xs : List F) (t : DailyLossTracker F)
      → str_eq day t.reset_date ≡ false
      → record_all day (x ∷ xs) t ≡ booked day nought (x ∷ xs) t
  unfolding record_pnl maybe_reset
  record_all-first day x xs t new = rw new (record_all-booked day xs (f.add nought x) t)

  allowed :
      (day : String) (p : F) (t : DailyLossTracker F)
      → let t' = record t { pnl_today = p; reset_date = day } in
        assert_trading_allowed day t' ≡ (
          if f.le nought p
          then ok t'
          else if f.le t.daily_loss_limit_usdc (abs p)
          then err runtime_error
          else ok t')
  unfolding maybe_reset is_limit_hit assert_trading_allowed
  allowed day p t = rw (str_eq_refl day) (elim (Bool-cases (f.le nought p)) [
    | inl gain ↦ rw gain refl
    | inr loss ↦ rw loss (ground arith)
  ])

  -- On a date that is not the tracker's, the day's result is the sum of what the day records, whatever was
  -- recorded before; trading is refused exactly when that sum is a loss that reaches the limit.
  pub record_all-allowed :
      (day : String) (x : F) (xs : List F) (t : DailyLossTracker F)
      → str_eq day t.reset_date ≡ false
      → let total = sum (x ∷ xs) in
        assert_trading_allowed day (record_all day (x ∷ xs) t) ≡ (
          if f.le nought total
          then ok (booked day nought (x ∷ xs) t)
          else if f.le t.daily_loss_limit_usdc (abs total)
          then err runtime_error
          else ok (booked day nought (x ∷ xs) t))
  record_all-allowed day x xs t new =
      rw (record_all-first day x xs t new, allowed day (sum (x ∷ xs)) t) refl

  -- The profits and losses among the calls.
  abbrev pub amounts : List (DayCall F) → List F
  amounts [] = []
  amounts (traded x ∷ calls) = x ∷ amounts calls
  amounts (updated y ∷ calls) = amounts calls

  abbrev pub day_step : String → DayCall F → DrawdownController F → DrawdownController F
  day_step day (traded x) c = record_trade_pnl day x c
  day_step day (updated y) c = update y c

  abbrev pub day_run : String → List (DayCall F) → DrawdownController F → DrawdownController F
  day_run day [] c = c
  day_run day (x ∷ calls) c = day_run day calls (day_step day x c)

  module _ (laws : IsOrdered F) where
    -- What a day's calls leave of a controller that has the day's date.
    record IsBooked (day : String) (calls : List (DayCall F)) (p : F) (c c' : DrawdownController F)
        : Type 0 where
      total : c'.pnl_today ≡ sum_from p (amounts calls)
      limit : c'.daily_loss_limit_usdc ≡ c.daily_loss_limit_usdc
      peak : c.peak ≼ c'.peak

    day_run-IsBooked :
        (day : String) (calls : List (DayCall F)) (c : DrawdownController F)
        → str_eq day c.daily_reset_date ≡ true
        → IsBooked day calls c.pnl_today c (day_run day calls c)
    unfolding update record_trade_pnl
    day_run-IsBooked day [] c own = record {
      total = refl;
      limit = refl;
      peak = le_refl laws c.peak;
    }
    day_run-IsBooked day (traded x ∷ calls) c own =
        let c' : DrawdownController F = record c { pnl_today = f.add c.pnl_today x } in
        let ih = day_run-IsBooked day calls c' own in
        rw own (record { total = ih.total; limit = ih.limit; peak = ih.peak })
    day_run-IsBooked day (updated y ∷ calls) c own =
        let ih = day_run-IsBooked day calls (update y c) own in
        record {
          total = ih.total;
          limit = ih.limit;
          peak = laws.le_trans _ _ _ (le-fmax_left laws c.peak y) ih.peak;
        }

    -- The first trade of a day begins its total.
    day_run-first :
        (day : String) (x : F) (calls : List (DayCall F)) (c : DrawdownController F)
        → str_eq day c.daily_reset_date ≡ false
        → IsBooked day calls (f.add nought x) c (day_run day (traded x ∷ calls) c)
    unfolding record_trade_pnl
    day_run-first day x calls c new =
        let c' : DrawdownController F = record c {
          pnl_today = f.add nought x;
          daily_reset_date = day;
        } in
        let ih = day_run-IsBooked day calls c' (str_eq_refl day) in
        rw new (record { total = ih.total; limit = ih.limit; peak = ih.peak })

    get_multiplier-limited :
        (current limit : F) (c : DrawdownController F)
        → nought ≺ c.peak
        → c.daily_loss_limit_usdc ≡ some limit
        → get_multiplier current c ≡ (
            if f.le c.pnl_today (neg (abs limit))
            then some nought
            else get_multiplier current (record c { daily_loss_limit_usdc = none }))
    unfolding get_multiplier daily_limit_hit
    get_multiplier-limited current limit c above h =
        rw (not-le_of_lt laws nought c.peak above, h) refl

    -- With a daily limit and a peak above zero, on a date that is not the controller's: after a first trade of
    -- the day and any further trades and updates of the bankroll, the multiplier is 0 where the sum of that
    -- day's profits and losses is a loss that reaches the limit, and else the one that it is without a limit;
    -- what was recorded on earlier days does not count.
    pub get_multiplier-day_run :
        (day : String) (x : F) (calls : List (DayCall F)) (current limit : F)
        (c : DrawdownController F)
        → c.daily_loss_limit_usdc ≡ some limit
        → str_eq day c.daily_reset_date ≡ false
        → nought ≺ c.peak
        → let c' = day_run day (traded x ∷ calls) c in
          get_multiplier current c' ≡ (
            if f.le (sum (x ∷ amounts calls)) (neg (abs limit))
            then some nought
            else get_multiplier current (record c' { daily_loss_limit_usdc = none }))
    get_multiplier-day_run day x calls current limit c h new above =
        let c' = day_run day (traded x ∷ calls) c in
        let b = day_run-first day x calls c new in
        get_multiplier-limited current limit c' (lt_trans_le laws _ _ _ above b.peak) (b.limit ∙ h)
        ∙ ap
            (λ t.
              if f.le t (neg (abs limit))
              then some nought
              else get_multiplier current (record c' { daily_loss_limit_usdc = none }))
            b.total
