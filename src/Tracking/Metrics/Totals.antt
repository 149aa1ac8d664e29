-- ===== src/Tracking/Metrics/Totals.antt =====
-- The sums and averages of `get_metrics` of src/polymarket_agent/tracking/tracker.py.
use poly_cortex.Base.{
  ℕ, ◌-◌, Bool, not, Option, none, some, List, [], ◌∷◌, map, keep, count, drop, length, ltb, sorted,
  String, str_eq, if◌then◌else◌, ◌==◌,
}
use poly_cortex.Float.{Float, nought, fmax, fmin, abs, neg, sum}
use poly_cortex.Tracking.Trades.{Trade, is_open, or_float}
use poly_cortex.Tracking.Streaks.{Outcome, win, loss, flat}

-- `x or text`, for a text that may be None.
abbrev pub or_text : Option String → String → String
or_text none y = y
or_text (some s) y = if str_eq s "" then y else s

-- The time from datetime.min of a text, 0 for one that is no time; `fromisoformat` is an argument.
unfoldable pub parse_iso : (String → Option ℕ) → String → ℕ
parse_iso fromisoformat s =
    if str_eq s "" then 0 else elim (fromisoformat s) [ none ↦ 0 | some n ↦ n ]

module _ {F : Type 0} where
  unfoldable pub closed_rows : List (Trade F) → List (Trade F)
  closed_rows rows = keep (λ t. not (is_open t.status)) rows

  unfoldable pub open_rows : List (Trade F) → List (Trade F)
  open_rows rows = keep (λ t. is_open t.status) rows

  unfoldable pub ordered_closed : (String → Option ℕ) → List (Trade F) → List (Trade F)
  unfolding closed_rows parse_iso
  ordered_closed fromisoformat rows =
      let key = λ (t : Trade F). parse_iso fromisoformat (or_text t.closed_at t.timestamp) in
      sorted (λ t u. ltb (key t) (key u)) (closed_rows rows)

  -- The values that are there.
  abbrev pub given_values : (Trade F → Option F) → List (Trade F) → List F
  given_values g [] = []
  given_values g (t ∷ ts) =
      let rest = given_values g ts in elim (g t) [ none ↦ rest | some x ↦ x ∷ rest ]

  abbrev pub is_paper : Trade F → Bool
  is_paper t = t.entry.is_paper

module _ {F : Type 0} ⦃f : Float F⦄ where
  abbrev pub pnl_or_zero : Trade F → F
  pnl_or_zero t = or_float t.pnl nought

  abbrev pub is_win : Trade F → Bool
  is_win t = f.lt nought (pnl_or_zero t)

  abbrev pub is_loss : Trade F → Bool
  is_loss t = f.lt (pnl_or_zero t) nought

  abbrev pub outcome : Trade F → Outcome
  outcome t = if is_win t then win else if is_loss t then loss else flat

  -- A filled size that is above 0.0, or the size.
  unfoldable pub effective_size_usdc : Trade F → F
  effective_size_usdc t = elim t.filled_size_usdc [
    | none ↦ or_float (some t.size_usdc) nought
    | some filled ↦ if f.lt nought filled then filled else or_float (some t.size_usdc) nought
  ]

  -- `x / n if n > 0 else 0.0`
  abbrev pub per : F → ℕ → F
  per x n = if n == 0 then nought else f.quot x (f.lit n 0)

  abbrev pub mean : List F → F
  mean xs = per (sum xs) (length xs)

  abbrev pub total_of : (Trade F → F) → List (Trade F) → F
  total_of g ts = sum (map g ts)

  unfoldable pub gross_profit : List (Trade F) → F
  gross_profit closed = total_of pnl_or_zero (keep is_win closed)

  unfoldable pub gross_loss : List (Trade F) → F
  gross_loss closed = abs (total_of pnl_or_zero (keep is_loss closed))

  -- `none` is infinite.
  unfoldable pub profit_factor : List (Trade F) → Option F
  unfolding gross_profit gross_loss
  profit_factor closed =
      if f.lt nought (gross_loss closed)
      then some (f.quot (gross_profit closed) (gross_loss closed))
      else if f.lt nought (gross_profit closed)
      then none
      else some nought

  unfoldable pub avg_loss : List (Trade F) → F
  unfolding gross_loss
  avg_loss closed = per (neg (gross_loss closed)) (count is_loss closed)

  abbrev pub greatest_from : F → List F → F
  greatest_from x [] = x
  greatest_from x (y ∷ ys) = greatest_from (fmax x y) ys

  abbrev pub least_from : F → List F → F
  least_from x [] = x
  least_from x (y ∷ ys) = least_from (fmin x y) ys

  unfoldable pub best_trade : List (Trade F) → F
  best_trade [] = nought
  best_trade (t ∷ ts) = greatest_from (pnl_or_zero t) (map pnl_or_zero ts)

  unfoldable pub worst_trade : List (Trade F) → F
  worst_trade [] = nought
  worst_trade (t ∷ ts) = least_from (pnl_or_zero t) (map pnl_or_zero ts)

  -- `xs[-10:]`
  abbrev pub last_ten : List (Trade F) → List (Trade F)
  last_ten ts = drop (length ts - 10) ts
