-- ===== src/Tracking/Streaks.antt =====
-- The streaks of wins and losses in `get_metrics` of src/polymarket_agent/tracking/tracker.py.
pub mod Longest
use poly_cortex.Base.{ℕ, zero, suc, ◌+◌, max, Bool, true, false, List, [], ◌∷◌}

-- A profit above 0.0, one below, or neither.
pub data Outcome : Type 0 where
  win loss flat : Outcome

pub record Streaks : Type 0 where
  pub win_streak : ℕ
  pub loss_streak : ℕ
  pub longest_win_streak : ℕ
  pub longest_loss_streak : ℕ
  pub current_type : Outcome
  pub current_count : ℕ

abbrev pub no_streaks : Streaks
no_streaks = record {
  win_streak = 0;
  loss_streak = 0;
  longest_win_streak = 0;
  longest_loss_streak = 0;
  current_type = flat;
  current_count = 0;
}

-- The body of the loop over the closed rows.
pub streak_step : Outcome → Streaks → Streaks
streak_step win s = record s {
  win_streak = s.win_streak + 1;
  loss_streak = 0;
  longest_win_streak = max s.longest_win_streak (s.win_streak + 1);
  current_type = win;
  current_count = s.win_streak + 1;
}
streak_step loss s = record s {
  loss_streak = s.loss_streak + 1;
  win_streak = 0;
  longest_loss_streak = max s.longest_loss_streak (s.loss_streak + 1);
  current_type = loss;
  current_count = s.loss_streak + 1;
}
streak_step flat s = record s {
  win_streak = 0;
  loss_streak = 0;
  current_type = flat;
  current_count = 0;
}

unfoldable pub streaks_from : Streaks → List Outcome → Streaks
unfolding streak_step
streaks_from s [] = s
streaks_from s (o ∷ os) = streaks_from (streak_step o s) os

unfoldable pub streaks : List Outcome → Streaks
unfolding streaks_from
streaks os = streaks_from no_streaks os
