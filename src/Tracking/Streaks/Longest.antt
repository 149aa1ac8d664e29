-- ===== src/Tracking/Streaks/Longest.antt =====
-- The streaks of `get_metrics` against the runs of equal outcomes in the list.
use poly_cortex.Base.{
  ℕ, suc, ◌+◌, ◌≡◌, ◌≤◌, refl, ◌∙◌, max, Bool, true, false, List, [], ◌∷◌, arith, if◌then◌else◌,
  ◌==◌, length,
}
use poly_cortex.Tracking.Streaks.{
  Outcome, win, loss, flat, Streaks, streaks, streaks_from, streak_step, no_streaks,
}

abbrev pub same : Outcome → Outcome → Bool
same win win = true
same loss loss = true
same flat flat = true
same _ _ = false

-- How many outcomes at the head are `o`.
pub leading : Outcome → List Outcome → ℕ
leading o [] = 0
leading o (x ∷ xs) = if same o x then suc (leading o xs) else 0

-- The length of the longest run of `o`, wherever it starts.
pub longest_run : Outcome → List Outcome → ℕ
longest_run o [] = 0
longest_run o (x ∷ xs) = max (leading o (x ∷ xs)) (longest_run o xs)

-- How many outcomes at the end are `o`: all, or those at the end of what follows the first.
pub trailing : Outcome → List Outcome → ℕ
unfolding leading
trailing o [] = 0
trailing o (x ∷ xs) =
    if leading o (x ∷ xs) == suc (length xs) then suc (length xs) else trailing o xs

-- The last outcome, of `x` and those that follow it.
abbrev pub last_of : Outcome → List Outcome → Outcome
last_of x [] = x
last_of x (y ∷ ys) = last_of y ys

-- How long the streak at the end is; what is flat has none.
abbrev pub closing_run : Outcome → List Outcome → ℕ
closing_run win os = trailing win os
closing_run loss os = trailing loss os
closing_run flat os = 0

-- The two kinds of streak, and their counters.
abbrev kind : Bool → Outcome
kind true = win
kind false = loss

abbrev streak_of : Bool → Streaks → ℕ
streak_of true s = s.win_streak
streak_of false s = s.loss_streak

abbrev longest_of : Bool → Streaks → ℕ
longest_of true s = s.longest_win_streak
longest_of false s = s.longest_loss_streak

abbrev current_of : Outcome → Streaks → ℕ
current_of win s = s.win_streak
current_of loss s = s.loss_streak
current_of flat s = 0

streak_of-step :
    (k : Bool) (x : Outcome) (s : Streaks)
    → streak_of k (streak_step x s) ≡ (if same (kind k) x then suc (streak_of k s) else 0)
unfolding streak_step
streak_of-step true win s = omega arith
streak_of-step true loss s = refl
streak_of-step true flat s = refl
streak_of-step false win s = refl
streak_of-step false loss s = omega arith
streak_of-step false flat s = refl

longest_of-step :
    (k : Bool) (x : Outcome) (s : Streaks)
    → longest_of k (streak_step x s)
      ≡ (if same (kind k) x then max (longest_of k s) (suc (streak_of k s)) else longest_of k s)
unfolding streak_step
longest_of-step true win s = omega arith
longest_of-step true loss s = refl
longest_of-step true flat s = refl
longest_of-step false win s = refl
longest_of-step false loss s = omega arith
longest_of-step false flat s = refl

leading-le-longest : (o : Outcome) (xs : List Outcome) → leading o xs ≤ longest_run o xs
unfolding longest_run leading
leading-le-longest o [] = omega arith
leading-le-longest o (x ∷ xs) = ground arith

trailing_full :
    (o : Outcome) (xs : List Outcome) → leading o xs ≡ length xs → trailing o xs ≡ length xs
unfolding trailing leading
trailing_full o [] h = refl
trailing_full o (x ∷ xs) h = ground arith

longest-streaks_from :
    (k : Bool) (s : Streaks) (os : List Outcome)
    → streak_of k s ≤ longest_of k s
    → longest_of k (streaks_from s os)
      ≡ max (longest_of k s) (max (streak_of k s + leading (kind k) os) (longest_run (kind k) os))
unfolding streaks_from leading longest_run
longest-streaks_from k s [] h = omega arith
longest-streaks_from k s (x ∷ xs) h = ground (
  arith,
  longest-streaks_from k (streak_step x s) xs,
  streak_of-step k x s,
  longest_of-step k x s,
  leading-le-longest (kind k) xs,
)

streak-streaks_from :
    (k : Bool) (s : Streaks) (os : List Outcome)
    → streak_of k (streaks_from s os) ≡ (
        if leading (kind k) os == length os
        then streak_of k s + length os
        else trailing (kind k) os)
unfolding streaks_from leading trailing
streak-streaks_from k s [] = omega arith
streak-streaks_from k s (x ∷ xs) = ground (
  arith,
  streak-streaks_from k (streak_step x s) xs,
  streak_of-step k x s,
  trailing_full (kind k) xs,
)

current-streaks_from :
    (s : Streaks) (x : Outcome) (os : List Outcome)
    → ((streaks_from s (x ∷ os)).current_type ≡ last_of x os)
      × ((streaks_from s (x ∷ os)).current_count
          ≡ current_of (last_of x os) (streaks_from s (x ∷ os)))
unfolding streaks_from streak_step
current-streaks_from s win [] = (refl, refl)
current-streaks_from s loss [] = (refl, refl)
current-streaks_from s flat [] = (refl, refl)
current-streaks_from s x (y ∷ os) = current-streaks_from (streak_step x s) y os

streak-streaks : (k : Bool) (os : List Outcome) → streak_of k (streaks os) ≡ trailing (kind k) os
unfolding streaks
streak-streaks k os = ground (arith, streak-streaks_from k no_streaks os, trailing_full (kind k) os)

longest-streaks :
    (k : Bool) (os : List Outcome) → longest_of k (streaks os) ≡ longest_run (kind k) os
unfolding streaks
longest-streaks k os =
    ground (arith, longest-streaks_from k no_streaks os, leading-le-longest (kind k) os)

current_of-closing :
    (o : Outcome) (os : List Outcome) → current_of o (streaks os) ≡ closing_run o os
current_of-closing win os = streak-streaks true os
current_of-closing loss os = streak-streaks false os
current_of-closing flat os = refl

-- The counters of the loop are what they are named for: the longest streak of either kind is the longest run of
-- wins, or of losses, that starts anywhere in the list; and the current streak has the type of the last
-- outcome, with the number of equal outcomes at the end of the list, or 0 where the last one is flat.
pub streaks_lem :
    (os : List Outcome)
    → ((streaks os).longest_win_streak ≡ longest_run win os)
      × ((streaks os).longest_loss_streak ≡ longest_run loss os)
      × ((streaks os).current_type ≡ last_of flat os)
      × ((streaks os).current_count ≡ closing_run (last_of flat os) os)
unfolding streaks
streaks_lem [] = (longest-streaks true [], longest-streaks false [], refl, refl)
streaks_lem (x ∷ os) =
    let (type, number) = current-streaks_from no_streaks x os in
    (
      longest-streaks true (x ∷ os),
      longest-streaks false (x ∷ os),
      type,
      number ∙ current_of-closing (last_of x os) (x ∷ os),
    )
