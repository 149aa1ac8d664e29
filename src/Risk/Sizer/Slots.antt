-- ===== src/Risk/Sizer/Slots.antt =====
-- What `calculate_position` of risk/sizer.py does where no slot is free.
use poly_cortex.Base.{◌≡◌, refl, true, Bool, some, List, length, count, leb, ◌||◌, arith}
use poly_cortex.Float.{Float, nought}
use poly_cortex.Risk.Sizer.{
  UnifiedPositionSizer, EdgeResult, Position, place, in_category, calculate_position,
  update_bankroll,
}

module _ {F : Type 0} ⦃f : Float F⦄ where
  -- Every slot, or every slot of the category, is taken.
  abbrev pub is_full : UnifiedPositionSizer F → EdgeResult F → List (Position F) → Bool
  is_full s e positions =
      leb s.max_positions (length positions)
      || leb s.max_per_category (count (in_category e.category) positions)

  place-full :
      (s : UnifiedPositionSizer F) (e : EdgeResult F) (positions : List (Position F)) (m k : F)
      → is_full s e positions ≡ true
      → place s e positions m k ≡ nought
  unfolding place
  place-full s e positions m k full = ground (arith, full)

  pub calculate_position-full :
      (s : UnifiedPositionSizer F) (e : EdgeResult F) (positions : List (Position F)) (m size : F)
      → is_full s e positions ≡ true
      → calculate_position s e positions m ≡ some size
      → size ≡ nought
  unfolding calculate_position
  calculate_position-full s e positions m size full h =
      ground (arith, place-full s e positions m, full, h)

  pub update_bankroll-slots :
      (x : F) (s : UnifiedPositionSizer F)
      → ((update_bankroll x s).max_positions ≡ s.max_positions)
        × ((update_bankroll x s).max_per_category ≡ s.max_per_category)
  unfolding update_bankroll
  update_bankroll-slots x s = (refl, refl)
