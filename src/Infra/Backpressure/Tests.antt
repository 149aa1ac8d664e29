-- ===== src/Infra/Backpressure/Tests.antt =====
-- A run of the signal queue, and the theorem at a concrete input.
use poly_cortex.Base.{ℕ, ◌≡◌, refl, false, List, [], ◌∷◌}
use poly_cortex.Infra.Backpressure.{init, put, full, get}
use poly_cortex.Infra.Backpressure.Order.{Event, puts, gets, apply, run, fresh}

-- Three signals for a queue of two, then one is taken.
abbrev burst : List (Event ℕ)
burst = puts 7 false ∷ puts 8 false ∷ puts 9 false ∷ gets ∷ []

-- The last signal that came is the one that is dropped.
newest_dropped : (run burst (fresh 2)).went_in ≡ 7 ∷ 8 ∷ []
unfolding run apply put full get init
newest_dropped = refl
