-- ===== src/Tracking/Tally.antt =====
-- The dictionaries that `get_metrics` of src/polymarket_agent/tracking/tracker.py fills row by row, by
-- `setdefault` or `get` with a default.
pub mod Groups
use poly_cortex.Base.{
  ℕ, ◌≡◌, ◌↔◌, Bool, true, false, Option, none, some, List, [], ◌∷◌, String, str_eq, eq_iff, ◌==◌,
  ==_iff, if◌then◌else◌,
}

pub record Key {ℓ} (K : Type ℓ) : Type ℓ where
  pub beq : K → K → Bool
  pub beq_iff : (a b : K) → (beq a b ≡ true) ↔ (a ≡ b)

instance abbrev pub text_key : Key String
text_key = record { beq = str_eq; beq_iff = eq_iff }

instance abbrev pub number_key : Key ℕ
number_key = record { beq = ◌==◌; beq_iff = ==_iff }

module _ {K V : Type 0} ⦃e : Key K⦄ where
  unfoldable pub lookup : K → List (K × V) → Option V
  lookup k [] = none
  lookup k ((j, v) ∷ m) = if e.beq j k then some v else lookup k m

  -- The value of the key, or the default, is updated.
  unfoldable pub update_or : K → V → (V → V) → List (K × V) → List (K × V)
  update_or k d g [] = (k, g d) ∷ []
  update_or k d g ((j, v) ∷ m) = if e.beq j k then (j, g v) ∷ m else (j, v) ∷ update_or k d g m

  -- A loop over items, of which those without a key are passed over.
  module _ {A : Type 0} (key : A → Option K) (d : V) (g : A → V → V) where
    unfoldable pub add_to : List (K × V) → A → List (K × V)
    unfolding update_or
    add_to m x = elim (key x) [ none ↦ m | some k ↦ update_or k d (g x) m ]

    unfoldable pub tally_from : List (K × V) → List A → List (K × V)
    unfolding add_to
    tally_from m [] = m
    tally_from m (x ∷ xs) = tally_from (add_to m x) xs

    unfoldable pub tally : List A → List (K × V)
    unfolding tally_from
    tally xs = tally_from [] xs
