-- ===== src/Tracking/Tally/Groups.antt =====
-- Each entry of a dictionary that is filled row by row, from the rows of its key alone.
use poly_cortex.Base.{
  ◌≡◌, refl, ◌∙◌, ap, Bool, false, Option, none, some, List, [], ◌∷◌, keep, if◌then◌else◌,
  Bool-cases, Option-cases, inl, inr, arith,
}
use poly_cortex.Tracking.Tally.{Key, lookup, update_or, add_to, tally_from, tally}

abbrev pub value_or : {V : Type 0} → V → Option V → V
value_or d none = d
value_or d (some v) = v

module _ {K V : Type 0} ⦃e : Key K⦄ where
  lookup-update_or :
      (k j : K) (d : V) (g : V → V) (m : List (K × V))
      → lookup j (update_or k d g m)
        ≡ (if e.beq k j then some (g (value_or d (lookup j m))) else lookup j m)
  unfolding lookup update_or
  lookup-update_or k j d g [] = refl
  lookup-update_or k j d g ((i, v) ∷ m) =
      ground (arith, e.beq_iff i k, e.beq_iff i j, e.beq_iff k j, lookup-update_or k j d g m)

  module _ {A : Type 0} (key : A → Option K) (d : V) (g : A → V → V) where
    abbrev pub has_key : K → A → Bool
    has_key k x = elim (key x) [ none ↦ false | some j ↦ e.beq j k ]

    -- What a list of items makes of an entry that may be there.
    abbrev pub folded : Option V → List A → Option V
    folded o [] = o
    folded o (x ∷ xs) = folded (some (g x (value_or d o))) xs

    lookup-add_to :
        (k : K) (m : List (K × V)) (x : A)
        → lookup k (add_to key d g m x)
          ≡ (if has_key k x then some (g x (value_or d (lookup k m))) else lookup k m)
    unfolding add_to
    lookup-add_to k m x = elim (Option-cases (key x)) [
      | inl absent ↦ rw (add_to, has_key, absent) refl
      | inr (j, present) ↦ rw (add_to, has_key, present) (lookup-update_or j k d (g x) m)
    ]

    pub lookup-tally_from :
        (k : K) (m : List (K × V)) (xs : List A)
        → lookup k (tally_from key d g m xs) ≡ folded (lookup k m) (keep (has_key k) xs)
    unfolding tally_from
    lookup-tally_from k m [] = refl
    lookup-tally_from k m (x ∷ xs) = elim (Bool-cases (has_key k x)) [
      | inl own ↦ rw own (
          lookup-tally_from k (add_to key d g m x) xs
          ∙ ap (λ o. folded o (keep (has_key k) xs)) (rw own at (lookup-add_to k m x)))
      | inr other ↦ rw other (
          lookup-tally_from k (add_to key d g m x) xs
          ∙ ap (λ o. folded o (keep (has_key k) xs)) (rw other at (lookup-add_to k m x)))
    ]

    -- The entry of a key is what the loop would make of the items of that key alone, in their order, and there is
    -- none where no item has the key.
    pub lookup-tally :
        (k : K) (xs : List A) → lookup k (tally key d g xs) ≡ folded none (keep (has_key k) xs)
    unfolding tally lookup
    lookup-tally k xs = lookup-tally_from k [] xs
