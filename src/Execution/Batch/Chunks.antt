-- ===== src/Execution/Batch/Chunks.antt =====
-- The specification of the batching: a list cut into pieces of one size, the last one shorter.
use poly_cortex.Base.{
  ℕ, zero, suc, ◌+◌, ◌≤◌, ◌<◌, ◌≡◌, refl, List, [], ◌∷◌, ◌++◌, length, take, drop, All, arith,
  take-append-drop, length-take, length-drop, length-append,
}

module _ {A : Type 0} where
  -- At most `rounds` pieces of `n`.
  unfoldable pub chunks : ℕ → ℕ → List A → List (List A)
  chunks zero n xs = []
  chunks (suc rounds) n [] = []
  chunks (suc rounds) n (x ∷ xs) = take n (x ∷ xs) ∷ chunks rounds n (drop n (x ∷ xs))

  abbrev pub flatten : List (List A) → List A
  flatten [] = []
  flatten (xs ∷ xss) = xs ++ flatten xss

  abbrev pub total : List (List A) → ℕ
  total [] = 0
  total (xs ∷ xss) = length xs + total xss

  -- The pieces are the whole list in its order.
  pub flatten-chunks :
      (rounds n : ℕ) (xs : List A) → 0 < n → length xs ≤ rounds → flatten (chunks rounds n xs) ≡ xs
  unfolding chunks
  flatten-chunks zero n [] pos h = refl
  flatten-chunks zero n (x ∷ xs) pos h = absurd (omega arith)
  flatten-chunks (suc rounds) n [] pos h = refl
  flatten-chunks (suc rounds) n (x ∷ xs) pos h =
      rw (flatten-chunks rounds n (drop n (x ∷ xs)) pos (omega (arith, length-drop n (x ∷ xs))))
        (take-append-drop n (x ∷ xs))

  -- No piece is empty or longer than `n`.
  pub chunks-bounded :
      (rounds n : ℕ) (xs : List A)
      → 0 < n
      → All (λ c. (0 < length c) × (length c ≤ n)) (chunks rounds n xs)
  unfolding chunks
  chunks-bounded zero n xs pos = tt
  chunks-bounded (suc rounds) n [] pos = tt
  chunks-bounded (suc rounds) n (x ∷ xs) pos = (
    (omega (arith, length-take n (x ∷ xs)), omega (arith, length-take n (x ∷ xs))),
    chunks-bounded rounds n (drop n (x ∷ xs)) pos,
  )

  pub total-flatten : (xss : List (List A)) → total xss ≡ length (flatten xss)
  total-flatten [] = refl
  total-flatten (xs ∷ xss) = omega (arith, total-flatten xss, length-append xs (flatten xss))
