-- ===== src/Execution/Executor/Placements.antt =====
-- The placements that execution/executor.py notes, and what its cleaning leaves of them.
use poly_cortex.Base.{
  ℕ, suc, ◌+◌, ◌*◌, ◌≤◌, ltb, leb, ◌≡◌, refl, Bool, true, false, ◌&&◌, List, [], ◌∷◌, any, keep,
  length, arith, inl, inr, Bool-cases, eq_iff,
}
use poly_cortex.Execution.Executor.Guard.{
  Placement, same_key, note_placement, cap_placements, cleanup_recent_placements, is_duplicate,
}

any-keep :
    {A : Type 0} (p q : A → Bool) (xs : List A)
    → any (λ x. p x && q x) xs ≡ true
    → any p (keep q xs) ≡ true
any-keep p q [] h = h
any-keep p q (x ∷ xs) h = ground (arith, any-keep p q xs)

length-keep : {A : Type 0} (q : A → Bool) (xs : List A) → length (keep q xs) ≤ length xs
length-keep q [] = omega arith
length-keep q (x ∷ xs) = ground (arith, length-keep q xs)

-- A placement that stands for a key and is young enough at a time.
abbrev pub holds : ℕ → Placement → ℕ → Placement → Bool
holds window key now p = same_key key p && leb now (p.at + window * 1000000)

pub note_placement-holds :
    (window now : ℕ) (key p : Placement) (ps : List Placement)
    → holds window key now p ≡ true
    → any (holds window key now) (note_placement p ps) ≡ true
unfolding note_placement
note_placement-holds window now key p [] h = ground arith
note_placement-holds window now key p (q ∷ qs) h =
    ground (arith, note_placement-holds window now key p qs h)

pub length-note_placement :
    (p : Placement) (ps : List Placement) → length (note_placement p ps) ≤ suc (length ps)
unfolding note_placement
length-note_placement p [] = omega arith
length-note_placement p (q ∷ qs) = ground (arith, length-note_placement p qs)

cap_placements-small : (ps : List Placement) → length ps ≤ 10000 → cap_placements ps ≡ ps
unfolding cap_placements
cap_placements-small ps h =
    let small : ltb 10000 (length ps) ≡ false = ground arith in rw small refl

length-cap_placements : (ps : List Placement) → length (cap_placements ps) ≤ length ps
unfolding cap_placements
length-cap_placements ps = elim (Bool-cases (ltb 10000 (length ps))) [
  | inl h ↦ rw h (length-keep _ ps)
  | inr h ↦ rw h (omega arith)
]

pub length-cleanup_recent_placements :
    (window now : ℕ) (ps : List Placement)
    → length (cleanup_recent_placements window now ps) ≤ length ps
unfolding cleanup_recent_placements
length-cleanup_recent_placements window now ps =
    let young = λ (p : Placement). leb now (p.at + window * 1000000) in
    omega (arith, length-cap_placements (keep young ps), length-keep young ps)

pub is_duplicate-holds :
    (window now : ℕ) (key : Placement) (ps : List Placement)
    → length ps ≤ 10000
    → any (holds window key now) ps ≡ true
    → (is_duplicate window now key ps).0 ≡ true
unfolding is_duplicate cleanup_recent_placements
is_duplicate-holds window now key ps h k =
    let young = λ (p : Placement). leb now (p.at + window * 1000000) in
    let small : length (keep young ps) ≤ 10000 = omega (arith, h, length-keep young ps) in
    rw (cap_placements-small (keep young ps) small) (any-keep (same_key key) young ps k)

any-and :
    {A : Type 0} (p q : A → Bool) (xs : List A)
    → ((x : A) → p x ≡ true → q x ≡ true)
    → any p xs ≡ true
    → any (λ x. p x && q x) xs ≡ true
any-and p q [] h k = k
any-and p q (x ∷ xs) h k = ground (arith, h x, k, any-and p q xs h)

pub cleanup-holds :
    (window now later : ℕ) (key : Placement) (ps : List Placement)
    → now ≤ later
    → length ps ≤ 10000
    → any (holds window key later) ps ≡ true
    → any (holds window key later) (cleanup_recent_placements window now ps) ≡ true
unfolding cleanup_recent_placements
cleanup-holds window now later key ps order small h =
    let young = λ (p : Placement). leb now (p.at + window * 1000000) in
    let short : length (keep young ps) ≤ 10000 = omega (arith, small, length-keep young ps) in
    rw (cap_placements-small (keep young ps) short) (
      any-keep (holds window key later) young ps
        (any-and (holds window key later) young ps (λ p k. ground (arith, order, k)) h))

-- A placement of the same key that is noted later stands for it as well.
holds-same :
    (window now : ℕ) (key p q : Placement)
    → now ≤ p.at + window * 1000000
    → same_key p q ≡ true
    → holds window key now q ≡ true
    → holds window key now p ≡ true
holds-same window now key p q young same h = ground (
  arith,
  young,
  same,
  h,
  eq_iff p.market_id q.market_id,
  eq_iff p.direction q.direction,
  eq_iff p.order_kind q.order_kind,
)

pub note_placement-keeps :
    (window : ℕ) (key p : Placement) (now : ℕ) (ps : List Placement)
    → now ≤ p.at + window * 1000000
    → any (holds window key now) ps ≡ true
    → any (holds window key now) (note_placement p ps) ≡ true
unfolding note_placement
note_placement-keeps window key p now [] young h = absurd (ground (arith, h))
note_placement-keeps window key p now (q ∷ qs) young h =
    ground
      (arith, young, h, holds-same window now key p q, note_placement-keeps window key p now qs)
