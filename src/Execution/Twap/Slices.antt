-- ===== src/Execution/Twap/Slices.antt =====
-- How the slices are built, given out, filled and cancelled.
use poly_cortex.Base.{
  ℕ, zero, suc, ◌+◌, ◌≡◌, refl, true, false, Option, none, some, String, str_eq, List, [], ◌∷◌,
  ◌++◌, map, length, any, arith, if◌then◌else◌, is_some, eq_iff, All, keep, ◌∙◌, map_option,
}
use poly_cortex.Float.{Float, ◌≺◌, nought, sum, IsOrdered, div-pos}
use poly_cortex.Execution.Twap.{
  pending, TwapSlice, TwapOrder, cancelled, is_filled, is_waiting, build_from, adjust_last,
  build_slices, status, is_complete, too_early, next_slice, update_slice, filled_at, record_fill,
  fail_waiting, cancel, sizes,
}

module _ {F : Type 0} ⦃f : Float F⦄ where
  length-build_from :
      (o : TwapOrder F) (base : F) (random : ℕ → F) (i left : ℕ)
      → length (build_from o base random i left) ≡ left
  unfolding build_from
  length-build_from o base random i zero = refl
  length-build_from o base random i (suc left) =
      omega (arith, length-build_from o base random (i + 1) left)

  length-adjust_last : (d : F) (ss : List (TwapSlice F)) → length (adjust_last d ss) ≡ length ss
  unfolding adjust_last
  length-adjust_last d [] = refl
  length-adjust_last d (s ∷ []) = refl
  length-adjust_last d (s ∷ t ∷ ss) = omega (arith, length-adjust_last d (t ∷ ss))

  -- What nothing has been done with yet.
  abbrev IsFresh : TwapSlice F → Type 0
  IsFresh s = s.slice_status ≡ pending

  build_from-IsFresh :
      (o : TwapOrder F) (base : F) (random : ℕ → F) (i left : ℕ)
      → All IsFresh (build_from o base random i left)
  unfolding build_from
  build_from-IsFresh o base random i zero = tt
  build_from-IsFresh o base random i (suc left) =
      (refl, build_from-IsFresh o base random (i + 1) left)

  adjust_last-IsFresh :
      (d : F) (ss : List (TwapSlice F)) → All IsFresh ss → All IsFresh (adjust_last d ss)
  unfolding adjust_last
  adjust_last-IsFresh d [] h = tt
  adjust_last-IsFresh d (s ∷ []) h = h
  adjust_last-IsFresh d (s ∷ t ∷ ss) h = (h.0, adjust_last-IsFresh d (t ∷ ss) h.1)

  -- With a count that is above zero as a float, building a new order's slices raises nothing and
  -- gives as many as the count, all pending.
  pub build_slices-total :
      (laws : IsOrdered F) (random : ℕ → F) (o : TwapOrder F)
      → nought ≺ f.lit o.num_slices 0
      → o.slices ≡ []
      → (o' : TwapOrder F) × (build_slices random o ≡ some o')
        × (length o'.slices ≡ o.num_slices)
        × All IsFresh o'.slices
  unfolding build_slices
  build_slices-total laws random o h new =
      let base = f.quot o.total_size (f.lit o.num_slices 0) in
      let built = o.slices ++ build_from o base random 0 o.num_slices in
      let out = adjust_last (f.sub o.total_size (sum (sizes built))) built in
      let fresh : All IsFresh built = rw new (build_from-IsFresh o base random 0 o.num_slices) in
      let count : length built ≡ o.num_slices =
        rw new (length-build_from o base random 0 o.num_slices) in
      (
        record o { slices = out },
        rw (div-pos laws o.total_size (f.lit o.num_slices 0) h, build_slices),
        length-adjust_last _ built ∙ count,
        adjust_last-IsFresh _ built fresh,
      )

  none_waiting :
      (ss : List (TwapSlice F)) → any (λ s. is_waiting s.slice_status) (map fail_waiting ss) ≡ false
  unfolding fail_waiting
  none_waiting [] = refl
  none_waiting (s ∷ ss) = ground (arith, none_waiting ss)

  filled_kept :
      (ss : List (TwapSlice F))
      → keep (λ s. is_filled s.slice_status) (map fail_waiting ss)
        ≡ keep (λ s. is_filled s.slice_status) ss
  unfolding fail_waiting
  filled_kept [] = refl
  filled_kept (s ∷ ss) = ground (arith, filled_kept ss)

  -- `cancel` is final: the status is "cancelled", no slice waits any longer, the filled slices are
  -- as before, and no further slice is given out.
  pub cancel-final :
      (o : TwapOrder F) (now : F)
      → (status (cancel o) ≡ cancelled)
        × (any (λ s. is_waiting s.slice_status) (cancel o).slices ≡ false)
        × (keep (λ s. is_filled s.slice_status) (cancel o).slices
            ≡ keep (λ s. is_filled s.slice_status) o.slices)
        × (next_slice now (cancel o) ≡ (cancel o, none))
  unfolding cancel status next_slice is_complete
  cancel-final o now = (refl, none_waiting o.slices, filled_kept o.slices, refl)

  next_slice-time :
      (now : F) (o : TwapOrder F)
      → is_some (next_slice now o).1 ≡ true
      → ((next_slice now o).0.last_slice_time ≡ now)
        × ((next_slice now o).0.interval_seconds ≡ o.interval_seconds)
  unfolding next_slice
  next_slice-time now o given = ground arith

  next_slice-early :
      (now : F) (o : TwapOrder F) → too_early now o ≡ true → next_slice now o ≡ (o, none)
  unfolding next_slice
  next_slice-early now o h = ground arith

  -- After a slice is given out at a time above zero, no other is until the interval has passed.
  pub next_slice-spaced :
      (now later : F) (o : TwapOrder F)
      → nought ≺ now
      → is_some (next_slice now o).1 ≡ true
      → f.lt (f.sub later now) o.interval_seconds ≡ true
      → next_slice later (next_slice now o).0 ≡ ((next_slice now o).0, none)
  unfolding too_early
  next_slice-spaced now later o p given soon =
      let o' = (next_slice now o).0 in
      let (time, interval) = next_slice-time now o given in
      next_slice-early later o' (rw (time, interval, p) soon)

  -- The first slice of an identifier.
  abbrev pub find : String → List (TwapSlice F) → Option (TwapSlice F)
  find id [] = none
  find id (s ∷ ss) = if str_eq s.slice_id id then some s else find id ss

  update_slice-find :
      (id id' : String) (change : TwapSlice F → TwapSlice F) (ss : List (TwapSlice F))
      → ((s : TwapSlice F) → (change s).slice_id ≡ s.slice_id)
      → let (ss', found) = update_slice id change ss in
        (found ≡ is_some (find id ss))
        × (find id' ss' ≡ (if str_eq id id' then map_option change (find id' ss) else find id' ss))
        × (length ss' ≡ length ss)
  unfolding update_slice
  update_slice-find id id' change [] same = ground arith
  update_slice-find id id' change (s ∷ ss) same = ground (
    arith,
    same s,
    eq_iff s.slice_id id,
    eq_iff s.slice_id id',
    eq_iff id id',
    update_slice-find id id' change ss same,
  )

  -- `record_fill` reports whether a slice has the identifier; if so, the first such slice is filled at
  -- that price and size, and what any other identifier finds is unchanged.
  pub record_fill-find :
      (id id' : String) (price size : F) (o : TwapOrder F)
      → let (o', found) = record_fill id price size o in
        (found ≡ is_some (find id o.slices))
        × (find id' o'.slices ≡ (
            if str_eq id id'
            then map_option (filled_at price size) (find id' o.slices)
            else find id' o.slices))
  unfolding record_fill
  record_fill-find id id' price size o =
      let (found, finds, _) =
        update_slice-find id id' (filled_at price size) o.slices (λ s. refl) in
      (found, finds)
