-- ===== src/Execution/Twap/Stuck.antt =====
-- What becomes of an order with a failed slice.
use poly_cortex.Base.{
  ◌≤◌, ◌≡◌, refl, Bool, true, false, List, [], ◌∷◌, map, length, any, arith, subst, sym,
}
use poly_cortex.Float.{Float}
use poly_cortex.Execution.Twap.{
  SliceStatus, failed, TwapSlice, TwapOrder, all_filled, status, is_complete, next_slice, asks,
  apply, run,
}

abbrev pub is_failed : SliceStatus → Bool
is_failed failed = true
is_failed _ = false

module _ {F : Type 0} ⦃f : Float F⦄ where
  abbrev pub any_failed : List (TwapSlice F) → Bool
  any_failed ss = any (λ s. is_failed s.slice_status) ss

  failed-not_filled : (ss : List (TwapSlice F)) → any_failed ss ≡ true → all_filled ss ≡ false
  unfolding all_filled
  failed-not_filled [] h = cc
  failed-not_filled (s ∷ ss) h = ground (arith, failed-not_filled ss)

  -- While a slice has failed, an order that is not cancelled is not complete.
  pub is_complete-failed :
      (o : TwapOrder F)
      → o.was_cancelled ≡ false
      → any_failed o.slices ≡ true
      → is_complete o ≡ false
  unfolding is_complete status
  is_complete-failed o open_ h = ground (arith, failed-not_filled o.slices h)

  next_slice-out :
      (now : F) (o : TwapOrder F) → length o.slices ≤ o.next_slice_idx → (next_slice now o).0 ≡ o
  unfolding next_slice
  next_slice-out now o out = ground arith

  -- When every slice has been given out and one has failed, the order is not complete, and asking for
  -- slices, however often and at whatever times, changes nothing.
  pub run-failed :
      (times : List F) (o : TwapOrder F)
      → o.was_cancelled ≡ false
      → any_failed o.slices ≡ true
      → length o.slices ≤ o.next_slice_idx
      → (run (map asks times) o ≡ o) × (is_complete (run (map asks times) o) ≡ false)
  unfolding run apply
  run-failed [] o open_ h out = (refl, is_complete-failed o open_ h)
  run-failed (t ∷ ts) o open_ h out =
      let after = run (map asks ts) in
      subst (λ x. (after x ≡ o) × (is_complete (after x) ≡ false)) (sym (next_slice-out t o out))
        (run-failed ts o open_ h out)
