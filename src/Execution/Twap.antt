-- ===== src/Execution/Twap.antt =====
-- src/polymarket_agent/execution/twap.py: a large order in slices at intervals. Times of the monotonic
-- clock are floats, and an operation that reads it takes the reading as an argument.
pub mod Slices
pub mod Stuck
mod Tests
use poly_cortex.Base.{
  ℕ, zero, suc, ◌+◌, ◌-◌, Bool, true, false, ◌&&◌, ◌||◌, not, Option, none, some, String, str_eq,
  concat, decimal, List, [], ◌∷◌, ◌++◌, map, if◌then◌else◌, length, get_elem?, any, all, leb,
  is_some, ◌==◌,
}
use poly_cortex.Float.{Float, nought, sum, div}

-- The texts of a slice's status.
pub data SliceStatus : Type 0 where
  pending submitted filled failed : SliceStatus

pub record TwapSlice (F : Type 0) : Type 0 where
  pub slice_id : String
  pub slice_number : ℕ
  pub token_id : String
  pub side : String
  pub size : F
  pub price_limit : F
  pub slice_status : SliceStatus
  pub fill_price : Option F
  pub fill_size : F

pub record TwapOrder (F : Type 0) : Type 0 where
  pub order_id : String
  pub token_id : String
  pub side : String
  pub total_size : F
  pub price_limit : F
  pub num_slices : ℕ
  pub interval_seconds : F
  pub randomize_size : Bool
  pub slices : List (TwapSlice F)
  pub next_slice_idx : ℕ
  pub last_slice_time : F
  pub was_cancelled : Bool

pub data TwapStatus : Type 0 where
  cancelled completed in_progress active : TwapStatus

abbrev pub is_filled : SliceStatus → Bool
is_filled filled = true
is_filled _ = false

abbrev pub is_sent : SliceStatus → Bool
is_sent submitted = true
is_sent filled = true
is_sent _ = false

abbrev pub is_waiting : SliceStatus → Bool
is_waiting pending = true
is_waiting submitted = true
is_waiting _ = false

-- What a client does with an order.
pub data Event (F : Type 0) : Type 0 where
  asks : F → Event F
  fills : String → F → F → Event F
  fails : String → Event F

module _ {F : Type 0} ⦃f : Float F⦄ where
  -- The slices from number `i` on; `random i` is the draw for slice `i`.
  pub build_from : TwapOrder F → F → (ℕ → F) → ℕ → ℕ → List (TwapSlice F)
  build_from o base_size random i zero = []
  build_from o base_size random i (suc left) =
      let factor = f.add (f.lit 8 1) (f.mul (random i) (f.lit 4 1)) in
      let size = if o.randomize_size then f.mul base_size factor else base_size in
      record {
        slice_id = concat o.order_id (concat "-s" (decimal i));
        slice_number = i;
        token_id = o.token_id;
        side = o.side;
        size = f.round size 2;
        price_limit = o.price_limit;
        slice_status = pending;
        fill_price = none;
        fill_size = nought;
      }
      ∷ build_from o base_size random (i + 1) left

  -- The difference to the total goes to the last slice.
  pub adjust_last : F → List (TwapSlice F) → List (TwapSlice F)
  adjust_last diff [] = []
  adjust_last diff (s ∷ []) = record s { size = f.round (f.add s.size diff) 2 } ∷ []
  adjust_last diff (s ∷ t ∷ ss) = s ∷ adjust_last diff (t ∷ ss)

  abbrev pub sizes : List (TwapSlice F) → List F
  sizes ss = map (λ s. s.size) ss

  -- `_build_slices`; `none` is the ZeroDivisionError of a count of zero.
  pub build_slices : (ℕ → F) → TwapOrder F → Option (TwapOrder F)
  unfolding build_from adjust_last
  build_slices random o = elim (div o.total_size (f.lit o.num_slices 0)) [
    | none ↦ none
    | some base_size ↦
        let built = o.slices ++ build_from o base_size random 0 o.num_slices in
        some (record o { slices = adjust_last (f.sub o.total_size (sum (sizes built))) built })
  ]

  pub post_init : (ℕ → F) → TwapOrder F → Option (TwapOrder F)
  unfolding build_slices
  post_init random o = elim o.slices [ [] ↦ build_slices random o | s ∷ ss ↦ some o ]

  pub all_filled : List (TwapSlice F) → Bool
  all_filled ss = all (λ s. is_filled s.slice_status) ss

  pub status : TwapOrder F → TwapStatus
  unfolding all_filled
  status o =
      if o.was_cancelled
      then cancelled
      else if all_filled o.slices
      then completed
      else if any (λ s. is_sent s.slice_status) o.slices
      then in_progress
      else active

  pub is_complete : TwapOrder F → Bool
  is_complete o = elim (status o) [ completed ↦ true | cancelled ↦ true | _ ↦ false ]

  -- `self._slices[i].status = "submitted"`
  pub mark_submitted : ℕ → List (TwapSlice F) → List (TwapSlice F)
  mark_submitted i [] = []
  mark_submitted zero (s ∷ ss) = record s { slice_status = submitted } ∷ ss
  mark_submitted (suc i) (s ∷ ss) = s ∷ mark_submitted i ss

  -- The interval has not passed since the last slice.
  pub too_early : F → TwapOrder F → Bool
  too_early now o =
      f.lt nought o.last_slice_time && f.lt (f.sub now o.last_slice_time) o.interval_seconds

  pub next_slice : F → TwapOrder F → TwapOrder F × Option (TwapSlice F)
  unfolding too_early
  next_slice now o =
      let sent = mark_submitted o.next_slice_idx o.slices in
      if is_complete o
      then (o, none)
      else if leb (length o.slices) o.next_slice_idx
      then (o, none)
      else if too_early now o
      then (o, none)
      else (
        record o { slices = sent; next_slice_idx = o.next_slice_idx + 1; last_slice_time = now },
        get_elem? sent o.next_slice_idx,
      )

  -- The first slice of that identifier is changed.
  pub update_slice :
      String → (TwapSlice F → TwapSlice F) → List (TwapSlice F) → List (TwapSlice F) × Bool
  update_slice id change [] = ([], false)
  update_slice id change (s ∷ ss) =
      let (ss', found) = update_slice id change ss in
      if str_eq s.slice_id id then (change s ∷ ss, true) else (s ∷ ss', found)

  abbrev pub filled_at : F → F → TwapSlice F → TwapSlice F
  filled_at price size s = record s {
    slice_status = filled;
    fill_price = some price;
    fill_size = size;
  }

  pub record_fill : String → F → F → TwapOrder F → TwapOrder F × Bool
  record_fill id price size o =
      let (ss, found) = update_slice id (filled_at price size) o.slices in
      (record o { slices = ss }, found)

  pub record_failure : String → TwapOrder F → TwapOrder F × Bool
  record_failure id o =
      let (ss, found) = update_slice id (λ s. record s { slice_status = failed }) o.slices in
      (record o { slices = ss }, found)

  pub fail_waiting : TwapSlice F → TwapSlice F
  fail_waiting s = if is_waiting s.slice_status then record s { slice_status = failed } else s

  pub cancel : TwapOrder F → TwapOrder F
  unfolding fail_waiting
  cancel o = record o { was_cancelled = true; slices = map fail_waiting o.slices }

  pub apply : Event F → TwapOrder F → TwapOrder F
  apply (asks now) o = (next_slice now o).0
  apply (fills id p q) o = (record_fill id p q o).0
  apply (fails id) o = (record_failure id o).0

  pub run : List (Event F) → TwapOrder F → TwapOrder F
  run [] o = o
  run (e ∷ es) o = run es (apply e o)
