-- ===== src/Execution/Batch/Flush.antt =====
-- The loop of `flush` of execution/batch.py against the pieces of the queue.
use poly_cortex.Base.{
  ℕ, zero, suc, ◌≤◌, ◌<◌, ◌≡◌, ◌∙◌, ap, refl, Bool, Option, none, some, List, [], ◌∷◌, length, take,
  drop, All, arith, length-drop,
}
use poly_cortex.Float.{Float}
use poly_cortex.Execution.Batch.{
  PendingOrder, BatchResult, Clob, BatchOrderManager, max_batch_limit, init, add, submit_batch,
  settle, settle_paper, cons_result, flush_loop, flush,
}
use poly_cortex.Execution.Batch.Chunks.{chunks, flatten, flatten-chunks, chunks-bounded}

module _ {F : Type 0} ⦃f : Float F⦄ (elapsed : ℕ → F) where
  -- One submission after another.
  unfoldable pub submit_all :
      List (List (PendingOrder F))
      → BatchOrderManager F
      → List (BatchResult F) × BatchOrderManager F
  submit_all [] m = ([], m)
  submit_all (b ∷ bs) m =
      let (r, m') = submit_batch elapsed b m in let (rs, m'') = submit_all bs m' in (r ∷ rs, m'')

  submit_batch-keeps :
      (b : List (PendingOrder F)) (m : BatchOrderManager F)
      → let m' = (submit_batch elapsed b m).1 in
        (m'.pending ≡ m.pending) × (m'.max_batch_size ≡ m.max_batch_size)
  unfolding submit_batch settle settle_paper
  submit_batch-keeps b m = ground arith

  -- The queue does not matter to a submission.
  submit_batch-pending :
      (b p : List (PendingOrder F)) (m : BatchOrderManager F)
      → let (r, m') = submit_batch elapsed b m in
        submit_batch elapsed b (record m { pending = p }) ≡ (r, record m' { pending = p })
  unfolding submit_batch settle settle_paper
  submit_batch-pending b p m = ground arith

  flush_loop-chunks :
      (fuel : ℕ) (q : List (PendingOrder F)) (m : BatchOrderManager F)
      → 0 < m.max_batch_size
      → length q ≤ fuel
      → flush_loop fuel elapsed (record m { pending = q })
        ≡ some (submit_all (chunks fuel m.max_batch_size q) (record m { pending = [] }))
  unfolding flush_loop chunks submit_all
  flush_loop-chunks zero [] m pos h = refl
  flush_loop-chunks zero (o ∷ os) m pos h = absurd (omega arith)
  flush_loop-chunks (suc fuel) [] m pos h = refl
  flush_loop-chunks (suc fuel) (o ∷ os) m pos h =
      let b = take m.max_batch_size (o ∷ os) in
      let rest = drop m.max_batch_size (o ∷ os) in
      let empty = record m { pending = [] } in
      let m' = (submit_batch elapsed b empty).1 in
      let kept = submit_batch-keeps b empty in
      ground (
        arith,
        submit_batch-pending b rest empty,
        kept,
        flush_loop-chunks fuel rest m' (omega (arith, kept))
            (omega (arith, length-drop m.max_batch_size (o ∷ os))),
      )

  flush_loop-zero :
      (fuel : ℕ) (o : PendingOrder F) (os : List (PendingOrder F)) (m : BatchOrderManager F)
      → m.max_batch_size ≡ 0
      → m.pending ≡ o ∷ os
      → flush_loop fuel elapsed m ≡ none
  unfolding flush_loop
  flush_loop-zero zero o os m z h = rw (h, flush_loop)
  flush_loop-zero (suc fuel) o os m z h =
      let rest = record m { pending = drop m.max_batch_size m.pending } in
      let b = take m.max_batch_size m.pending in
      let kept = submit_batch-keeps b rest in
      let same : drop m.max_batch_size m.pending ≡ o ∷ os = rw z h in
      let m' = (submit_batch elapsed b rest).1 in
      let ih = flush_loop-zero fuel o os m' (kept.1 ∙ z) (kept.0 ∙ same) in
      rw (h, flush_loop) (ap (cons_result (submit_batch elapsed b rest).0) ih)

module _ {F : Type 0} ⦃f : Float F⦄ where
  -- With a batch size above zero `flush` ends and empties the queue: it submits, one after another,
  -- the pieces of the queue, which are the pending orders in their order and hold at least one and at
  -- most a batch of them each.
  pub flush-chunks :
      (elapsed : ℕ → F) (m : BatchOrderManager F)
      → 0 < m.max_batch_size
      → let pieces = chunks (length m.pending) m.max_batch_size m.pending in
        (flush elapsed m ≡ some (submit_all elapsed pieces (record m { pending = [] })))
        × (flatten pieces ≡ m.pending)
        × All (λ c. (0 < length c) × (length c ≤ m.max_batch_size)) pieces
  unfolding flush
  flush-chunks elapsed m pos = (
    flush_loop-chunks elapsed (length m.pending) m.pending m pos (omega arith),
    flatten-chunks (length m.pending) m.max_batch_size m.pending pos (omega arith),
    chunks-bounded (length m.pending) m.max_batch_size m.pending pos,
  )

  -- With a batch size of zero, which the constructor accepts, the loop of `flush` never ends while
  -- an order is pending: no number of rounds is enough.
  pub flush_loop-init_zero :
      (clob : Option (Clob F)) (dry : Bool) (o : PendingOrder F) (fuel : ℕ) (elapsed : ℕ → F)
      → flush_loop fuel elapsed (add o (init clob 0 dry)).0 ≡ none
  unfolding init add max_batch_limit
  flush_loop-init_zero clob dry o fuel elapsed =
      flush_loop-zero elapsed fuel o [] (add o (init clob 0 dry)).0 (omega arith) refl
