-- ===== src/Execution/Batch/Counts.antt =====
-- The totals of the manager of execution/batch.py.
use poly_cortex.Base.{
  ℕ, ◌+◌, ◌≤◌, ◌<◌, ◌≡◌, refl, Bool, true, false, Option, none, some, List, [], ◌∷◌, length, arith,
  ap, ◌∙◌, length-append, if◌then◌else◌,
}
use poly_cortex.Base.Int.{pos, ◌+ℤ◌, pos_part, neg_part, parts_of_eq, int_laws}
use poly_cortex.Float.{Float}
use poly_cortex.Execution.Batch.{
  PendingOrder, BatchResult, Clob, BatchOrderManager, init, submit_batch, settle, settle_paper,
  flush, post_each, submit_live, Collected, OrderReply, order_reply, collect_order,
}
use poly_cortex.Execution.Batch.Chunks.{chunks, total, total-flatten}
use poly_cortex.Execution.Batch.Flush.{submit_all, flush-chunks}

length-collect_order : (i : ℕ) (r : OrderReply) → length (collect_order i r).0 ≤ 1
length-collect_order i (order_reply a b) = ground arith
length-collect_order i _ = omega arith

module _ {F : Type 0} ⦃f : Float F⦄ where
  -- What was submitted has succeeded or failed.
  abbrev pub IsAccounted : BatchOrderManager F → Type 0
  IsAccounted m = pos m.total_submitted ≡ pos m.total_succeeded +ℤ m.total_failed

  abbrev pub submitted : List (BatchResult F) → ℕ
  submitted [] = 0
  submitted (r ∷ rs) = r.submitted_count + submitted rs

  -- What one submission of `n` orders does to the totals, after `before` earlier orders.
  record Counted (n before : ℕ) (out : BatchResult F × BatchOrderManager F) : Type 0 where
    accounted : IsAccounted out.1
    all_submitted : out.0.submitted_count ≡ n
    grown : out.1.total_submitted ≡ before + n
    balanced : pos out.0.submitted_count ≡ pos out.0.success_count +ℤ out.0.failed_count

  known :
      (m : BatchOrderManager F)
      → IsAccounted m
      → let failed = m.total_failed in
        m.total_submitted + neg_part (pos m.total_succeeded +ℤ failed)
        ≡ pos_part (pos m.total_succeeded +ℤ failed) + 0
  known m h = parts_of_eq (pos m.total_submitted) (pos m.total_succeeded +ℤ m.total_failed) h

  settle-Counted :
      (id : ℕ) (e : F) (b : List (PendingOrder F)) (c : Collected) (m : BatchOrderManager F)
      → IsAccounted m
      → Counted (length b) m.total_submitted (settle id e b c m)
  unfolding settle
  settle-Counted id e b (ids, errs) m h = record {
    accounted = omega (int_laws, known m h);
    all_submitted = refl;
    grown = refl;
    balanced = omega int_laws;
  }

  settle_paper-Counted :
      (id : ℕ) (e : F) (b : List (PendingOrder F)) (m : BatchOrderManager F)
      → IsAccounted m
      → Counted (length b) m.total_submitted (settle_paper id e b m)
  unfolding settle_paper
  settle_paper-Counted id e b m h = record {
    accounted = omega (int_laws, known m h);
    all_submitted = refl;
    grown = refl;
    balanced = omega int_laws;
  }

  -- In every mode.
  choice-Counted :
      (dry : Bool) (clob : Option (Clob F)) (id : ℕ) (e : F) (b : List (PendingOrder F))
      (m : BatchOrderManager F)
      → IsAccounted m
      → Counted (length b) m.total_submitted (
          if dry then settle_paper id e b m else elim clob [
            | none ↦ settle_paper id e b m
            | some c ↦ settle id e b (submit_live c id b) m
          ])
  choice-Counted true clob id e b m h = settle_paper-Counted id e b m h
  choice-Counted false none id e b m h = settle_paper-Counted id e b m h
  choice-Counted false (some c) id e b m h = settle-Counted id e b (submit_live c id b) m h

  submit_batch-Counted :
      (elapsed : ℕ → F) (b : List (PendingOrder F)) (m : BatchOrderManager F)
      → IsAccounted m
      → Counted (length b) m.total_submitted (submit_batch elapsed b m)
  unfolding submit_batch
  submit_batch-Counted elapsed b m h =
      let id = m.batch_counter + 1 in
      choice-Counted m.dry_run m.clob id (elapsed id) b (record m { batch_counter = id }) h

  submit_all-Counted :
      (elapsed : ℕ → F) (bs : List (List (PendingOrder F))) (m : BatchOrderManager F)
      → IsAccounted m
      → let (rs, m') = submit_all elapsed bs m in
        IsAccounted m'
        × (submitted rs ≡ total bs)
        × (m'.total_submitted ≡ m.total_submitted + total bs)
        × (length rs ≡ length bs)
  unfolding submit_all
  submit_all-Counted elapsed [] m h = (h, refl, omega arith, refl)
  submit_all-Counted elapsed (b ∷ bs) m h =
      let now = submit_batch-Counted elapsed b m h in
      let (kept, sum, grown, as_many) =
        submit_all-Counted elapsed bs (submit_batch elapsed b m).1 now.accounted in
      (
        kept,
        omega (arith, sum, now.all_submitted),
        omega (arith, grown, now.grown),
        omega (arith, as_many),
      )

  -- A manager with a batch size above zero whose totals account for its orders: after `flush` they
  -- still do, every pending order is counted as submitted once, in the results as in the total, and
  -- there is one result for each piece of the queue.
  pub flush-IsAccounted :
      (elapsed : ℕ → F) (m : BatchOrderManager F)
      → 0 < m.max_batch_size
      → IsAccounted m
      → (rs : List (BatchResult F)) × (m' : BatchOrderManager F) × (flush elapsed m ≡ some (rs, m'))
        × IsAccounted m'
        × (submitted rs ≡ length m.pending)
        × (m'.total_submitted ≡ m.total_submitted + length m.pending)
        × (length rs ≡ length (chunks (length m.pending) m.max_batch_size m.pending))
  flush-IsAccounted elapsed m room h =
      let pieces = chunks (length m.pending) m.max_batch_size m.pending in
      let (runs, whole, bounded) = flush-chunks elapsed m room in
      let (kept, sum, grown, as_many) =
        submit_all-Counted elapsed pieces (record m { pending = [] }) h in
      let count : total pieces ≡ length m.pending = total-flatten pieces ∙ ap length whole in
      let out = submit_all elapsed pieces (record m { pending = [] }) in
      (out.0, out.1, runs, kept, sum ∙ count, omega (arith, grown, count), as_many)

  pub init-IsAccounted :
      (clob : Option (Clob F)) (n : ℕ) (dry : Bool) → IsAccounted (init clob n dry)
  unfolding init ◌+ℤ◌
  init-IsAccounted clob n dry = refl

  length-post_each :
      (c : Clob F) (id i : ℕ) (b : List (PendingOrder F)) → length (post_each c id i b).0 ≤ length b
  unfolding post_each
  length-post_each c id i [] = omega arith
  length-post_each c id i (o ∷ os) =
      let r = c.post_order id i o in
      omega (
        arith,
        length-collect_order i r,
        length-post_each c id (i + 1) os,
        length-append (collect_order i r).0 (post_each c id (i + 1) os).0,
      )
