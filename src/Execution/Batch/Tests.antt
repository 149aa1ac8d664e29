-- ===== src/Execution/Batch/Tests.antt =====
-- Runs of the batch manager, and its theorems at concrete inputs.
use poly_cortex.Base.{
  ℕ, ◌+◌, ◌≤◌, ◌<◌, ◌≡◌, refl, false, none, some, List, [], ◌∷◌, decimal, length, All, arith,
}
use poly_cortex.Base.Int.{ℤ, pos}
use poly_cortex.Float.Milli.{milli}
use poly_cortex.Execution.Batch.{
  PendingOrder, BatchResult, Clob, BatchOrderManager, order_reply, raised, init, add, flush,
  post_each, submit_live, max_batch_limit,
}
use poly_cortex.Execution.Batch.Chunks.{chunks, flatten}
use poly_cortex.Execution.Batch.Flush.{submit_all, flush-chunks}
use poly_cortex.Execution.Batch.Counts.{IsAccounted, submitted, flush-IsAccounted, init-IsAccounted}

abbrev order : ℤ → PendingOrder ℤ
order p = record {
  token_id = "t";
  price = p;
  size = pos 10;
  side = "BUY";
  market_id = "m";
  direction = "YES";
  order_type = "GTC";
}

-- It answers the first order and refuses the others.
abbrev sequential : Clob ℤ
sequential = record {
  batch_endpoint = none;
  post_order =
      λ id i o. elim i [ ℕ.zero ↦ order_reply none (some "x1") | ℕ.suc n ↦ raised "refused" ];
}

abbrev three : BatchOrderManager ℤ
three =
    (add (order (pos 3))
      (add (order (pos 2)) (add (order (pos 1)) (init (some sequential) 2 false)).0).0).0

abbrev no_time : ℕ → ℤ
no_time id = pos 0

one_accepted :
    submit_live sequential 1 (order (pos 1) ∷ order (pos 2) ∷ [])
    ≡ ("x1" ∷ [], "Order 1: refused" ∷ [])
unfolding submit_live post_each decimal
one_accepted = refl

flush-chunks_example :
    let pieces = chunks (length three.pending) three.max_batch_size three.pending in
    (flush no_time three ≡ some (submit_all no_time pieces (record three { pending = [] })))
    × (flatten pieces ≡ three.pending)
    × All (λ c. (0 < length c) × (length c ≤ three.max_batch_size)) pieces
unfolding init add max_batch_limit
flush-chunks_example = flush-chunks no_time three (omega arith)

flush-IsAccounted_example :
    (rs : List (BatchResult ℤ)) × (m' : BatchOrderManager ℤ) × (flush no_time three ≡ some (rs, m'))
    × IsAccounted m'
    × (submitted rs ≡ length three.pending)
    × (m'.total_submitted ≡ three.total_submitted + length three.pending)
    × (length rs ≡ length (chunks (length three.pending) three.max_batch_size three.pending))
unfolding init add max_batch_limit
flush-IsAccounted_example =
    flush-IsAccounted no_time three (omega arith) (init-IsAccounted (some sequential) 2 false)
