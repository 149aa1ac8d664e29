-- ===== src/Execution/Batch.antt =====
-- src/polymarket_agent/execution/batch.py. The exchange's answers are a parameter of each call; sleeps
-- are left out, and no order is added while a flush runs.
pub mod Chunks
pub mod Flush
pub mod Counts
mod Tests
use poly_cortex.Base.{
  ℕ, zero, suc, ◌+◌, min, Bool, true, false, ◌||◌, Option, none, some, String, str_eq, concat,
  decimal, List, [], ◌∷◌, ◌++◌, if◌then◌else◌, length, take, drop, is_some, not, leb,
}
use poly_cortex.Base.Int.{ℤ, pos, ◌+ℤ◌, ◌-ℤ◌}
use poly_cortex.Float.{Float}

pub max_batch_limit : ℕ
max_batch_limit = 15

pub record PendingOrder (F : Type 0) : Type 0 where
  pub token_id : String
  pub price : F
  pub size : F
  pub side : String
  pub market_id : String
  pub direction : String
  pub order_type : String

pub record BatchResult (F : Type 0) : Type 0 where
  pub batch_id : ℕ
  pub submitted_count : ℕ
  pub success_count : ℕ
  pub failed_count : ℤ
  pub exchange_order_ids : List String
  pub errors : List String
  pub elapsed_ms : F

-- The answer to a batch: a dict with its `orderIDs`, a list with the `orderID` of each item that is a
-- dict and has one, another value, a timeout, or an exception with its text.
pub data BatchReply : Type 0 where
  dict_reply : List String → BatchReply
  list_reply : List (Option String) → BatchReply
  other_reply : BatchReply
  timed_out : BatchReply
  failed : String → BatchReply

-- The answer to one order: a dict with its `orderID` and `order_id`, another value, or an exception.
pub data OrderReply : Type 0 where
  order_reply : Option String → Option String → OrderReply
  no_dict : OrderReply
  raised : String → OrderReply

-- A client, with the batch endpoint if it has one.
pub record Clob (F : Type 0) : Type 0 where
  pub batch_endpoint : Option (ℕ → List (PendingOrder F) → BatchReply)
  pub post_order : ℕ → ℕ → PendingOrder F → OrderReply

pub record BatchOrderManager (F : Type 0) : Type 0 where
  pub clob : Option (Clob F)
  pub max_batch_size : ℕ
  pub dry_run : Bool
  pub pending : List (PendingOrder F)
  pub batch_counter : ℕ
  pub total_submitted : ℕ
  pub total_succeeded : ℕ
  pub total_failed : ℤ

-- The truth value of a text that may be missing.
abbrev pub text_given : Option String → List String
text_given none = []
text_given (some s) = if str_eq s "" then [] else s ∷ []

pub ids_of_items : List (Option String) → List String
ids_of_items [] = []
ids_of_items (item ∷ items) = text_given item ++ ids_of_items items

-- `resp.get("orderID") or resp.get("order_id", "")`
abbrev pub or_else : List String → List String → List String
or_else [] ys = ys
or_else (x ∷ xs) ys = x ∷ xs

pub paper_ids : ℕ → ℕ → ℕ → List String
paper_ids batch_id i zero = []
paper_ids batch_id i (suc left) =
    concat "paper-batch" (concat (decimal batch_id) (concat "-" (decimal i)))
    ∷ paper_ids batch_id (i + 1) left

-- The order identifiers and the errors that a submission collects.
abbrev pub Collected : Type 0
Collected = List String × List String

abbrev pub collect_order : ℕ → OrderReply → Collected
collect_order i (order_reply a b) = (or_else (text_given a) (text_given b), [])
collect_order i no_dict = ([], [])
collect_order i (raised e) = ([], concat "Order " (concat (decimal i) (concat ": " e)) ∷ [])

abbrev pub collect_batch : ℕ → BatchReply → Collected
collect_batch b (dict_reply ids) = (ids, [])
collect_batch b (list_reply items) = (ids_of_items items, [])
collect_batch b other_reply = ([], [])
collect_batch b timed_out = ([], concat "Batch #" (concat (decimal b) " timed out after 30s") ∷ [])
collect_batch b (failed e) = ([], concat "Batch #" (concat (decimal b) (concat ": " e)) ∷ [])

module _ {F : Type 0} ⦃f : Float F⦄ where
  pub init : Option (Clob F) → ℕ → Bool → BatchOrderManager F
  unfolding max_batch_limit
  init clob max_batch_size dry_run = record {
    clob = clob;
    max_batch_size = min max_batch_size max_batch_limit;
    dry_run = dry_run;
    pending = [];
    batch_counter = 0;
    total_submitted = 0;
    total_succeeded = 0;
    total_failed = pos 0;
  }

  pub add : PendingOrder F → BatchOrderManager F → BatchOrderManager F × ℕ
  add order m = (record m { pending = m.pending ++ order ∷ [] }, length (m.pending ++ order ∷ []))

  pub clear : BatchOrderManager F → BatchOrderManager F × ℕ
  clear m = (record m { pending = [] }, length m.pending)

  -- One by one, where the client has no batch endpoint.
  pub post_each : Clob F → ℕ → ℕ → List (PendingOrder F) → Collected
  post_each c batch_id i [] = ([], [])
  post_each c batch_id i (o ∷ os) =
      let (ids, errs) = collect_order i (c.post_order batch_id i o) in
      let (ids', errs') = post_each c batch_id (i + 1) os in (ids ++ ids', errs ++ errs')

  pub submit_live : Clob F → ℕ → List (PendingOrder F) → Collected
  unfolding post_each
  submit_live c batch_id batch = elim c.batch_endpoint [
    | some endpoint ↦ collect_batch batch_id (endpoint batch_id batch)
    | none ↦ post_each c batch_id 0 batch
  ]

  -- The result of a batch and its place in the totals; the paper mode leaves `total_failed` alone.
  pub settle :
      ℕ
      → F
      → List (PendingOrder F)
      → Collected
      → BatchOrderManager F
      → BatchResult F × BatchOrderManager F
  settle batch_id elapsed batch (ids, errs) m =
      let failed_count = pos (length batch) -ℤ pos (length ids) in
      (
        record {
          batch_id = batch_id;
          submitted_count = length batch;
          success_count = length ids;
          failed_count = failed_count;
          exchange_order_ids = ids;
          errors = errs;
          elapsed_ms = f.round elapsed 1;
        },
        record m {
          total_submitted = m.total_submitted + length batch;
          total_succeeded = m.total_succeeded + length ids;
          total_failed = m.total_failed +ℤ failed_count;
        },
      )

  pub settle_paper :
      ℕ → F → List (PendingOrder F) → BatchOrderManager F → BatchResult F × BatchOrderManager F
  unfolding paper_ids
  settle_paper batch_id elapsed batch m = (
    record {
      batch_id = batch_id;
      submitted_count = length batch;
      success_count = length batch;
      failed_count = pos 0;
      exchange_order_ids = paper_ids batch_id 0 (length batch);
      errors = [];
      elapsed_ms = f.round elapsed 1;
    },
    record m {
      total_submitted = m.total_submitted + length batch;
      total_succeeded = m.total_succeeded + length batch;
    },
  )

  -- `elapsed` gives the milliseconds that a batch takes.
  pub submit_batch :
      (ℕ → F) → List (PendingOrder F) → BatchOrderManager F → BatchResult F × BatchOrderManager F
  submit_batch elapsed batch m =
      let batch_id = m.batch_counter + 1 in
      let m' = record m { batch_counter = batch_id } in
      if m.dry_run then settle_paper batch_id (elapsed batch_id) batch m' else elim m.clob [
        | none ↦ settle_paper batch_id (elapsed batch_id) batch m'
        | some c ↦ settle batch_id (elapsed batch_id) batch (submit_live c batch_id batch) m'
      ]

  abbrev pub cons_result :
      BatchResult F
      → Option (List (BatchResult F) × BatchOrderManager F)
      → Option (List (BatchResult F) × BatchOrderManager F)
  cons_result r none = none
  cons_result r (some (rs, m)) = some (r ∷ rs, m)

  -- The loop of `flush`; `none` means that the rounds have run out with orders still pending.
  pub flush_loop :
      ℕ → (ℕ → F) → BatchOrderManager F → Option (List (BatchResult F) × BatchOrderManager F)
  flush_loop zero elapsed m = elim m.pending [ [] ↦ some ([], m) | o ∷ os ↦ none ]
  flush_loop (suc fuel) elapsed m = elim m.pending [
    | [] ↦ some ([], m)
    | o ∷ os ↦
        let (r, m') =
          submit_batch elapsed (take m.max_batch_size m.pending)
            (record m { pending = drop m.max_batch_size m.pending }) in
        cons_result r (flush_loop fuel elapsed m')
  ]

  -- A round for each pending order is enough (Batch/Flush).
  pub flush : (ℕ → F) → BatchOrderManager F → Option (List (BatchResult F) × BatchOrderManager F)
  flush elapsed m = flush_loop (length m.pending) elapsed m

  pub flush_if_full :
      (ℕ → F) → BatchOrderManager F → Option (List (BatchResult F) × BatchOrderManager F)
  flush_if_full elapsed m =
      if leb m.max_batch_size (length m.pending) then flush elapsed m else some ([], m)
