-- ===== src/Infra/Backpressure.antt =====
-- src/polymarket_agent/infra/backpressure.py. The asyncio queue is its items and the number of tasks not
-- done; `none` is a call that waits.
pub mod Order
mod Tests
use poly_cortex.Base.{
  ℕ, zero, suc, ◌+◌, ◌-◌, Bool, true, false, ◌&&◌, not, Option, none, some, List, [], ◌∷◌, ◌++◌,
  length, leb, ltb, ◌==◌, Result, ok, err, if◌then◌else◌,
}

pub data QueueError : Type 0 where
  queue_empty value_error : QueueError

pub record BoundedSignalQueue {ℓ} (A : Type ℓ) : Type ℓ where
  pub maxsize : ℕ
  pub items : List A
  pub unfinished : ℕ
  pub dropped : ℕ
  pub accepted : ℕ

module _ {ℓ} {A : Type ℓ} where
  pub init : ℕ → BoundedSignalQueue A
  init maxsize = record { maxsize = maxsize; items = []; unfinished = 0; dropped = 0; accepted = 0 }

  -- A queue of size 0 has no bound.
  pub full : BoundedSignalQueue A → Bool
  full q = not (q.maxsize == 0) && leb q.maxsize (length q.items)

  abbrev pub enqueue : A → BoundedSignalQueue A → BoundedSignalQueue A
  enqueue signal q = record q {
    items = q.items ++ signal ∷ [];
    unfinished = q.unfinished + 1;
    accepted = q.accepted + 1;
  }

  pub put : A → Bool → BoundedSignalQueue A → Option (Bool × BoundedSignalQueue A)
  unfolding full
  put signal true q = if full q then none else some (true, enqueue signal q)
  put signal false q =
      if full q
      then some (false, record q { dropped = q.dropped + 1 })
      else some (true, enqueue signal q)

  pub get : BoundedSignalQueue A → Option (A × BoundedSignalQueue A)
  get q = elim q.items [ [] ↦ none | x ∷ xs ↦ some (x, record q { items = xs }) ]

  pub get_nowait : BoundedSignalQueue A → Result QueueError (A × BoundedSignalQueue A)
  get_nowait q = elim q.items [ [] ↦ err queue_empty | x ∷ xs ↦ ok (x, record q { items = xs }) ]

  pub task_done : BoundedSignalQueue A → Result QueueError (BoundedSignalQueue A)
  task_done q = elim q.unfinished [
    | zero ↦ err value_error
    | suc n ↦ ok (record q { unfinished = n })
  ]

  pub empty : BoundedSignalQueue A → Bool
  empty q = elim q.items [ [] ↦ true | x ∷ xs ↦ false ]
