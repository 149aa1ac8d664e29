-- ===== src/Execution/Executor/Moves.antt =====
-- What the operations of execution/executor.py may do to the store, as a relation between executors:
-- change orders without filling a child, place an order outside of any group, arm a new pair, or
-- trigger an armed child and cancel its siblings.
use poly_cortex.Base.{ℕ, suc, ◌<◌, ◌≡◌, Bool, true, false, none, some, List, String, str_eq}
use poly_cortex.Execution.Executor.Orders.{
  Order, OrderStatus, find, put, is_armed, is_taken, is_child,
}
use poly_cortex.Execution.Executor.Guard.{OrderExecutor}
use poly_cortex.Execution.Executor.Brackets.{insert}
use poly_cortex.Execution.Executor.Children.{cancel_siblings}
use poly_cortex.Execution.Executor.Store.{is_placed, IsKeptAll}

-- "cancelled" and "expired"
abbrev pub is_gone : OrderStatus → Bool
is_gone OrderStatus.cancelled = true
is_gone OrderStatus.expired = true
is_gone _ = false

module _ {F : Type 0} where
  -- An order that no group holds.
  pub record IsLone (id : String) (o : Order F) : Type 0 where
    pub its_id : o.order_id ≡ id
    pub no_group : o.oco_group_id ≡ none

  -- A new child of a group.
  pub record IsArmedIn (id group : String) (o : Order F) : Type 0 where
    pub its_id : o.order_id ≡ id
    pub in_group : o.oco_group_id ≡ some group
    pub child : is_child o.order_kind ≡ true
    pub armed : is_armed o.status ≡ true

  pub record IsTriggered (o o' : Order F) : Type 0 where
    pub was_armed : is_armed o.status ≡ true
    pub same_id : o'.order_id ≡ o.order_id
    pub same_group : o'.oco_group_id ≡ o.oco_group_id
    pub same_child : is_child o'.order_kind ≡ is_child o.order_kind
    pub not_placed : is_placed o'.status ≡ false

-- An identifier that was drawn.
abbrev pub IsDrawn : (ℕ → String) → ℕ → String → Type 0
IsDrawn uuid n s = (k : ℕ) × (k < n) × (s ≡ uuid k)

-- No two draws agree.
abbrev pub IsInjective : (ℕ → String) → Type 0
IsInjective uuid = (j k : ℕ) → uuid j ≡ uuid k → j ≡ k

module _ {F : Type 0} (uuid : ℕ → String) where
  pub data Moves : OrderExecutor F → OrderExecutor F → Type 0 where
    kept : (e e' : OrderExecutor F) → e'.drawn ≡ e.drawn → IsKeptAll e.orders e'.orders → Moves e e'
    placed :
        (e e' : OrderExecutor F) (o : Order F)
        → IsLone (uuid e.drawn) o
        → e'.drawn ≡ suc e.drawn
        → e'.orders ≡ insert o e.orders
        → Moves e e'
    paired :
        (e e' : OrderExecutor F) (a b : Order F)
        → IsArmedIn (uuid (suc e.drawn)) (uuid e.drawn) a
        → IsArmedIn (uuid (suc (suc e.drawn))) (uuid e.drawn) b
        → e'.drawn ≡ suc (suc (suc e.drawn))
        → e'.orders ≡ insert b (insert a e.orders)
        → Moves e e'
    triggered :
        (e e' : OrderExecutor F) (o o' : Order F) (mid : List (Order F))
        → find o.order_id e.orders ≡ some o
        → IsTriggered o o'
        → IsKeptAll (put o.order_id o' e.orders) mid
        → e'.drawn ≡ e.drawn
        → e'.orders ≡ cancel_siblings o' mid
        → Moves e e'
    and_then : (e₀ e₁ e₂ : OrderExecutor F) → Moves e₀ e₁ → Moves e₁ e₂ → Moves e₀ e₂

  -- What holds of every order of the store and of every two of them.
  pub record IsSound (n : ℕ) (os : List (Order F)) : Type 0 where
    pub ids_drawn : (i : String) (o : Order F) → find i os ≡ some o → IsDrawn uuid n i
    pub groups_drawn :
        (i g : String) (o : Order F)
        → find i os ≡ some o
        → o.oco_group_id ≡ some g
        → IsDrawn uuid n g
    pub grouped_child :
        (i g : String) (o : Order F)
        → find i os ≡ some o
        → o.oco_group_id ≡ some g
        → is_child o.order_kind ≡ true
    pub grouped_not_placed :
        (i g : String) (o : Order F)
        → find i os ≡ some o
        → o.oco_group_id ≡ some g
        → is_placed o.status ≡ false
    pub exclusive :
        (i j g : String) (a b : Order F)
        → find i os ≡ some a
        → find j os ≡ some b
        → str_eq i j ≡ false
        → a.oco_group_id ≡ some g
        → b.oco_group_id ≡ some g
        → is_taken a.status ≡ true
        → is_gone b.status ≡ true
