-- ===== src/Execution/Executor/Refine.antt =====
-- Changes of one order in execution/executor.py that the moves allow, and storing them.
pub mod Arm
pub mod Place
pub mod Cancel
pub mod Reconcile
pub use poly_cortex.Base.{if_case, list_case, option_case}
use poly_cortex.Base.{
  ℕ, ◌≡◌, refl, sym, ◌∙◌, ap, Bool, true, false, inl, inr, Option, none, some, List, [], ◌∷◌,
  String, arith, subst, if◌then◌else◌, Bool-cases,
}
use poly_cortex.Float.{Float}
use poly_cortex.Execution.Executor.Orders.{
  Order, OrderStatus, BracketState, find, is_final, is_armed, is_taken, is_child, apply_fill,
}
use poly_cortex.Execution.Executor.Guard.{OrderExecutor}
use poly_cortex.Execution.Executor.Brackets.{set_order, resize}
use poly_cortex.Execution.Executor.Cancel.{drop_child}
use poly_cortex.Execution.Executor.Reconcile.{end_unfilled, live_fill}
use poly_cortex.Execution.Executor.Status.{StatusRow}
use poly_cortex.Execution.Executor.Store.{
  is_placed, IsKept, IsKeptAll, IsKept-refl, IsKeptAll-refl, IsKeptAll-trans, put-IsKeptAll,
  find-put_self,
}
use poly_cortex.Execution.Executor.Moves.{Moves, kept, and_then}

-- A call's result whose executor the moves reach.
pub record IsReached {ℓ} {F : Type 0} {R : Type ℓ} (uuid : ℕ → String) (e : OrderExecutor F)
    (r : OrderExecutor F × R) : Type ℓ where
  pub moves : Moves uuid e r.0

module _ {F : Type 0} where
  -- Everything but the status and the numbers stays.
  pub bracket_state-IsKept :
      (state : BracketState) (o : Order F) → IsKept o (record o { bracket_state = state })
  bracket_state-IsKept state o = record {
    same_id = refl;
    same_group = refl;
    same_child = refl;
    final_kept = λ h. refl;
    taken_kept = λ h. inl h;
    placed_kept = λ h. h;
  }

  -- An order that is not final ends without a fill.
  pub ended-IsKept :
      (s : OrderStatus) (state : BracketState) (o : Order F)
      → is_final o.status ≡ false
      → is_taken s ≡ false
      → is_placed s ≡ false
      → IsKept o (record o { status = s; bracket_state = state })
  ended-IsKept s state o h k l = record {
    same_id = refl;
    same_group = refl;
    same_child = refl;
    final_kept = λ d. absurd (ground arith);
    taken_kept = λ d. absurd (ground arith);
    placed_kept = λ d. absurd (ground arith);
  }

  pub drop_child-IsKept : (o : Order F) → IsKept o (drop_child o)
  drop_child-IsKept o = record {
    same_id = ground arith;
    same_group = ground arith;
    same_child = ground arith;
    final_kept = λ d. ground arith;
    taken_kept = λ d. inl (ground arith);
    placed_kept = λ d. ground arith;
  }

module _ {F : Type 0} ⦃f : Float F⦄ where
  pub resize-IsKept : (size : F) (o : Order F) → IsKept o (resize size o)
  resize-IsKept size o = record {
    same_id = ground arith;
    same_group = ground arith;
    same_child = ground arith;
    final_kept = λ d. ground arith;
    taken_kept = λ d. inl (ground arith);
    placed_kept = λ d. ground arith;
  }

  -- What a fill does to the status.
  pub record IsFill (o o' : Order F) : Type 0 where
    pub same_id : o'.order_id ≡ o.order_id
    pub same_group : o'.oco_group_id ≡ o.oco_group_id
    pub same_child : is_child o'.order_kind ≡ is_child o.order_kind
    pub same_or_taken : is_taken o'.status ≡ false → o'.status ≡ o.status

  pub apply_fill-IsFill :
      (size price : F) (now : ℕ) (o : Order F) → IsFill o (apply_fill size price now o)
  unfolding apply_fill
  apply_fill-IsFill size price now o = record {
    same_id = ground arith;
    same_group = ground arith;
    same_child = ground arith;
    same_or_taken = λ h. ground arith;
  }

  pub fill-IsKept :
      (o o' : Order F)
      → IsFill o o'
      → is_final o.status ≡ false
      → is_child o.order_kind ≡ false
      → IsKept o o'
  fill-IsKept o o' w h k = record {
    same_id = w.same_id;
    same_group = w.same_group;
    same_child = w.same_child;
    final_kept = λ d. absurd (ground arith);
    taken_kept = λ d. inr k;
    placed_kept = λ d. ground (arith, w.same_or_taken);
  }

  pub live_fill-IsFill :
      (now : ℕ) (rows : List (StatusRow F)) (o : Order F) → IsFill o (live_fill now rows o)
  unfolding live_fill apply_fill
  live_fill-IsFill now rows o =
      if_case (λ x. IsFill o x) _ _ _ (apply_fill-IsFill _ _ now o)
        (record { same_id = refl; same_group = refl; same_child = refl; same_or_taken = λ h. refl })

  pub end_unfilled-IsKept :
      (rows : List (StatusRow F)) (o o' : Order F)
      → IsFill o o'
      → is_final o.status ≡ false
      → is_child o.order_kind ≡ false
      → IsKept o (end_unfilled rows o')
  unfolding end_unfilled
  end_unfilled-IsKept rows o o' w h k = elim (Bool-cases (is_taken o'.status)) [
    | inl t ↦ rw t (fill-IsKept o o' w h k)
    | inr n ↦
        let ended : (s : OrderStatus)
            → is_taken s ≡ false
            → is_placed s ≡ false
            → IsKept o (record o' { status = s }) =
          λ s a b. record {
            same_id = w.same_id;
            same_group = w.same_group;
            same_child = w.same_child;
            final_kept = λ d. absurd (ground arith);
            taken_kept = λ d. absurd (ground arith);
            placed_kept = λ d. absurd (ground arith);
          } in
        rw n (
          if_case (λ x. IsKept o x) _ _ _ (ended OrderStatus.cancelled refl refl)
            (if_case (λ x. IsKept o x) _ _ _ (ended OrderStatus.expired refl refl)
              (fill-IsKept o o' w h k)))
  ]

module _ {F : Type 0} where
  pub set_order-moves :
      (uuid : ℕ → String) (o o' : Order F) (e : OrderExecutor F)
      → find o.order_id e.orders ≡ some o
      → IsKept o o'
      → Moves uuid e (set_order o' e)
  unfolding set_order
  set_order-moves uuid o o' e h k =
      kept e (set_order o' e) refl
        (put-IsKeptAll o'.order_id o o' e.orders (ap (λ i. find i e.orders) k.same_id ∙ h) k)

  -- The changed order is found where it was set.
  pub set_order-find :
      (o o' : Order F) (e : OrderExecutor F)
      → find o.order_id e.orders ≡ some o
      → IsKept o o'
      → find o'.order_id (set_order o' e).orders ≡ some o'
  unfolding set_order
  set_order-find o o' e h k = find-put_self o o' e.orders (ap (λ i. find i e.orders) k.same_id ∙ h)
