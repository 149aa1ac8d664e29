-- ===== src/Execution/Executor/Closing.antt =====
-- cancel_all_open_orders of execution/executor.py, where the exchange accepts every cancellation.
use poly_cortex.Base.{
  ℕ, suc, ◌≡◌, refl, ◌∙◌, ap, Bool, true, false, not, ◌||◌, inl, inr, some, List, [], ◌∷◌, any, all,
  String, str_eq, eq_iff, arith, subst, if◌then◌else◌, Bool-cases,
}
use poly_cortex.Float.{Float}
use poly_cortex.Execution.Executor.Orders.{
  Order, OrderStatus, BracketState, find, is_final, is_entry,
}
use poly_cortex.Execution.Executor.Guard.{Config, OrderExecutor, init}
use poly_cortex.Execution.Executor.Brackets.{set_order}
use poly_cortex.Execution.Executor.Cancel.{
  cancel_local, cancel_live, cancel_found, cancel_order, cancel_if_open, cancel_each,
  cancel_all_open_orders, is_open, ids_of,
}
use poly_cortex.Execution.Executor.Store.{find-put_self, find-order_id, str_eq_eq}
use poly_cortex.Execution.Executor.Moves.{IsInjective, IsSound}
use poly_cortex.Execution.Executor.Traces.{moves-IsSound, moves-forward}
use poly_cortex.Execution.Executor.Refine.{if_case}
use poly_cortex.Execution.Executor.Refine.Cancel.{
  cancel_children-IsKeptAll, cancel_if_open-moves, cancel_each-moves,
}
use poly_cortex.Execution.Executor.Runs.{Operation, run, run-IsSound}

-- The exchange accepts.
abbrev pub accepts : String → Bool
accepts id = true

all-accepts : (ids : List String) → all accepts ids ≡ true
all-accepts [] = refl
all-accepts (id ∷ ids) = all-accepts ids

module _ {F : Type 0} where
  -- The order at an identifier has ended.
  pub record IsEnded (id : String) (e : OrderExecutor F) : Type 0 where
    pub ended : Order F
    pub found : find id e.orders ≡ some ended
    pub final : is_final ended.status ≡ true

  module _ (o : Order F) (e : OrderExecutor F) (h : find o.order_id e.orders ≡ some o) where
    set_order-IsEnded :
        (o' : Order F)
        → o'.order_id ≡ o.order_id
        → is_final o'.status ≡ true
        → IsEnded o.order_id (set_order o' e)
    unfolding set_order
    set_order-IsEnded o' k l = record {
      ended = o';
      found =
          subst (λ i. find i (set_order o' e).orders ≡ some o') k
            (find-put_self o o' e.orders (ap (λ i. find i e.orders) k ∙ h));
      final = l;
    }

    cancel_local-IsEnded : IsEnded o.order_id (cancel_local o e)
    unfolding cancel_local
    cancel_local-IsEnded =
        let o' = record o {
          status = OrderStatus.cancelled;
          bracket_state = BracketState.cancelled;
        } in
        let e' : OrderExecutor F = set_order o' e in
        let first = set_order-IsEnded o' refl refl in
        let w =
          (cancel_children-IsKeptAll o.bracket_order_ids e'.orders).forward o.order_id first.ended
            first.found in
        if_case (λ x. IsEnded o.order_id x) (is_entry o.order_kind) _ _
          (record {
            ended = w.0;
            found = w.1;
            final = ap is_final (w.2.final_kept first.final) ∙ first.final;
          })
          (set_order-IsEnded _ refl refl)

    cancel_found-IsEnded : IsEnded o.order_id (cancel_found accepts o e).0
    unfolding cancel_found cancel_live
    cancel_found-IsEnded = elim (Bool-cases (is_final o.status)) [
      | inl d ↦ rw (cancel_found, d) (record { ended = o; found = h; final = d })
      | inr d ↦ elim (Bool-cases (o.is_paper || (not e.has_clob || not (is_entry o.order_kind)))) [
        | inl p ↦ rw (cancel_found, d, p) cancel_local-IsEnded
        | inr p ↦
            rw (cancel_found, d, p, all-accepts o.exchange_order_ids)
              (set_order-IsEnded _ refl refl)
      ]
    ]

  closed_final : (o : Order F) → is_open o ≡ false → is_final o.status ≡ true
  closed_final o h = ground arith

  cancel_order-IsEnded :
      (i : String) (o : Order F) (e : OrderExecutor F)
      → find i e.orders ≡ some o
      → IsEnded i (cancel_order accepts i e).0
  unfolding cancel_order
  cancel_order-IsEnded i o e h =
      let own = find-order_id i o e.orders h in
      rw (cancel_order, h)
        (subst (λ j. IsEnded j (cancel_found accepts o e).0) own
          (cancel_found-IsEnded o e (ap (λ j. find j e.orders) own ∙ h)))

  cancel_if_open-IsEnded :
      (i : String) (o : Order F) (e : OrderExecutor F)
      → find i e.orders ≡ some o
      → IsEnded i (cancel_if_open accepts i e).0
  unfolding cancel_if_open
  cancel_if_open-IsEnded i o e h = elim (Bool-cases (is_open o)) [
    | inl d ↦ rw (cancel_if_open, h, d) (cancel_order-IsEnded i o e h)
    | inr d ↦ rw (cancel_if_open, h, d) (record { ended = o; found = h; final = closed_final o d })
  ]

  module _ (uuid : ℕ → String) (inj : IsInjective uuid) where
    cancel_each-IsEnded :
        (ids : List String) (e : OrderExecutor F) (n : ℕ) (i : String) (o : Order F)
        → IsSound uuid e.drawn e.orders
        → any (str_eq i) ids ≡ true
        → find i e.orders ≡ some o
        → IsEnded i (cancel_each accepts ids e n).0
    unfolding cancel_each
    cancel_each-IsEnded [] e n i o s member h = absurd (ground arith)
    cancel_each-IsEnded (id ∷ ids) e n i o s member h =
        let done : OrderExecutor F × Bool = cancel_if_open accepts id e in
        let m = (cancel_if_open-moves uuid accepts id e).moves in
        let s' = moves-IsSound uuid inj e done.0 m s in
        let n' = if done.1 then suc n else n in
        elim (Bool-cases (str_eq i id)) [
          | inl same ↦
              let c : IsEnded i done.0 =
                subst (λ j. IsEnded i (cancel_if_open accepts j e).0) (str_eq_eq i id same)
                  (cancel_if_open-IsEnded i o e h) in
              let w =
                moves-forward uuid inj done.0 _ (cancel_each-moves uuid accepts ids done.0 n').moves
                  s' i c.ended c.found in
              record { ended = w.0; found = w.1; final = ap is_final (w.2 c.final) ∙ c.final }
          | inr apart ↦
              let w = moves-forward uuid inj e done.0 m s i o h in
              cancel_each-IsEnded ids done.0 n' i w.0 s' (ground (arith, member, apart)) w.1
        ]

    member_of :
        (i : String) (o : Order F) (os : List (Order F))
        → find i os ≡ some o
        → any (str_eq i) (ids_of os) ≡ true
    unfolding find
    member_of i o [] h = absurd (ground arith)
    member_of i o (x ∷ xs) h =
        ground (arith, eq_iff i x.order_id, eq_iff x.order_id i, member_of i o xs)

module _ {F : Type 0} ⦃f : Float F⦄ where
  -- The identifiers that are drawn being different: after any operations from the start, where the
  -- exchange accepts every cancellation, cancel_all_open_orders leaves each order that was there filled,
  -- cancelled or expired.
  pub run-cancel_all :
      (uuid : ℕ → String) (inj : IsInjective uuid) (c : Config F) (has_clob : Bool)
      (ops : List (Operation F)) (i : String) (o : Order F)
      → find i (run uuid ops (init c has_clob)).orders ≡ some o
      → (a : Order F) × (find i
            (cancel_all_open_orders accepts (run uuid ops (init c has_clob))).0.orders
          ≡ some a)
        × (is_final a.status ≡ true)
  unfolding cancel_all_open_orders
  run-cancel_all uuid inj c has_clob ops i o h =
      let e = run uuid ops (init c has_clob) in
      let r =
        cancel_each-IsEnded uuid inj (ids_of e.orders) e 0 i o (run-IsSound uuid inj c has_clob ops)
          (member_of uuid inj i o e.orders h) h in
      (r.ended, r.found, r.final)
