-- ===== src/Execution/Executor/Traces.antt =====
-- The moves of execution/executor.py, one after another: the invariant of the store, and orders
-- whose status is final.
use poly_cortex.Base.{
  ℕ, suc, ◌≤◌, ◌≡◌, refl, sym, ◌∙◌, ap, true, false, inl, inr, some, List, String, str_eq,
  if◌then◌else◌, arith, Bool-cases,
}
use poly_cortex.Execution.Executor.Orders.{Order, find, is_final, is_taken}
use poly_cortex.Execution.Executor.Guard.{OrderExecutor}
use poly_cortex.Execution.Executor.Brackets.{insert}
use poly_cortex.Execution.Executor.Store.{find-insert, str_eq_eq, some_inj}
use poly_cortex.Execution.Executor.Moves.{
  IsLone, IsArmedIn, IsInjective, IsSound, Moves, kept, placed, paired, triggered, and_then,
}
use poly_cortex.Execution.Executor.Sound.{kept-IsSound, fresh_id, fresh-IsSound}
use poly_cortex.Execution.Executor.Trigger.{triggered-IsSound, triggered-forward}

module _ {F : Type 0} (uuid : ℕ → String) (inj : IsInjective uuid) where
  -- A fresh order in the store.
  seen_insert :
      (n k : ℕ) (os : List (Order F)) (o : Order F)
      → IsSound uuid n os
      → n ≤ k
      → o.order_id ≡ uuid k
      → (i : String) → find i (insert o os) ≡ (if str_eq (uuid k) i then some o else find i os)
  seen_insert n k os o s h e i =
      find-insert i o os (ap (λ t. find t os) e ∙ fresh_id uuid inj n k os s h)
      ∙ ap (λ t. if str_eq t i then some o else find i os) e

  placed-IsSound :
      (n : ℕ) (os : List (Order F)) (o : Order F)
      → IsSound uuid n os
      → IsLone (uuid n) o
      → IsSound uuid (suc n) (insert o os)
  placed-IsSound n os o s l =
      fresh-IsSound uuid n (suc n) os (insert o os) (uuid n) o
        (seen_insert n n os o s (omega arith) l.its_id) s (omega arith) (n, omega arith, refl)
        (λ g h. absurd (ground (arith, sym l.no_group ∙ h)))

  -- No order of the group of the next draw is there.
  no_member :
      (n : ℕ) (i g : String) (os : List (Order F)) (x : Order F)
      → IsSound uuid n os
      → find i os ≡ some x
      → x.oco_group_id ≡ some g
      → uuid n ≡ g
      → true ≡ false
  no_member n i g os x s found mem e =
      let d = s.groups_drawn i g x found mem in absurd (omega (arith, d.1, inj n d.0 (e ∙ d.2)))

  first-IsSound :
      (n : ℕ) (os : List (Order F)) (a : Order F)
      → IsSound uuid n os
      → IsArmedIn (uuid (suc n)) (uuid n) a
      → IsSound uuid (suc (suc n)) (insert a os)
  first-IsSound n os a s l =
      fresh-IsSound uuid n (suc (suc n)) os (insert a os) (uuid (suc n)) a
        (seen_insert n (suc n) os a s (omega arith) l.its_id) s (omega arith)
        (suc n, omega arith, refl)
        (λ g h. record {
          drawn_group = (n, omega arith, some_inj (sym h ∙ l.in_group));
          is_new_child = l.child;
          is_new_armed = l.armed;
          none_taken = λ i x found mem.
              absurd
                (ground (arith, no_member n i g os x s found mem (some_inj (sym l.in_group ∙ h))));
        })

  -- Of the group there is only its first order, which is armed.
  pair_free :
      (n : ℕ) (i g : String) (os : List (Order F)) (a x : Order F)
      → IsSound uuid n os
      → IsArmedIn (uuid (suc n)) (uuid n) a
      → uuid n ≡ g
      → find i (insert a os) ≡ some x
      → x.oco_group_id ≡ some g
      → is_taken x.status ≡ false
  pair_free n i g os a x s l e found mem =
      let seen = seen_insert n (suc n) os a s (omega arith) l.its_id i in
      elim (Bool-cases (str_eq (uuid (suc n)) i)) [
        | inl h ↦
            let same : a ≡ x = some_inj (sym (seen ∙ rw h refl) ∙ found) in
            ground (arith, l.armed, sym (ap (λ y. y.status) same))
        | inr h ↦
            absurd (ground (arith, no_member n i g os x s (sym (seen ∙ rw h refl) ∙ found) mem e))
      ]

  paired-IsSound :
      (n : ℕ) (os : List (Order F)) (a b : Order F)
      → IsSound uuid n os
      → IsArmedIn (uuid (suc n)) (uuid n) a
      → IsArmedIn (uuid (suc (suc n))) (uuid n) b
      → IsSound uuid (suc (suc (suc n))) (insert b (insert a os))
  paired-IsSound n os a b s l m =
      let s' = first-IsSound n os a s l in
      fresh-IsSound uuid (suc (suc n)) (suc (suc (suc n))) (insert a os) (insert b (insert a os))
        (uuid (suc (suc n))) b
        (seen_insert (suc (suc n)) (suc (suc n)) (insert a os) b s' (omega arith) m.its_id) s'
        (omega arith) (suc (suc n), omega arith, refl)
        (λ g h. record {
          drawn_group = (n, omega arith, some_inj (sym h ∙ m.in_group));
          is_new_child = m.child;
          is_new_armed = m.armed;
          none_taken =
              λ i x found mem. pair_free n i g os a x s l (some_inj (sym m.in_group ∙ h)) found mem;
        })

  pub moves-IsSound :
      (e e' : OrderExecutor F)
      → Moves uuid e e'
      → IsSound uuid e.drawn e.orders
      → IsSound uuid e'.drawn e'.orders
  moves-IsSound _ _ (kept e e' same k) s =
      rw same (kept-IsSound uuid e.drawn e.orders e'.orders s k)
  moves-IsSound _ _ (placed e e' o l d h) s = rw (d, h) (placed-IsSound e.drawn e.orders o s l)
  moves-IsSound _ _ (paired e e' a b l m d h) s =
      rw (d, h) (paired-IsSound e.drawn e.orders a b s l m)
  moves-IsSound _ _ (triggered e e' o o' mid h t k d q) s =
      rw (d, q) (triggered-IsSound uuid e.drawn e.orders mid o o' s h t k)
  moves-IsSound _ _ (and_then e e₁ e₂ m k) s = moves-IsSound e₁ e₂ k (moves-IsSound e e₁ m s)

  insert_keeps :
      (n k : ℕ) (os : List (Order F)) (o c : Order F) (i : String)
      → IsSound uuid n os
      → n ≤ k
      → o.order_id ≡ uuid k
      → find i os ≡ some c
      → find i (insert o os) ≡ some c
  insert_keeps n k os o c i s h e found =
      let d = s.ids_drawn i c found in
      elim (Bool-cases (str_eq (uuid k) i)) [
        | inl q ↦ absurd (omega (arith, h, d.1, inj k d.0 (str_eq_eq (uuid k) i q ∙ d.2)))
        | inr q ↦ seen_insert n k os o s h e i ∙ rw q found
      ]

  -- An order is found after a move, with its status where that was final.
  pub moves-forward :
      (e e' : OrderExecutor F)
      → Moves uuid e e'
      → IsSound uuid e.drawn e.orders
      → (i : String) (c : Order F) → find i e.orders ≡ some c
      → (a : Order F) × (find i e'.orders ≡ some a)
        × (is_final c.status ≡ true → a.status ≡ c.status)
  moves-forward _ _ (kept e e' same k) s i c h =
      let w = k.forward i c h in (w.0, w.1, w.2.final_kept)
  moves-forward _ _ (placed e e' o l d q) s i c h = (
    c,
    ap (find i) q ∙ insert_keeps e.drawn e.drawn e.orders o c i s (omega arith) l.its_id h,
    λ final. refl,
  )
  moves-forward _ _ (paired e e' a b l m d q) s i c h =
      let n = e.drawn in
      let first = insert_keeps n (suc n) e.orders a c i s (omega arith) l.its_id h in
      (
        c,
        ap (find i) q
            ∙ insert_keeps (suc (suc n)) (suc (suc n)) (insert a e.orders) b c i
                (first-IsSound n e.orders a s l) (omega arith) m.its_id first,
        λ final. refl,
      )
  moves-forward _ _ (triggered e e' o o' mid h t k d q) s i c found =
      let w = triggered-forward uuid e.drawn e.orders mid o o' s h t k i c found in
      (w.0, ap (find i) q ∙ w.1, w.2)
  moves-forward _ _ (and_then e e₁ e₂ m k) s i c found =
      let w = moves-forward e e₁ m s i c found in
      let v = moves-forward e₁ e₂ k (moves-IsSound e e₁ m s) i w.0 w.1 in
      (v.0, v.1, λ final. v.2 (ap is_final (w.2 final) ∙ final) ∙ w.2 final)
