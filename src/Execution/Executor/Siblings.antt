-- ===== src/Execution/Executor/Siblings.antt =====
-- Cancelling the siblings of a triggered order in execution/executor.py, one order at a time.
use poly_cortex.Base.{
  ◌≡◌, refl, true, false, inl, inr, Option, none, some, List, [], ◌∷◌, String, str_eq, eq_iff,
  arith, Bool-cases, map_option,
}
use poly_cortex.Execution.Executor.Orders.{
  Order, OrderStatus, find, is_final, is_armed, is_taken, is_child, same_text,
}
use poly_cortex.Execution.Executor.Children.{cancel_sibling, cancel_siblings}
use poly_cortex.Execution.Executor.Store.{is_placed, str_eq_refl, some_inj}
use poly_cortex.Execution.Executor.Moves.{is_gone}

module _ {F : Type 0} where
  -- Where an order stands after the trigger.
  pub record IsPassed (o c c' : Order F) : Type 0 where
    pub same_id : c'.order_id ≡ c.order_id
    pub same_group : c'.oco_group_id ≡ c.oco_group_id
    pub same_child : is_child c'.order_kind ≡ is_child c.order_kind
    pub taken_before : is_taken c'.status ≡ true → is_taken c.status ≡ true
    pub placed_before : is_placed c'.status ≡ true → is_placed c.status ≡ true
    pub final_before : is_final c.status ≡ true → c'.status ≡ c.status
    pub gone_if :
        is_taken c.status ≡ false
        → is_placed c.status ≡ false
        → same_text c.oco_group_id o.oco_group_id ≡ true
        → str_eq c.order_id o.order_id ≡ false
        → is_gone c'.status ≡ true

  pub cancel_sibling-IsPassed : (o c : Order F) → IsPassed o c (cancel_sibling o c)
  unfolding cancel_sibling
  cancel_sibling-IsPassed o c = record {
    same_id = ground arith;
    same_group = ground arith;
    same_child = ground arith;
    taken_before = λ h. ground arith;
    placed_before = λ h. ground arith;
    final_before = λ h. ground arith;
    gone_if = λ h₀ h₁ h₂ h₃. ground arith;
  }

  pub find-cancel_siblings :
      (i : String) (o : Order F) (os : List (Order F))
      → find i (cancel_siblings o os) ≡ map_option (cancel_sibling o) (find i os)
  unfolding find cancel_siblings
  find-cancel_siblings i o [] = refl
  find-cancel_siblings i o (x ∷ xs) =
      rw (cancel_sibling-IsPassed o x).same_id (elim (Bool-cases (str_eq x.order_id i)) [
        | inl e ↦ rw e refl
        | inr e ↦ rw e (find-cancel_siblings i o xs)
      ])

pub same_text_refl :
    (a b : Option String) (g : String) → a ≡ some g → b ≡ some g → same_text a b ≡ true
same_text_refl a b g h k = rw (h, k) (str_eq_refl g)

pub gone_not_armed : (s : OrderStatus) → is_gone s ≡ true → is_armed s ≡ true → true ≡ false
gone_not_armed s h k = ground arith

pub gone-final : (s : OrderStatus) → is_gone s ≡ true → is_final s ≡ true
gone-final s h = ground arith

pub map_option-some {ℓ κ} :
    {A : Type ℓ} {B : Type κ} {g : A → B} (x : Option A) (b : B)
    → map_option g x ≡ some b
    → (a : A) × (x ≡ some a) × (g a ≡ b)
map_option-some none b h = absurd (ground arith)
map_option-some (some a) b h = (a, refl, some_inj h)

pub apart_of : (i j : String) → str_eq i j ≡ false → str_eq j i ≡ false
apart_of i j h = ground (arith, eq_iff i j, eq_iff j i)
