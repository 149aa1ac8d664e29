-- ===== src/Execution/Executor/Sound.antt =====
-- The invariant of the store of execution/executor.py along its moves.
use poly_cortex.Base.{
  ℕ, ◌≤◌, ◌≡◌, refl, sym, ◌∙◌, ap, true, false, ◌⊎◌, inl, inr, none, some, List, String, str_eq,
  if◌then◌else◌, arith, Bool-cases, Option-cases, subst,
}
use poly_cortex.Execution.Executor.Orders.{
  Order, OrderStatus, find, is_final, is_armed, is_taken, is_child,
}
use poly_cortex.Execution.Executor.Store.{is_placed, IsKept, IsKeptAll, str_eq_eq, some_inj}
use poly_cortex.Execution.Executor.Moves.{is_gone, IsDrawn, IsInjective, IsSound}

gone_final : (s : OrderStatus) → is_gone s ≡ true → is_final s ≡ true
gone_final s h = ground arith

armed_not : (s : OrderStatus) → is_armed s ≡ true → (is_taken s ≡ false) × (is_placed s ≡ false)
armed_not s h = (ground arith, ground arith)

module _ {F : Type 0} where
  kept_not_taken :
      (o o' : Order F)
      → IsKept o o'
      → is_child o.order_kind ≡ true
      → is_taken o'.status ≡ true
      → is_taken o.status ≡ true
  kept_not_taken o o' k child taken = ground (arith, k.taken_kept taken)

module _ {F : Type 0} (uuid : ℕ → String) where
  pub kept-IsSound :
      (n : ℕ) (os os' : List (Order F)) → IsSound uuid n os → IsKeptAll os os' → IsSound uuid n os'
  kept-IsSound n os os' s k = record {
    ids_drawn = λ i o' h. let w = k.backward i o' h in s.ids_drawn i w.0 w.1;
    groups_drawn = λ i g o' h m.
        let w = k.backward i o' h in s.groups_drawn i g w.0 w.1 (sym w.2.same_group ∙ m);
    grouped_child = λ i g o' h m.
        let w = k.backward i o' h in
        w.2.same_child ∙ s.grouped_child i g w.0 w.1 (sym w.2.same_group ∙ m);
    grouped_not_placed = λ i g o' h m.
        let w = k.backward i o' h in
        ground (arith, w.2.placed_kept, s.grouped_not_placed i g w.0 w.1 (sym w.2.same_group ∙ m));
    exclusive = λ i j g a b ha hb apart ga gb taken.
        let v = k.backward i a ha in
        let w = k.backward j b hb in
        let gv = sym v.2.same_group ∙ ga in
        let gone =
          s.exclusive i j g v.0 w.0 v.1 w.1 apart gv (sym w.2.same_group ∙ gb)
            (kept_not_taken v.0 a v.2 (s.grouped_child i g v.0 v.1 gv) taken) in
        ap is_gone (w.2.final_kept (gone_final w.0.status gone)) ∙ gone;
  }

  pub fresh_id :
      IsInjective uuid
      → (n k : ℕ) (os : List (Order F)) → IsSound uuid n os
      → n ≤ k
      → find (uuid k) os ≡ none
  fresh_id inj n k os s h = elim (Option-cases (find (uuid k) os)) [
    | inl e ↦ e
    | inr e ↦ let d = s.ids_drawn (uuid k) e.0 e.1 in absurd (omega (arith, h, d.1, inj k d.0 d.2))
  ]

  -- What the group of a new order asks for.
  pub record IsCalm (m : ℕ) (os : List (Order F)) (o : Order F) (g : String) : Type 0 where
    pub drawn_group : IsDrawn uuid m g
    pub is_new_child : is_child o.order_kind ≡ true
    pub is_new_armed : is_armed o.status ≡ true
    pub none_taken :
        (i : String) (x : Order F)
        → find i os ≡ some x
        → x.oco_group_id ≡ some g
        → is_taken x.status ≡ false

  module _ (n m : ℕ) (os os' : List (Order F)) (id : String) (o : Order F)
      (seen : (i : String) → find i os' ≡ (if str_eq id i then some o else find i os))
      (s : IsSound uuid n os) (more : n ≤ m) (drawn : IsDrawn uuid m id)
      (calm : (g : String) → o.oco_group_id ≡ some g → IsCalm m os o g) where
    later : (t : String) → IsDrawn uuid n t → IsDrawn uuid m t
    later t d = (d.0, omega (arith, d.1, more), d.2)

    -- An order of the larger store is the new one or an older one.
    new_or_old :
        (i : String) (x : Order F)
        → find i os' ≡ some x
        → ((id ≡ i) × (o ≡ x)) ⊎ (find i os ≡ some x)
    new_or_old i x h = elim (Bool-cases (str_eq id i)) [
      | inl e ↦ inl (str_eq_eq id i e, some_inj (sym (seen i ∙ rw e refl) ∙ h))
      | inr e ↦ inr (sym (seen i ∙ rw e refl) ∙ h)
    ]

    pub fresh-IsSound : IsSound uuid m os'
    fresh-IsSound = record {
      ids_drawn = λ i x h. elim (new_or_old i x h) [
        | inl e ↦ subst (λ t. IsDrawn uuid m t) e.0 drawn
        | inr old ↦ later i (s.ids_drawn i x old)
      ];
      groups_drawn = λ i g x h mem. elim (new_or_old i x h) [
        | inl e ↦ (calm g (ap (λ y. y.oco_group_id) e.1 ∙ mem)).drawn_group
        | inr old ↦ later g (s.groups_drawn i g x old mem)
      ];
      grouped_child = λ i g x h mem. elim (new_or_old i x h) [
        | inl e ↦
            sym (ap (λ y. is_child y.order_kind) e.1)
            ∙ (calm g (ap (λ y. y.oco_group_id) e.1 ∙ mem)).is_new_child
        | inr old ↦ s.grouped_child i g x old mem
      ];
      grouped_not_placed = λ i g x h mem. elim (new_or_old i x h) [
        | inl e ↦
            sym (ap (λ y. is_placed y.status) e.1)
            ∙ (armed_not o.status (calm g (ap (λ y. y.oco_group_id) e.1 ∙ mem)).is_new_armed).1
        | inr old ↦ s.grouped_not_placed i g x old mem
      ];
      exclusive = λ i j g a b ha hb apart ga gb taken. elim (new_or_old i a ha) [
        | inl e ↦ absurd (
            ground (
              arith,
              sym (ap (λ y. is_taken y.status) e.1)
                  ∙ (armed_not o.status
                      (calm g (ap (λ y. y.oco_group_id) e.1 ∙ ga)).is_new_armed).0,
              taken,
            ))
        | inr old ↦ elim (new_or_old j b hb) [
          | inl e ↦ absurd (
              ground
                (arith, (calm g (ap (λ y. y.oco_group_id) e.1 ∙ gb)).none_taken i a old ga, taken))
          | inr old' ↦ s.exclusive i j g a b old old' apart ga gb taken
        ]
      ];
    }
