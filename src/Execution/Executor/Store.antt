-- ===== src/Execution/Executor/Store.antt =====
-- The store of orders of execution/executor.py, as its lookup sees it.
use poly_cortex.Base.{
  ◌≡◌, refl, sym, ◌∙◌, ap, Bool, true, false, ◌⊎◌, inl, inr, none, some, List, [], ◌∷◌, ◌++◌,
  String, str_eq, eq_iff, if◌then◌else◌, arith, Bool-cases, Option-cases, subst,
}
use poly_cortex.Execution.Executor.Orders.{
  Order, OrderStatus, placed, find, put, modify, is_final, is_taken, is_child,
}
use poly_cortex.Execution.Executor.Brackets.{insert}

abbrev pub is_placed : OrderStatus → Bool
is_placed placed = true
is_placed _ = false

pub str_eq_refl : (s : String) → str_eq s s ≡ true
str_eq_refl s = ground (arith, eq_iff s s)

pub str_eq_eq : (s t : String) → str_eq s t ≡ true → s ≡ t
str_eq_eq s t h = ground (arith, eq_iff s t)

pub some_inj {ℓ} : {A : Type ℓ} {a b : A} → some a ≡ some b → a ≡ b
some_inj {a} h = ap (λ o. elim o [ none ↦ a | some x ↦ x ]) h

module _ {F : Type 0} where
  -- A change of an order that fills no child: a final status stays, and no order is placed again.
  pub record IsKept (o o' : Order F) : Type 0 where
    pub same_id : o'.order_id ≡ o.order_id
    pub same_group : o'.oco_group_id ≡ o.oco_group_id
    pub same_child : is_child o'.order_kind ≡ is_child o.order_kind
    pub final_kept : is_final o.status ≡ true → o'.status ≡ o.status
    pub taken_kept :
        is_taken o'.status ≡ true → (is_taken o.status ≡ true) ⊎ (is_child o.order_kind ≡ false)
    pub placed_kept : is_placed o'.status ≡ true → is_placed o.status ≡ true

  pub record IsKeptAll (os os' : List (Order F)) : Type 0 where
    pub forward :
        (i : String) (o : Order F)
        → find i os ≡ some o
        → (o' : Order F) × (find i os' ≡ some o') × IsKept o o'
    pub backward :
        (i : String) (o' : Order F)
        → find i os' ≡ some o'
        → (o : Order F) × (find i os ≡ some o) × IsKept o o'

  pub IsKept-refl : (o : Order F) → IsKept o o
  IsKept-refl o = record {
    same_id = refl;
    same_group = refl;
    same_child = refl;
    final_kept = λ h. refl;
    taken_kept = λ h. inl h;
    placed_kept = λ h. h;
  }

  pub IsKept-trans : (a b c : Order F) → IsKept a b → IsKept b c → IsKept a c
  IsKept-trans a b c h k = record {
    same_id = k.same_id ∙ h.same_id;
    same_group = k.same_group ∙ h.same_group;
    same_child = k.same_child ∙ h.same_child;
    final_kept = λ d. k.final_kept (ap is_final (h.final_kept d) ∙ d) ∙ h.final_kept d;
    taken_kept =
        λ d. elim (k.taken_kept d) [ inl t ↦ h.taken_kept t | inr n ↦ inr (sym h.same_child ∙ n) ];
    placed_kept = λ d. h.placed_kept (k.placed_kept d);
  }

  pub IsKeptAll-refl : (os : List (Order F)) → IsKeptAll os os
  IsKeptAll-refl os = record {
    forward = λ i o h. (o, h, IsKept-refl o);
    backward = λ i o h. (o, h, IsKept-refl o);
  }

  pub IsKeptAll-trans :
      (xs ys zs : List (Order F)) → IsKeptAll xs ys → IsKeptAll ys zs → IsKeptAll xs zs
  IsKeptAll-trans xs ys zs h k = record {
    forward = λ i o found.
        let a = h.forward i o found in
        let b = k.forward i a.0 a.1 in (b.0, b.1, IsKept-trans o a.0 b.0 a.2 b.2);
    backward = λ i o found.
        let b = k.backward i o found in
        let a = h.backward i b.0 b.1 in (a.0, a.1, IsKept-trans a.0 b.0 o a.2 b.2);
  }

  pub find-order_id :
      (i : String) (o : Order F) (os : List (Order F)) → find i os ≡ some o → o.order_id ≡ i
  unfolding find
  find-order_id i o [] h = absurd (ground arith)
  find-order_id i o (x ∷ xs) h = ground (arith, eq_iff x.order_id i, find-order_id i o xs)

  pub find-put :
      (i id : String) (o o' : Order F) (os : List (Order F))
      → find id os ≡ some o
      → o'.order_id ≡ id
      → find i (put id o' os) ≡ (if str_eq id i then some o' else find i os)
  unfolding find put
  find-put i id o o' [] h k = absurd (ground arith)
  find-put i id o o' (x ∷ xs) h k = ground (
    arith,
    eq_iff x.order_id i,
    eq_iff x.order_id id,
    eq_iff id i,
    eq_iff o'.order_id i,
    k,
    find-put i id o o' xs,
  )

  find-append :
      (i : String) (o : Order F) (os : List (Order F))
      → find o.order_id os ≡ none
      → find i (os ++ (o ∷ [])) ≡ (if str_eq o.order_id i then some o else find i os)
  unfolding find
  find-append i o [] h = refl
  find-append i o (x ∷ xs) h = ground (
    arith,
    eq_iff x.order_id i,
    eq_iff x.order_id o.order_id,
    eq_iff o.order_id i,
    find-append i o xs,
  )

  pub find-insert :
      (i : String) (o : Order F) (os : List (Order F))
      → find o.order_id os ≡ none
      → find i (insert o os) ≡ (if str_eq o.order_id i then some o else find i os)
  unfolding insert
  find-insert i o os h = rw h (find-append i o os h)

  pub find-put_self :
      (o o' : Order F) (os : List (Order F))
      → find o'.order_id os ≡ some o
      → find o'.order_id (put o'.order_id o' os) ≡ some o'
  find-put_self o o' os h =
      find-put o'.order_id o'.order_id o o' os h refl ∙ rw (str_eq_refl o'.order_id) refl

  append_self :
      (o : Order F) (os : List (Order F))
      → find o.order_id os ≡ none
      → find o.order_id (os ++ (o ∷ [])) ≡ some o
  append_self o os h = find-append o.order_id o os h ∙ rw (str_eq_refl o.order_id) refl

  -- An order is found where it was inserted.
  pub find-insert_self :
      (o : Order F) (os : List (Order F)) → find o.order_id (insert o os) ≡ some o
  unfolding insert
  find-insert_self o os = elim (Option-cases (find o.order_id os)) [
    | inl h ↦ rw h (append_self o os h)
    | inr h ↦ rw h.1 (find-put_self h.0 o os h.1)
  ]

  -- A store that differs from another in one order.
  module _ (id : String) (o o' : Order F) (os os' : List (Order F)) (h : find id os ≡ some o)
      (seen : (i : String) → find i os' ≡ (if str_eq id i then some o' else find i os)) where
    pub at_one : find id os' ≡ some o'
    at_one = seen id ∙ rw (str_eq_refl id) refl

    pub at_other : (i : String) → str_eq id i ≡ false → find i os' ≡ find i os
    at_other i e = seen i ∙ rw e refl

    one-IsKeptAll : IsKept o o' → IsKeptAll os os'
    one-IsKeptAll k = record {
      forward = λ i x found. elim (Bool-cases (str_eq id i)) [
        | inl e ↦
            let same = str_eq_eq id i e in
            (
              o',
              subst (λ j. find j os' ≡ some o') same at_one,
              subst (λ y. IsKept y o') (some_inj (sym h ∙ ap (λ j. find j os) same ∙ found)) k,
            )
        | inr e ↦ (x, at_other i e ∙ found, IsKept-refl x)
      ];
      backward = λ i x found. elim (Bool-cases (str_eq id i)) [
        | inl e ↦
            let same = str_eq_eq id i e in
            (
              o,
              subst (λ j. find j os ≡ some o) same h,
              subst (λ y. IsKept o y) (some_inj (sym at_one ∙ ap (λ j. find j os') same ∙ found)) k,
            )
        | inr e ↦ (x, sym (at_other i e) ∙ found, IsKept-refl x)
      ];
    }

  pub put-seen :
      (id : String) (o o' : Order F) (os : List (Order F))
      → find id os ≡ some o
      → o'.order_id ≡ o.order_id
      → (i : String) → find i (put id o' os) ≡ (if str_eq id i then some o' else find i os)
  put-seen id o o' os h k i = find-put i id o o' os h (k ∙ find-order_id id o os h)

  -- Replacing an order by a change of it.
  pub put-IsKeptAll :
      (id : String) (o o' : Order F) (os : List (Order F))
      → find id os ≡ some o
      → IsKept o o'
      → IsKeptAll os (put id o' os)
  put-IsKeptAll id o o' os h k =
      one-IsKeptAll id o o' os (put id o' os) h (put-seen id o o' os h k.same_id) k

  pub modify-IsKeptAll :
      (id : String) (g : Order F → Order F) (os : List (Order F))
      → ((o : Order F) → IsKept o (g o))
      → IsKeptAll os (modify id g os)
  unfolding modify
  modify-IsKeptAll id g os k = elim (Option-cases (find id os)) [
    | inl h ↦ rw (modify, h) (IsKeptAll-refl os)
    | inr h ↦ rw (modify, h.1) (put-IsKeptAll id h.0 (g h.0) os h.1 (k h.0))
  ]
