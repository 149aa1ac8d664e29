-- ===== src/Execution/Executor/Trigger.antt =====
-- The invariant of the store of execution/executor.py where an armed child is triggered and its
-- siblings are cancelled.
use poly_cortex.Base.{
  ℕ, ◌≡◌, refl, sym, ◌∙◌, ap, true, false, ◌⊎◌, inl, inr, some, List, String, str_eq, eq_iff, arith,
  Bool-cases, subst, map_option,
}
use poly_cortex.Execution.Executor.Orders.{Order, find, put, is_final, is_taken, is_child}
use poly_cortex.Execution.Executor.Children.{cancel_sibling, cancel_siblings}
use poly_cortex.Execution.Executor.Store.{
  is_placed, IsKept, IsKeptAll, find-order_id, put-seen, str_eq_eq, some_inj,
}
use poly_cortex.Execution.Executor.Moves.{is_gone, IsTriggered, IsSound}
use poly_cortex.Execution.Executor.Siblings.{
  IsPassed, cancel_sibling-IsPassed, find-cancel_siblings, same_text_refl, gone_not_armed,
  gone-final, map_option-some, apart_of,
}

module _ {F : Type 0} (uuid : ℕ → String) where
  module _ (n : ℕ) (os mid : List (Order F)) (o o' : Order F) (s : IsSound uuid n os)
      (h : find o.order_id os ≡ some o) (t : IsTriggered o o')
      (k : IsKeptAll (put o.order_id o' os) mid) where
    -- An order after the trigger: the triggered one, or another that was there.
    record IsFrom (c x a : Order F) : Type 0 where
      is_kept : IsKept c x
      passed : IsPassed o' x a
      group : a.oco_group_id ≡ c.oco_group_id

    record IsOther (i : String) (a : Order F) : Type 0 where
      other : str_eq o.order_id i ≡ false
      before : Order F
      after : Order F
      found : find i os ≡ some before
      from : IsFrom before after a

    record IsFirst (i : String) (a : Order F) : Type 0 where
      first : o.order_id ≡ i
      after : Order F
      from : IsFrom o' after a

    origin :
        (i : String) (a : Order F)
        → find i (cancel_siblings o' mid) ≡ some a
        → IsFirst i a ⊎ IsOther i a
    origin i a found =
        let x = map_option-some (find i mid) a (sym (find-cancel_siblings i o' mid) ∙ found) in
        let w = k.backward i x.0 x.1 in
        let p = put-seen o.order_id o o' os h t.same_id in
        let from : IsFrom w.0 x.0 a = record {
          is_kept = w.2;
          passed = subst (λ y. IsPassed o' x.0 y) x.2 (cancel_sibling-IsPassed o' x.0);
          group =
              ap (λ y. y.oco_group_id) (sym x.2)
              ∙ (cancel_sibling-IsPassed o' x.0).same_group
              ∙ w.2.same_group;
        } in
        elim (Bool-cases (str_eq o.order_id i)) [
          | inl e ↦ inl (record {
            first = str_eq_eq o.order_id i e;
            after = x.0;
            from = subst (λ c. IsFrom c x.0 a) (some_inj (sym w.1 ∙ p i ∙ rw e refl)) from;
          })
          | inr e ↦ inr (record {
            other = e;
            before = w.0;
            after = x.0;
            found = sym (p i ∙ rw e refl) ∙ w.1;
            from = from;
          })
        ]

    -- No other order of the group was taken.
    others_free :
        (i g : String) (c : Order F)
        → find i os ≡ some c
        → str_eq o.order_id i ≡ false
        → o.oco_group_id ≡ some g
        → c.oco_group_id ≡ some g
        → is_taken c.status ≡ false
    others_free i g c found other go gc = elim (Bool-cases (is_taken c.status)) [
      | inl e ↦ absurd (
          ground (
            arith,
            gone_not_armed o.status
                (s.exclusive i o.order_id g c o found h (apart_of o.order_id i other) gc go e)
                t.was_armed,
          ))
      | inr e ↦ e
    ]

    -- A taken order was taken before, unless it is the triggered one.
    taken_old :
        (g : String) (i : String) (c x a : Order F)
        → find i os ≡ some c
        → IsFrom c x a
        → a.oco_group_id ≡ some g
        → is_taken a.status ≡ true
        → is_taken c.status ≡ true
    taken_old g i c x a found r ga taken = ground (
      arith,
      r.is_kept.taken_kept (r.passed.taken_before taken),
      s.grouped_child i g c found (sym r.group ∙ ga),
    )

    -- The order that stood at the same place.
    record IsOld (i : String) (a : Order F) : Type 0 where
      old : Order F
      stood : find i os ≡ some old
      group : a.oco_group_id ≡ old.oco_group_id
      child : is_child a.order_kind ≡ is_child old.order_kind
      placed_old : is_placed old.status ≡ false → is_placed a.status ≡ false

    stood_before : (i : String) (a : Order F) → find i (cancel_siblings o' mid) ≡ some a → IsOld i a
    stood_before i a found = elim (origin i a found) [
      | inl r ↦ record {
        old = o;
        stood = subst (λ j. find j os ≡ some o) r.first h;
        group = r.from.group ∙ t.same_group;
        child = r.from.passed.same_child ∙ r.from.is_kept.same_child ∙ t.same_child;
        placed_old = λ p.
            ground (arith, r.from.passed.placed_before, r.from.is_kept.placed_kept, t.not_placed);
      }
      | inr r ↦ record {
        old = r.before;
        stood = r.found;
        group = r.from.group;
        child = r.from.passed.same_child ∙ r.from.is_kept.same_child;
        placed_old =
            λ p. ground (arith, r.from.passed.placed_before, r.from.is_kept.placed_kept, p);
      }
    ]

    -- The first case of exclusion: the triggered order against another.
    against_first :
        (i j g : String) (a b : Order F)
        → IsFirst i a
        → IsOther j b
        → a.oco_group_id ≡ some g
        → b.oco_group_id ≡ some g
        → is_gone b.status ≡ true
    against_first i j g a b r q ga gb =
        let go = sym t.same_group ∙ sym r.from.group ∙ ga in
        let gc = sym q.from.group ∙ gb in
        let free = others_free j g q.before q.found q.other go gc in
        let child = s.grouped_child j g q.before q.found gc in
        let still : is_placed q.before.status ≡ false =
          s.grouped_not_placed j g q.before q.found gc in
        q.from.passed.gone_if (ground (arith, q.from.is_kept.taken_kept, free, child))
          (ground (arith, q.from.is_kept.placed_kept, still))
          (same_text_refl q.after.oco_group_id o'.oco_group_id g (q.from.is_kept.same_group ∙ gc)
            (t.same_group ∙ go))
          (rw (q.from.is_kept.same_id ∙ find-order_id j q.before os q.found, t.same_id)
            (apart_of o.order_id j q.other))

    pub triggered-IsSound : IsSound uuid n (cancel_siblings o' mid)
    triggered-IsSound = record {
      ids_drawn = λ i a found. let w = stood_before i a found in s.ids_drawn i w.old w.stood;
      groups_drawn = λ i g a found ga.
          let w = stood_before i a found in s.groups_drawn i g w.old w.stood (sym w.group ∙ ga);
      grouped_child = λ i g a found ga.
          let w = stood_before i a found in
          w.child ∙ s.grouped_child i g w.old w.stood (sym w.group ∙ ga);
      grouped_not_placed = λ i g a found ga.
          let w = stood_before i a found in
          w.placed_old (s.grouped_not_placed i g w.old w.stood (sym w.group ∙ ga));
      exclusive = λ i j g a b fa fb apart ga gb taken. elim (origin i a fa) [
        | inl r ↦ elim (origin j b fb) [
          | inl q ↦ absurd (ground (arith, apart, eq_iff i j, sym r.first ∙ q.first))
          | inr q ↦ against_first i j g a b r q ga gb
        ]
        | inr r ↦
            let was = taken_old g i r.before r.after a r.found r.from ga taken in
            let gr = sym r.from.group ∙ ga in
            elim (origin j b fb) [
              | inl q ↦
                  let go = sym t.same_group ∙ sym q.from.group ∙ gb in
                  absurd (ground (arith, others_free i g r.before r.found r.other go gr, was))
              | inr q ↦
                  let gone =
                    s.exclusive i j g r.before q.before r.found q.found apart gr
                      (sym q.from.group ∙ gb) was in
                  let d = gone-final q.before.status gone in
                  let same = q.from.is_kept.final_kept d in
                  ap is_gone (q.from.passed.final_before (ap is_final same ∙ d) ∙ same) ∙ gone
            ]
      ];
    }

    -- An order is found again after the trigger, where its stored form is followed.
    after_mid :
        (i : String) (c : Order F)
        → find i (put o.order_id o' os) ≡ some c
        → (a : Order F) × (find i (cancel_siblings o' mid) ≡ some a)
          × (is_final c.status ≡ true → a.status ≡ c.status)
    after_mid i c found =
        let w = k.forward i c found in
        (
          cancel_sibling o' w.0,
          find-cancel_siblings i o' mid ∙ ap (map_option (cancel_sibling o')) w.1,
          λ final.
              let same = w.2.final_kept final in
              (cancel_sibling-IsPassed o' w.0).final_before (ap is_final same ∙ final) ∙ same,
        )

    pub triggered-forward :
        (i : String) (c : Order F)
        → find i os ≡ some c
        → (a : Order F) × (find i (cancel_siblings o' mid) ≡ some a)
          × (is_final c.status ≡ true → a.status ≡ c.status)
    triggered-forward i c found =
        let p = put-seen o.order_id o o' os h t.same_id in
        elim (Bool-cases (str_eq o.order_id i)) [
          | inl e ↦
              let w = after_mid i o' (p i ∙ rw e refl) in
              (
                w.0,
                w.1,
                λ final. absurd (
                    ground (
                      arith,
                      t.was_armed,
                      final,
                      some_inj (sym h ∙ ap (λ j. find j os) (str_eq_eq o.order_id i e) ∙ found),
                    )),
              )
          | inr e ↦ after_mid i c (p i ∙ rw e found)
        ]
