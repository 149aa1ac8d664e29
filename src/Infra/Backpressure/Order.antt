-- ===== src/Infra/Backpressure/Order.antt =====
-- What goes through the queue of infra/backpressure.py, in which order and how much at once.
use poly_cortex.Base.{
  ℕ, ◌+◌, ◌≤◌, ◌<◌, ◌≡◌, refl, Bool, true, false, Option, none, some, List, [], ◌∷◌, ◌++◌, length,
  length-append, append_assoc, arith, ==_iff, if◌then◌else◌, Bool-cases, inl, inr, ap, sym, ◌∙◌,
}
use poly_cortex.Infra.Backpressure.{BoundedSignalQueue, init, full, put, get, enqueue}

pub data Event {ℓ} (A : Type ℓ) : Type ℓ where
  puts : A → Bool → Event A
  gets : Event A

-- A queue with the signals that `put` has accepted and those that `get` has given, each in order, and how
-- many calls of `put` have returned.
pub record Log {ℓ} (A : Type ℓ) : Type ℓ where
  pub queue : BoundedSignalQueue A
  pub went_in : List A
  pub came_out : List A
  pub answered : ℕ

module _ {ℓ} {A : Type ℓ} where
  abbrev pub after_put : A → Option (Bool × BoundedSignalQueue A) → Log A → Log A
  after_put x none l = l
  after_put x (some (took, q)) l = record l {
    queue = q;
    went_in = if took then l.went_in ++ x ∷ [] else l.went_in;
    answered = l.answered + 1;
  }

  abbrev pub after_get : Option (A × BoundedSignalQueue A) → Log A → Log A
  after_get none l = l
  after_get (some (x, q)) l = record l { queue = q; came_out = l.came_out ++ x ∷ [] }

  -- A call that would wait changes nothing.
  unfoldable pub apply : Event A → Log A → Log A
  apply (puts x block) l = after_put x (put x block l.queue) l
  apply gets l = after_get (get l.queue) l

  unfoldable pub run : List (Event A) → Log A → Log A
  unfolding apply
  run [] l = l
  run (v ∷ vs) l = run vs (apply v l)

  abbrev pub fresh : ℕ → Log A
  fresh maxsize = record { queue = init maxsize; went_in = []; came_out = []; answered = 0 }

  pub record IsOrderly (bound : ℕ) (l : Log A) : Type ℓ where
    pub in_order : l.came_out ++ l.queue.items ≡ l.went_in
    pub counted : l.queue.accepted ≡ length l.went_in
    pub every_answer : l.queue.accepted + l.queue.dropped ≡ l.answered
    pub bounded : length l.queue.items ≤ bound
    pub same_size : l.queue.maxsize ≡ bound

  enqueue-IsOrderly :
      (bound : ℕ) (x : A) (l : Log A)
      → IsOrderly bound l
      → length l.queue.items < bound
      → IsOrderly bound (after_put x (some (true, enqueue x l.queue)) l)
  enqueue-IsOrderly bound x l h room = record {
    in_order =
        sym (append_assoc l.came_out l.queue.items (x ∷ [])) ∙ ap (λ s. s ++ x ∷ []) h.in_order;
    counted = omega (arith, h.counted, length-append l.went_in (x ∷ []));
    every_answer = omega (arith, h.every_answer);
    bounded = omega (arith, length-append l.queue.items (x ∷ []));
    same_size = h.same_size;
  }

  drop-IsOrderly :
      (bound : ℕ) (x : A) (l : Log A)
      → IsOrderly bound l
      → IsOrderly bound
          (after_put x (some (false, record l.queue { dropped = l.queue.dropped + 1 })) l)
  drop-IsOrderly bound x l h = record {
    in_order = h.in_order;
    counted = h.counted;
    every_answer = omega (arith, h.every_answer);
    bounded = h.bounded;
    same_size = h.same_size;
  }

  room_left :
      (bound : ℕ) (l : Log A)
      → 0 < bound
      → IsOrderly bound l
      → full l.queue ≡ false
      → length l.queue.items < bound
  unfolding full
  room_left bound l pos h free = ground (arith, h.same_size, ==_iff l.queue.maxsize 0)

  put-IsOrderly :
      (bound : ℕ) (x : A) (block : Bool) (l : Log A)
      → 0 < bound
      → IsOrderly bound l
      → IsOrderly bound (after_put x (put x block l.queue) l)
  unfolding put
  put-IsOrderly bound x true l pos h = elim (Bool-cases (full l.queue)) [
    | inl f ↦ rw f h
    | inr f ↦ rw f (enqueue-IsOrderly bound x l h (room_left bound l pos h f))
  ]
  put-IsOrderly bound x false l pos h = elim (Bool-cases (full l.queue)) [
    | inl f ↦ rw f (drop-IsOrderly bound x l h)
    | inr f ↦ rw f (enqueue-IsOrderly bound x l h (room_left bound l pos h f))
  ]

  get-IsOrderly :
      (bound : ℕ) (l : Log A) (items : List A)
      → l.queue.items ≡ items
      → IsOrderly bound l
      → IsOrderly bound (after_get (get l.queue) l)
  unfolding get
  get-IsOrderly bound l [] e h = rw e (record {
    in_order = ap (λ s. l.came_out ++ s) (sym e) ∙ h.in_order;
    counted = h.counted;
    every_answer = h.every_answer;
    bounded = omega arith;
    same_size = h.same_size;
  })
  get-IsOrderly bound l (x ∷ xs) e h = rw e (record {
    in_order = append_assoc l.came_out (x ∷ []) xs ∙ ap (λ s. l.came_out ++ s) (sym e) ∙ h.in_order;
    counted = h.counted;
    every_answer = h.every_answer;
    bounded = omega (arith, h.bounded, ap length e);
    same_size = h.same_size;
  })

  apply-IsOrderly :
      (bound : ℕ) (v : Event A) (l : Log A)
      → 0 < bound
      → IsOrderly bound l
      → IsOrderly bound (apply v l)
  unfolding apply
  apply-IsOrderly bound (puts x block) l pos h = put-IsOrderly bound x block l pos h
  apply-IsOrderly bound gets l pos h = get-IsOrderly bound l l.queue.items refl h

  run-IsOrderly :
      (bound : ℕ) (vs : List (Event A)) (l : Log A)
      → 0 < bound
      → IsOrderly bound l
      → IsOrderly bound (run vs l)
  unfolding run
  run-IsOrderly bound [] l pos h = h
  run-IsOrderly bound (v ∷ vs) l pos h =
      run-IsOrderly bound vs (apply v l) pos (apply-IsOrderly bound v l pos h)

  -- A new queue of a size above zero, after any calls of `put`, blocking or not, and of `get`: what was
  -- accepted and not yet given waits in order behind what was given, the queue holds no more than its size,
  -- and each call of `put` that has returned is counted once, as accepted or as dropped.
  pub run-fresh :
      (maxsize : ℕ) (vs : List (Event A)) → 0 < maxsize → IsOrderly maxsize (run vs (fresh maxsize))
  unfolding init
  run-fresh maxsize vs pos = run-IsOrderly maxsize vs (fresh maxsize) pos (record {
    in_order = refl;
    counted = refl;
    every_answer = refl;
    bounded = omega arith;
    same_size = refl;
  })
