-- ===== src/Events/Bus/Delivery.antt =====
-- What the bus of events/bus.py delivers.
use poly_cortex.Base.{
  ℕ, zero, suc, ◌+◌, ◌-◌, ◌≤◌, ◌<◌, min, ◌≡◌, refl, sym, ◌∙◌, ap, Bool, true, false, List, [], ◌∷◌,
  ◌++◌, map, take, length, count, length-append, append_assoc, append-nil, arith, Bool-cases, inl,
  inr, length-take, subst,
}
use poly_cortex.Events.Bus.{
  Event, EventBus, publish, handlers_of, dispatch, process_from, process, is_full,
}

take-nil : (n : ℕ) → take {A = Event} n [] ≡ []
take-nil zero = refl
take-nil (suc n) = refl

module _ {H : Type 0} where
  pub publish_all : List Event → EventBus H → EventBus H
  unfolding publish
  publish_all [] b = b
  publish_all (event ∷ events) b = publish_all events (publish event b)

  -- Each event to each of its handlers, in order.
  abbrev pub deliveries : (Event → List H) → List Event → List (H × Event)
  deliveries hs [] = []
  deliveries hs (event ∷ events) = map (λ h. (h, event)) (hs event) ++ deliveries hs events

  abbrev pub failures : (H → Event → Bool) → (Event → List H) → List Event → ℕ
  failures raises hs [] = 0
  failures raises hs (event ∷ events) =
      count (λ h. raises h event) (hs event) + failures raises hs events

  process_from-all :
      (raises : H → Event → Bool) (events : List Event) (b : EventBus H)
      → ((process_from raises events b).0 ≡ deliveries (handlers_of b) events)
        × ((process_from raises events b).1.queue ≡ [])
        × ((process_from raises events b).1.event_count ≡ b.event_count + length events)
        × ((process_from raises events b).1.error_count
            ≡ b.error_count + failures raises (handlers_of b) events)
  unfolding process_from dispatch handlers_of
  process_from-all raises [] b = (refl, refl, omega arith, omega arith)
  process_from-all raises (event ∷ events) b =
      let ih = process_from-all raises events (dispatch raises event b).1 in
      (
        ap (λ l. map (λ h. (h, event)) (handlers_of b event) ++ l) ih.0,
        ih.1,
        omega (arith, ih.2),
        omega (arith, ih.3),
      )

  -- What publishing some events makes of a bus.
  record IsPublished (b b' : EventBus H) (events : List Event) : Type 0 where
    queued : b'.queue ≡ b.queue ++ take (b.max_queue_size - length b.queue) events
    dropped : b'.error_count ≡ b.error_count + (length events - (b.max_queue_size - length b.queue))
    same_handlers : handlers_of b' ≡ handlers_of b
    same_count : b'.event_count ≡ b.event_count

  publish-full :
      (event : Event) (b : EventBus H)
      → is_full b ≡ true
      → publish event b ≡ record b { error_count = b.error_count + 1 }
  unfolding publish
  publish-full event b h = rw (publish, h) refl

  publish-free :
      (event : Event) (b : EventBus H)
      → is_full b ≡ false
      → publish event b ≡ record b { queue = b.queue ++ (event ∷ []) }
  unfolding publish
  publish-free event b h = rw (publish, h) refl

  publish_all-IsPublished :
      (events : List Event) (b : EventBus H)
      → 0 < b.max_queue_size
      → length b.queue ≤ b.max_queue_size
      → IsPublished b (publish_all events b) events
  unfolding publish_all handlers_of
  publish_all-IsPublished [] b h k = record {
    queued = sym (
        ap (λ l. b.queue ++ l) (take-nil (b.max_queue_size - length b.queue)) ∙ append-nil b.queue);
    dropped = omega arith;
    same_handlers = refl;
    same_count = refl;
  }
  publish_all-IsPublished (event ∷ events) b h k = elim (Bool-cases (is_full b)) [
    | inl e ↦
        let b' : EventBus H = record b { error_count = b.error_count + 1 } in
        let ih = publish_all-IsPublished events b' h k in
        let no_space : b.max_queue_size - length b.queue ≡ 0 = ground arith in
        subst (λ x. IsPublished b (publish_all events x) (event ∷ events))
          (sym (publish-full event b e))
          (record {
            queued = ih.queued ∙ rw no_space refl;
            dropped = omega (arith, ih.dropped, no_space);
            same_handlers = ih.same_handlers;
            same_count = ih.same_count;
          })
    | inr e ↦
        let b' : EventBus H = record b { queue = b.queue ++ (event ∷ []) } in
        let longer : length b'.queue ≡ length b.queue + 1 = length-append b.queue (event ∷ []) in
        let space : length b.queue < b.max_queue_size = ground arith in
        let ih = publish_all-IsPublished events b' h (omega (arith, longer, space)) in
        let room = b.max_queue_size - length b'.queue in
        let more : b.max_queue_size - length b.queue ≡ suc room = omega (arith, longer, space) in
        subst (λ x. IsPublished b (publish_all events x) (event ∷ events))
          (sym (publish-free event b e))
          (record {
            queued =
                ih.queued
                ∙ append_assoc b.queue (event ∷ []) (take room events)
                ∙ ap (λ n. b.queue ++ take n (event ∷ events)) (sym more);
            dropped = omega (arith, ih.dropped, longer, space);
            same_handlers = ih.same_handlers;
            same_count = ih.same_count;
          })
  ]

  -- The same from any bus with an empty queue, by the handlers that it has.
  pub process-published :
      (raises : H → Event → Bool) (events : List Event) (b : EventBus H)
      → b.queue ≡ []
      → 0 < b.max_queue_size
      → ((process raises (publish_all events b)).0
          ≡ deliveries (handlers_of b) (take b.max_queue_size events))
        × ((process raises (publish_all events b)).1.queue ≡ [])
        × ((process raises (publish_all events b)).1.error_count
            ≡ b.error_count
              + (length events - b.max_queue_size)
              + failures raises (handlers_of b) (take b.max_queue_size events))
        × ((process raises (publish_all events b)).2 ≡ min b.max_queue_size (length events))
  unfolding process
  process-published raises events b empty h =
      let none_left : length b.queue ≡ 0 = ap length empty in
      let p = publish_all-IsPublished events b h (omega (arith, none_left)) in
      let b' = publish_all events b in
      let queue : b'.queue ≡ take b.max_queue_size events =
        p.queued ∙ rw (none_left, empty) (ap (λ n. take n events) (omega arith)) in
      let done = process_from-all raises b'.queue b' in
      (
        done.0 ∙ rw (p.same_handlers, queue) refl,
        done.1,
        done.3 ∙ rw (p.same_handlers, queue) (omega (arith, p.dropped, none_left)),
        ap length queue ∙ length-take b.max_queue_size events,
      )
