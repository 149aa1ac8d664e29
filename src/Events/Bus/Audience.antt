-- ===== src/Events/Bus/Audience.antt =====
-- Who hears of an event of events/bus.py: what the calls that register handlers make of a bus.
use poly_cortex.Base.{
  ℕ, ◌+◌, ◌-◌, ◌<◌, min, ◌≡◌, refl, sym, ◌∙◌, ap, Bool, List, [], ◌∷◌, ◌++◌, map, take, length,
  append_assoc, append-nil, arith, Bool-cases, inl, inr, keep, String, str_eq, if◌then◌else◌,
}
use poly_cortex.Events.Bus.{
  Event, EventBus, Subscription, init, subscribe, subscribe_all, handlers_of, process,
}
use poly_cortex.Events.Bus.Delivery.{publish_all, deliveries, failures, process-published}

-- A call that registers a handler, for a type or for all of them.
pub data Registration (H : Type 0) : Type 0 where
  for_type : String → H → Registration H
  for_all : H → Registration H

module _ {H : Type 0} where
  pub register_all : List (Registration H) → EventBus H → EventBus H
  unfolding subscribe subscribe_all
  register_all [] b = b
  register_all (for_type t h ∷ rs) b = register_all rs (subscribe t h b)
  register_all (for_all h ∷ rs) b = register_all rs (subscribe_all h b)

  -- The handlers that are registered for a type, and those for all.
  pub typed : String → List (Registration H) → List H
  typed type [] = []
  typed type (for_type t h ∷ rs) = if str_eq t type then h ∷ typed type rs else typed type rs
  typed type (for_all h ∷ rs) = typed type rs

  pub untyped : List (Registration H) → List H
  untyped [] = []
  untyped (for_type t h ∷ rs) = untyped rs
  untyped (for_all h ∷ rs) = h ∷ untyped rs

  abbrev pub audience : List (Registration H) → Event → List H
  audience rs event = typed event.event_type rs ++ untyped rs

  abbrev subscribed : String → List (Subscription H) → List H
  subscribed type ss = map (λ s. s.handler) (keep (λ s. str_eq s.event_type type) ss)

  subscribed-append :
      (type : String) (ss us : List (Subscription H))
      → subscribed type (ss ++ us) ≡ subscribed type ss ++ subscribed type us
  subscribed-append type [] us = refl
  subscribed-append type (s ∷ ss) us = elim (Bool-cases (str_eq s.event_type type)) [
    | inl e ↦ rw e (ap (λ l. s.handler ∷ l) (subscribed-append type ss us))
    | inr e ↦ rw e (subscribed-append type ss us)
  ]

  -- What registering leaves of a bus.
  record IsRegistered (rs : List (Registration H)) (b b' : EventBus H) : Type 0 where
    queue : b'.queue ≡ b.queue
    size : b'.max_queue_size ≡ b.max_queue_size
    errors : b'.error_count ≡ b.error_count
    own :
        (type : String)
        → subscribed type b'.subscribers ≡ subscribed type b.subscribers ++ typed type rs
    wild : b'.wildcard_subscribers ≡ b.wildcard_subscribers ++ untyped rs

  subscribed-snoc :
      (type t : String) (h : H) (rs : List (Registration H)) (ss : List (Subscription H))
      → subscribed type (ss ++ (record { event_type = t; handler = h } ∷ [])) ++ typed type rs
        ≡ subscribed type ss ++ typed type (for_type t h ∷ rs)
  unfolding typed
  subscribed-snoc type t h rs ss =
      let s : Subscription H = record { event_type = t; handler = h } in
      rw (subscribed-append type ss (s ∷ [])) (elim (Bool-cases (str_eq t type)) [
        | inl e ↦ rw e (append_assoc (subscribed type ss) (h ∷ []) (typed type rs))
        | inr e ↦ rw e (ap (λ l. l ++ typed type rs) (append-nil (subscribed type ss)))
      ])

  register_all-IsRegistered :
      (rs : List (Registration H)) (b : EventBus H) → IsRegistered rs b (register_all rs b)
  unfolding register_all typed untyped subscribe subscribe_all
  register_all-IsRegistered [] b = record {
    queue = refl;
    size = refl;
    errors = refl;
    own = λ type. sym (append-nil (subscribed type b.subscribers));
    wild = sym (append-nil b.wildcard_subscribers);
  }
  register_all-IsRegistered (for_type t h ∷ rs) b =
      let ih = register_all-IsRegistered rs (subscribe t h b) in
      record {
        queue = ih.queue;
        size = ih.size;
        errors = ih.errors;
        own = λ type. ih.own type ∙ subscribed-snoc type t h rs b.subscribers;
        wild = ih.wild;
      }
  register_all-IsRegistered (for_all h ∷ rs) b =
      let ih = register_all-IsRegistered rs (subscribe_all h b) in
      record {
        queue = ih.queue;
        size = ih.size;
        errors = ih.errors;
        own = ih.own;
        wild = ih.wild ∙ append_assoc b.wildcard_subscribers (h ∷ []) (untyped rs);
      }

  handlers_of-audience :
      (rs : List (Registration H)) (n : ℕ) (event : Event)
      → handlers_of (register_all rs (init n)) event ≡ audience rs event
  unfolding handlers_of init
  handlers_of-audience rs n event =
      let r = register_all-IsRegistered rs (init n) in rw (r.own event.event_type, r.wild) refl

  deliveries_same :
      (hs hs' : Event → List H) (events : List Event)
      → ((event : Event) → hs event ≡ hs' event)
      → deliveries hs events ≡ deliveries hs' events
  deliveries_same hs hs' [] h = refl
  deliveries_same hs hs' (event ∷ events) h = rw (h event, deliveries_same hs hs' events h) refl

  failures_same :
      (raises : H → Event → Bool) (hs hs' : Event → List H) (events : List Event)
      → ((event : Event) → hs event ≡ hs' event)
      → failures raises hs events ≡ failures raises hs' events
  failures_same raises hs hs' [] h = refl
  failures_same raises hs hs' (event ∷ events) h =
      rw (h event, failures_same raises hs hs' events h) refl

  -- On a new bus that holds size events, more than none, with any handlers registered: of the events that are
  -- published, process delivers the first size, in order, each to every handler that was registered for its type
  -- and then to those registered for all types, in the order of the registrations and whichever of them raise.
  -- Every event that was dropped and every handler that raised is one error, and the queue is empty again.
  pub process-publish_all :
      (raises : H → Event → Bool) (rs : List (Registration H)) (size : ℕ) (events : List Event)
      → 0 < size
      → let (delivered, b, n) = process raises (publish_all events (register_all rs (init size))) in
        (delivered ≡ deliveries (audience rs) (take size events))
        × (b.queue ≡ [])
        × (b.error_count
            ≡ (length events - size) + failures raises (audience rs) (take size events))
        × (n ≡ min size (length events))
  unfolding init
  process-publish_all raises rs size events h =
      let b = register_all rs (init size) in
      let r = register_all-IsRegistered rs (init size) in
      let same = handlers_of-audience rs size in
      let p = process-published raises events b r.queue (rw r.size h) in
      (
        p.0
            ∙ ap (λ k. deliveries (handlers_of b) (take k events)) r.size
            ∙ deliveries_same (handlers_of b) (audience rs) (take size events) same,
        p.1,
        p.2
            ∙ ap
                (λ k.
                  b.error_count
                  + (length events - k)
                  + failures raises (handlers_of b) (take k events))
                r.size
            ∙ omega (
              arith,
              r.errors,
              failures_same raises (handlers_of b) (audience rs) (take size events) same,
            ),
        p.3 ∙ ap (λ k. min k (length events)) r.size,
      )
