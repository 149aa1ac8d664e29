-- ===== src/Events/Bus.antt =====
-- src/polymarket_agent/events/bus.py. A handler is its identity, `H`; whether it raises at an event is an
-- argument. The dictionary of handlers is the list of the subscriptions in their order, and what a
-- dispatch delivers is a list of handlers with the event. A handler that publishes is a later call.
pub mod Delivery
pub mod Audience
mod Tests
use poly_cortex.Base.{
  ℕ, zero, suc, ◌+◌, leb, ltb, Bool, true, false, not, ◌&&◌, List, [], ◌∷◌, ◌++◌, map, keep, count,
  length, String, str_eq, if◌then◌else◌,
}

pub record Event : Type 0 where
  pub event_type : String
  pub event_id : String

pub record Subscription (H : Type 0) : Type 0 where
  pub event_type : String
  pub handler : H

pub record EventBus (H : Type 0) : Type 0 where
  pub subscribers : List (Subscription H)
  pub wildcard_subscribers : List H
  pub queue : List Event
  pub max_queue_size : ℕ
  pub running : Bool
  pub event_count : ℕ
  pub error_count : ℕ

module _ {H : Type 0} where
  unfoldable pub init : ℕ → EventBus H
  init max_queue_size = record {
    subscribers = [];
    wildcard_subscribers = [];
    queue = [];
    max_queue_size = max_queue_size;
    running = false;
    event_count = 0;
    error_count = 0;
  }

  unfoldable pub subscribe : String → H → EventBus H → EventBus H
  subscribe event_type handler b = record b {
    subscribers = b.subscribers ++ (record { event_type = event_type; handler = handler } ∷ []);
  }

  unfoldable pub subscribe_all : H → EventBus H → EventBus H
  subscribe_all handler b = record b {
    wildcard_subscribers = b.wildcard_subscribers ++ (handler ∷ []);
  }

  -- The first such subscription goes; `same` is the equality of handlers.
  unfoldable pub remove_first :
      (H → H → Bool) → String → H → List (Subscription H) → List (Subscription H)
  remove_first same event_type handler [] = []
  remove_first same event_type handler (s ∷ ss) =
      let rest = remove_first same event_type handler ss in
      if str_eq s.event_type event_type && same s.handler handler then ss else s ∷ rest

  unfoldable pub unsubscribe : (H → H → Bool) → String → H → EventBus H → EventBus H
  unfolding remove_first
  unsubscribe same event_type handler b = record b {
    subscribers = remove_first same event_type handler b.subscribers;
  }

  -- A queue whose size is 0 has no bound.
  abbrev pub is_full : EventBus H → Bool
  is_full b = ltb 0 b.max_queue_size && leb b.max_queue_size (length b.queue)

  unfoldable pub publish : Event → EventBus H → EventBus H
  publish event b =
      if is_full b
      then record b { error_count = b.error_count + 1 }
      else record b { queue = b.queue ++ (event ∷ []) }

  unfoldable pub handlers_of : EventBus H → Event → List H
  handlers_of b event =
      map (λ s. s.handler) (keep (λ s. str_eq s.event_type event.event_type) b.subscribers)
      ++ b.wildcard_subscribers

  -- `_dispatch`: what is delivered, and the bus.
  unfoldable pub dispatch : (H → Event → Bool) → Event → EventBus H → List (H × Event) × EventBus H
  unfolding handlers_of
  dispatch raises event b = (
    map (λ h. (h, event)) (handlers_of b event),
    record b {
      event_count = b.event_count + 1;
      error_count = b.error_count + count (λ h. raises h event) (handlers_of b event);
    },
  )

  -- The loop of `process` over the queue as it is.
  unfoldable pub process_from :
      (H → Event → Bool) → List Event → EventBus H → List (H × Event) × EventBus H
  unfolding dispatch
  process_from raises [] b = ([], record b { queue = [] })
  process_from raises (event ∷ events) b =
      let done = dispatch raises event b in
      let rest = process_from raises events done.1 in (done.0 ++ rest.0, rest.1)

  -- What is delivered, the bus, and the number of events.
  unfoldable pub process : (H → Event → Bool) → EventBus H → List (H × Event) × EventBus H × ℕ
  unfolding process_from
  process raises b = let done = process_from raises b.queue b in (done.0, done.1, length b.queue)

  unfoldable pub start : EventBus H → EventBus H
  start b = record b { running = true }

  unfoldable pub stop : (H → Event → Bool) → EventBus H → List (H × Event) × EventBus H × ℕ
  unfolding process
  stop raises b = process raises (record b { running = false })
