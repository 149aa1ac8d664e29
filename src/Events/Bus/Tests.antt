-- ===== src/Events/Bus/Tests.antt =====
-- A bus of two events, and the theorem at a concrete input.
use poly_cortex.Base.{◌≡◌, ◌+◌, ◌-◌, min, Bool, List, [], ◌∷◌, take, length, String, str_eq, arith}
use poly_cortex.Events.Bus.{Event, init, process}
use poly_cortex.Events.Bus.Delivery.{publish_all, deliveries, failures}
use poly_cortex.Events.Bus.Audience.{
  Registration, for_type, for_all, register_all, audience, process-publish_all,
}

abbrev event : String → Event
event id = record { event_type = "order.placed"; event_id = id }

abbrev events : List Event
events = event "e1" ∷ event "e2" ∷ event "e3" ∷ []

abbrev registrations : List (Registration String)
registrations = for_type "order.placed" "tracker" ∷ for_all "log" ∷ for_type "other" "never" ∷ []

abbrev raises : String → Event → Bool
raises h e = str_eq h "tracker"

process-publish_all_example :
    let (delivered, b, n) =
      process raises (publish_all events (register_all registrations (init 2))) in
    (delivered ≡ deliveries (audience registrations) (take 2 events))
    × (b.queue ≡ [])
    × (b.error_count
        ≡ (length events - 2) + failures raises (audience registrations) (take 2 events))
    × (n ≡ min 2 (length events))
process-publish_all_example = process-publish_all raises registrations 2 events (omega arith)
