-- ===== src/Scenarios/Broker.antt =====
-- A broker with two subscriptions, of which one has ended.
use matfix.Shared.{◌≡◌, refl, String, true, false, some, [], ◌∷◌, any_where}
use matfix.Bus.Events.{EventEnvelope, type_name}
use matfix.Bus.Local.{LocalBus, change_type, new_local_bus, publish, subscribe, unsubscribe}
use matfix.Bus.Local.Invariant.{IsWellFormed, Offered, publish-Offered}
use matfix.Bus.Local.Steps.{Steps, here, next, subscribes, unsubscribes, Steps-IsWellFormed}
use matfix.Scenarios.Filters.{reply_event}

abbrev two_subs : LocalBus
two_subs = subscribe "inbound.message" "s2" (subscribe "inbound.message" "s1" new_local_bus)

abbrev one_left : LocalBus
one_left = record {
  objects =
      record { id = "s1"; event_type = "inbound.message"; buffer = []; closed = true; dropped = 0 }
      ∷ record {
        id = "s2";
        event_type = "inbound.message";
        buffer = [];
        closed = false;
        dropped = 0;
      }
      ∷ [];
  subs = "s2" ∷ [];
  by_type = change_type "inbound.message" ("s2" ∷ []) two_subs.by_type;
}

ended : unsubscribe "s1" two_subs ≡ some one_left
unfolding unsubscribe subscribe
ended = refl

to_one_left : Steps new_local_bus one_left
unfolding any_where subscribe
to_one_left =
    next
      (next (next here (subscribes "inbound.message" "s1" refl refl))
        (subscribes "inbound.message" "s2" refl refl))
      (unsubscribes "s1" ended)

Steps-IsWellFormed_example :
    IsWellFormed one_left
    × ((env : EventEnvelope) → (b : LocalBus) × (publish env one_left ≡ some b))
    × ((id : String) → (b : LocalBus) × (unsubscribe id one_left ≡ some b))
Steps-IsWellFormed_example = Steps-IsWellFormed one_left to_one_left

one_left-IsWellFormed : IsWellFormed one_left
one_left-IsWellFormed = (Steps-IsWellFormed one_left to_one_left).0

publish-Offered_example :
    (b : LocalBus) × (publish reply_event one_left ≡ some b)
    × Offered reply_event (one_left.by_type (type_name reply_event.type)) one_left.objects b.objects
    × IsWellFormed b
publish-Offered_example = publish-Offered reply_event one_left one_left-IsWellFormed
