-- ===== src/Bus/Local.antt =====
-- LocalBus of internal/bus/local.go. A *subscription is the ID of an object in `objects`, which holds
-- every subscription ever made; the two maps hold IDs. `none` is the panic of a send on a closed
-- channel or of a second close. Each operation runs under the mutex, so it is one step.
pub mod Objects
pub mod Invariant
pub mod Subscribe
pub mod Steps
use matfix.Shared.{
  ℕ, ◌+◌, String, Bool, true, false, Option, none, some, List, [], ◌∷◌, ◌++◌, ◌==◌, if◌then◌else◌,
  ltb, length, find_where, any_where, update_where, delete_where,
}
use matfix.Bus.Events.{EventEnvelope, type_name}

-- The channel is its buffer and whether it is closed.
pub record Subscription : Type 0 where
  pub id : String
  pub event_type : String
  pub buffer : List EventEnvelope
  pub closed : Bool
  pub dropped : ℕ

pub record LocalBus : Type 0 where
  pub objects : List Subscription
  pub subs : List String
  pub by_type : String → List String

abbrev pub new_local_bus : LocalBus
new_local_bus = record { objects = []; subs = []; by_type = λ t. [] }

abbrev pub default_channel_size : ℕ
default_channel_size = 256

abbrev pub has_sub : String → Subscription → Bool
has_sub id s = s.id == id

abbrev pub holds : String → List String → Bool
holds id ids = any_where (λ j. j == id) ids

-- The send with a default case.
unfoldable pub offer : EventEnvelope → Subscription → Subscription
offer env s =
    if ltb (length s.buffer) default_channel_size
    then record s { buffer = s.buffer ++ env ∷ [] }
    else record s { dropped = s.dropped + 1 }

-- A send on a closed channel panics.
unfoldable pub sent :
    String → EventEnvelope → Option Subscription → List Subscription → Option (List Subscription)
unfolding update_where offer
sent id env none objects = none
sent id env (some s) objects =
    if s.closed then none else some (update_where (has_sub id) (offer env) objects)

abbrev pub and_send :
    Option (List Subscription)
    → (List Subscription → Option (List Subscription))
    → Option (List Subscription)
and_send none f = none
and_send (some objects) f = f objects

unfoldable pub send_each :
    List String → EventEnvelope → List Subscription → Option (List Subscription)
unfolding sent find_where
send_each [] env objects = some objects
send_each (id ∷ ids) env objects =
    and_send (sent id env (find_where (has_sub id) objects) objects) (send_each ids env)

abbrev pub with_objects : LocalBus → Option (List Subscription) → Option LocalBus
with_objects b none = none
with_objects b (some objects) = some (record b { objects = objects })

unfoldable pub publish : EventEnvelope → LocalBus → Option LocalBus
unfolding send_each
publish env b = with_objects b (send_each (b.by_type (type_name env.type)) env b.objects)

abbrev pub change_type : String → List String → (String → List String) → String → List String
change_type t ids by_type u = if u == t then ids else by_type u

-- `uuid` is the new ID.
unfoldable pub subscribe : String → String → LocalBus → LocalBus
subscribe event_type uuid b = record {
  objects =
      b.objects
      ++ record { id = uuid; event_type = event_type; buffer = []; closed = false; dropped = 0 }
        ∷ [];
  subs = uuid ∷ b.subs;
  by_type = change_type event_type (b.by_type event_type ++ uuid ∷ []) b.by_type;
}

-- The first entry with the ID is cut out.
unfoldable pub remove_entry : String → List String → List String
remove_entry id [] = []
remove_entry id (j ∷ js) = let rest = remove_entry id js in if j == id then js else j ∷ rest

abbrev pub close : Subscription → Subscription
close s = record s { closed = true }

unfoldable pub unsubscribe_found : String → Option Subscription → LocalBus → Option LocalBus
unfolding remove_entry update_where delete_where
unsubscribe_found id none b = none
unsubscribe_found id (some s) b =
    if s.closed
    then none
    else some (record {
      objects = update_where (has_sub id) close b.objects;
      subs = delete_where (λ j. j == id) b.subs;
      by_type = change_type s.event_type (remove_entry id (b.by_type s.event_type)) b.by_type;
    })

unfoldable pub unsubscribe : String → LocalBus → Option LocalBus
unfolding unsubscribe_found find_where any_where
unsubscribe id b =
    if holds id b.subs then unsubscribe_found id (find_where (has_sub id) b.objects) b else some b

-- One round of runSubscriber: the event at the head of the buffer goes to the handler. The events of
-- a closed channel are still taken.
abbrev pub drop_head : Subscription → Subscription
drop_head s = record s { buffer = elim s.buffer [ [] ↦ [] | env ∷ rest ↦ rest ] }

unfoldable pub run_subscriber : String → LocalBus → LocalBus
unfolding update_where
run_subscriber id b = record b { objects = update_where (has_sub id) drop_head b.objects }
