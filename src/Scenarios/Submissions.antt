-- ===== src/Scenarios/Submissions.antt =====
-- Rooms and submissions on a small homeserver, whose state is m.direct.
use matfix.Shared.{
  ◌≡◌, ◌⊎◌, refl, inl, inr, String, true, false, Option, none, some, any_where, List, [], ◌∷◌, ◌==◌,
  pos, Error, ok, err, if◌then◌else◌,
}
use matfix.Persistence.Queue as Store
use matfix.Persistence.Queue.{acknowledged}
use matfix.Queue.Manager as Queue
use matfix.Queue.Payload.{encode_payload, decode_payload}
use matfix.Queue.Manager.{Manager, entry_to_job}
use matfix.Engine.SendTypes.{SendRequest}
use matfix.Engine.Rooms.{Matrix, DirectContent, rooms_of, resolve_dm_room}
use matfix.Engine.Rooms.DirectRooms.{
  shown, direct_rooms, Stores, IsRecorded, Finds, resolve_dm_room-again,
}
use matfix.Submission.{SubmitRequest, World, submit}
use matfix.Submission.Registry.{Accepts, registry, submit-Accepts}
use matfix.Submission.Idempotent.{Steps, here, next, elsewhere, acknowledges, submit-agree}
use matfix.Submission.Guards.{IsValid, submit-held}
use matfix.Scenarios.QueueStore.{whole_floats}
use matfix.Scenarios.QueueManager.{texts_only, texts_only-IsFaithful, hello, idle}
use matfix.Scenarios.Workers.{policy}

abbrev pub Server : Type 0
Server = Option DirectContent

abbrev matrix : Matrix Server
matrix = record {
  user_id = "@alice:hs";
  resolve_alias = λ alias s. (some "!general:hs", s);
  get_direct = λ s. (shown s, s);
  set_direct = λ d s. (true, some d);
  create_room = λ user s. (some "!dm:hs", s);
  send = λ room message s. (some "$1", s);
}

matrix-Stores : Stores matrix (λ s. s)
matrix-Stores = record {
  reads = λ s there. refl;
  reading_keeps = λ s. refl;
  writes = λ d s written. refl;
  creating_keeps = λ user s. refl;
  names = λ user s h. cc;
}

abbrev with_carol : Server
with_carol = some (("@carol:hs", "!carol:hs" ∷ []) ∷ [])

first_time : (resolve_dm_room matrix "@bob:hs" with_carol).0 ≡ ok "!dm:hs"
unfolding resolve_dm_room
first_time = refl

abbrev then_known : Server
then_known = (resolve_dm_room matrix "@bob:hs" with_carol).1

calls_succeed : IsRecorded matrix "@bob:hs" "!dm:hs" with_carol
calls_succeed = (λ h. cc, refl)

resolve_dm_room-again_example :
    Finds matrix "@bob:hs" "!dm:hs" then_known
    × ((other : String)
        → ("@bob:hs" == other) ≡ false
        → direct_rooms other then_known ≡ direct_rooms other with_carol)
unfolding rooms_of
resolve_dm_room-again_example =
    resolve_dm_room-again matrix (λ s. s) matrix-Stores "@bob:hs" with_carol then_known "!dm:hs" tt
      first_time (λ none_known. calls_succeed) refl

abbrev pub clients : String → Option (Matrix Server)
clients account = if account == "alice" then some matrix else none

abbrev pub accounts : List String
accounts = "alice" ∷ []

abbrev request : SubmitRequest
request = record {
  account_id = "alice";
  destination = "@bob:hs";
  message = some hello;
  idempotency_key = "k1";
}

abbrev pub start : World Server
start = record { manager = idle; server = none }

submit-Accepts_example :
    Accepts "alice" "k1"
      (registry [])
      (registry
        (submit texts_only accounts clients request "job-1" (pos 10) start).1.manager.store.rows)
      (submit texts_only accounts clients request "job-1" (pos 10) start).0
submit-Accepts_example =
    submit-Accepts texts_only accounts clients texts_only-IsFaithful request "job-1" (pos 10) start

abbrev after_first : World Server
after_first = (submit texts_only accounts clients request "job-1" (pos 10) start).1

accepted_first : (submit texts_only accounts clients request "job-1" (pos 10) start).0 ≡ ok "job-1"
unfolding submit Queue.enqueue entry_to_job encode_payload decode_payload Store.enqueue
    Store.get_by_idempotency_key
accepted_first = refl

abbrev later_request : SubmitRequest
later_request = record request { destination = "#general:hs" }

-- The first job was acknowledged and m.direct was cleared in between.
abbrev between : World Server
between = record {
  manager = (Queue.transition "job-1" acknowledged (pos 20) after_first.manager).1;
  server = none;
}

to_between : Steps texts_only whole_floats policy accounts clients after_first between
to_between = next (next here (acknowledges "job-1" (pos 20) refl)) (elsewhere none refl)

accepted_again :
    (submit texts_only accounts clients later_request "job-2" (pos 30) between).0 ≡ ok "job-1"
unfolding submit Queue.enqueue Queue.transition entry_to_job encode_payload decode_payload
    Store.enqueue Store.get_by_idempotency_key Store.update_state
accepted_again = refl

abbrev answered_again : String
answered_again = "job-1"

submit-agree_example : answered_again ≡ "job-1"
submit-agree_example =
    submit-agree texts_only whole_floats policy accounts clients texts_only-IsFaithful start between
      request later_request "job-1" "job-2" "job-1" answered_again (pos 10) (pos 30) refl refl refl
      accepted_first to_between accepted_again

request-IsValid : IsValid accounts later_request hello
unfolding any_where
request-IsValid = record { configured = refl; has_sigil = inr (inl refl); has_message = refl }

held : registry after_first.manager.store.rows "alice" "k1" ≡ some "job-1"
unfolding registry submit Queue.enqueue entry_to_job encode_payload decode_payload Store.enqueue
    Store.get_by_idempotency_key
held = refl

submit-held_example :
    let (r, w) = submit texts_only accounts clients later_request "job-2" (pos 30) after_first in
    (w.server ≡ after_first.server)
    × (w.manager.store.rows ≡ after_first.manager.store.rows)
    × (((e : Error) × (r ≡ err e)) ⊎ (r ≡ ok "job-1"))
submit-held_example =
    submit-held texts_only accounts clients later_request "job-2" (pos 30) after_first hello "job-1"
      request-IsValid refl held

abbrev stranger : SubmitRequest
stranger = record request { account_id = "mallory" }

stranger-invalid : (message : SendRequest) → IsValid accounts stranger message → ⊥
unfolding any_where
stranger-invalid message v = let h = v.configured in cc
