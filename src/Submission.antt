-- ===== src/Submission.antt =====
-- SubmissionManager of internal/submission. `accounts` are the IDs that are configured, `clients` is
-- ClientLookup. The queue manager and the Store of the configuration stand on one table, as
-- cmd/matfix/main.go wires them.
pub mod Registry
pub mod Idempotent
pub mod Guards
use matfix.Shared.{
  String, Bool, true, false, ◌||◌, not, Option, none, some, List, ◌==◌, if◌then◌else◌, ℤ, Result,
  ok, err, unknown_account, invalid_destination, nil_message, unavailable, Exec, pure, raise,
  and_then, ◌>>=◌, chain, refuse_if, any_where,
}
use text.Mathlib.Text.{starts_with}
use matfix.Engine.SendTypes.{SendRequest}
use matfix.Engine.Rooms.{Matrix, answered, resolve_room}
use matfix.Persistence.Queue as Store
use matfix.Persistence.Queue.{QueueEntry}
use matfix.Queue.Payload.{Json}
use matfix.Queue.Manager as Queue
use matfix.Queue.Manager.{Manager, Job}

-- `none` is the nil message.
pub record SubmitRequest : Type 0 where
  pub account_id : String
  pub destination : String
  pub message : Option SendRequest
  pub idempotency_key : String

unfoldable pub validate_destination : String → Result (Unit {0})
validate_destination dest =
    refuse_if (not (starts_with dest "!" || starts_with dest "#" || starts_with dest "@"))
      invalid_destination

unfoldable pub check_message : Option SendRequest → Result SendRequest
check_message none = err nil_message
check_message (some message) = ok message

-- The result is the message, which is not nil.
unfoldable pub validate_request : SubmitRequest → List String → Result SendRequest
unfolding validate_destination check_message any_where
validate_request req accounts =
    chain (refuse_if (not (any_where (λ a. a == req.account_id) accounts)) unknown_account)
      (λ _. chain (validate_destination req.destination) (λ _. check_message req.message))

-- The queue, and the homeservers behind the clients.
pub record World (S : Type 0) : Type 0 where
  pub manager : Manager
  pub server : S

abbrev pub entry_id : Option QueueEntry → String
entry_id none = ""
entry_id (some e) = e.id

module _ {S : Type 0} where
  abbrev pub on_manager : {A : Type 0} → Exec Manager A → Exec (World S) A
  on_manager op w = let (r, m) = op w.manager in (r, record w { manager = m })

  abbrev pub on_server : {A : Type 0} → Exec S A → Exec (World S) A
  on_server op w = let (r, s) = op w.server in (r, record w { server = s })

  -- The ID of the job under the key, or "".
  unfoldable pub check_idempotency : String → String → Exec (World S) String
  check_idempotency account key = if key == "" then pure "" else (do
    entry ← on_manager (Queue.on_store (Store.get_by_idempotency_key account key))
    pure (entry_id entry))

module _ {S : Type 0} (json : Json) (accounts : List String)
    (clients : String → Option (Matrix S)) where
  unfoldable pub user_id : String → String
  user_id account = elim (clients account) [ none ↦ "" | some mx ↦ mx.user_id ]

  -- The two calls of the client that SendDirect makes.
  unfoldable pub send_with : Option (Matrix S) → String → SendRequest → Exec S String
  unfolding resolve_room
  send_with none dest message = raise unavailable
  send_with (some mx) dest message = do
    room ← resolve_room mx dest
    (λ s. answered (mx.send room message s))

  unfoldable pub send_direct : SubmitRequest → Exec (World S) String
  unfolding validate_request send_with
  send_direct req w =
      and_then (validate_request req accounts)
        (λ message. on_server (send_with (clients req.account_id) req.destination message)) w

  unfoldable pub resolve_with : Option (Matrix S) → String → Exec S String
  unfolding resolve_room
  resolve_with none dest = raise unavailable
  resolve_with (some mx) dest = resolve_room mx dest

  unfoldable pub submit_new : SubmitRequest → SendRequest → String → ℤ → Exec (World S) String
  unfolding resolve_with
  submit_new req message uuid now = do
    room ← on_server (resolve_with (clients req.account_id) req.destination)
    job ← on_manager (Queue.enqueue json req.account_id room message req.idempotency_key uuid now)
    pure job.id

  unfoldable pub unless_known :
      SubmitRequest → SendRequest → String → ℤ → String → Exec (World S) String
  unfolding submit_new
  unless_known req message uuid now known w =
      if known == "" then submit_new req message uuid now w else (ok known, w)

  unfoldable pub submit_valid : SubmitRequest → SendRequest → String → ℤ → Exec (World S) String
  unfolding unless_known check_idempotency
  submit_valid req message uuid now = do
    known ← check_idempotency req.account_id req.idempotency_key
    unless_known req message uuid now known

  unfoldable pub submit : SubmitRequest → String → ℤ → Exec (World S) String
  unfolding validate_request submit_valid
  submit req uuid now w =
      and_then (validate_request req accounts) (λ message. submit_valid req message uuid now) w
