-- ===== src/Queue/Manager.antt =====
-- QueueManager of internal/queue/manager.go and recover.go. uuid.New() and the readings of
-- time.Now() are arguments of the operations that make them.
pub mod Idempotency
pub mod Effects
pub mod Outcome
use matfix.Shared.{
  ℕ, suc, ◌+◌, String, Bool, true, false, Option, none, some, ◌==◌, if◌then◌else◌, ℤ, pos, Result,
  ok, err, codec, Exec, pure, raise, lift, and_then, ◌>>=◌, ◌>>◌,
}
use matfix.Engine.SendTypes.{SendRequest}
use matfix.Persistence.Queue as Store
use matfix.Persistence.Queue.{State, queued, QueueEntry, QueueDb}
use matfix.Queue.Payload.{Json, encode_payload, decode_payload}
use matfix.Queue.Retry.{RetryPolicy, Float64, next_scheduled_at, unix_milli, is_exhausted}

pub record Job : Type 0 where
  pub id : String
  pub account_id : String
  pub room_id : String
  pub request : SendRequest
  pub state : State
  pub retry_count : ℕ
  pub scheduled_at : ℤ
  pub idempotency_key : String
  pub created_at : ℤ
  pub updated_at : ℤ

-- The store, and the buffer of one of the channel `notify`: whether it holds a signal.
pub record Manager : Type 0 where
  pub store : QueueDb
  pub notified : Bool

-- A method of the store, run on the manager's.
abbrev pub on_store {ℓ} :
    {A : Type ℓ} → (QueueDb → Result A × QueueDb) → Manager → Result A × Manager
on_store op m = let (r, t) = op m.store in (r, record m { store = t })

module _ (json : Json) where
  unfoldable pub entry_to_job : QueueEntry → Result Job
  entry_to_job e = elim (decode_payload json e.payload) [
    | err x ↦ err x
    | ok req ↦ ok (record {
      id = e.id;
      account_id = e.account_id;
      room_id = e.room_id;
      request = req;
      state = e.state;
      retry_count = e.retry_count;
      scheduled_at = e.scheduled_at;
      idempotency_key = e.idempotency_key;
      created_at = e.created_at;
      updated_at = e.updated_at;
    })
  ]

  abbrev pub new_entry : String → String → String → String → String → ℤ → QueueEntry
  new_entry uuid account room payload key now = record {
    id = uuid;
    account_id = account;
    room_id = room;
    payload = payload;
    state = queued;
    retry_count = 0;
    scheduled_at = pos 0;
    idempotency_key = key;
    created_at = now;
    updated_at = now;
  }

  -- The non-blocking send: a full buffer stays full.
  abbrev wake : Exec Manager Unit
  wake m = (ok tt, record m { notified = true })

  insert_job : String → String → SendRequest → String → String → ℤ → Exec Manager Job
  insert_job account room req key uuid now = do
    payload ← lift (encode_payload json req)
    on_store (Store.enqueue (new_entry uuid account room payload key now))
    wake
    lift (entry_to_job (new_entry uuid account room payload key now))

  reuse_or_insert :
      String → String → SendRequest → String → String → ℤ → Option QueueEntry → Exec Manager Job
  unfolding insert_job
  reuse_or_insert account room req key uuid now none = insert_job account room req key uuid now
  reuse_or_insert account room req key uuid now (some e) = lift (entry_to_job e)

  -- GetByIdempotencyKey is only asked where there is a key.
  lookup_key : String → String → Exec Manager (Option QueueEntry)
  lookup_key account key =
      if key == "" then pure none else on_store (Store.get_by_idempotency_key account key)

  unfoldable pub enqueue : String → String → SendRequest → String → String → ℤ → Exec Manager Job
  unfolding reuse_or_insert lookup_key
  enqueue account room req key uuid now = do
    existing ← lookup_key account key
    reuse_or_insert account room req key uuid now existing

  pulled : Option QueueEntry → Exec Manager (Option Job)
  pulled none = pure none
  pulled (some e) = do job ← lift (entry_to_job e); pure (some job)

  unfoldable pub pull_next : String → ℤ → Exec Manager (Option Job)
  unfolding pulled
  pull_next account now = do entry ← on_store (Store.pull_next account now); pulled entry

unfoldable pub transition : String → State → ℤ → Exec Manager Unit
transition id state now = on_store (Store.update_state id state now)

unfoldable pub move_to_dead_letter : String → ℤ → Exec Manager Unit
move_to_dead_letter id now = on_store (Store.move_to_dead_letter id now)

-- `now` in nanoseconds is what NextScheduledAt reads, `later` in milliseconds what the store does.
-- The result is (retried, scheduledAt); the zero time stands beside `false`.
module _ (float : Float64) (policy : RetryPolicy) where
  unfoldable pub schedule_retry : String → ℕ → ℤ → ℤ → Exec Manager (Bool × ℤ)
  unfolding move_to_dead_letter
  schedule_retry id current now later =
      let next = current + 1 in
      let at = next_scheduled_at float policy next now in
      if is_exhausted policy next
      then (do move_to_dead_letter id later; pure (false, pos 0))
      else do on_store (Store.schedule_retry id next (unix_milli at) later); pure (true, at)

unfoldable pub recover_on_startup : ℤ → Exec Manager Unit
recover_on_startup now = do on_store (Store.restore_stuck now); pure tt
