-- ===== src/Worker.antt =====
-- processOne and onSendFailure of internal/worker/worker.go. Workers share the queue manager and the
-- bus; a client and what it answers are parameters, since mautrix does the sending.
pub mod Pool
use matfix.Shared.{
  ◌||◌, ℕ, suc, ◌+◌, String, Bool, true, false, Option, none, some, List, [], ◌∷◌, ◌++◌, ℤ, Result,
  ok, err, Error,
}
use matfix.Engine.SendTypes.{SendRequest}
use matfix.Persistence.Queue as Store
use matfix.Bus.Events.{
  EventEnvelope, delivery_acknowledged, retry_scheduled, retry_exhausted, acknowledged, scheduled,
  exhausted,
}
use matfix.Queue.Payload.{Json}
use matfix.Queue.Retry.{RetryPolicy, Float64}
use matfix.Queue.Manager
use matfix.Queue.Manager.{Manager, Job}

-- How one call of client.Send ends.
pub data SendOutcome : Type 0 where
  sent : String → SendOutcome
  refused : String → SendOutcome
  panicked : SendOutcome

-- engine.Client, as far as a worker sees it: the answer for a room and a request.
abbrev pub Client : Type 0
Client = String → SendRequest → SendOutcome

-- The queue manager, and what was published, oldest first.
pub record World : Type 0 where
  pub manager : Manager
  pub published : List EventEnvelope

-- The readings of time.Now(): by the pull, by the schedule (in nanoseconds), by the write that
-- follows and by the event.
pub record Clock : Type 0 where
  pub pulled_at : ℤ
  pub failed_at : ℤ
  pub written_at : ℤ
  pub published_at : ℤ

abbrev publish : EventEnvelope → World → World
publish env w = record w { published = w.published ++ env ∷ [] }

module _ (float : Float64) (policy : RetryPolicy) where
  abbrev retry_event : Job → String → ℤ → EventEnvelope
  retry_event job account at = record {
    type = retry_scheduled;
    account_id = account;
    room_id = job.room_id;
    payload =
        scheduled
          (record { job_id = job.id; retry_count = job.retry_count + 1; scheduled_at = at });
  }

  abbrev exhausted_event : Job → String → String → EventEnvelope
  exhausted_event job account message = record {
    type = retry_exhausted;
    account_id = account;
    room_id = job.room_id;
    payload =
        exhausted (record { job_id = job.id; retry_count = job.retry_count; last_error = message });
  }

  report_failure : Job → String → String → Result (Bool × ℤ) → World → World
  report_failure job account message (err e) w = w
  report_failure job account message (ok (true, at)) w = publish (retry_event job account at) w
  report_failure job account message (ok (false, at)) w =
      publish (exhausted_event job account message) w

  on_send_failure : Clock → Job → String → String → World → World
  unfolding report_failure
  on_send_failure clock job account message w =
      let (r, m) =
        Manager.schedule_retry float policy job.id job.retry_count clock.failed_at clock.written_at
          w.manager in
      report_failure job account message r (record w { manager = m })

  -- The account is not available: the retry is scheduled, and nothing is published.
  on_missing_client : Clock → Job → World → World
  on_missing_client clock job w =
      let (r, m) =
        Manager.schedule_retry float policy job.id job.retry_count clock.failed_at clock.written_at
          w.manager in
      record w { manager = m }

  -- An error of Transition is logged, and the event is published all the same.
  on_sent : Clock → Job → String → String → World → World
  on_sent clock job account event_id w =
      let (r, m) = Manager.transition job.id Store.acknowledged clock.written_at w.manager in
      publish
        (record {
          type = delivery_acknowledged;
          account_id = account;
          room_id = job.room_id;
          payload = acknowledged (record {
            job_id = job.id;
            matrix_event_id = event_id;
            timestamp = clock.published_at;
          });
        })
        (record w { manager = m })

  -- A panic is recovered; the job stays as the pull left it.
  settle : Clock → Job → String → SendOutcome → World → World
  unfolding on_sent on_send_failure
  settle clock job account (sent event_id) w = on_sent clock job account event_id w
  settle clock job account (refused message) w = on_send_failure clock job account message w
  settle clock job account panicked w = w

  unfoldable pub deliver : Clock → Job → String → Option Client → World → World
  unfolding settle on_missing_client
  deliver clock job account none w = on_missing_client clock job w
  deliver clock job account (some client) w =
      settle clock job account (client job.room_id job.request) w

module _ (json : Json) (float : Float64) (policy : RetryPolicy)
    (clients : String → Option Client) where
  after_pull : Clock → String → Result (Option Job) → World → Bool × World
  unfolding deliver
  after_pull clock account (err e) w = (false, w)
  after_pull clock account (ok none) w = (false, w)
  after_pull clock account (ok (some job)) w =
      (true, deliver float policy clock job account (clients account) w)

  unfoldable pub process_one : Clock → String → World → Bool × World
  unfolding after_pull
  process_one clock account w =
      let (r, m) = Manager.pull_next json account clock.pulled_at w.manager in
      after_pull clock account r (record w { manager = m })

  -- One pass of runWorker over the accounts that no cancellation cuts short, with the clock of each;
  -- `true` means that another pass follows at once.
  unfoldable pub pass : List (Clock × String) → World → Bool × World
  unfolding process_one
  pass [] w = (false, w)
  pass ((clock, account) ∷ rest) w =
      let (worked, w') = process_one clock account w in
      let (more, w'') = pass rest w' in (worked || more, w'')
