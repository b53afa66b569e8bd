-- ===== src/Scenarios/Workers.antt =====
-- internal/worker on one job: it is submitted, pulled and acknowledged.
use matfix.Shared.{◌≡◌, refl, some, [], ◌∷◌, pos, ok, inl}
use matfix.Persistence.Queue as Store
use matfix.Persistence.Queue.{QueueEntry}
use matfix.Persistence.Queue.Lookup.{row_of}
use matfix.Queue.Payload.{encode_payload, decode_payload}
use matfix.Queue.Retry.{RetryPolicy, exponential}
use matfix.Queue.Retry.Bounds.{policy_of}
use matfix.Queue.Manager as QueueManager
use matfix.Queue.Manager.{Manager, Job}
use matfix.Worker.{Client, Clock, sent, deliver}
use matfix.Worker.Pool.{Pool, Steps, here, next, submit, take_job, settle_job, Inv}
use matfix.Worker.Pool.Invariant.{Steps-Inv, Inv-empty}
use matfix.Worker.Pool.Edges.{Steps-terminal}
use matfix.Scenarios.QueueStore.{whole_floats}
use matfix.Scenarios.QueueManager.{texts_only, hello, idle, first_job, after_first}

abbrev pub policy : RetryPolicy
policy = policy_of 5 exponential 1000000000 0

abbrev clock : Clock
clock = record {
  pulled_at = pos 20;
  failed_at = pos 21;
  written_at = pos 22;
  published_at = pos 23;
}

abbrev client : Client
client room req = sent "$event"

abbrev empty_pool : Pool
empty_pool = record { manager = idle; in_flight = [] }

abbrev pool_1 : Pool
pool_1 = record { manager = after_first; in_flight = [] }

abbrev pulled_job : Job
pulled_job = record first_job { state = Store.sending; updated_at = pos 20 }

abbrev pool_2 : Pool
pool_2 = record {
  manager = (QueueManager.pull_next texts_only "alice" (pos 20) after_first).1;
  in_flight = pulled_job ∷ [];
}

abbrev pool_3 : Pool
pool_3 = record {
  manager =
      (deliver whole_floats policy clock pulled_job "alice" (some client)
        (record { manager = pool_2.manager; published = [] })).manager;
  in_flight = [];
}

second_pull :
    (QueueManager.pull_next texts_only "alice" (pos 20) after_first).0 ≡ ok (some pulled_job)
unfolding QueueManager.pull_next QueueManager.enqueue QueueManager.entry_to_job encode_payload
    decode_payload Store.enqueue Store.get_by_idempotency_key Store.pull_next
second_pull = refl

to_pool_2 : Steps texts_only whole_floats policy empty_pool pool_2
to_pool_2 =
    next (next here (submit "alice" "!room:hs" hello "k1" "job-1" (pos 10) refl))
      (take_job "alice" (pos 20) pulled_job second_pull refl)

to_pool_3 : Steps texts_only whole_floats policy empty_pool pool_3
to_pool_3 = next to_pool_2 (settle_job [] [] clock pulled_job "alice" (some client) [] refl refl)

empty_pool-Inv : Inv policy.max_retries empty_pool
empty_pool-Inv = Inv-empty policy.max_retries idle refl

Steps-Inv_example : Inv policy.max_retries pool_3
Steps-Inv_example = Steps-Inv texts_only whole_floats policy empty_pool-Inv to_pool_3

abbrev acknowledged_row : QueueEntry
acknowledged_row = record {
  id = "job-1";
  account_id = "alice";
  room_id = "!room:hs";
  payload = "hello";
  state = Store.acknowledged;
  retry_count = 0;
  scheduled_at = pos 0;
  idempotency_key = "k1";
  created_at = pos 10;
  updated_at = pos 22;
}

abbrev sending_row : QueueEntry
sending_row = record acknowledged_row { state = Store.sending; updated_at = pos 20 }

row_in_3 : row_of "job-1" pool_3.manager.store.rows ≡ some acknowledged_row
unfolding row_of QueueManager.pull_next QueueManager.enqueue QueueManager.entry_to_job
    encode_payload decode_payload Store.enqueue Store.get_by_idempotency_key Store.pull_next deliver
    QueueManager.transition Store.update_state
row_in_3 = refl

abbrev pool_4 : Pool
pool_4 = record {
  manager =
      (QueueManager.enqueue texts_only "alice" "!room:hs" hello "k2" "job-2" (pos 30)
        pool_3.manager).1;
  in_flight = [];
}

Steps-terminal_example : row_of "job-1" pool_4.manager.store.rows ≡ some acknowledged_row
Steps-terminal_example =
    Steps-terminal texts_only whole_floats policy "job-1" acknowledged_row
      (Steps-Inv texts_only whole_floats policy empty_pool-Inv to_pool_3)
      (next here (submit "alice" "!room:hs" hello "k2" "job-2" (pos 30) refl)) row_in_3 (inl refl)
