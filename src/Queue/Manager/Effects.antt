-- ===== src/Queue/Manager/Effects.antt =====
-- What each method of the QueueManager does to the rows of the store.
use matfix.Shared.{
  ℕ, ◌+◌, ◌≤◌, ◌<◌, String, ◌≡◌, refl, ◌≢◌, inl, inr, false, Option, none, some, List, [], ◌∷◌,
  ◌++◌, arith, ◌∙◌, ℤ, Result, ok, err, Result-cases, Bool-cases, and_then, ltb,
}
use matfix.Engine.SendTypes.{SendRequest}
use matfix.Persistence.Queue as Store
use matfix.Persistence.Queue.{
  State, queued, acknowledged, dead_letter, QueueEntry, QueueDb, any_row, conflicts, update_rows,
  has_id, claim, set_state, reschedule, eligible,
}
use matfix.Persistence.Queue.Select.{IsNext, Pulls, pull_next-Pulls}
use matfix.Persistence.Queue.Contract.{
  enqueue-Inserts, get_by_idempotency_key-Reads, update_state-Writes, schedule_retry-Writes,
  move_to_dead_letter-Writes,
}
use matfix.Queue.Payload.{Json, encode_payload}
use matfix.Queue.Retry.{RetryPolicy, Float64, next_scheduled_at, unix_milli, is_exhausted}
use matfix.Queue.Manager.{
  Manager, Job, entry_to_job, new_entry, lookup_key, insert_job, reuse_or_insert, enqueue, pulled,
  pull_next, transition, schedule_retry,
}

-- The rows are as before, or one more row is queued, at its first attempt, that conflicts with none.
pub data Grows (old new : List QueueEntry) : Type 0 where
  same : new ≡ old → Grows old new
  grown :
      (e : QueueEntry)
      → any_row (conflicts e) old ≡ false
      → e.state ≡ queued
      → e.retry_count ≡ 0
      → new ≡ old ++ e ∷ []
      → Grows old new

-- Nothing was claimed and no job is returned; or the next row was claimed, and a job that is
-- returned is that row's.
pub data PullEffect (account : String) (now : ℤ) (old new : List QueueEntry)
    (r : Result (Option Job)) : Type 0 where
  unclaimed : new ≡ old → ((j : Job) → r ≢ ok (some j)) → PullEffect account now old new r
  claimed :
      (e : QueueEntry)
      → IsNext account now old e
      → new ≡ update_rows (has_id e.id) (claim now) old
      → ((j : Job) → r ≡ ok (some j) → (j.id ≡ e.id) × (j.retry_count ≡ e.retry_count))
      → PullEffect account now old new r

module _ (json : Json) where
  module _ (account room : String) (req : SendRequest) (key uuid : String) (now : ℤ) where
    insert_job-Grows :
        (m : Manager)
        → Grows m.store.rows (insert_job json account room req key uuid now m).1.store.rows
    unfolding insert_job
    insert_job-Grows m = elim (Result-cases (encode_payload json req)) [
      | inr (e, p) ↦ same (ground arith)
      | inl (payload, p) ↦
          let new = new_entry json uuid account room payload key now in
          elim (Result-cases (Store.enqueue new m.store).0) [
            | inr (e, q) ↦ same (ground (arith, enqueue-Inserts new m.store))
            | inl (u, q) ↦
                grown new (ground (arith, enqueue-Inserts new m.store)) refl refl
                  (ground (arith, enqueue-Inserts new m.store))
          ]
    ]

    after_lookup-Grows :
        (r : Result (Option QueueEntry)) (m : Manager)
        → Grows m.store.rows
            (and_then r (reuse_or_insert json account room req key uuid now) m).1.store.rows
    unfolding reuse_or_insert
    after_lookup-Grows (err e) m = same refl
    after_lookup-Grows (ok none) m = insert_job-Grows m
    after_lookup-Grows (ok (some e)) m = same refl

    lookup_key-rows : (m : Manager) → (lookup_key json account key m).1.store.rows ≡ m.store.rows
    unfolding lookup_key
    lookup_key-rows m = ground (arith, get_by_idempotency_key-Reads account key m.store)

    pub enqueue-Grows :
        (m : Manager)
        → Grows m.store.rows (enqueue json account room req key uuid now m).1.store.rows
    unfolding enqueue
    enqueue-Grows m =
        let (r, m') = lookup_key json account key m in
        rw (lookup_key-rows m) at (after_lookup-Grows r m')

  job_of_claim :
      (now : ℤ) (e : QueueEntry) (m : Manager) (j : Job)
      → (pulled json (some (claim now e)) m).0 ≡ ok (some j)
      → (j.id ≡ e.id) × (j.retry_count ≡ e.retry_count)
  unfolding pulled entry_to_job
  job_of_claim now e m j h = ground arith

  rows-pulled :
      (found : Option QueueEntry) (m : Manager) → (pulled json found m).1.store.rows ≡ m.store.rows
  unfolding pulled
  rows-pulled none m = refl
  rows-pulled (some e) m = ground arith

  not_pulled-none : (m : Manager) (j : Job) → (pulled json none m).0 ≢ ok (some j)
  unfolding pulled
  not_pulled-none m j = λ h. cc

  module _ (account : String) (now : ℤ) where
    after_pull-PullEffect :
        (r : Result (Option QueueEntry)) (m : Manager) (old : List QueueEntry)
        → Pulls account now old r m.store.rows
        → let (x, m') = and_then r (pulled json) m in PullEffect account now old m'.store.rows x
    after_pull-PullEffect (err e) m old kept = unclaimed kept (λ j h. cc)
    after_pull-PullEffect (ok none) m old p =
        unclaimed (rows-pulled none m ∙ p.0) (λ j h. not_pulled-none m j h)
    after_pull-PullEffect (ok (some c)) m old (e, next, is_claim, rows) =
        claimed e next (rows-pulled (some c) m ∙ rows)
          (λ j h. job_of_claim now e m j (rw is_claim at h))

    pub pull_next-PullEffect :
        (m : Manager)
        → let (x, m') = pull_next json account now m in
          PullEffect account now m.store.rows m'.store.rows x
    unfolding pull_next
    pull_next-PullEffect m =
        let (r, t) = Store.pull_next account now m.store in
        after_pull-PullEffect r (record m { store = t }) m.store.rows
          (pull_next-Pulls account now m.store)

-- What settling a job with this ID and retry count may do to the rows.
pub data Settles (max_retries : ℕ) (id : String) (count : ℕ) (old new : List QueueEntry)
    : Type 0 where
  nothing : new ≡ old → Settles max_retries id count old new
  acked :
      (now : ℤ)
      → new ≡ update_rows (has_id id) (set_state acknowledged now) old
      → Settles max_retries id count old new
  retried :
      (at now : ℤ)
      → count + 1 ≤ max_retries
      → new ≡ update_rows (has_id id) (reschedule (count + 1) at now) old
      → Settles max_retries id count old new
  buried :
      (now : ℤ)
      → max_retries < count + 1
      → new ≡ update_rows (has_id id) (set_state dead_letter now) old
      → Settles max_retries id count old new

module _ (float : Float64) (policy : RetryPolicy) (id : String) (count : ℕ) (m : Manager) where
  pub schedule_retry-Settles :
      (now later : ℤ)
      → Settles policy.max_retries id count m.store.rows
          (schedule_retry float policy id count now later m).1.store.rows
  unfolding schedule_retry is_exhausted
  schedule_retry-Settles now later =
      let at = unix_milli (next_scheduled_at float policy (count + 1) now) in
      elim (Bool-cases (ltb policy.max_retries (count + 1))) [
        | inl over ↦ elim (Result-cases (Store.move_to_dead_letter id later m.store).0) [
          | inr (e, p) ↦ nothing (ground (arith, move_to_dead_letter-Writes id m.store later))
          | inl (u, p) ↦
              buried later (ground arith)
                (ground (arith, move_to_dead_letter-Writes id m.store later))
        ]
        | inr within ↦
            elim (Result-cases (Store.schedule_retry id (count + 1) at later m.store).0) [
              | inr (e, p) ↦
                  nothing (ground (arith, schedule_retry-Writes id m.store (count + 1) at later))
              | inl (u, p) ↦
                  retried at later (ground arith)
                    (ground (arith, schedule_retry-Writes id m.store (count + 1) at later))
            ]
      ]

  pub transition-Settles :
      (now : ℤ)
      → Settles policy.max_retries id count m.store.rows
          (transition id acknowledged now m).1.store.rows
  unfolding transition
  transition-Settles now = elim (Result-cases (Store.update_state id acknowledged now m.store).0) [
    | inr (e, p) ↦ nothing (ground (arith, update_state-Writes id m.store acknowledged now))
    | inl (u, p) ↦ acked now (ground (arith, update_state-Writes id m.store acknowledged now))
  ]
