-- ===== src/Worker/Pool.antt =====
-- The workers of internal/worker as interleaved steps on one queue: submissions, pulls and the
-- settling of pulled jobs come in any order, and any of their statements may fail.
pub mod Held
pub mod Invariant
pub mod Edges
use matfix.Shared.{
  ℕ, ◌+◌, ◌≤◌, ◌<◌, ◌≡◌, ◌≢◌, String, Option, none, some, List, [], ◌∷◌, ◌++◌, ℤ, Result, ok, err,
  All,
}
use matfix.Engine.SendTypes.{SendRequest}
use matfix.Persistence.Queue.{QueueEntry, sending}
use matfix.Persistence.Queue.Keys.{IsUnique}
use matfix.Persistence.Queue.Lookup.{row_of}
use matfix.Bus.Events.{EventEnvelope}
use matfix.Queue.Payload.{Json}
use matfix.Queue.Retry.{RetryPolicy, Float64}
use matfix.Queue.Manager
use matfix.Queue.Manager.{Manager, Job}
use matfix.Worker.{Client, World, Clock, deliver}

-- The shared manager, and the jobs that a worker has pulled and not yet settled.
pub record Pool : Type 0 where
  pub manager : Manager
  pub in_flight : List Job

module _ (json : Json) (float : Float64) (policy : RetryPolicy) where
  pub data Step (p q : Pool) : Type 0 where
    -- An API request reaches QueueManager.Enqueue.
    submit :
        (account room : String) (req : SendRequest) (key uuid : String) (now : ℤ)
        → q
          ≡ record p { manager = (Manager.enqueue json account room req key uuid now p.manager).1 }
        → Step p q
    -- A worker's PullNext returns a job ...
    take_job :
        (account : String) (now : ℤ) (j : Job)
        → (Manager.pull_next json account now p.manager).0 ≡ ok (some j)
        → q ≡ record {
          manager = (Manager.pull_next json account now p.manager).1;
          in_flight = j ∷ p.in_flight;
        }
        → Step p q
    -- ... or an error or nothing.
    find_none :
        (account : String) (now : ℤ)
        → ((j : Job) → (Manager.pull_next json account now p.manager).0 ≢ ok (some j))
        → q ≡ record p { manager = (Manager.pull_next json account now p.manager).1 }
        → Step p q
    -- A worker settles a job that it holds, with whatever client and answer.
    settle_job :
        (before after : List Job) (clock : Clock) (j : Job) (account : String)
        (client : Option Client) (published : List EventEnvelope)
        → p.in_flight ≡ before ++ j ∷ after
        → q ≡ record {
          manager =
              (deliver float policy clock j account client
                (record { manager = p.manager; published = published })).manager;
          in_flight = before ++ after;
        }
        → Step p q

  pub data Steps (p : Pool) : Pool → Type 0 where
    here : Steps p p
    next : {q r : Pool} → Steps p q → Step q r → Steps p r

-- The row of a job in flight: it is being sent, and counts as many retries as the job.
pub record IsHeld (rows : List QueueEntry) (j : Job) : Type 0 where
  pub row : QueueEntry
  pub found : row_of j.id rows ≡ some row
  pub is_sending : row.state ≡ sending
  pub same_count : row.retry_count ≡ j.retry_count

abbrev pub IsFresh : String → List Job → Type 0
IsFresh id = All (λ j. id ≢ j.id)

-- No two jobs in flight are one.
abbrev pub IsDistinct : List Job → Type 0
IsDistinct [] = Unit
IsDistinct (j ∷ js) = IsFresh j.id js × IsDistinct js

pub record Inv (max_retries : ℕ) (p : Pool) : Type 0 where
  pub unique : IsUnique p.manager.store.rows
  pub bounded : All (λ e. e.retry_count ≤ max_retries) p.manager.store.rows
  pub held : All (IsHeld p.manager.store.rows) p.in_flight
  pub distinct : IsDistinct p.in_flight
