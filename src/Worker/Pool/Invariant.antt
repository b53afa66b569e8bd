-- ===== src/Worker/Pool/Invariant.antt =====
-- The invariant of the interleaved workers of internal/worker.
use matfix.Shared.{
  ℕ, ◌+◌, ◌≤◌, ◌≡◌, refl, sym, ◌∙◌, ap, String, Option, none, some, List, [], ◌∷◌, ◌++◌, arith, ℤ,
  Result, ok, err, Bool, true, false, eq_refl,
}
use matfix.Persistence.Queue.{
  QueueEntry, acknowledged, dead_letter, update_rows, has_id, claim, set_state, reschedule,
}
use matfix.Persistence.Queue.Keys.{
  KeepsKeys, append-IsUnique, update-IsUnique, claim-KeepsKeys, set_state-KeepsKeys,
  reschedule-KeepsKeys,
}
use matfix.Persistence.Queue.Lookup.{row_of, row_of-update, row_of-in}
use matfix.Persistence.Queue.Select.{IsNext}
use matfix.Queue.Payload.{Json}
use matfix.Queue.Retry.{RetryPolicy, Float64}
use matfix.Queue.Manager.{Manager, Job}
use matfix.Queue.Manager.Effects.{
  Grows, same, grown, PullEffect, unclaimed, claimed, Settles, nothing, acked, retried, buried,
  enqueue-Grows, pull_next-PullEffect, schedule_retry-Settles, transition-Settles,
}
use matfix.Worker.{
  SendOutcome, Client, World, Clock, sent, refused, panicked, deliver, settle, report_failure,
}
use matfix.Worker.Pool.{
  Pool, Step, submit, take_job, find_none, settle_job, Steps, here, next, IsFresh, Inv,
}
use matfix.Worker.Pool.Held.{
  All-update, All-append, All-map, All-middle, IsDistinct-middle, IsHeld-All, IsHeld-append,
  queued-IsFresh, eligible-queued,
}

module _ (max : ℕ) where
  -- A table that grew.
  grow-Inv :
      (p : Pool) (m : Manager)
      → Grows p.manager.store.rows m.store.rows
      → Inv max p
      → Inv max (record p { manager = m })
  grow-Inv p m (same e) v =
      rw e (record { unique = v.unique; bounded = v.bounded; held = v.held; distinct = v.distinct })
  grow-Inv p m (grown new apart q zero_retries e) v = rw e (record {
    unique = append-IsUnique new p.manager.store.rows apart v.unique;
    bounded = All-append _ p.manager.store.rows new v.bounded (omega arith);
    held = All-map _ _ p.in_flight (λ j h. IsHeld-append new p.manager.store.rows j apart h) v.held;
    distinct = v.distinct;
  })

  module _ (account : String) (now : ℤ) (p : Pool) (m : Manager) (e : QueueEntry)
      (e_next : IsNext account now p.manager.store.rows e)
      (rows : m.store.rows ≡ update_rows (has_id e.id) (claim now) p.manager.store.rows)
      (v : Inv max p) where
    e_found : row_of e.id p.manager.store.rows ≡ some e
    e_found = row_of-in e p.manager.store.rows v.unique e_next.in_table

    e-IsFresh : IsFresh e.id p.in_flight
    e-IsFresh =
        queued-IsFresh e p.manager.store.rows p.in_flight e_found
          (eligible-queued account now e e_next.is_eligible) v.held

    -- A claim, whatever became of the row that was claimed.
    claim-Inv : Inv max (record p { manager = m })
    claim-Inv = rw rows (record {
      unique =
          update-IsUnique (claim now) (claim-KeepsKeys now) (has_id e.id) p.manager.store.rows
            v.unique;
      bounded = All-update _ (has_id e.id) (claim now) p.manager.store.rows (λ x h. h) v.bounded;
      held =
          IsHeld-All (claim now) (claim-KeepsKeys now) e.id p.manager.store.rows p.in_flight
            e-IsFresh v.held;
      distinct = v.distinct;
    })

    -- A claim whose job a worker took.
    take-Inv :
        (j : Job)
        → j.id ≡ e.id
        → j.retry_count ≡ e.retry_count
        → Inv max (record { manager = m; in_flight = j ∷ p.in_flight })
    take-Inv j same_id count =
        let c = claim-Inv in
        record {
          unique = c.unique;
          bounded = c.bounded;
          held = (
            record {
              row = claim now e;
              found =
                  ap (λ i. row_of i m.store.rows) same_id
                  ∙ (rw rows (
                      row_of-update (claim now) (claim-KeepsKeys now) e.id e.id p.manager.store.rows
                      ∙ (rw (e_found, eq_refl e.id))));
              is_sending = refl;
              same_count = sym count;
            },
            c.held,
          );
          distinct = ((rw same_id e-IsFresh), c.distinct);
        }

  module _ (p : Pool) (m : Manager) (before after : List Job) (j : Job)
      (split : p.in_flight ≡ before ++ j ∷ after) (v : Inv max p) where
    -- An update of the row of the job that leaves the flight.
    written-Inv :
        (f : QueueEntry → QueueEntry)
        → KeepsKeys f
        → ((e : QueueEntry) → e.retry_count ≤ max → (f e).retry_count ≤ max)
        → m.store.rows ≡ update_rows (has_id j.id) f p.manager.store.rows
        → Inv max (record { manager = m; in_flight = before ++ after })
    written-Inv f keeps low rows =
        let (rest, others) = IsDistinct-middle before j after (rw split at v.distinct) in
        rw rows (record {
          unique = update-IsUnique f keeps (has_id j.id) p.manager.store.rows v.unique;
          bounded = All-update _ (has_id j.id) f p.manager.store.rows low v.bounded;
          held =
              IsHeld-All f keeps j.id p.manager.store.rows (before ++ after) others
                (All-middle _ before j after (rw split at v.held)).1;
          distinct = rest;
        })

    -- A job that is settled.
    settle-Inv :
        Settles max j.id j.retry_count p.manager.store.rows m.store.rows
        → Inv max (record { manager = m; in_flight = before ++ after })
    settle-Inv (nothing e) = rw e (record {
      unique = v.unique;
      bounded = v.bounded;
      held = (All-middle _ before j after (rw split at v.held)).1;
      distinct = (IsDistinct-middle before j after (rw split at v.distinct)).0;
    })
    settle-Inv (acked now e) =
        written-Inv (set_state acknowledged now) (set_state-KeepsKeys acknowledged now) (λ x h. h) e
    settle-Inv (retried at now low e) =
        written-Inv (reschedule (j.retry_count + 1) at now)
          (reschedule-KeepsKeys (j.retry_count + 1) at now) (λ x h. low) e
    settle-Inv (buried now over e) =
        written-Inv (set_state dead_letter now) (set_state-KeepsKeys dead_letter now) (λ x h. h) e

module _ (float : Float64) (policy : RetryPolicy) where
  manager-report_failure :
      (job : Job) (account message : String) (r : Result (Bool × ℤ)) (w : World)
      → (report_failure float policy job account message r w).manager ≡ w.manager
  unfolding report_failure
  manager-report_failure job account message (err e) w = refl
  manager-report_failure job account message (ok (true, at)) w = refl
  manager-report_failure job account message (ok (false, at)) w = refl

  settle-Settles :
      (clock : Clock) (j : Job) (account : String) (outcome : SendOutcome) (w : World)
      → Settles policy.max_retries j.id j.retry_count w.manager.store.rows
          (settle float policy clock j account outcome w).manager.store.rows
  unfolding settle
  settle-Settles clock j account (sent id) w =
      transition-Settles float policy j.id j.retry_count w.manager clock.written_at
  settle-Settles clock j account (refused message) w = rw manager-report_failure (
      schedule_retry-Settles float policy j.id j.retry_count w.manager clock.failed_at
        clock.written_at)
  settle-Settles clock j account panicked w = nothing refl

  -- What a worker does with a job it pulled comes to one write to the job's row, or none.
  pub deliver-Settles :
      (clock : Clock) (j : Job) (account : String) (client : Option Client) (w : World)
      → Settles policy.max_retries j.id j.retry_count w.manager.store.rows
          (deliver float policy clock j account client w).manager.store.rows
  unfolding deliver
  deliver-Settles clock j account none w =
      schedule_retry-Settles float policy j.id j.retry_count w.manager clock.failed_at
        clock.written_at
  deliver-Settles clock j account (some client) w =
      settle-Settles clock j account (client j.room_id j.request) w

module _ (json : Json) (float : Float64) (policy : RetryPolicy) where
  PullEffect-Inv :
      (account : String) (now : ℤ) (p : Pool) (m : Manager) (r : Result (Option Job))
      → PullEffect account now p.manager.store.rows m.store.rows r
      → Inv policy.max_retries p
      → Inv policy.max_retries (record p { manager = m })
        × ((j : Job)
            → r ≡ ok (some j)
            → Inv policy.max_retries (record { manager = m; in_flight = j ∷ p.in_flight }))
  PullEffect-Inv account now p m r (unclaimed kept no_job) v =
      (grow-Inv policy.max_retries p m (same kept) v, λ j h. absurd (no_job j h))
  PullEffect-Inv account now p m r (claimed e e_next rows of_row) v = (
    claim-Inv policy.max_retries account now p m e e_next rows v,
    λ j h.
        let (same_id, count) = of_row j h in
        take-Inv policy.max_retries account now p m e e_next rows v j same_id count,
  )

  -- Every step of any worker or submitter, whatever fails in it, keeps the invariant.
  pub Step-Inv :
      {p q : Pool}
      → Step json float policy p q
      → Inv policy.max_retries p
      → Inv policy.max_retries q
  Step-Inv {p} (submit account room req key uuid now e) v = rw e (
      grow-Inv policy.max_retries p _ (enqueue-Grows json account room req key uuid now p.manager)
        v)
  Step-Inv {p} (take_job account now j h e) v =
      rw e (
        (PullEffect-Inv account now p _ _ (pull_next-PullEffect json account now p.manager) v).1 j
          h)
  Step-Inv {p} (find_none account now h e) v =
      rw e (PullEffect-Inv account now p _ _ (pull_next-PullEffect json account now p.manager) v).0
  Step-Inv {p} (settle_job before after clock j account client published split e) v = rw e (
      settle-Inv policy.max_retries p _ before after j split v (
        deliver-Settles float policy clock j account client
          (record { manager = p.manager; published = published })))

  -- From a state with the invariant, however submitters and workers interleave and whatever
  -- statements fail: keys stay unique, no row counts more retries than the policy allows, every job
  -- in flight has a row that is being sent and counts as many retries, and no job is in flight twice.
  pub Steps-Inv :
      {p q : Pool}
      → Inv policy.max_retries p
      → Steps json float policy p q
      → Inv policy.max_retries q
  Steps-Inv v here = v
  Steps-Inv v (next steps step) = Step-Inv step (Steps-Inv v steps)

-- A table with no row and no job in flight.
pub Inv-empty :
    (max : ℕ) (m : Manager) → m.store.rows ≡ [] → Inv max (record { manager = m; in_flight = [] })
Inv-empty max m e = rw e (record { unique = tt; bounded = tt; held = tt; distinct = tt })
