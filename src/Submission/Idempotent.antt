-- ===== src/Submission/Idempotent.antt =====
-- Submissions of internal/submission that repeat a key, among each other and among the workers'
-- operations on the queue.
use matfix.Shared.{
  ℕ, ◌+◌, String, ◌≡◌, refl, sym, ◌∙◌, Bool, false, Option, some, List, arith, eq_iff, eq_refl,
  Result, ok, Bool-cases, inl, inr, ◌==◌, ℤ,
}
use matfix.Engine.Rooms.{Matrix}
use matfix.Persistence.Queue.{
  QueueEntry, acknowledged, dead_letter, has_id, update_rows, set_state, reschedule, claim,
}
use matfix.Persistence.Queue.Keys.{
  KeepsKeys, set_state-KeepsKeys, reschedule-KeepsKeys, claim-KeepsKeys,
}
use matfix.Persistence.Queue.Lookup.{find_key-update}
use matfix.Queue.Payload.{Json, IsFaithfulJson}
use matfix.Queue.Retry.{RetryPolicy, Float64}
use matfix.Queue.Manager as Queue
use matfix.Queue.Manager.Effects.{
  PullEffect, unclaimed, claimed, pull_next-PullEffect, Settles, nothing, acked, retried, buried,
  schedule_retry-Settles, transition-Settles,
}
use matfix.Queue.Manager.Outcome.{keyed_row}
use matfix.Submission.{SubmitRequest, World, submit}
use matfix.Submission.Registry.{
  Registry, registry, Accepts, refused, known, accepted, submit-Accepts,
}

-- An UPDATE that leaves the keys alone.
registry-update :
    (f : QueueEntry → QueueEntry) (keeps : KeepsKeys f) (p : QueueEntry → Bool)
    (rows : List QueueEntry) (account key : String)
    → registry (update_rows p f rows) account key ≡ registry rows account key
unfolding registry keyed_row
registry-update f keeps p rows account key = elim (Bool-cases (key == "")) [
  | inl h ↦ rw h refl
  | inr h ↦ rw h (find_key-update f keeps p account key rows)
]

-- Every key of the one map stands for the same job in the other.
abbrev pub KeepsJobs : Registry → Registry → Type 0
KeepsJobs old new =
    (account key id : String) → old account key ≡ some id → new account key ≡ some id

settled-KeepsJobs :
    (limit : ℕ) (id : String) (count : ℕ) (old new : List QueueEntry)
    → Settles limit id count old new
    → KeepsJobs (registry old) (registry new)
settled-KeepsJobs limit id count old new (nothing same) a k i h = rw same h
settled-KeepsJobs limit id count old new (acked now p) a k i h = rw p (
    registry-update (set_state acknowledged now) (set_state-KeepsKeys acknowledged now) (has_id id)
      old a k
    ∙ h)
settled-KeepsJobs limit id count old new (retried at now within p) a k i h = rw p (
    registry-update (reschedule (count + 1) at now) (reschedule-KeepsKeys (count + 1) at now)
      (has_id id) old a k
    ∙ h)
settled-KeepsJobs limit id count old new (buried now over p) a k i h = rw p (
    registry-update (set_state dead_letter now) (set_state-KeepsKeys dead_letter now) (has_id id)
      old a k
    ∙ h)

pulled-KeepsJobs :
    (account : String) (now : ℤ) (old new : List QueueEntry) {r : Result (Option Queue.Job)}
    → PullEffect account now old new r
    → KeepsJobs (registry old) (registry new)
pulled-KeepsJobs account now old new (unclaimed same no_job) a k i h = rw same h
pulled-KeepsJobs account now old new (claimed e next p jobs) a k i h =
    rw p (registry-update (claim now) (claim-KeepsKeys now) (has_id e.id) old a k ∙ h)

accepted-KeepsJobs :
    (account key : String) (old new : Registry) (r : Result String)
    → Accepts account key old new r
    → KeepsJobs old new
accepted-KeepsJobs account key old new r (refused e p same) a k i h = rw same h
accepted-KeepsJobs account key old new r (known id p found same) a k i h = rw same h
accepted-KeepsJobs account key old new r (accepted id p free more) a k i h =
    more a k ∙ (ground (arith, eq_iff a account, eq_iff k key))

Accepts-job :
    (account key id : String) (old new : Registry) (r : Result String)
    → (key == "") ≡ false
    → r ≡ ok id
    → Accepts account key old new r
    → new account key ≡ some id
Accepts-job account key id old new r keyed h (refused e p same) = absurd (cc)
Accepts-job account key id old new r keyed h (known i p found same) =
    let q : i ≡ id = (let o = sym p ∙ h in cc) in rw (same, found, q) refl
Accepts-job account key id old new r keyed h (accepted i p free more) =
    let q : i ≡ id = (let o = sym p ∙ h in cc) in
    more account key ∙ (rw (eq_refl account, eq_refl key, keyed, q) refl)

Accepts-known :
    (account key id id' : String) (old new : Registry) (r : Result String)
    → old account key ≡ some id
    → r ≡ ok id'
    → Accepts account key old new r
    → id' ≡ id
Accepts-known account key id id' old new r held h (refused e p same) = absurd (cc)
Accepts-known account key id id' old new r held h (known i p found same) = cc
Accepts-known account key id id' old new r held h (accepted i p free more) = absurd (cc)

module _ {S : Type 0} (json : Json) (float : Float64) (policy : RetryPolicy)
    (accounts : List String) (clients : String → Option (Matrix S)) where
  -- One operation on the queue: a submission, what a worker does, or what happens on the homeservers.
  pub data Step (w w' : World S) : Type 0 where
    submits :
        (req : SubmitRequest) (uuid : String) (now : ℤ)
        → w' ≡ (submit json accounts clients req uuid now w).1
        → Step w w'
    pulls :
        (account : String) (now : ℤ)
        → w' ≡ record w { manager = (Queue.pull_next json account now w.manager).1 }
        → Step w w'
    acknowledges :
        (id : String) (now : ℤ)
        → w' ≡ record w { manager = (Queue.transition id acknowledged now w.manager).1 }
        → Step w w'
    retries :
        (id : String) (count : ℕ) (now later : ℤ)
        → w' ≡ record w {
          manager = (Queue.schedule_retry float policy id count now later w.manager).1;
        }
        → Step w w'
    elsewhere : (s : S) → w' ≡ record w { server = s } → Step w w'

  pub data Steps (w : World S) : World S → Type 0 where
    here : Steps w w
    next : {v u : World S} → Steps w v → Step v u → Steps w u

  abbrev pub jobs : World S → Registry
  jobs w = registry w.manager.store.rows

  module _ (faithful : IsFaithfulJson json) where
    Step-KeepsJobs : (w w' : World S) → Step w w' → KeepsJobs (jobs w) (jobs w')
    Step-KeepsJobs w w' (submits req uuid now p) = rw p (
        accepted-KeepsJobs req.account_id req.idempotency_key _ _ _
          (submit-Accepts json accounts clients faithful req uuid now w))
    Step-KeepsJobs w w' (pulls account now p) =
        rw p (pulled-KeepsJobs account now _ _ (pull_next-PullEffect json account now w.manager))
    Step-KeepsJobs w w' (acknowledges id now p) = rw p (
        settled-KeepsJobs policy.max_retries id 0 _ _
          (transition-Settles float policy id 0 w.manager now))
    Step-KeepsJobs w w' (retries id count now later p) = rw p (
        settled-KeepsJobs policy.max_retries id count _ _
          (schedule_retry-Settles float policy id count w.manager now later))
    Step-KeepsJobs w w' (elsewhere s p) = rw p (λ a k i h. h)

    Steps-KeepsJobs : (w w' : World S) → Steps w w' → KeepsJobs (jobs w) (jobs w')
    Steps-KeepsJobs w w' here a k i h = h
    Steps-KeepsJobs w w' (next {v} {u} before step) a k i h =
        Step-KeepsJobs v w' step a k i (Steps-KeepsJobs w v before a k i h)

    -- A success leaves its job under the key, if there is one.
    submit-job :
        (w : World S) (req : SubmitRequest) (uuid id : String) (now : ℤ)
        → (req.idempotency_key == "") ≡ false
        → (submit json accounts clients req uuid now w).0 ≡ ok id
        → jobs (submit json accounts clients req uuid now w).1 req.account_id req.idempotency_key
          ≡ some id
    submit-job w req uuid id now keyed h =
        Accepts-job req.account_id req.idempotency_key id _ _ _ keyed h
          (submit-Accepts json accounts clients faithful req uuid now w)

    -- If encoding/json reads back what it marshals, two submissions that succeed under one key of one
    -- account, a key that is not empty, with anything between that other submissions and workers do,
    -- return the same job.
    pub submit-agree :
        (w w' : World S) (req req' : SubmitRequest) (uuid uuid' id id' : String) (now now' : ℤ)
        → (req.idempotency_key == "") ≡ false
        → req'.account_id ≡ req.account_id
        → req'.idempotency_key ≡ req.idempotency_key
        → (submit json accounts clients req uuid now w).0 ≡ ok id
        → Steps (submit json accounts clients req uuid now w).1 w'
        → (submit json accounts clients req' uuid' now' w').0 ≡ ok id'
        → id' ≡ id
    submit-agree w w' req req' uuid uuid' id id' now now' keyed same_account same_key h steps h' =
        let first = submit-job w req uuid id now keyed h in
        let later =
          Steps-KeepsJobs (submit json accounts clients req uuid now w).1 w' steps req.account_id
            req.idempotency_key id first in
        let last =
          Accepts-known req'.account_id req'.idempotency_key id id' _ _ _
            (rw (same_account, same_key) later) h'
            (submit-Accepts json accounts clients faithful req' uuid' now' w') in
        last
