-- ===== src/Worker/Pool/Edges.antt =====
-- The state machine of a job row (State of internal/queue/job.go) under the interleaved workers.
use matfix.Shared.{
  ℕ, ◌+◌, ◌≤◌, ◌<◌, ◌≡◌, ◌⊎◌, refl, sym, ◌∙◌, ap, String, Option, some, List, arith, ℤ, Result,
  ◌==◌, eq_iff, Bool-cases, inl, inr,
}
use matfix.Persistence.Queue.{
  QueueEntry, queued, sending, acknowledged, dead_letter, update_rows, has_id, claim, set_state,
  reschedule,
}
use matfix.Persistence.Queue.Keys.{
  IsUnique, KeepsKeys, claim-KeepsKeys, set_state-KeepsKeys, reschedule-KeepsKeys,
}
use matfix.Persistence.Queue.Lookup.{row_of, row_of-update, row_of-append_old, row_of-in}
use matfix.Queue.Payload.{Json}
use matfix.Queue.Retry.{RetryPolicy, Float64}
use matfix.Queue.Manager.{Job}
use matfix.Queue.Manager.Effects.{
  Grows, same, grown, PullEffect, unclaimed, claimed, Settles, nothing, acked, retried, buried,
  enqueue-Grows, pull_next-PullEffect,
}
use matfix.Worker.Pool.{
  Pool, Step, submit, take_job, find_none, settle_job, Steps, here, next, IsHeld, Inv,
}
use matfix.Worker.Pool.Held.{eligible-queued, All-middle}
use matfix.Worker.Pool.Invariant.{deliver-Settles, Steps-Inv}

-- How one row may change: not at all, or along an edge of the diagram, with what is written.
pub data Edge (max_retries : ℕ) (a b : QueueEntry) : Type 0 where
  stay : b ≡ a → Edge max_retries a b
  claim_it : (now : ℤ) → a.state ≡ queued → b ≡ claim now a → Edge max_retries a b
  acknowledge :
      (now : ℤ) → a.state ≡ sending → b ≡ set_state acknowledged now a → Edge max_retries a b
  retry :
      (at now : ℤ)
      → a.state ≡ sending
      → a.retry_count + 1 ≤ max_retries
      → b ≡ reschedule (a.retry_count + 1) at now a
      → Edge max_retries a b
  bury :
      (now : ℤ)
      → a.state ≡ sending
      → max_retries < a.retry_count + 1
      → b ≡ set_state dead_letter now a
      → Edge max_retries a b

-- The row of an ID is still there, and has moved along an edge.
abbrev pub Moves : ℕ → String → QueueEntry → List QueueEntry → Type 0
Moves max_retries id a rows = (b : QueueEntry) × (row_of id rows ≡ some b) × Edge max_retries a b

module _ (max : ℕ) (id : String) (a : QueueEntry) where
  -- An update of one row, where the row `a` of that ID moves along an edge.
  update-Moves :
      (f : QueueEntry → QueueEntry) (keeps : KeepsKeys f) (i : String) (rows : List QueueEntry)
      → row_of id rows ≡ some a
      → (i ≡ id → Edge max a (f a))
      → Moves max id a (update_rows (has_id i) f rows)
  update-Moves f keeps i rows found edge = elim (Bool-cases (i == id)) [
    | inl h ↦ (f a, row_of-update f keeps i id rows ∙ (rw (h, found)), edge ((eq_iff i id).0 h))
    | inr h ↦ (a, row_of-update f keeps i id rows ∙ (rw (h, found)), stay refl)
  ]

  grow-Moves :
      (old new : List QueueEntry) → Grows old new → row_of id old ≡ some a → Moves max id a new
  grow-Moves old new (same e) found = (a, rw (e, found), stay refl)
  grow-Moves old new (grown x apart q z e) found =
      (a, rw e (row_of-append_old id x old a apart found), stay refl)

  pull-Moves :
      (account : String) (now : ℤ) (old new : List QueueEntry) (r : Result (Option Job))
      → IsUnique old
      → PullEffect account now old new r
      → row_of id old ≡ some a
      → Moves max id a new
  pull-Moves account now old new r u (unclaimed e _) found = (a, rw (e, found), stay refl)
  pull-Moves account now old new r u (claimed c c_next e _) found = rw e (
      update-Moves (claim now) (claim-KeepsKeys now) c.id old found (λ p.
        let it : some c ≡ some a =
          sym (row_of-in c old u c_next.in_table) ∙ ap (λ i. row_of i old) p ∙ found in
        claim_it now (ground (arith, it, eligible-queued account now c c_next.is_eligible)) refl))

  settle-Moves :
      (old new : List QueueEntry) (j : Job)
      → IsHeld old j
      → Settles max j.id j.retry_count old new
      → row_of id old ≡ some a
      → Moves max id a new
  settle-Moves old new j h (nothing e) found = (a, rw (e, found), stay refl)
  settle-Moves old new j h (acked now e) found = rw e (
      update-Moves (set_state acknowledged now) (set_state-KeepsKeys acknowledged now) j.id old
        found
        (λ p.
          let it : some h.row ≡ some a = sym h.found ∙ ap (λ i. row_of i old) p ∙ found in
          acknowledge now (ground (arith, it)) refl))
  settle-Moves old new j h (retried at now low e) found = rw e (
      update-Moves (reschedule (j.retry_count + 1) at now)
        (reschedule-KeepsKeys (j.retry_count + 1) at now) j.id old found
        (λ p.
          let it : some h.row ≡ some a = sym h.found ∙ ap (λ i. row_of i old) p ∙ found in
          retry at now (ground (arith, it)) (ground (arith, it)) (ground (arith, it))))
  settle-Moves old new j h (buried now over e) found = rw e (
      update-Moves (set_state dead_letter now) (set_state-KeepsKeys dead_letter now) j.id old found
        (λ p.
          let it : some h.row ≡ some a = sym h.found ∙ ap (λ i. row_of i old) p ∙ found in
          bury now (ground (arith, it)) (ground (arith, it)) refl))

-- What no step leaves.
abbrev pub IsTerminal : QueueEntry → Type 0
IsTerminal e = (e.state ≡ acknowledged) ⊎ (e.state ≡ dead_letter)

terminal_stays : (max : ℕ) (a b : QueueEntry) → IsTerminal a → Edge max a b → b ≡ a
terminal_stays max a b t (stay e) = e
terminal_stays max a b t (claim_it now q e) = ground arith
terminal_stays max a b t (acknowledge now q e) = ground arith
terminal_stays max a b t (retry at now q low e) = ground arith
terminal_stays max a b t (bury now q over e) = ground arith

module _ (json : Json) (float : Float64) (policy : RetryPolicy) where
  pub Step-Moves :
      {p q : Pool} (id : String) (a : QueueEntry)
      → Inv policy.max_retries p
      → Step json float policy p q
      → row_of id p.manager.store.rows ≡ some a
      → Moves policy.max_retries id a q.manager.store.rows
  Step-Moves {p} id a v (submit account room req key uuid now e) found = rw e (
      grow-Moves policy.max_retries id a _ _
        (enqueue-Grows json account room req key uuid now p.manager) found)
  Step-Moves {p} id a v (take_job account now j h e) found = rw e (
      pull-Moves policy.max_retries id a account now _ _ _ v.unique
        (pull_next-PullEffect json account now p.manager) found)
  Step-Moves {p} id a v (find_none account now h e) found = rw e (
      pull-Moves policy.max_retries id a account now _ _ _ v.unique
        (pull_next-PullEffect json account now p.manager) found)
  Step-Moves {p} id a v (settle_job before after clock j account client published split e) found =
      rw e (
        settle-Moves policy.max_retries id a _ _ j
          (All-middle _ before j after (rw split at v.held)).0
          (deliver-Settles float policy clock j account client
            (record { manager = p.manager; published = published }))
          found)

  -- From a state with the invariant, a row that is acknowledged or in dead_letter stays exactly as
  -- it is, however submitters and workers go on.
  pub Steps-terminal :
      {p q : Pool} (id : String) (a : QueueEntry)
      → Inv policy.max_retries p
      → Steps json float policy p q
      → row_of id p.manager.store.rows ≡ some a
      → IsTerminal a
      → row_of id q.manager.store.rows ≡ some a
  Steps-terminal id a v here found t = found
  Steps-terminal id a v (next steps step) found t =
      let before = Steps-terminal id a v steps found t in
      let (b, at_b, edge) = Step-Moves id a (Steps-Inv json float policy v steps) step before in
      at_b ∙ ap some (terminal_stays policy.max_retries a b t edge)
