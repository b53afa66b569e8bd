-- ===== src/Queue/Manager/Idempotency.antt =====
-- Idempotency keys in Enqueue of internal/queue/manager.go.
use matfix.Shared.{
  String, ◌≡◌, refl, false, Option, none, some, List, arith, eq_refl, ok, err, ◌==◌, ℤ, Result,
  Result-cases, inl, inr, and_then, sym,
}
use matfix.Engine.SendTypes.{SendRequest}
use matfix.Persistence.Queue.{QueueEntry, has_key, find_row}
use matfix.Persistence.Queue.Lookup.{id_of, find_key-append}
use matfix.Persistence.Queue.Contract.{enqueue-Inserts, get_by_idempotency_key-Reads}
use matfix.Queue.Payload.{Json, encode_payload}
use matfix.Queue.Manager.{
  Manager, Job, entry_to_job, new_entry, enqueue, lookup_key, insert_job, reuse_or_insert,
}

-- The job that holds a key of an account.
abbrev pub holder : String → String → List QueueEntry → Option String
holder account key rows = id_of (find_row (has_key account key) rows)

module _ (json : Json) where
  id-entry_to_job : (e : QueueEntry) (j : Job) → entry_to_job json e ≡ ok j → j.id ≡ e.id
  unfolding entry_to_job
  id-entry_to_job e j h = ground arith

  module _ (account key : String) (keyed : (key == "") ≡ false) where
    lookup_key_cases : (m : Manager) → (lookup_key json account key m).1.store.rows ≡ m.store.rows
    unfolding lookup_key
    lookup_key_cases m = ground (arith, get_by_idempotency_key-Reads account key m.store)

    lookup_key_found :
        (m : Manager) (found : Option QueueEntry)
        → (lookup_key json account key m).0 ≡ ok found
        → found ≡ find_row (has_key account key) m.store.rows
    unfolding lookup_key
    lookup_key_found m found h = ground (arith, get_by_idempotency_key-Reads account key m.store)

    insert_job-holder :
        (room : String) (req : SendRequest) (uuid : String) (now : ℤ) (m : Manager) (j : Job)
        → find_row (has_key account key) m.store.rows ≡ none
        → (insert_job json account room req key uuid now m).0 ≡ ok j
        → holder account key (insert_job json account room req key uuid now m).1.store.rows
          ≡ some j.id
    unfolding insert_job
    insert_job-holder room req uuid now m j none_yet h =
        elim (Result-cases (encode_payload json req)) [
          | inr (e, p) ↦ ground arith
          | inl (payload, p) ↦
              let new = new_entry json uuid account room payload key now in
              ground (
                arith,
                enqueue-Inserts new m.store,
                find_key-append account key new m.store.rows none_yet
                    (unfold has_key in rw (eq_refl account) (eq_refl key)),
                id-entry_to_job new j,
              )
        ]

    module _ (room : String) (req : SendRequest) (uuid : String) (now : ℤ) (m : Manager) where
      -- What the lookup returned decides the rest.
      after_lookup-holder :
          (r : Result (Option QueueEntry)) (m' : Manager) (j : Job)
          → m'.store.rows ≡ m.store.rows
          → ((found : Option QueueEntry)
              → r ≡ ok found
              → found ≡ find_row (has_key account key) m.store.rows)
          → let (x, after) = and_then r (reuse_or_insert json account room req key uuid now) m' in
            x ≡ ok j → holder account key after.store.rows ≡ some j.id
      unfolding reuse_or_insert
      after_lookup-holder (err e) m' j same was h = absurd (cc)
      after_lookup-holder (ok none) m' j same was h =
          insert_job-holder room req uuid now m' j (rw same (sym (was none refl))) h
      after_lookup-holder (ok (some e)) m' j same was h =
          rw (same, ← was (some e) refl, id-entry_to_job e j h)

      after_lookup-again :
          (r : Result (Option QueueEntry)) (m' : Manager) (id : String)
          → holder account key m.store.rows ≡ some id
          → m'.store.rows ≡ m.store.rows
          → ((found : Option QueueEntry)
              → r ≡ ok found
              → found ≡ find_row (has_key account key) m.store.rows)
          → let (x, after) = and_then r (reuse_or_insert json account room req key uuid now) m' in
            (after.store.rows ≡ m.store.rows) × ((j : Job) → x ≡ ok j → j.id ≡ id)
      unfolding reuse_or_insert
      after_lookup-again (err e) m' id held same was = (same, λ j h. absurd (cc))
      after_lookup-again (ok none) m' id held same was = absurd (ground (arith, was none refl))
      after_lookup-again (ok (some e)) m' id held same was =
          (same, λ j h. ground (arith, was (some e) refl, id-entry_to_job e j h))

      -- A successful Enqueue under a non-empty key leaves the key with the job that it returned.
      enqueue-holder :
          (j : Job)
          → (enqueue json account room req key uuid now m).0 ≡ ok j
          → holder account key (enqueue json account room req key uuid now m).1.store.rows
            ≡ some j.id
      unfolding enqueue
      enqueue-holder j h =
          let (r, m') = lookup_key json account key m in
          after_lookup-holder r m' j (lookup_key_cases m) (λ found p. lookup_key_found m found p) h

      -- Under a non-empty key that a job of the account holds, Enqueue writes no row, whatever the
      -- room, the request and the faults, and the job that it returns is the holder.
      enqueue_again :
          (id : String)
          → holder account key m.store.rows ≡ some id
          → ((enqueue json account room req key uuid now m).1.store.rows ≡ m.store.rows)
            × ((j : Job) → (enqueue json account room req key uuid now m).0 ≡ ok j → j.id ≡ id)
      unfolding enqueue
      enqueue_again id held =
          let (r, m') = lookup_key json account key m in
          after_lookup-again r m' id held (lookup_key_cases m)
            (λ found p. lookup_key_found m found p)
