-- ===== src/Queue/Manager/Outcome.antt =====
-- The results of Enqueue of internal/queue/manager.go beside what it writes.
use matfix.Shared.{
  String, ◌≡◌, refl, sym, Option, none, some, List, [], ◌∷◌, ◌++◌, arith, Error, Result, ok, err,
  Result-cases, inl, inr, and_then, if◌then◌else◌, ◌==◌, ℤ,
}
use matfix.Engine.SendTypes.{SendRequest}
use matfix.Persistence.Queue as Store
use matfix.Persistence.Queue.{QueueEntry, any_row, conflicts, has_key, find_row}
use matfix.Persistence.Queue.Contract.{enqueue-Inserts, get_by_idempotency_key-Reads}
use matfix.Queue.Payload.{Json, IsFaithfulJson, encode_payload, decode_payload-encode_payload}
use matfix.Queue.Manager.{
  Manager, Job, entry_to_job, new_entry, enqueue, lookup_key, insert_job, reuse_or_insert,
}

-- The job under a key; no job is under the empty key.
unfoldable pub keyed_row : String → String → List QueueEntry → Option QueueEntry
keyed_row account key rows = if key == "" then none else find_row (has_key account key) rows

-- An error wrote nothing; or the job under the key is returned and nothing was written; or there was
-- none, and the new row's job is returned.
pub data Enqueues (account key : String) (old new : List QueueEntry) (r : Result Job) : Type 0 where
  failed : (e : Error) → r ≡ err e → new ≡ old → Enqueues account key old new r
  reused :
      (j : Job) (e : QueueEntry)
      → r ≡ ok j
      → j.id ≡ e.id
      → keyed_row account key old ≡ some e
      → new ≡ old
      → Enqueues account key old new r
  inserted :
      (j : Job) (e : QueueEntry)
      → r ≡ ok j
      → j.id ≡ e.id
      → e.account_id ≡ account
      → e.idempotency_key ≡ key
      → keyed_row account key old ≡ none
      → new ≡ old ++ e ∷ []
      → Enqueues account key old new r

module _ (json : Json) (faithful : IsFaithfulJson json) (account room : String) (req : SendRequest)
    (key uuid : String) (now : ℤ) where
  id_kept : (e : QueueEntry) (j : Job) → entry_to_job json e ≡ ok j → j.id ≡ e.id
  unfolding entry_to_job
  id_kept e j h = ground arith

  -- The row that was written decodes.
  back :
      (payload : String)
      → encode_payload json req ≡ ok payload
      → (j : Job) × (entry_to_job json (new_entry json uuid account room payload key now) ≡ ok j)
        × (j.id ≡ uuid)
  unfolding entry_to_job
  back payload p =
      elim (Result-cases (entry_to_job json (new_entry json uuid account room payload key now))) [
        | inl (j, q) ↦
            (j, q, ground (arith, decode_payload-encode_payload json faithful req payload p))
        | inr (e, q) ↦
            absurd (ground (arith, decode_payload-encode_payload json faithful req payload p))
      ]

  insert_job-Enqueues :
      (m : Manager)
      → keyed_row account key m.store.rows ≡ none
      → let (r, m') = insert_job json account room req key uuid now m in
        Enqueues account key m.store.rows m'.store.rows r
  unfolding insert_job
  insert_job-Enqueues m free = elim (Result-cases (encode_payload json req)) [
    | inr (e, p) ↦ failed e (rw p refl) (rw p refl)
    | inl (payload, p) ↦
        let new = new_entry json uuid account room payload key now in
        elim (Result-cases (Store.enqueue new m.store).0) [
          | inr (e, q) ↦ failed e (rw (p, q) refl) (ground (arith, enqueue-Inserts new m.store))
          | inl (u, q) ↦
              let (j, decoded, id) = back payload p in
              inserted j new (rw (p, q, decoded) refl) id refl refl free
                (ground (arith, enqueue-Inserts new m.store))
        ]
  ]

  from :
      {a b new : List QueueEntry} {r : Result Job}
      → a ≡ b
      → Enqueues account key a new r
      → Enqueues account key b new r
  from p h = rw p at h

  after_lookup-Enqueues :
      (r : Result (Option QueueEntry)) (m : Manager) (old : List QueueEntry)
      → m.store.rows ≡ old
      → ((found : Option QueueEntry) → r ≡ ok found → found ≡ keyed_row account key old)
      → let (x, m') = and_then r (reuse_or_insert json account room req key uuid now) m in
        Enqueues account key old m'.store.rows x
  unfolding reuse_or_insert
  after_lookup-Enqueues (err e) m old same was = failed e refl same
  after_lookup-Enqueues (ok none) m old same was =
      from same (insert_job-Enqueues m (rw same (sym (was none refl))))
  after_lookup-Enqueues (ok (some e)) m old same was = elim (Result-cases (entry_to_job json e)) [
    | inl (j, p) ↦ reused j e p (id_kept e j p) (sym (was (some e) refl)) same
    | inr (x, p) ↦ failed x p same
  ]

  lookup_key_lem :
      (m : Manager)
      → let (r, m') = lookup_key json account key m in
        (m'.store.rows ≡ m.store.rows)
        × ((found : Option QueueEntry) → r ≡ ok found → found ≡ keyed_row account key m.store.rows)
  unfolding lookup_key keyed_row
  lookup_key_lem m = (
    ground (arith, get_by_idempotency_key-Reads account key m.store),
    λ found h. ground (arith, get_by_idempotency_key-Reads account key m.store),
  )

  -- If encoding/json reads back what it marshals, an error of Enqueue means that nothing was written;
  -- a success returns the job under the key and writes nothing, or there was none under it and the
  -- job of the one new row is returned.
  pub enqueue-Enqueues :
      (m : Manager)
      → let (r, m') = enqueue json account room req key uuid now m in
        Enqueues account key m.store.rows m'.store.rows r
  unfolding enqueue
  enqueue-Enqueues m =
      let (r, m') = lookup_key json account key m in
      let (same, was) = lookup_key_lem m in after_lookup-Enqueues r m' m.store.rows same was
