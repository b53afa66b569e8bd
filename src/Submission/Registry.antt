-- ===== src/Submission/Registry.antt =====
-- What a submission promises (internal/submission/manager.go), on the map from the idempotency keys
-- of the accounts to job IDs that a table stands for.
use matfix.Shared.{
  String, ◌≡◌, refl, Bool, true, false, ◌&&◌, Option, none, some, List, [], ◌∷◌, ◌++◌, arith,
  eq_iff, Error, Result, ok, err, pure, ◌>>=◌, Result-cases, Bool-cases, inl, inr, and_then,
  if◌then◌else◌, ◌==◌, ℤ,
}
use matfix.Engine.SendTypes.{SendRequest}
use matfix.Engine.Rooms.{Matrix}
use matfix.Persistence.Queue.{QueueEntry, has_key, find_row, get_by_idempotency_key}
use matfix.Persistence.Queue.Lookup.{id_of, find_key-append}
use matfix.Persistence.Queue.Contract.{get_by_idempotency_key-Reads}
use matfix.Queue.Payload.{Json, IsFaithfulJson}
use matfix.Queue.Manager.{Manager, Job}
use matfix.Queue.Manager as Queue
use matfix.Queue.Manager.Outcome.{keyed_row, Enqueues, failed, reused, inserted, enqueue-Enqueues}
use matfix.Submission.{
  SubmitRequest, World, validate_request, entry_id, check_idempotency, submit_new, unless_known,
  submit_valid, submit, resolve_with, on_manager,
}

abbrev pub Registry : Type 0
Registry = String → String → Option String

unfoldable pub registry : List QueueEntry → Registry
unfolding keyed_row
registry rows account key = id_of (keyed_row account key rows)

-- The map with one more key; the empty key is none.
abbrev pub register : String → String → String → Registry → Registry
register account key id reg a k =
    if a == account && k == key then (if k == "" then reg a k else some id) else reg a k

-- The abstract submission: it is refused and nothing changes; or the key is known and its job is the
-- answer; or it is free, and stands for the answer from then on.
pub data Accepts (account key : String) (old new : Registry) (r : Result String) : Type 0 where
  refused : (e : Error) → r ≡ err e → new ≡ old → Accepts account key old new r
  known :
      (id : String)
      → r ≡ ok id
      → old account key ≡ some id
      → new ≡ old
      → Accepts account key old new r
  accepted :
      (id : String)
      → r ≡ ok id
      → old account key ≡ none
      → ((a k : String) → new a k ≡ register account key id old a k)
      → Accepts account key old new r

-- A row that is not selected does not change what is found.
find_row-append_other :
    (p : QueueEntry → Bool) (rows : List QueueEntry) (e : QueueEntry)
    → p e ≡ false
    → find_row p (rows ++ e ∷ []) ≡ find_row p rows
unfolding find_row
find_row-append_other p [] e h = rw h refl
find_row-append_other p (x ∷ xs) e h = ground (arith, find_row-append_other p xs e h)

registry-append_other :
    (e : QueueEntry) (rows : List QueueEntry) (a k : String)
    → has_key a k e ≡ false
    → registry (rows ++ e ∷ []) a k ≡ registry rows a k
unfolding registry
registry-append_other e rows a k h = rw (find_row-append_other (has_key a k) rows e h) refl

keys_of :
    (e : QueueEntry) (a k : String)
    → has_key a k e ≡ true
    → (e.account_id ≡ a) × (e.idempotency_key ≡ k)
unfolding has_key
keys_of e a k h =
    (ground (arith, eq_iff e.account_id a), ground (arith, eq_iff e.idempotency_key k))

key_symmetric :
    (e : QueueEntry) (a k : String) → (a == e.account_id && k == e.idempotency_key) ≡ has_key a k e
unfolding has_key
key_symmetric e a k = ground (
  arith,
  eq_iff a e.account_id,
  eq_iff k e.idempotency_key,
  eq_iff e.account_id a,
  eq_iff e.idempotency_key k,
)

registry-append_same :
    (e : QueueEntry) (rows : List QueueEntry) (a k : String)
    → has_key a k e ≡ true
    → keyed_row e.account_id e.idempotency_key rows ≡ none
    → registry (rows ++ e ∷ []) a k ≡ (if k == "" then registry rows a k else some e.id)
unfolding registry
registry-append_same e rows a k h free = elim (Bool-cases (k == "")) [
  | inl p ↦ rw p refl
  | inr p ↦
      let (same_account, same_key) = keys_of e a k h in
      let free' : find_row (has_key a k) rows ≡ none =
        (let q = rw (same_account, same_key) at free in unfold keyed_row in rw p at q) in
      rw (p, find_key-append a k e rows free' h) refl
]

registry-append :
    (e : QueueEntry) (rows : List QueueEntry) (a k : String)
    → keyed_row e.account_id e.idempotency_key rows ≡ none
    → registry (rows ++ e ∷ []) a k
      ≡ register e.account_id e.idempotency_key e.id (registry rows) a k
unfolding registry
registry-append e rows a k free = elim (Bool-cases (has_key a k e)) [
  | inr h ↦ rw (key_symmetric e a k, h) (registry-append_other e rows a k h)
  | inl h ↦ rw (key_symmetric e a k, h) (registry-append_same e rows a k h free)
]

abbrev job_ids : Result Job → Result String
job_ids (ok j) = ok j.id
job_ids (err e) = err e

Enqueues-Accepts :
    (account key : String) (old new : List QueueEntry) (r : Result Job)
    → Enqueues account key old new r
    → Accepts account key (registry old) (registry new) (job_ids r)
unfolding registry
Enqueues-Accepts account key old new r (failed e h same) = refused e (rw h refl) (rw same refl)
Enqueues-Accepts account key old new r (reused j e h id found same) =
    known e.id (rw (h, id) refl) (rw found refl) (rw same refl)
Enqueues-Accepts account key old new r (inserted j e h id same_account same_key free grown) =
    accepted e.id (rw (h, id) refl) (rw free refl) (λ a k.
      rw (grown, ← same_account, ← same_key)
        (registry-append e old a k (rw (same_account, same_key) free)))

module _ {S : Type 0} (json : Json) (accounts : List String)
    (clients : String → Option (Matrix S)) where
  id_of_entry :
      (found : Option QueueEntry) (id : String)
      → entry_id found ≡ id
      → (id == "") ≡ false
      → id_of found ≡ some id
  id_of_entry none id h named = absurd (ground (arith, eq_iff id ""))
  id_of_entry (some e) id h named = rw h refl

  known_id :
      (account key id : String) (w : World S)
      → (check_idempotency account key w).0 ≡ ok id
      → (id == "") ≡ false
      → registry w.manager.store.rows account key ≡ some id
  unfolding check_idempotency registry
  known_id account key id w h named = elim (Bool-cases (key == "")) [
    | inl p ↦ absurd (let q = rw p at h in ground (arith, eq_iff id ""))
    | inr p ↦ elim (Result-cases (get_by_idempotency_key account key w.manager.store).0) [
      | inr (e, q) ↦ absurd (let r = rw (p, q) at h in cc)
      | inl (found, q) ↦
          let reads = rw q at (get_by_idempotency_key-Reads account key w.manager.store) in
          rw (← reads.1) (id_of_entry found id (let r = rw (p, q) at h in cc) named)
    ]
  ]

  pub check_idempotency_lem :
      (account key : String) (w : World S)
      → let (r, w') = check_idempotency account key w in
        (w'.manager.store.rows ≡ w.manager.store.rows)
        × (w'.server ≡ w.server)
        × ((id : String)
            → r ≡ ok id
            → (id == "") ≡ false
            → registry w.manager.store.rows account key ≡ some id)
  unfolding check_idempotency registry
  check_idempotency_lem account key w =
      let reads = get_by_idempotency_key-Reads account key w.manager.store in
      (
        ground (arith, reads),
        ground (arith, reads),
        λ id h named. known_id account key id w h named,
      )

  module _ (faithful : IsFaithfulJson json) (req : SubmitRequest) (uuid : String) (now : ℤ) where
    -- What is promised from a world to the outcome of an action.
    abbrev Promised : World S → Result String × World S → Type 0
    Promised w (r, w') =
        Accepts req.account_id req.idempotency_key (registry w.manager.store.rows)
          (registry w'.manager.store.rows) r

    answered :
        (w : World S) (r : Result Job) (m : Manager)
        → Accepts req.account_id req.idempotency_key
            (registry w.manager.store.rows)
            (registry m.store.rows)
            (job_ids r)
        → Promised w (and_then r (λ job. pure job.id) (record w { manager = m }))
    answered w (ok j) m h = h
    answered w (err e) m h = h

    enqueue_ids-Accepts :
        (room : String) (message : SendRequest) (w : World S)
        → Promised w (
            (do
              job ←
                  on_manager
                    (Queue.enqueue json req.account_id room message req.idempotency_key uuid now)
              pure job.id)
              w)
    enqueue_ids-Accepts room message w =
        let (r, m) =
          Queue.enqueue json req.account_id room message req.idempotency_key uuid now w.manager in
        let h =
          Enqueues-Accepts req.account_id req.idempotency_key w.manager.store.rows m.store.rows r (
            enqueue-Enqueues json faithful req.account_id room message req.idempotency_key uuid now
              w.manager) in
        answered w r m h

    submit_new-Accepts :
        (message : SendRequest) (w : World S)
        → Promised w (submit_new json accounts clients req message uuid now w)
    unfolding submit_new
    submit_new-Accepts message w =
        elim (Result-cases
          (resolve_with json accounts clients (clients req.account_id) req.destination
            w.server).0) [
              | inr (e, p) ↦ refused e (rw p refl) (rw p refl)
              | inl (room, p) ↦ rw p (
                  enqueue_ids-Accepts room message (record w {
                    server =
                        (resolve_with json accounts clients (clients req.account_id) req.destination
                          w.server).1;
                  }))
            ]

    from :
        {a b : List QueueEntry} {new : Registry} {r : Result String}
        → a ≡ b
        → Accepts req.account_id req.idempotency_key (registry a) new r
        → Accepts req.account_id req.idempotency_key (registry b) new r
    from p h = rw p at h

    after_check-Accepts :
        (w w' : World S) (message : SendRequest) (r : Result String)
        → w'.manager.store.rows ≡ w.manager.store.rows
        → ((id : String)
            → r ≡ ok id
            → (id == "") ≡ false
            → registry w.manager.store.rows req.account_id req.idempotency_key ≡ some id)
        → Promised w (and_then r (unless_known json accounts clients req message uuid now) w')
    unfolding unless_known
    after_check-Accepts w w' message (err e) same found = refused e refl (rw same refl)
    after_check-Accepts w w' message (ok id) same found = elim (Bool-cases (id == "")) [
      | inl p ↦ rw p (from same (submit_new-Accepts message w'))
      | inr p ↦ rw p (known id refl (found id refl p) (rw same refl))
    ]

    -- Submit refines the abstract submission, for every account, destination and request, whatever the
    -- homeserver answers and whatever statement fails, if encoding/json reads back what it marshals.
    pub submit-Accepts :
        (w : World S)
        → Accepts req.account_id req.idempotency_key
            (registry w.manager.store.rows)
            (registry (submit json accounts clients req uuid now w).1.manager.store.rows)
            (submit json accounts clients req uuid now w).0
    unfolding submit submit_valid
    submit-Accepts w = elim (Result-cases (validate_request req accounts)) [
      | inr (e, p) ↦ rw p (refused e refl refl)
      | inl (message, p) ↦
          let (r, w') = check_idempotency req.account_id req.idempotency_key w in
          let (same, untouched, found) =
            check_idempotency_lem req.account_id req.idempotency_key w in
          rw p (after_check-Accepts w w' message r same found)
    ]
