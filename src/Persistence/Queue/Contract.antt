-- ===== src/Persistence/Queue/Contract.antt =====
-- What each other statement of sqlQueueStore promises: it ran, or it failed and wrote nothing.
use matfix.Shared.{
  ℕ, String, ◌≡◌, refl, sym, inl, inr, Bool, true, false, Option, none, List, [], ◌∷◌, ◌++◌, arith,
  ℤ, ok, err, Bool-cases, Result, if◌then◌else◌, ◌==◌, map,
}
use matfix.Persistence.Queue.{
  State, QueueEntry, QueueDb, queued, dead_letter, has_id, has_key, any_row, conflicts, enqueue,
  find_row, get_by_idempotency_key, update_rows, set_state, reschedule, update_state,
  schedule_retry, move_to_dead_letter, restore_stuck, is_sending, count_rows,
}

-- An INSERT: a failure writes nothing; a success appends a row that conflicts with none.
abbrev pub Inserts : QueueEntry → List QueueEntry → Result (Unit {0}) → List QueueEntry → Type 0
Inserts new old (err e) rows = rows ≡ old
Inserts new old (ok _) rows = (rows ≡ old ++ new ∷ []) × (any_row (conflicts new) old ≡ false)

module _ (new : QueueEntry) (rows : List QueueEntry) where
  insert_from :
      (faults : List Bool)
      → let m = enqueue new (record { rows = rows; faults = faults }) in
        Inserts new rows m.0 m.1.rows
  unfolding enqueue
  insert_from [] = elim (Bool-cases (any_row (conflicts new) rows)) [
    | inl h ↦ rw h
    | inr h ↦ rw h (refl, h)
  ]
  insert_from (true ∷ faults) = refl
  insert_from (false ∷ faults) = elim (Bool-cases (any_row (conflicts new) rows)) [
    | inl h ↦ rw h
    | inr h ↦ rw h (refl, h)
  ]

pub enqueue-Inserts :
    (new : QueueEntry) (t : QueueDb) → Inserts new t.rows (enqueue new t).0 (enqueue new t).1.rows
enqueue-Inserts new t = insert_from new t.rows t.faults

-- An UPDATE: a failure writes nothing; a success changes the selected rows.
abbrev pub Writes : List QueueEntry → List QueueEntry → Result (Unit {0}) → List QueueEntry → Type 0
Writes old new (err e) rows = rows ≡ old
Writes old new (ok _) rows = rows ≡ new

module _ (id : String) (t : QueueDb) where
  pub update_state-Writes :
      (s : State) (now : ℤ)
      → let m = update_state id s now t in
        Writes t.rows (update_rows (has_id id) (set_state s now) t.rows) m.0 m.1.rows
  unfolding update_state
  update_state-Writes s now = ground arith

  pub schedule_retry-Writes :
      (n : ℕ) (at now : ℤ)
      → let m = schedule_retry id n at now t in
        Writes t.rows (update_rows (has_id id) (reschedule n at now) t.rows) m.0 m.1.rows
  unfolding schedule_retry
  schedule_retry-Writes n at now = ground arith

  pub move_to_dead_letter-Writes :
      (now : ℤ)
      → let m = move_to_dead_letter id now t in
        Writes t.rows (update_rows (has_id id) (set_state dead_letter now) t.rows) m.0 m.1.rows
  unfolding move_to_dead_letter
  move_to_dead_letter-Writes now = ground arith

-- A SELECT changes nothing, and without a key none is made.
abbrev pub Reads :
    String → String → List QueueEntry → Result (Option QueueEntry) → List QueueEntry → Type 0
Reads account key old (err e) rows = rows ≡ old
Reads account key old (ok found) rows =
    (rows ≡ old) × (found ≡ (if key == "" then none else find_row (has_key account key) old))

pub get_by_idempotency_key-Reads :
    (account key : String) (t : QueueDb)
    → let m = get_by_idempotency_key account key t in Reads account key t.rows m.0 m.1.rows
unfolding get_by_idempotency_key
get_by_idempotency_key-Reads account key t = elim (Bool-cases (key == "")) [
  | inl h ↦ rw h (refl, sym (rw h))
  | inr h ↦ rw h (ground arith)
]

-- A stuck row is queued again; any other row is as it was.
abbrev pub restored : ℤ → QueueEntry → QueueEntry
restored now e = if is_sending e then set_state queued now e else e

abbrev pub Restores : ℤ → List QueueEntry → Result ℕ → List QueueEntry → Type 0
Restores now old (err e) rows = rows ≡ old
Restores now old (ok n) rows =
    (rows ≡ map (restored now) old)
    × (n ≡ count_rows is_sending old)
    × (count_rows is_sending rows ≡ 0)

map-restored :
    (now : ℤ) (rows : List QueueEntry)
    → update_rows is_sending (set_state queued now) rows ≡ map (restored now) rows
unfolding update_rows
map-restored now [] = refl
map-restored now (e ∷ es) = rw (map-restored now es)

none_sending :
    (now : ℤ) (rows : List QueueEntry) → count_rows is_sending (map (restored now) rows) ≡ 0
unfolding count_rows is_sending
none_sending now [] = refl
none_sending now (e ∷ es) = ground (arith, none_sending now es)

-- RestoreStuck either fails and writes nothing, or it queues exactly the rows that were being sent,
-- with their retry counts and schedule unchanged, leaves all others alone and returns how many there
-- were; afterwards no row is being sent.
restore_stuck-Restores :
    (now : ℤ) (t : QueueDb) → let m = restore_stuck now t in Restores now t.rows m.0 m.1.rows
unfolding restore_stuck
restore_stuck-Restores now t = ground (arith, map-restored now t.rows, none_sending now t.rows)
