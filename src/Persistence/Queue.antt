-- ===== src/Persistence/Queue.antt =====
-- sqlQueueStore of internal/persistence/store.go over schema/002_outbound_queue.sql.
-- `now` is the reading of time.Now().UnixMilli() that the operation makes.
pub mod Select
pub mod Keys
pub mod Lookup
pub mod Contract
pub mod Listing
use matfix.Shared.{
  ℕ, suc, String, Bool, true, false, ◌&&◌, ◌||◌, not, Option, none, some, List, [], ◌∷◌, ◌++◌, ◌==◌,
  if◌then◌else◌, ℤ, ltb_ℤ, leb_ℤ, Result, ok, err, constraint, Exec, pure, ◌>>=◌, ◌>>◌,
}
use matfix.Persistence.Statement.{Table, statement, transaction}

-- State of internal/queue/job.go. The column holds text; every writer passes one of these.
pub data State : Type 0 where
  accepted queued sending sent acknowledged failed dead_letter : State

unfoldable pub same_state : State → State → Bool
same_state accepted accepted = true
same_state queued queued = true
same_state sending sending = true
same_state sent sent = true
same_state acknowledged acknowledged = true
same_state failed failed = true
same_state dead_letter dead_letter = true
same_state _ _ = false

pub record QueueEntry : Type 0 where
  pub id : String
  pub account_id : String
  pub room_id : String
  pub payload : String
  pub state : State
  pub retry_count : ℕ
  pub scheduled_at : ℤ
  pub idempotency_key : String
  pub created_at : ℤ
  pub updated_at : ℤ

abbrev pub QueueDb : Type 0
QueueDb = Table QueueEntry

-- The unique index on (account_id, idempotency_key) WHERE idempotency_key != ''.
unfoldable pub has_key : String → String → QueueEntry → Bool
has_key account key e = e.account_id == account && e.idempotency_key == key

unfoldable pub conflicts : QueueEntry → QueueEntry → Bool
unfolding has_key
conflicts new old =
    new.id == old.id
    || (not (new.idempotency_key == "") && has_key new.account_id new.idempotency_key old)

unfoldable pub any_row : (QueueEntry → Bool) → List QueueEntry → Bool
any_row p [] = false
any_row p (e ∷ es) = p e || any_row p es

insert_row : QueueEntry → List QueueEntry → Result (Unit {0} × List QueueEntry)
unfolding any_row conflicts
insert_row new rows =
    if any_row (conflicts new) rows then err constraint else ok (tt, rows ++ new ∷ [])

unfoldable pub enqueue : QueueEntry → Exec QueueDb (Unit {0})
unfolding statement insert_row
enqueue entry = statement (insert_row entry)

unfoldable pub find_row : (QueueEntry → Bool) → List QueueEntry → Option QueueEntry
find_row p [] = none
find_row p (e ∷ es) = if p e then some e else find_row p es

unfoldable pub get_by_idempotency_key : String → String → Exec QueueDb (Option QueueEntry)
unfolding statement find_row has_key
get_by_idempotency_key account key =
    if key == ""
    then pure none
    else statement (λ rows. ok (find_row (has_key account key) rows, rows))

-- WHERE account_id = ? AND state = 'queued' AND scheduled_at <= ?
unfoldable pub eligible : String → ℤ → QueueEntry → Bool
unfolding same_state
eligible account now e =
    e.account_id == account && same_state e.state queued && leb_ℤ e.scheduled_at now

-- ORDER BY scheduled_at ASC, created_at ASC: `a` comes strictly before `b`.
unfoldable pub before : QueueEntry → QueueEntry → Bool
before a b =
    ltb_ℤ a.scheduled_at b.scheduled_at
    || (leb_ℤ a.scheduled_at b.scheduled_at && ltb_ℤ a.created_at b.created_at)

unfoldable pub earlier : QueueEntry → Option QueueEntry → QueueEntry
unfolding before
earlier e none = e
earlier e (some best) = if before best e then best else e

-- ... LIMIT 1. SQL leaves the order of ties open; here the older row comes first.
unfoldable pub next_eligible : String → ℤ → List QueueEntry → Option QueueEntry
unfolding eligible earlier
next_eligible account now [] = none
next_eligible account now (e ∷ es) =
    let best = next_eligible account now es in
    if eligible account now e then some (earlier e best) else best

-- UPDATE ... WHERE: `f` at the rows that `p` selects.
unfoldable pub update_rows :
    (QueueEntry → Bool) → (QueueEntry → QueueEntry) → List QueueEntry → List QueueEntry
update_rows p f [] = []
update_rows p f (e ∷ es) = (if p e then f e else e) ∷ update_rows p f es

abbrev pub has_id : String → QueueEntry → Bool
has_id id e = e.id == id

abbrev pub claim : ℤ → QueueEntry → QueueEntry
claim now e = record e { state = sending; updated_at = now }

abbrev update : (QueueEntry → Bool) → (QueueEntry → QueueEntry) → Exec QueueDb (Unit {0})
update p f = statement (λ rows. ok (tt, update_rows p f rows))

-- The claim of the row that was found; the last statement is Commit.
unfoldable pub claim_found : ℤ → Option QueueEntry → Exec QueueDb (Option QueueEntry)
unfolding statement update_rows
claim_found now none = pure none
claim_found now (some e) = do
  update (has_id e.id) (claim now)
  statement (λ rows. ok (tt, rows))
  pure (some (claim now e))

-- The first statement is BeginTx.
unfoldable pub pull_next : String → ℤ → Exec QueueDb (Option QueueEntry)
unfolding transaction statement next_eligible claim_found
pull_next account now = transaction (do
  statement (λ rows. ok (tt, rows))
  found ← statement (λ rows. ok (next_eligible account now rows, rows))
  claim_found now found)

abbrev pub set_state : State → ℤ → QueueEntry → QueueEntry
set_state state now e = record e { state = state; updated_at = now }

unfoldable pub update_state : String → State → ℤ → Exec QueueDb (Unit {0})
unfolding statement update_rows
update_state id state now = update (has_id id) (set_state state now)

abbrev pub reschedule : ℕ → ℤ → ℤ → QueueEntry → QueueEntry
reschedule retries at now e = record e {
  state = queued;
  retry_count = retries;
  scheduled_at = at;
  updated_at = now;
}

unfoldable pub schedule_retry : String → ℕ → ℤ → ℤ → Exec QueueDb (Unit {0})
unfolding statement update_rows
schedule_retry id retries at now = update (has_id id) (reschedule retries at now)

unfoldable pub move_to_dead_letter : String → ℤ → Exec QueueDb (Unit {0})
unfolding update_state
move_to_dead_letter id now = update_state id dead_letter now

unfoldable pub is_sending : QueueEntry → Bool
unfolding same_state
is_sending e = same_state e.state sending

unfoldable pub count_rows : (QueueEntry → Bool) → List QueueEntry → ℕ
count_rows p [] = 0
count_rows p (e ∷ es) = let rest = count_rows p es in if p e then suc rest else rest

unfoldable pub restore_stuck : ℤ → Exec QueueDb ℕ
unfolding statement update_rows is_sending count_rows
restore_stuck now =
    statement
      (λ rows. ok (count_rows is_sending rows, update_rows is_sending (set_state queued now) rows))
