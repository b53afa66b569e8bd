-- ===== src/Persistence/Queue/Lookup.antt =====
-- The table of internal/persistence/store.go seen as a map from job IDs to rows.
use matfix.Shared.{
  String, ◌≡◌, refl, ◌∙◌, Bool, true, false, List, [], ◌∷◌, ◌++◌, arith, eq_iff, IsIn, inl, inr,
  ◌==◌, if◌then◌else◌, Option, none, some, eq_refl,
}
use matfix.Persistence.Queue.{
  QueueEntry, has_key, has_id, conflicts, any_row, update_rows, find_row,
}
use matfix.Persistence.Queue.Keys.{IsUnique, KeepsKeys}

unfoldable pub row_of : String → List QueueEntry → Option QueueEntry
unfolding find_row
row_of id rows = find_row (has_id id) rows

abbrev pub map_row : (QueueEntry → QueueEntry) → Option QueueEntry → Option QueueEntry
map_row f none = none
map_row f (some e) = some (f e)

-- An UPDATE ... WHERE id = ? changes the row of that ID alone.
pub row_of-update :
    (f : QueueEntry → QueueEntry) (keeps : KeepsKeys f) (i k : String) (rows : List QueueEntry)
    → row_of k (update_rows (has_id i) f rows)
      ≡ (if i == k then map_row f (row_of k rows) else row_of k rows)
unfolding row_of update_rows
row_of-update f keeps i k [] = ground arith
row_of-update f keeps i k (e ∷ es) = ground (
  arith,
  row_of-update f keeps i k es,
  keeps e,
  eq_iff e.id i,
  eq_iff e.id k,
  eq_iff (f e).id k,
  eq_iff i k,
)

pub row_of-append :
    (k : String) (new : QueueEntry) (rows : List QueueEntry)
    → any_row (conflicts new) rows ≡ false
    → row_of k (rows ++ new ∷ []) ≡ (if new.id == k then some new else row_of k rows)
unfolding row_of any_row conflicts
row_of-append k new [] h = refl
row_of-append k new (e ∷ es) h =
    ground (arith, row_of-append k new es, eq_iff e.id k, eq_iff new.id k, eq_iff new.id e.id)

-- What row_of finds has the ID.
pub row_of-id :
    (k : String) (rows : List QueueEntry) (e : QueueEntry) → row_of k rows ≡ some e → e.id ≡ k
unfolding row_of
row_of-id k [] e h = cc
row_of-id k (x ∷ es) e h = ground (arith, row_of-id k es e, eq_iff x.id k)

no_conflict :
    (x e : QueueEntry) (es : List QueueEntry)
    → any_row (conflicts x) es ≡ false
    → IsIn e es
    → (x.id == e.id) ≡ false
unfolding any_row conflicts
no_conflict x e [] h m = absurd m
no_conflict x e (y ∷ es) h (inl p) = ground arith
no_conflict x e (y ∷ es) h (inr m) = no_conflict x e es (ground arith) m

-- In a table with unique keys, a row is found under its ID.
pub row_of-in :
    (e : QueueEntry) (rows : List QueueEntry)
    → IsUnique rows
    → IsIn e rows
    → row_of e.id rows ≡ some e
unfolding row_of
row_of-in e [] u m = absurd m
row_of-in e (x ∷ es) u (inl p) = ground (arith, eq_refl e.id, eq_refl x.id)
row_of-in e (x ∷ es) u (inr m) = rw (no_conflict x e es u.0 m) (row_of-in e es u.1 m)

-- The row of an idempotency key.
pub find_key-append :
    (account key : String) (new : QueueEntry) (rows : List QueueEntry)
    → find_row (has_key account key) rows ≡ none
    → has_key account key new ≡ true
    → find_row (has_key account key) (rows ++ new ∷ []) ≡ some new
unfolding find_row
find_key-append account key new [] h p = rw p
find_key-append account key new (e ∷ es) h p = ground (arith, find_key-append account key new es)

abbrev pub id_of : Option QueueEntry → Option String
id_of none = none
id_of (some e) = some e.id

-- No update that leaves the keys alone changes which job holds an idempotency key.
pub find_key-update :
    (f : QueueEntry → QueueEntry) (keeps : KeepsKeys f) (p : QueueEntry → Bool)
    (account key : String) (rows : List QueueEntry)
    → id_of (find_row (has_key account key) (update_rows p f rows))
      ≡ id_of (find_row (has_key account key) rows)
unfolding find_row has_key update_rows
find_key-update f keeps p account key [] = refl
find_key-update f keeps p account key (x ∷ es) =
    ground (arith, find_key-update f keeps p account key es, keeps x)

fresh_id :
    (k : String) (new : QueueEntry) (rows : List QueueEntry) (e : QueueEntry)
    → any_row (conflicts new) rows ≡ false
    → row_of k rows ≡ some e
    → (new.id == k) ≡ false
unfolding row_of any_row conflicts
fresh_id k new [] e apart h = cc
fresh_id k new (x ∷ es) e apart h =
    ground (arith, fresh_id k new es e, eq_iff x.id k, eq_iff new.id k, eq_iff new.id x.id)

-- An appended row hides none.
pub row_of-append_old :
    (k : String) (new : QueueEntry) (rows : List QueueEntry) (e : QueueEntry)
    → any_row (conflicts new) rows ≡ false
    → row_of k rows ≡ some e
    → row_of k (rows ++ new ∷ []) ≡ some e
row_of-append_old k new rows e apart h =
    row_of-append k new rows apart ∙ (rw (fresh_id k new rows e apart h) h)
