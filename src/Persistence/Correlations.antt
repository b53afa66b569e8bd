-- ===== src/Persistence/Correlations.antt =====
-- sqlCorrelationStore of internal/persistence/store.go over schema/003_correlation_state.sql.
pub mod Sweep
use matfix.Shared.{
  ℕ, suc, String, Bool, true, false, ◌&&◌, ◌||◌, not, Option, none, some, List, [], ◌∷◌, ◌++◌, ◌==◌,
  if◌then◌else◌, ℤ, pos, ltb_ℤ, Result, ok, err, constraint, Exec,
}
use matfix.Persistence.Statement.{Table, statement}

-- The column holds text; every writer passes one of these.
pub data CorrelationState : Type 0 where
  pending resolved expired : CorrelationState

pub record CorrelationEntry : Type 0 where
  pub id : String
  pub type : String
  pub account_id : String
  pub room_id : String
  pub outbound_event_id : String
  pub filter_json : String
  pub timeout_at : ℤ
  pub state : CorrelationState
  pub created_at : ℤ
  pub updated_at : ℤ

abbrev pub CorrelationDb : Type 0
CorrelationDb = Table CorrelationEntry

find_entry : String → List CorrelationEntry → Option CorrelationEntry
find_entry id [] = none
find_entry id (e ∷ es) = if e.id == id then some e else find_entry id es

add_entry :
    CorrelationEntry
    → Option CorrelationEntry
    → List CorrelationEntry
    → Result (Unit {0} × List CorrelationEntry)
add_entry new (some e) rows = err constraint
add_entry new none rows = ok (tt, rows ++ new ∷ [])

unfoldable pub insert_correlation : CorrelationEntry → Exec CorrelationDb (Unit {0})
unfolding statement add_entry find_entry
insert_correlation new = statement (λ rows. add_entry new (find_entry new.id rows) rows)

unfoldable pub get_by_id : String → Exec CorrelationDb (Option CorrelationEntry)
unfolding statement find_entry
get_by_id id = statement (λ rows. ok (find_entry id rows, rows))

resolve_row : String → CorrelationState → ℤ → List CorrelationEntry → List CorrelationEntry
resolve_row id state now [] = []
resolve_row id state now (e ∷ es) =
    (if e.id == id then record e { state = state; updated_at = now } else e)
    ∷ resolve_row id state now es

-- `now` is time.Now().UnixMilli().
unfoldable pub update_correlation : String → CorrelationState → ℤ → Exec CorrelationDb (Unit {0})
unfolding statement resolve_row
update_correlation id state now = statement (λ rows. ok (tt, resolve_row id state now rows))

unfoldable pub is_pending : CorrelationState → Bool
is_pending pending = true
is_pending resolved = false
is_pending expired = false

-- state = 'pending' AND timeout_at > 0 AND timeout_at < ?
unfoldable pub is_overdue : ℤ → CorrelationEntry → Bool
unfolding is_pending
is_overdue now e = is_pending e.state && ltb_ℤ (pos 0) e.timeout_at && ltb_ℤ e.timeout_at now

unfoldable pub select : (CorrelationEntry → Bool) → List CorrelationEntry → List CorrelationEntry
select p [] = []
select p (e ∷ es) = let rest = select p es in if p e then e ∷ rest else rest

unfoldable pub count_overdue : ℤ → List CorrelationEntry → ℕ
unfolding is_overdue
count_overdue now [] = 0
count_overdue now (e ∷ es) =
    let rest = count_overdue now es in if is_overdue now e then suc rest else rest

-- DELETE; the result is the number of rows deleted.
unfoldable pub delete_expired : ℤ → Exec CorrelationDb ℕ
unfolding statement select is_overdue count_overdue
delete_expired now =
    statement (λ rows. ok (count_overdue now rows, select (λ e. not (is_overdue now e)) rows))

unfoldable pub list_active : Exec CorrelationDb (List CorrelationEntry)
unfolding statement select is_pending
list_active = statement (λ rows. ok (select (λ e. is_pending e.state) rows, rows))
