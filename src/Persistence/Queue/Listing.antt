-- ===== src/Persistence/Queue/Listing.antt =====
-- ListByState of internal/persistence/store.go.
use matfix.Shared.{
  String, Bool, ◌&&◌, List, [], ◌∷◌, ◌==◌, if◌then◌else◌, ok, Exec, pure, any_where,
}
use matfix.Persistence.Statement.{statement}
use matfix.Persistence.Queue.{State, same_state, QueueEntry, QueueDb, before}

-- WHERE account_id = ? AND state IN (...)
unfoldable pub has_state : String → List State → QueueEntry → Bool
unfolding any_where same_state
has_state account states e = e.account_id == account && any_where (same_state e.state) states

-- ORDER BY scheduled_at ASC, created_at ASC
unfoldable pub insert_in_order : QueueEntry → List QueueEntry → List QueueEntry
unfolding before
insert_in_order e [] = e ∷ []
insert_in_order e (f ∷ rows) =
    let later = insert_in_order e rows in if before f e then f ∷ later else e ∷ f ∷ rows

unfoldable pub listed_rows : (QueueEntry → Bool) → List QueueEntry → List QueueEntry
unfolding insert_in_order
listed_rows test [] = []
listed_rows test (e ∷ rows) =
    let others = listed_rows test rows in if test e then insert_in_order e others else others

unfoldable pub list_by_state : String → List State → Exec QueueDb (List QueueEntry)
unfolding statement listed_rows has_state
list_by_state account [] = pure []
list_by_state account (s ∷ states) =
    statement (λ rows. ok (listed_rows (has_state account (s ∷ states)) rows, rows))
