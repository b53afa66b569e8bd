-- ===== src/Persistence/SyncStore.antt =====
-- sqlSyncStore of internal/persistence/store.go over schema/001_sync_state.sql.
pub mod Tokens
use matfix.Shared.{
  String, Bool, Option, none, some, List, [], ◌∷◌, ◌++◌, ◌==◌, if◌then◌else◌, ℤ, ok, Exec,
  find_where, any_where, update_where,
}
use matfix.Persistence.Statement.{Table, statement}

pub record SyncRow : Type 0 where
  pub account_id : String
  pub next_batch : String
  pub updated_at : ℤ

abbrev pub SyncDb : Type 0
SyncDb = Table SyncRow

-- WHERE account_id = ?, which is the primary key.
abbrev of_account : String → SyncRow → Bool
of_account account row = row.account_id == account

-- sql.ErrNoRows gives the empty token.
abbrev token_of : Option SyncRow → String
token_of none = ""
token_of (some row) = row.next_batch

unfoldable pub stored_token : String → List SyncRow → String
unfolding find_where
stored_token account rows = token_of (find_where (of_account account) rows)

unfoldable pub get_next_batch : String → Exec SyncDb String
unfolding statement stored_token
get_next_batch account = statement (λ rows. ok (stored_token account rows, rows))

-- ON CONFLICT (account_id) DO UPDATE SET next_batch, updated_at.
unfoldable pub upsert_token : String → String → ℤ → List SyncRow → List SyncRow
unfolding any_where update_where
upsert_token account token now rows =
    if any_where (of_account account) rows
    then update_where (of_account account)
        (λ row. record row { next_batch = token; updated_at = now }) rows
    else rows ++ record { account_id = account; next_batch = token; updated_at = now } ∷ []

-- `now` is time.Now().UnixMilli().
unfoldable pub set_next_batch : String → String → ℤ → Exec SyncDb (Unit {0})
unfolding statement upsert_token
set_next_batch account token now = statement (λ rows. ok (tt, upsert_token account token now rows))
