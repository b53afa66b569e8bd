-- ===== src/Persistence/ApiKeys.antt =====
-- sqlAPIKeyStore of internal/persistence/store.go over schema/004_api_keys.sql.
use matfix.Shared.{
  String, Bool, ◌||◌, Option, some, List, [], ◌∷◌, ◌++◌, ◌==◌, if◌then◌else◌, ℤ, leb_ℤ, Result, ok,
  err, constraint, Exec, find_where, any_where, update_where, delete_where,
}
use matfix.Persistence.Statement.{Table, statement}

pub record ApiKeyRow : Type 0 where
  pub id : String
  pub key_hash : String
  pub name : String
  pub permissions_json : String
  pub created_at : ℤ
  pub revoked_at : Option ℤ

abbrev pub ApiKeyDb : Type 0
ApiKeyDb = Table ApiKeyRow

abbrev pub has_key_id : String → ApiKeyRow → Bool
has_key_id id k = k.id == id

abbrev pub has_hash : String → ApiKeyRow → Bool
has_hash hash k = k.key_hash == hash

-- PRIMARY KEY and UNIQUE.
abbrev pub clashes : ApiKeyRow → ApiKeyRow → Bool
clashes new old = has_key_id new.id old || has_hash new.key_hash old

unfoldable pub add_key_row : ApiKeyRow → List ApiKeyRow → Result (Unit {0} × List ApiKeyRow)
unfolding any_where
add_key_row new rows =
    if any_where (clashes new) rows then err constraint else ok (tt, rows ++ new ∷ [])

unfoldable pub insert_api_key : ApiKeyRow → Exec ApiKeyDb (Unit {0})
unfolding statement add_key_row
insert_api_key new = statement (add_key_row new)

unfoldable pub get_by_hash : String → Exec ApiKeyDb (Option ApiKeyRow)
unfolding statement find_where
get_by_hash hash = statement (λ rows. ok (find_where (has_hash hash) rows, rows))

unfoldable pub get_key_by_id : String → Exec ApiKeyDb (Option ApiKeyRow)
unfolding statement find_where
get_key_by_id id = statement (λ rows. ok (find_where (has_key_id id) rows, rows))

-- ORDER BY created_at ASC; SQL leaves ties open, and here the older row comes first.
insert_by_age : ApiKeyRow → List ApiKeyRow → List ApiKeyRow
insert_by_age k [] = k ∷ []
insert_by_age k (j ∷ js) =
    let rest = insert_by_age k js in
    if leb_ℤ k.created_at j.created_at then k ∷ j ∷ js else j ∷ rest

by_age : List ApiKeyRow → List ApiKeyRow
unfolding insert_by_age
by_age [] = []
by_age (k ∷ ks) = insert_by_age k (by_age ks)

unfoldable pub list_api_keys : Exec ApiKeyDb (List ApiKeyRow)
unfolding statement by_age
list_api_keys = statement (λ rows. ok (by_age rows, rows))

-- The result says whether a row was deleted.
unfoldable pub delete_api_key : String → Exec ApiKeyDb Bool
unfolding statement any_where delete_where
delete_api_key id =
    statement (λ rows. ok (any_where (has_key_id id) rows, delete_where (has_key_id id) rows))

abbrev pub revoke_at : ℤ → ApiKeyRow → ApiKeyRow
revoke_at at k = record k { revoked_at = some at }

-- An unknown ID is no error, and a key that is revoked already gets the new time.
unfoldable pub set_revoked : String → ℤ → Exec ApiKeyDb (Unit {0})
unfolding statement update_where
set_revoked id at = statement (λ rows. ok (tt, update_where (has_key_id id) (revoke_at at) rows))
