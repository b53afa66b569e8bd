-- ===== src/Admin/Keys.antt =====
-- The handlers of internal/admin/routes/keys.go over sqlAPIKeyStore. The random key in hex is an
-- argument, `none` being an error of rand.Read; so are UUIDs and clock readings.
pub mod Access
pub mod Rotation
use matfix.Shared.{
  String, Bool, true, false, Option, none, some, List, [], ◌∷◌, ◌==◌, if◌then◌else◌, ℤ, Result, ok,
  err, map,
}
use matfix.Persistence.ApiKeys.{
  ApiKeyRow, ApiKeyDb, insert_api_key, get_key_by_id, list_api_keys, set_revoked,
}
use matfix.Api.Response.{Response, failure, success}
use matfix.Api.Auth.{Permissions, KeyCodec}

pub record CreateKeyRequest : Type 0 where
  pub name : String
  pub permissions : Option Permissions

pub record KeyCreated : Type 0 where
  pub id : String
  pub key : String
  pub name : String
  pub created_at : ℤ

pub record KeyListEntry : Type 0 where
  pub id : String
  pub name : String
  pub permissions : Option Permissions
  pub created_at : ℤ
  pub revoked_at : Option ℤ

abbrev pub Handler : Type 0 → Type 0
Handler A = ApiKeyDb → Response A × ApiKeyDb

abbrev pub fail : {A : Type 0} → String → Handler A
fail code t = (failure 500 code, t)

module _ (codec : KeyCodec) where
  -- An absent value is stored as the empty text.
  unfoldable pub marshal_permissions : Option Permissions → Option String
  marshal_permissions none = some ""
  marshal_permissions (some p) = codec.marshal p

  abbrev pub new_row : String → String → String → String → ℤ → ApiKeyRow
  new_row uuid key name json now = record {
    id = uuid;
    key_hash = codec.hash key;
    name = name;
    permissions_json = json;
    created_at = now;
    revoked_at = none;
  }

  created : ApiKeyRow → String → Result (Unit {0}) → Response KeyCreated
  created row key (err e) = failure 500 "internal_error"
  created row key (ok u) =
      success 201 (record { id = row.id; key = key; name = row.name; created_at = row.created_at })

  -- store.Insert and the answer, which shows the key.
  unfoldable pub store_key : ApiKeyRow → String → Handler KeyCreated
  unfolding created insert_api_key
  store_key row key t = let (r, t') = insert_api_key row t in (created row key r, t')

  create_with : String → String → ℤ → String → Option String → Handler KeyCreated
  unfolding store_key
  create_with uuid name now key none = fail "internal_error"
  create_with uuid name now key (some json) = store_key (new_row uuid key name json now) key

  create_named : CreateKeyRequest → Option String → String → ℤ → Handler KeyCreated
  unfolding create_with marshal_permissions
  create_named req none uuid now = fail "internal_error"
  create_named req (some key) uuid now =
      create_with uuid req.name now key (marshal_permissions req.permissions)

  -- `none` is a body that does not decode.
  unfoldable pub create_key :
      Option CreateKeyRequest → Option String → String → ℤ → Handler KeyCreated
  unfolding create_named
  create_key none key uuid now t = (failure 400 "bad_request", t)
  create_key (some req) key uuid now t =
      if req.name == "" then (failure 400 "bad_request", t) else create_named req key uuid now t

  listed : ApiKeyRow → KeyListEntry
  listed row = record {
    id = row.id;
    name = row.name;
    permissions = if row.permissions_json == "" then none else codec.unmarshal row.permissions_json;
    created_at = row.created_at;
    revoked_at = row.revoked_at;
  }

  all_listed : Result (List ApiKeyRow) → Response (List KeyListEntry)
  unfolding listed
  all_listed (err e) = failure 500 "internal_error"
  all_listed (ok rows) = success 200 (map listed rows)

  unfoldable pub list_keys : Handler (List KeyListEntry)
  unfolding all_listed list_api_keys
  list_keys t = let (r, t') = list_api_keys t in (all_listed r, t')

  revoked : Result (Unit {0}) → Response (Unit {0})
  revoked (err e) = failure 500 "internal_error"
  revoked (ok u) = success 204 tt

  unfoldable pub revoke_key : String → ℤ → Handler (Unit {0})
  unfolding revoked set_revoked
  revoke_key id now t =
      if id == ""
      then (failure 400 "bad_request", t)
      else (let (r, t') = set_revoked id now t in (revoked r, t'))

  replace : ApiKeyRow → Option String → String → ℤ → Result (Unit {0}) → Handler KeyCreated
  unfolding store_key
  replace old key uuid now (err e) = fail "internal_error"
  replace old none uuid now (ok u) = fail "internal_error"
  replace old (some key) uuid now (ok u) =
      store_key (new_row uuid key old.name old.permissions_json now) key

  -- `now` is the reading for the revocation, `later` that for the new row.
  rotate_found :
      String → Option String → String → ℤ → ℤ → Result (Option ApiKeyRow) → Handler KeyCreated
  unfolding replace set_revoked
  rotate_found id key uuid now later (err e) t = (failure 500 "internal_error", t)
  rotate_found id key uuid now later (ok none) t = (failure 404 "not_found", t)
  rotate_found id key uuid now later (ok (some old)) t =
      let (r, t') = set_revoked id now t in replace old key uuid later r t'

  unfoldable pub rotate_key : String → Option String → String → ℤ → ℤ → Handler KeyCreated
  unfolding rotate_found get_key_by_id
  rotate_key id key uuid now later t =
      if id == ""
      then (failure 400 "bad_request", t)
      else (let (r, t') = get_key_by_id id t in rotate_found id key uuid now later r t')
