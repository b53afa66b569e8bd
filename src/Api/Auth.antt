-- ===== src/Api/Auth.antt =====
-- APIKeyMiddleware of internal/api/server.go, and the checks of internal/api/authz.go. SHA-256 in hex
-- and the decoding of permissions are parameters.
pub mod Keys
use matfix.Shared.{
  String, Bool, true, false, ◌||◌, not, Option, none, some, List, [], ◌∷◌, ◌==◌, if◌then◌else◌, ℤ,
  pos, Result, ok, err,
}
use text.Mathlib.Text.{starts_with}
use Prim.Native.String as Text
use matfix.Persistence.ApiKeys.{ApiKeyRow, ApiKeyDb, get_by_hash}
use matfix.Api.Response.{Response, failure, success}

-- Permissions, and KeyPermissions of internal/admin/routes/keys.go, which mirrors it. A nil slice
-- and an empty one are the same to all readers.
pub record Permissions : Type 0 where
  pub accounts : List String
  pub routes : List String
  pub rooms : List String
  pub event_types : List String
  pub rate_limit_rps : ℤ

abbrev pub unrestricted : Permissions
unrestricted = record {
  accounts = [];
  routes = [];
  rooms = [];
  event_types = [];
  rate_limit_rps = pos 0;
}

-- json.Marshal and json.Unmarshal of permissions, and hashAPIKey.
pub record KeyCodec : Type 0 where
  pub marshal : Permissions → Option String
  pub unmarshal : String → Option Permissions
  pub hash : String → String

-- strings.TrimPrefix, where the prefix is there.
unfoldable pub drop_text : String → String → String
drop_text Text.[] s = s
drop_text (Text.◌∷◌ c p) Text.[] = Text.[]
drop_text (Text.◌∷◌ c p) (Text.◌∷◌ d s) = drop_text p s

-- What the middleware puts in the context: the permissions and the ID of the key.
abbrev pub Caller : Type 0
Caller = Permissions × String

module _ (codec : KeyCodec) where
  unfoldable pub decoded : String → Option Permissions → Response Caller
  decoded id none = failure 500 "internal_error"
  decoded id (some perms) = success 200 (perms, id)

  unfoldable pub permissions_of : String → String → Response Caller
  unfolding decoded
  permissions_of id json =
      if json == "" then success 200 (unrestricted, id) else decoded id (codec.unmarshal json)

  unfoldable pub if_active : ApiKeyRow → Option ℤ → Response Caller
  unfolding permissions_of
  if_active row (some at) = failure 401 "unauthorized"
  if_active row none = permissions_of row.id row.permissions_json

  unfoldable pub caller_of : Result (Option ApiKeyRow) → Response Caller
  unfolding if_active
  caller_of (err e) = failure 500 "internal_error"
  caller_of (ok none) = failure 401 "unauthorized"
  caller_of (ok (some row)) = if_active row row.revoked_at

  unfoldable pub by_token : String → ApiKeyDb → Response Caller × ApiKeyDb
  unfolding caller_of get_by_hash
  by_token token t =
      if token == ""
      then (failure 401 "unauthorized", t)
      else (let (r, t') = get_by_hash (codec.hash token) t in (caller_of r, t'))

  -- `auth` is the Authorization header.
  unfoldable pub authenticate : String → ApiKeyDb → Response Caller × ApiKeyDb
  unfolding by_token drop_text
  authenticate auth t =
      if auth == ""
      then (failure 401 "unauthorized", t)
      else if not (starts_with auth "Bearer ")
      then (failure 401 "unauthorized", t)
      else by_token (drop_text "Bearer " auth) t

unfoldable pub contains : String → List String → Bool
contains s [] = false
contains s (x ∷ xs) = x == s || contains s xs

-- An empty list restricts nothing.
unfoldable pub allowed_in : List String → String → Bool
unfolding contains
allowed_in [] s = true
allowed_in (x ∷ xs) s = contains s (x ∷ xs)

unfoldable pub route_allowed : Permissions → String → Bool
unfolding allowed_in
route_allowed perms route = allowed_in perms.routes route

-- `none` is a context that the middleware has not touched.
unfoldable pub check_account : Option Permissions → String → Bool
unfolding allowed_in
check_account perms account =
    account == "" || elim perms [ none ↦ true | some p ↦ allowed_in p.accounts account ]

unfoldable pub check_room : Option Permissions → String → Bool
unfolding allowed_in
check_room perms room = room == "" || elim perms [ none ↦ true | some p ↦ allowed_in p.rooms room ]

-- RequireRoute; `ok tt` stands for the call of the next handler.
unfoldable pub require_route : Option Permissions → String → Response (Unit {0})
unfolding route_allowed
require_route none route = failure 500 "internal_error"
require_route (some perms) route =
    if route_allowed perms route then success 200 tt else failure 403 "forbidden"
