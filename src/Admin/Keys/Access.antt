-- ===== src/Admin/Keys/Access.antt =====
-- What creating, revoking and rotating a key (internal/admin/routes/keys.go) changes for the clients
-- of the API, whose requests pass APIKeyMiddleware (internal/api/server.go).
use matfix.Shared.{
  ◌≡◌, ◌≢◌, refl, ℕ, inl, inr, String, false, Option, none, some, List, [], ◌∷◌, ◌++◌, ◌==◌, ℤ,
  arith, eq_iff, eq_refl, ok, All, any_where, update_where, find_where-append, find_where-All,
  Bool-cases, Option-cases,
}
use Prim.Native.String.{◌++◌ as ◌<>◌}
use matfix.Persistence.Statement.{working}
use matfix.Persistence.ApiKeys.{
  ApiKeyRow, ApiKeyDb, has_key_id, has_hash, clashes, revoke_at, set_revoked,
}
use matfix.Api.Response.{success}
use matfix.Api.Auth.{
  KeyCodec, Permissions, unrestricted, authenticate, by_token, caller_of, if_active, permissions_of,
}
use matfix.Api.Auth.Keys.{stored_permissions, authenticate-IsKeyOf, authenticate_bearer, not_empty}
use matfix.Admin.Keys.{
  CreateKeyRequest, KeyCreated, new_row, store_key, create_key, create_with, create_named,
  marshal_permissions, revoke_key,
}

-- Every row of the ID is revoked.
abbrev pub AreRevoked : String → List ApiKeyRow → Type 0
AreRevoked id = All (λ k. k.id ≡ id → k.revoked_at ≢ none)

pub update-AreRevoked :
    (id : String) (now : ℤ) (rows : List ApiKeyRow)
    → AreRevoked id (update_where (has_key_id id) (revoke_at now) rows)
unfolding update_where
update-AreRevoked id now [] = tt
update-AreRevoked id now (k ∷ ks) = elim (Bool-cases (k.id == id)) [
  | inl h ↦ rw h ((λ e. cc), update-AreRevoked id now ks)
  | inr h ↦ rw h ((λ e. absurd (ground (arith, eq_iff k.id id))), update-AreRevoked id now ks)
]

-- No constraint is violated: the new row's hash and ID are new.
no_hash :
    (new : ApiKeyRow) (rows : List ApiKeyRow)
    → any_where (clashes new) rows ≡ false
    → any_where (has_hash new.key_hash) rows ≡ false
unfolding any_where
no_hash new [] h = refl
no_hash new (k ∷ ks) h = ground (arith, no_hash new ks)

module _ (codec : KeyCodec) where
  abbrev pub IsRefused : String → ApiKeyDb → Type 0
  IsRefused id t =
      (auth : String) (status : ℕ) (perms : Permissions)
      → (authenticate codec auth t).0 ≢ success status (perms, id)

  pub AreRevoked-IsRefused : (id : String) (t : ApiKeyDb) → AreRevoked id t.rows → IsRefused id t
  AreRevoked-IsRefused id t a auth status perms h =
      let (bearer, row, found, k) = authenticate-IsKeyOf codec auth t status perms id h in
      find_where-All (λ j. j.id ≡ id → j.revoked_at ≢ none) _ t.rows row a found k.same_id k.active

  pub set_revoked-AreRevoked :
      (id : String) (now : ℤ) (t : ApiKeyDb) {u : Unit {0}}
      → (set_revoked id now t).0 ≡ ok u
      → (set_revoked id now t).1.rows ≡ update_where (has_key_id id) (revoke_at now) t.rows
  unfolding set_revoked
  set_revoked-AreRevoked id now t h = ground arith

  -- After a DELETE /keys/{id} that succeeds, no request passes the middleware as the key of that ID,
  -- whatever it sends.
  pub revoke_key-IsRefused :
      (id : String) (now : ℤ) (t : ApiKeyDb) (status : ℕ) (u : Unit {0})
      → (revoke_key codec id now t).0 ≡ success status u
      → IsRefused id (revoke_key codec id now t).1
  unfolding revoke_key
  revoke_key-IsRefused id now t status u h =
      let rows : (revoke_key codec id now t).1.rows
          ≡ update_where (has_key_id id) (revoke_at now) t.rows =
        ground arith in
      AreRevoked-IsRefused id (revoke_key codec id now t).1
        (rw rows (update-AreRevoked id now t.rows))

  -- What store.Insert and the answer leave.
  pub store_key_lem :
      (row : ApiKeyRow) (key : String) (t : ApiKeyDb) (status : ℕ) (c : KeyCreated)
      → (store_key codec row key t).0 ≡ success status c
      → ((store_key codec row key t).1.rows ≡ t.rows ++ row ∷ [])
        × (any_where (clashes row) t.rows ≡ false)
        × (c.id ≡ row.id)
        × (c.key ≡ key)
  unfolding store_key
  store_key_lem row key t status c h = (ground arith, ground arith, ground arith, ground arith)

  granted :
      (id json : String) (perms : Permissions)
      → stored_permissions codec json ≡ some perms
      → permissions_of codec id json ≡ success 200 (perms, id)
  unfolding permissions_of
  granted id json perms h = ground arith

  active_caller :
      (row : ApiKeyRow) (perms : Permissions)
      → row.revoked_at ≡ none
      → stored_permissions codec row.permissions_json ≡ some perms
      → caller_of codec (ok (some row)) ≡ success 200 (perms, row.id)
  unfolding caller_of if_active
  active_caller row perms active grants =
      rw active (granted row.id row.permissions_json perms grants)

  -- A stored key opens the API.
  stored-authenticate :
      (row : ApiKeyRow) (key : String) (rows : List ApiKeyRow) (perms : Permissions)
      → row.key_hash ≡ codec.hash key
      → row.revoked_at ≡ none
      → stored_permissions codec row.permissions_json ≡ some perms
      → any_where (clashes row) rows ≡ false
      → key ≢ ""
      → (authenticate codec ("Bearer " <> key) (working (rows ++ row ∷ []))).0
        ≡ success 200 (perms, row.id)
  unfolding by_token
  stored-authenticate row key rows perms hashed active grants apart some_key =
      rw (authenticate_bearer codec key (working (rows ++ row ∷ [])), not_empty codec key some_key)
        (rw
          (find_where-append (has_hash (codec.hash key)) rows row
            (rw (← hashed) (no_hash row rows apart)) (rw hashed (eq_refl (codec.hash key))))
          (active_caller row perms active grants))

  pub store_key-authenticate :
      (row : ApiKeyRow) (key : String) (t : ApiKeyDb) (status : ℕ) (c : KeyCreated)
      (perms : Permissions)
      → row.key_hash ≡ codec.hash key
      → row.revoked_at ≡ none
      → stored_permissions codec row.permissions_json ≡ some perms
      → key ≢ ""
      → (store_key codec row key t).0 ≡ success status c
      → (authenticate codec ("Bearer " <> c.key) (working (store_key codec row key t).1.rows)).0
        ≡ success 200 (perms, c.id)
  store_key-authenticate row key t status c perms hashed active grants some_key h =
      let (rows, apart, same_id, same_key) = store_key_lem row key t status c h in
      rw (rows, same_id, same_key)
        (stored-authenticate row key t.rows perms hashed active grants apart some_key)

  -- encoding/json reads back the permissions that it marshals, and marshals nothing to the empty text.
  pub record IsFaithfulCodec : Type 0 where
    pub reads_back :
        (p : Permissions) (json : String)
        → codec.marshal p ≡ some json
        → codec.unmarshal json ≡ some p
    pub not_blank : (p : Permissions) → codec.marshal p ≢ some ""

  abbrev pub granted_by : Option Permissions → Permissions
  granted_by none = unrestricted
  granted_by (some p) = p

  stored_back :
      IsFaithfulCodec
      → (p : Option Permissions) (json : String) → marshal_permissions codec p ≡ some json
      → stored_permissions codec json ≡ some (granted_by p)
  unfolding marshal_permissions
  stored_back f none json h = let e : "" ≡ json = cc h in rw (← e) refl
  stored_back f (some p) json h =
      rw (not_empty codec json (λ e. f.not_blank p (rw e at h))) (f.reads_back p json h)

  named-authenticate :
      IsFaithfulCodec
      → (req : CreateKeyRequest) (key uuid : String) (now : ℤ) (t : ApiKeyDb) (status : ℕ)
        (c : KeyCreated)
      → key ≢ ""
      → (create_named codec req (some key) uuid now t).0 ≡ success status c
      → let t' = (create_named codec req (some key) uuid now t).1 in
        (authenticate codec ("Bearer " <> c.key) (working t'.rows)).0
        ≡ success 200 (granted_by req.permissions, c.id)
  unfolding create_named create_with
  named-authenticate f req key uuid now t status c some_key h =
      elim (Option-cases (marshal_permissions codec req.permissions)) [
        | inl p ↦ absurd (let q = rw p at h in cc)
        | inr (json, p) ↦ rw p (
            store_key-authenticate (new_row codec uuid key req.name json now) key t status c
              (granted_by req.permissions) refl refl (stored_back f req.permissions json p) some_key
              (rw p at h))
      ]

  -- A key that POST /keys created opens the API, with the permissions that were asked for, or all if
  -- none were, under the ID of the answer.
  create_key-authenticate :
      IsFaithfulCodec
      → (req : CreateKeyRequest) (key uuid : String) (now : ℤ) (t : ApiKeyDb) (status : ℕ)
        (c : KeyCreated)
      → key ≢ ""
      → (create_key codec (some req) (some key) uuid now t).0 ≡ success status c
      → let t' = (create_key codec (some req) (some key) uuid now t).1 in
        (authenticate codec ("Bearer " <> c.key) (working t'.rows)).0
        ≡ success 200 (granted_by req.permissions, c.id)
  unfolding create_key
  create_key-authenticate f req key uuid now t status c some_key h =
      elim (Bool-cases (req.name == "")) [
        | inl p ↦ absurd (let q = rw p at h in cc)
        | inr p ↦ rw p (named-authenticate f req key uuid now t status c some_key (rw p at h))
      ]
