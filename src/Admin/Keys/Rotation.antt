-- ===== src/Admin/Keys/Rotation.antt =====
-- What rotating a key (RotateKeyHandler of internal/admin/routes/keys.go) leaves of the old key and
-- of the new one.
use matfix.Shared.{
  ◌≡◌, ◌≢◌, ◌⊎◌, refl, ℕ, inl, inr, String, Bool, false, some, List, [], ◌∷◌, ◌++◌, ◌==◌, ℤ, arith,
  eq_iff, ok, err, database, find_where, any_where, update_where, Bool-cases, Result-cases,
}
use Prim.Native.String.{◌++◌ as ◌<>◌}
use matfix.Persistence.Statement.{statement_cases, working}
use matfix.Persistence.ApiKeys.{
  ApiKeyRow, ApiKeyDb, has_key_id, clashes, revoke_at, get_key_by_id, set_revoked,
}
use matfix.Api.Response.{success}
use matfix.Api.Auth.{KeyCodec, Permissions, authenticate}
use matfix.Api.Auth.Keys.{stored_permissions}
use matfix.Admin.Keys.{KeyCreated, new_row, store_key, rotate_key, rotate_found, replace}
use matfix.Admin.Keys.Access.{
  AreRevoked, update-AreRevoked, IsRefused, AreRevoked-IsRefused, set_revoked-AreRevoked,
  store_key_lem, store_key-authenticate,
}

append-AreRevoked :
    (id : String) (new : ApiKeyRow) (rows : List ApiKeyRow)
    → AreRevoked id rows
    → new.id ≢ id
    → AreRevoked id (rows ++ new ∷ [])
append-AreRevoked id new [] a h = ((λ e. absurd (h e)), tt)
append-AreRevoked id new (k ∷ ks) a h = (a.0, append-AreRevoked id new ks a.1 h)

no_id :
    (now : ℤ) (new : ApiKeyRow) (id : String) (rows : List ApiKeyRow) (old : ApiKeyRow)
    → any_where (clashes new) (update_where (has_key_id id) (revoke_at now) rows) ≡ false
    → find_where (has_key_id id) rows ≡ some old
    → new.id ≢ id
unfolding any_where update_where find_where
no_id now new id [] old h q e = absurd (cc)
no_id now new id (k ∷ ks) old h q e = elim (Bool-cases (k.id == id)) [
  | inl p ↦ absurd (let r = rw p at h in ground (arith, eq_iff k.id new.id, eq_iff k.id id))
  | inr p ↦ no_id now new id ks old (let r = rw p at h in ground arith) (rw p at q) e
]

module _ (codec : KeyCodec) where
  -- The new key opens the API with the permissions, and the old ID does not.
  abbrev pub Replaces : String → Permissions → KeyCreated → ApiKeyDb → Type 0
  Replaces id perms c t =
      ((authenticate codec ("Bearer " <> c.key) (working t.rows)).0 ≡ success 200 (perms, c.id))
      × IsRefused codec id t

  -- The row that stands in for the old one is stored over the rows that are revoked.
  stored-Replaces :
      (id key uuid : String) (now later : ℤ) (rows : List ApiKeyRow) (old : ApiKeyRow)
      (perms : Permissions) (t : ApiKeyDb) (status : ℕ) (c : KeyCreated)
      → key ≢ ""
      → find_where (has_key_id id) rows ≡ some old
      → stored_permissions codec old.permissions_json ≡ some perms
      → t.rows ≡ update_where (has_key_id id) (revoke_at now) rows
      → let new = new_row codec uuid key old.name old.permissions_json later in
        (store_key codec new key t).0 ≡ success status c
        → Replaces id perms c (store_key codec new key t).1
  stored-Replaces id key uuid now later rows old perms t status c some_key found grants after h =
      let new = new_row codec uuid key old.name old.permissions_json later in
      let (stored, apart, same_id, same_key) = store_key_lem codec new key t status c h in
      (
        store_key-authenticate codec new key t status c perms refl refl grants some_key h,
        AreRevoked-IsRefused codec id (store_key codec new key t).1 (
            rw (stored, after)
              (append-AreRevoked id new (update_where (has_key_id id) (revoke_at now) rows)
                (update-AreRevoked id now rows)
                (no_id now new id rows old (rw after at apart) found))),
      )

  rotate_found-Replaces :
      (id key uuid : String) (now later : ℤ) (t : ApiKeyDb) (old : ApiKeyRow) (perms : Permissions)
      (status : ℕ) (c : KeyCreated)
      → key ≢ ""
      → find_where (has_key_id id) t.rows ≡ some old
      → stored_permissions codec old.permissions_json ≡ some perms
      → let after = rotate_found codec id (some key) uuid now later (ok (some old)) t in
        after.0 ≡ success status c → Replaces id perms c after.1
  unfolding rotate_found replace
  rotate_found-Replaces id key uuid now later t old perms status c some_key found grants h =
      elim (Result-cases (set_revoked id now t).0) [
        | inr (e, p) ↦ absurd (let q = rw p at h in cc)
        | inl (u, p) ↦ rw p (
            stored-Replaces id key uuid now later t.rows old perms (set_revoked id now t).1 status c
              some_key found grants (set_revoked-AreRevoked codec id now t p) (rw p at h))
      ]

  -- One SELECT by ID.
  key_read :
      (id : String) (t : ApiKeyDb)
      → (rest : List Bool) × ((get_key_by_id id t ≡ (err database, record t { faults = rest }))
          ⊎ (get_key_by_id id t
              ≡ (ok (find_where (has_key_id id) t.rows), record t { faults = rest })))
  unfolding get_key_by_id
  key_read id t = statement_cases (λ rows. find_where (has_key_id id) rows) (λ rows. rows) t

  -- A POST /keys/{id}/rotate that succeeds leaves a key that opens the API with the permissions of the
  -- row of that ID, were that row revoked before or not; no request passes as the old ID any more.
  pub rotate_key-Replaces :
      (id key uuid : String) (now later : ℤ) (t : ApiKeyDb) (old : ApiKeyRow) (perms : Permissions)
      (status : ℕ) (c : KeyCreated)
      → key ≢ ""
      → find_where (has_key_id id) t.rows ≡ some old
      → stored_permissions codec old.permissions_json ≡ some perms
      → (rotate_key codec id (some key) uuid now later t).0 ≡ success status c
      → Replaces id perms c (rotate_key codec id (some key) uuid now later t).1
  unfolding rotate_key rotate_found
  rotate_key-Replaces id key uuid now later t old perms status c some_key found grants h =
      elim (Bool-cases (id == "")) [
        | inl p ↦ absurd (let q = rw p at h in cc)
        | inr p ↦
            let (rest, cases) = key_read id t in
            elim cases [
              | inl q ↦ absurd (let r = rw (p, q) at h in cc)
              | inr q ↦
                  rw (p, q, found)
                    (rotate_found-Replaces id key uuid now later (record t { faults = rest }) old
                      perms status c some_key found grants (rw (p, q, found) at h))
            ]
      ]
