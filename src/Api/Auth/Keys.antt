-- ===== src/Api/Auth/Keys.antt =====
-- Whom APIKeyMiddleware of internal/api/server.go lets pass.
use matfix.Shared.{
  ◌≡◌, ◌≢◌, refl, ℕ, inl, inr, String, true, false, Option, none, some, ◌==◌, if◌then◌else◌, ℤ,
  arith, eq_iff, Result, ok, err, find_where, Bool-cases,
}
use Prim.Native.String as Text
use Prim.Native.String.{◌++◌ as ◌<>◌}
use text.Mathlib.Text.{starts_with}
use text.Mathlib.TextLemmas.{nil-append, cons-append, append-eq-nil_iff, cons≢nil}
use text.Mathlib.TextPositions.{starts_with-append}
use matfix.Persistence.Statement.{statement_cases}
use matfix.Persistence.ApiKeys.{ApiKeyRow, ApiKeyDb, has_hash, get_by_hash}
use matfix.Api.Response.{success}
use matfix.Api.Auth.{
  KeyCodec, Permissions, unrestricted, drop_text, authenticate, by_token, caller_of, if_active,
  permissions_of,
}

pub drop_text-append : (p s : String) → drop_text p (p <> s) ≡ s
unfolding drop_text
drop_text-append Text.[] s = rw (nil-append s) refl
drop_text-append (Text.◌∷◌ c p) s = rw (cons-append c p s) (drop_text-append p s)

module _ (codec : KeyCodec) where
  -- The permissions of a stored text.
  abbrev pub stored_permissions : String → Option Permissions
  stored_permissions json = if json == "" then some unrestricted else codec.unmarshal json

  -- The row that stands for a caller: an active key with the caller's ID and permissions.
  pub record IsKeyOf (row : ApiKeyRow) (perms : Permissions) (id : String) : Type 0 where
    pub same_id : row.id ≡ id
    pub active : row.revoked_at ≡ none
    pub grants : stored_permissions row.permissions_json ≡ some perms

  decoded_lem :
      (id json : String) (status : ℕ) (perms : Permissions) (caller : String)
      → permissions_of codec id json ≡ success status (perms, caller)
      → (id ≡ caller) × (stored_permissions json ≡ some perms)
  unfolding permissions_of
  decoded_lem id json status perms caller h = ground arith

  active_lem :
      (row : ApiKeyRow) (revoked : Option ℤ) (status : ℕ) (perms : Permissions) (id : String)
      → if_active codec row revoked ≡ success status (perms, id)
      → (revoked ≡ none)
        × (permissions_of codec row.id row.permissions_json ≡ success status (perms, id))
  unfolding if_active
  active_lem row (some at) status perms id h = absurd (cc)
  active_lem row none status perms id h = (refl, h)

  caller_lem :
      (r : Result (Option ApiKeyRow)) (status : ℕ) (perms : Permissions) (id : String)
      → caller_of codec r ≡ success status (perms, id)
      → (row : ApiKeyRow) × (r ≡ ok (some row)) × IsKeyOf row perms id
  unfolding caller_of
  caller_lem (err e) status perms id h = absurd (cc)
  caller_lem (ok none) status perms id h = absurd (cc)
  caller_lem (ok (some row)) status perms id h =
      let (active, h') = active_lem row row.revoked_at status perms id h in
      let (same_id, grants) = decoded_lem row.id row.permissions_json status perms id h' in
      (row, refl, record { same_id = same_id; active = active; grants = grants })

  -- One SELECT by hash.
  found_by_hash :
      (hash : String) (t : ApiKeyDb) (row : ApiKeyRow)
      → (get_by_hash hash t).0 ≡ ok (some row)
      → find_where (has_hash hash) t.rows ≡ some row
  unfolding get_by_hash
  found_by_hash hash t row h =
      let (rest, cases) =
        statement_cases (λ rows. find_where (has_hash hash) rows) (λ rows. rows) t in
      elim cases [ inl p ↦ absurd (cc) | inr p ↦ cc ]

  by_token_lem :
      (token : String) (t : ApiKeyDb) (status : ℕ) (perms : Permissions) (id : String)
      → (by_token codec token t).0 ≡ success status (perms, id)
      → (row : ApiKeyRow) × (find_where (has_hash (codec.hash token)) t.rows ≡ some row)
        × IsKeyOf row perms id
  unfolding by_token
  by_token_lem token t status perms id h = elim (Bool-cases (token == "")) [
    | inl p ↦ absurd (let q = rw p at h in cc)
    | inr p ↦
        let (row, q, k) =
          caller_lem (get_by_hash (codec.hash token) t).0 status perms id (rw p at h) in
        (row, found_by_hash (codec.hash token) t row q, k)
  ]

  -- Whoever the middleware lets pass sent "Bearer " and a token whose hash is that of a stored key,
  -- which is not revoked, has the ID in the context, and whose stored permissions are the ones in the
  -- context: all of them unrestricted if none are stored.
  pub authenticate-IsKeyOf :
      (auth : String) (t : ApiKeyDb) (status : ℕ) (perms : Permissions) (id : String)
      → (authenticate codec auth t).0 ≡ success status (perms, id)
      → (starts_with auth "Bearer " ≡ true)
        × (row : ApiKeyRow) × (find_where (has_hash (codec.hash (drop_text "Bearer " auth))) t.rows
            ≡ some row)
        × IsKeyOf row perms id
  unfolding authenticate
  authenticate-IsKeyOf auth t status perms id h = elim (Bool-cases (auth == "")) [
    | inl p ↦ absurd (let q = rw p at h in cc)
    | inr p ↦ elim (Bool-cases (starts_with auth "Bearer ")) [
      | inr q ↦ absurd (let r = rw (p, q) at h in cc)
      | inl q ↦
          let (row, found, k) =
            by_token_lem (drop_text "Bearer " auth) t status perms id (rw (p, q) at h) in
          (q, row, found, k)
    ]
  ]

  pub not_empty : (s : String) → s ≢ "" → (s == "") ≡ false
  not_empty s h = ground (arith, eq_iff s "")

  -- The header that a client sends.
  pub authenticate_bearer :
      (token : String) (t : ApiKeyDb)
      → authenticate codec ("Bearer " <> token) t ≡ by_token codec token t
  unfolding authenticate
  authenticate_bearer token t =
      rw
        (
          not_empty ("Bearer " <> token)
              (λ e. cons≢nil ((append-eq-nil_iff {p = "Bearer "} {q = token}).0 e).0),
          starts_with-append "Bearer " token,
          drop_text-append "Bearer " token,
        )
        refl
