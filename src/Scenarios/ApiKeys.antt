-- ===== src/Scenarios/ApiKeys.antt =====
-- API keys at concrete tables, with a codec that writes the permissions of a key for one account.
use matfix.Shared.{
  ◌≡◌, ◌≢◌, refl, zero, suc, String, true, Option, none, some, find_where, List, [], ◌∷◌, ℤ, pos,
  negsuc,
}
use Prim.Native.String as Text
use text.Mathlib.Text.{starts_with}
use text.Mathlib.TextLemmas.{nil-append, cons-append, append-eq-nil_iff, cons≢nil}
use Prim.Native.String.{◌++◌ as ◌<>◌}
use matfix.Persistence.Statement.{working}
use matfix.Persistence.ApiKeys.{ApiKeyRow, ApiKeyDb, has_hash}
use matfix.Api.Response.{success}
use matfix.Api.Auth.{Permissions, KeyCodec, authenticate, drop_text}
use matfix.Api.Auth.Keys.{IsKeyOf, authenticate-IsKeyOf}
use matfix.Admin.Keys.{CreateKeyRequest, KeyCreated, create_key, revoke_key, rotate_key}
use matfix.Admin.Keys.Access.{IsFaithfulCodec, IsRefused, revoke_key-IsRefused}
use matfix.Admin.Keys.Rotation.{Replaces, rotate_key-Replaces}

abbrev pub for_account : String → Permissions
for_account a = record {
  accounts = a ∷ [];
  routes = [];
  rooms = [];
  event_types = [];
  rate_limit_rps = pos 0;
}

abbrev written : List String → List String → List String → List String → ℤ → Option String
written (a ∷ []) [] [] [] (pos zero) = some ("{" <> a)
written accounts routes rooms types rate = none

abbrev read : String → Option Permissions
read Text.[] = none
read (Text.◌∷◌ c s) = some (for_account s)

abbrev pub codec : KeyCodec
codec = record {
  marshal = λ p. written p.accounts p.routes p.rooms p.event_types p.rate_limit_rps;
  unmarshal = read;
  hash = λ s. s;
}

codec-IsFaithful : IsFaithfulCodec codec
codec-IsFaithful = record {
  reads_back = λ p. back p.accounts p.routes p.rooms p.event_types p.rate_limit_rps;
  not_blank = λ p. not_blank p.accounts p.routes p.rooms p.event_types p.rate_limit_rps;
}
  where
    back :
        (xs rs ms es : List String) (n : ℤ) (json : String)
        → written xs rs ms es n ≡ some json
        → read json
          ≡ some (record {
            accounts = xs;
            routes = rs;
            rooms = ms;
            event_types = es;
            rate_limit_rps = n;
          })
    back (a ∷ []) [] [] [] (pos zero) json h =
        let e : "{" <> a ≡ json = cc h in rw (← e, cons-append _ "" a, nil-append a) refl
    back [] rs ms es n json h = absurd (cc)
    back (a ∷ b ∷ xs) rs ms es n json h = absurd (cc)
    back (a ∷ []) (r ∷ rs) ms es n json h = absurd (cc)
    back (a ∷ []) [] (m ∷ ms) es n json h = absurd (cc)
    back (a ∷ []) [] [] (e ∷ es) n json h = absurd (cc)
    back (a ∷ []) [] [] [] (negsuc n) json h = absurd (cc)
    back (a ∷ []) [] [] [] (pos (suc n)) json h = absurd (cc)

    not_blank : (xs rs ms es : List String) (n : ℤ) → written xs rs ms es n ≢ some ""
    not_blank (a ∷ []) [] [] [] (pos zero) h =
        let e : "{" <> a ≡ "" = cc h in cons≢nil ((append-eq-nil_iff {p = "{"} {q = a}).0 e).0
    not_blank [] rs ms es n h = absurd (cc)
    not_blank (a ∷ b ∷ xs) rs ms es n h = absurd (cc)
    not_blank (a ∷ []) (r ∷ rs) ms es n h = absurd (cc)
    not_blank (a ∷ []) [] (m ∷ ms) es n h = absurd (cc)
    not_blank (a ∷ []) [] [] (e ∷ es) n h = absurd (cc)
    not_blank (a ∷ []) [] [] [] (negsuc n) h = absurd (cc)
    not_blank (a ∷ []) [] [] [] (pos (suc n)) h = absurd (cc)

abbrev pub key_row : ApiKeyRow
key_row = record {
  id = "k1";
  key_hash = "secret";
  name = "bot";
  permissions_json = "{alice";
  created_at = pos 1;
  revoked_at = none;
}

abbrev pub one_key : ApiKeyDb
one_key = working (key_row ∷ [])

pub accepted :
    (authenticate codec "Bearer secret" one_key).0 ≡ success 200 (for_account "alice", "k1")
unfolding authenticate
accepted = refl

authenticate-IsKeyOf_example :
    (starts_with "Bearer secret" "Bearer " ≡ true)
    × (row : ApiKeyRow) × (find_where
          (has_hash (codec.hash (drop_text "Bearer " "Bearer secret")))
          one_key.rows
        ≡ some row)
    × IsKeyOf codec row (for_account "alice") "k1"
authenticate-IsKeyOf_example =
    authenticate-IsKeyOf codec "Bearer secret" one_key 200 (for_account "alice") "k1" accepted

revoked : (revoke_key codec "k1" (pos 9) one_key).0 ≡ success 204 tt
unfolding revoke_key
revoked = refl

revoke_key-IsRefused_example : IsRefused codec "k1" (revoke_key codec "k1" (pos 9) one_key).1
revoke_key-IsRefused_example = revoke_key-IsRefused codec "k1" (pos 9) one_key 204 tt revoked

abbrev wish : CreateKeyRequest
wish = record { name = "bob's"; permissions = some (for_account "bob") }

abbrev answer : KeyCreated
answer = record { id = "k2"; key = "token"; name = "bob's"; created_at = pos 5 }

stored : (create_key codec (some wish) (some "token") "k2" (pos 5) one_key).0 ≡ success 201 answer
unfolding create_key
stored = refl

abbrev swapped : KeyCreated
swapped = record { id = "k2"; key = "token"; name = "bot"; created_at = pos 6 }

rotated :
    (rotate_key codec "k1" (some "token") "k2" (pos 5) (pos 6) one_key).0 ≡ success 201 swapped
unfolding rotate_key
rotated = refl

rotate_key-Replaces_example :
    Replaces codec "k1"
      (for_account "alice")
      swapped
      (rotate_key codec "k1" (some "token") "k2" (pos 5) (pos 6) one_key).1
unfolding find_where
rotate_key-Replaces_example =
    rotate_key-Replaces codec "k1" "token" "k2" (pos 5) (pos 6) one_key key_row
      (for_account "alice") 201 swapped (λ e. cc) refl refl rotated
