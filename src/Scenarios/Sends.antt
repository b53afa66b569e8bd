-- ===== src/Scenarios/Sends.antt =====
-- POST /v1/send with the key of the scenarios of keys, on the server of those of submissions.
use matfix.Shared.{
  ℕ, zero, suc, ◌+◌, ◌==◌, arith, ◌≡◌, ◌≢◌, ◌↔◌, refl, String, true, false, Option, none, some,
  List, [], ◌∷◌, pos, ℤ,
}
use Prim.Native.String as Text
use matfix.Engine.SendTypes.{SendRequest, file_message}
use matfix.Api.Response.{success}
use matfix.Api.Auth.{check_account, route_allowed}
use matfix.Api.Payload.{payload_to_send_request}
use matfix.Api.Payload.RoundTrip.{payload_of, IsSendable, IsFaithful64, payload_of-IsSendable}
use matfix.Api.RateLimit.{Buckets, limited}
use matfix.Api.Send.{SendBody, Server, post_send}
use matfix.Api.Send.Guarded.{Serves, post_send-Serves}
use matfix.Scenarios.QueueManager.{texts_only, hello}
use matfix.Scenarios.ApiKeys.{codec, one_key, for_account}
use matfix.Scenarios.Submissions.{clients, accounts, start}

-- Bytes in unary, in place of base64.
abbrev one_byte : ℕ → String → String
one_byte zero rest = Text.◌∷◌ "b" rest
one_byte (suc n) rest = Text.◌∷◌ "a" (one_byte n rest)

abbrev unary : List ℕ → String
unary [] = ""
unary (n ∷ ns) = one_byte n (unary ns)

abbrev with_byte : ℕ → Option (List ℕ) → Option (List ℕ)
with_byte n none = none
with_byte n (some ns) = some (n ∷ ns)

abbrev read_unary : ℕ → String → Option (List ℕ)
read_unary n Text.[] = some []
read_unary n (Text.◌∷◌ c s) = elim (Text.◌∷◌ c Text.[] == "a") [
  | true ↦ read_unary (suc n) s
  | false ↦ with_byte n (read_unary 0 s)
]

read_byte :
    (n k m : ℕ) (rest : String)
    → k + n ≡ m
    → read_unary k (one_byte n rest) ≡ with_byte m (read_unary 0 rest)
read_byte zero k m rest h = let e : k ≡ m = omega (arith, h) in rw e refl
read_byte (suc n) k m rest h = read_byte n (suc k) m rest (omega (arith, h))

unary_back : (ns : List ℕ) → read_unary 0 (unary ns) ≡ some ns
unary_back [] = refl
unary_back (n ∷ ns) = rw (read_byte n 0 n (unary ns) (omega arith), unary_back ns) refl

not_blank : (raw : List ℕ) → raw ≢ [] → unary raw ≢ ""
not_blank [] filled e = filled refl
not_blank (zero ∷ ns) filled e = cc
not_blank (suc n ∷ ns) filled e = cc

unary-IsFaithful : IsFaithful64 (read_unary 0) unary
unary-IsFaithful = record {
  reads_back = λ raw bytes. unary_back raw;
  writes = λ raw bytes. not_blank raw;
}

abbrev picture : SendRequest
picture = file_message (record {
  filename = "a.png";
  mime_type = "image/png";
  contents = 1 ∷ 0 ∷ [];
  caption = "look";
  formatted_caption = "";
  width = pos 2;
  height = pos 1;
  duration = pos 0;
  size = pos 0;
})

payload_of-IsSendable_example :
    (payload_to_send_request (read_unary 0) (payload_of (read_unary 0) unary picture)
      ≡ some picture)
    ↔ IsSendable (read_unary 0) unary picture
payload_of-IsSendable_example =
    payload_of-IsSendable (read_unary 0) unary unary-IsFaithful picture
      (λ e. cc, (omega arith, (omega arith, tt)))

-- Every bucket has one token for each reading of the clock.
abbrev generous : Buckets ℤ
generous = record { new_limiter = λ rps burst. rps; limit = λ l. l; allows = λ now l. (true, l) }

abbrev body : SendBody
body = record {
  account_id = "alice";
  destination = "@bob:hs";
  idempotency_key = "k1";
  message = record {
    type = "text";
    body = "hello";
    formatted_body = "";
    in_reply_to = "";
    target_event_id = "";
    key = "";
    reason = "";
    file = none;
  };
}

abbrev server : Server (read_unary 0) texts_only accounts clients codec generous
server = record { keys = one_key; limiters = λ k. none; world = start }

post_send-Serves_example :
    let (r, s) =
      post_send
        (read_unary 0)
        texts_only
        accounts
        clients
        codec
        generous
        "Bearer secret"
        (some body)
        "job-1"
        (pos 10)
        (pos 10)
        server in
    Serves
      (read_unary 0)
      texts_only
      accounts
      clients
      codec
      generous
      (some body)
      "job-1"
      (pos 10)
      (pos 10)
      "Bearer secret"
      server
      r
      s.world
post_send-Serves_example =
    post_send-Serves (read_unary 0) texts_only accounts clients codec generous (some body) "job-1"
      (pos 10) (pos 10) "Bearer secret" server

within : (limited generous (pos 10) (for_account "alice", "k1") server.limiters).0 ≡ success 200 tt
unfolding limited
within = refl

may_send : route_allowed (for_account "alice") "send" ≡ true
unfolding route_allowed
may_send = refl

may_use : check_account (some (for_account "alice")) "alice" ≡ true
unfolding check_account
may_use = refl

decodes : payload_to_send_request (read_unary 0) body.message ≡ some hello
unfolding payload_to_send_request
decodes = refl
