-- ===== src/Api/Send/Guarded.antt =====
-- Which requests to POST /v1/send (internal/api) reach the submission manager.
use matfix.Shared.{
  ℕ, String, ◌≡◌, refl, sym, true, false, Option, none, some, List, ◌==◌, ℤ, find_where, Bool-cases,
  Option-cases, inl, inr,
}
use text.Mathlib.Text.{starts_with}
use matfix.Engine.SendTypes.{SendRequest}
use matfix.Engine.Rooms.{Matrix}
use matfix.Persistence.ApiKeys.{ApiKeyRow, ApiKeyDb, has_hash}
use matfix.Queue.Payload.{Json}
use matfix.Submission.{World, submit}
use matfix.Api.Response.{Response, failure, success}
use matfix.Api.Auth.{
  KeyCodec, Permissions, Caller, authenticate, check_account, require_route, route_allowed,
  drop_text,
}
use matfix.Api.Auth.Keys.{IsKeyOf, authenticate-IsKeyOf}
use matfix.Api.Payload.{payload_to_send_request}
use matfix.Api.RateLimit.{Buckets, limited}
use matfix.Api.Send.{
  SendBody, submission_of, submitted, submit_message, send_handler, Server, routed, within_limit,
  as_caller, post_send,
}

module _ {S : Type 0} (decode64 : String → Option (List ℕ)) (json : Json) (accounts : List String)
    (clients : String → Option (Matrix S)) where
  -- What the handler does for a caller: nothing, or it submits the decoded body for an account that
  -- the caller may use.
  pub data Handled (perms : Permissions) (body : Option SendBody) (uuid : String) (now : ℤ)
      (w : World S) (r : Response String) (w' : World S) : Type 0 where
    refused :
        (status : ℕ) (code : String)
        → r ≡ failure status code
        → w' ≡ w
        → Handled perms body uuid now w r w'
    submits :
        (b : SendBody) (message : SendRequest)
        → body ≡ some b
        → check_account (some perms) b.account_id ≡ true
        → payload_to_send_request decode64 b.message ≡ some message
        → r ≡ submitted (submit json accounts clients (submission_of b message) uuid now w).0
        → w' ≡ (submit json accounts clients (submission_of b message) uuid now w).1
        → Handled perms body uuid now w r w'

  module _ (perms : Permissions) (uuid : String) (now : ℤ) (w : World S) where
    message-Handled :
        (b : SendBody)
        → check_account (some perms) b.account_id ≡ true
        → let (r, w') =
            submit_message decode64 json accounts clients b
              (payload_to_send_request decode64 b.message)
              uuid
              now
              w in
          Handled perms (some b) uuid now w r w'
    unfolding submit_message
    message-Handled b may = elim (Option-cases (payload_to_send_request decode64 b.message)) [
      | inl p ↦ refused 400 "bad_request" (rw p refl) (rw p refl)
      | inr (message, p) ↦ submits b message refl may p (rw p refl) (rw p refl)
    ]

    handler-Handled :
        (body : Option SendBody)
        → let (r, w') = send_handler decode64 json accounts clients (some perms) body uuid now w in
          Handled perms body uuid now w r w'
    unfolding send_handler
    handler-Handled none = refused 400 "bad_request" refl refl
    handler-Handled (some b) = elim (Bool-cases (b.account_id == "")) [
      | inl p ↦ refused 400 "bad_request" (rw p refl) (rw p refl)
      | inr p ↦ elim (Bool-cases (b.destination == "")) [
        | inl q ↦ refused 400 "bad_request" (rw (p, q) refl) (rw (p, q) refl)
        | inr q ↦ elim (Bool-cases (check_account (some perms) b.account_id)) [
          | inr may ↦ refused 403 "forbidden" (rw (p, q, may) refl) (rw (p, q, may) refl)
          | inl may ↦ rw (p, q, may) (message-Handled b may)
        ]
      ]
    ]

  module _ {L : Type 0} (codec : KeyCodec) (buckets : Buckets L) (body : Option SendBody)
      (uuid : String) (now arrived : ℤ) where
    -- What a request leaves: it is turned away, or it is handled for an active key whose hash is that
    -- of the token, and which may use the route.
    pub data Serves (auth : String) (s : Server decode64 json accounts clients codec buckets)
        (r : Response String) (w : World S) : Type 0 where
      turned_away :
          (status : ℕ) (code : String) → r ≡ failure status code → w ≡ s.world → Serves auth s r w
      handled :
          (row : ApiKeyRow) (perms : Permissions) (id : String)
          → starts_with auth "Bearer " ≡ true
          → find_where (has_hash (codec.hash (drop_text "Bearer " auth))) s.keys.rows ≡ some row
          → IsKeyOf codec row perms id
          → route_allowed perms "send" ≡ true
          → Handled perms body uuid now s.world r w
          → Serves auth s r w

    abbrev ServerOf : Type 0
    ServerOf = Server decode64 json accounts clients codec buckets

    -- The answer to a caller: the world is as it was, or the route is allowed.
    data Answers (perms : Permissions) (w : World S) (r : Response String) (w' : World S)
        : Type 0 where
      away : (status : ℕ) (code : String) → r ≡ failure status code → w' ≡ w → Answers perms w r w'
      through :
          route_allowed perms "send" ≡ true
          → Handled perms body uuid now w r w'
          → Answers perms w r w'

    limit-Answers :
        (caller : Caller) (t : Response (Unit {0})) (s : ServerOf)
        → let (r, s') =
            within_limit decode64 json accounts clients codec buckets caller body uuid now t s in
          Answers caller.0 s.world r s'.world
    unfolding within_limit routed require_route
    limit-Answers caller (failure status code) s = away status code refl refl
    limit-Answers caller (success status u) s = elim (Bool-cases (route_allowed caller.0 "send")) [
      | inr p ↦ away 403 "forbidden" (rw p refl) (rw p refl)
      | inl p ↦ rw p (through p (handler-Handled caller.0 uuid now s.world body))
    ]

    caller-Serves :
        (auth : String) (s : ServerOf) (t : Response Caller) (keys : ApiKeyDb)
        → t ≡ (authenticate codec auth s.keys).0
        → let (r, s') =
            as_caller decode64 json accounts clients codec buckets body uuid now arrived t
              (record s { keys = keys }) in
          Serves auth s r s'.world
    unfolding as_caller
    caller-Serves auth s (failure status code) keys h = turned_away status code refl refl
    caller-Serves auth s (success status (perms, id)) keys h =
        let (bearer, row, found, key) =
          authenticate-IsKeyOf codec auth s.keys status perms id (sym h) in
        let (t, limiters) = limited buckets arrived (perms, id) s.limiters in
        serves row found bearer key
          (limit-Answers (perms, id) t (record s { keys = keys; limiters = limiters }))
      where
        serves :
            (row : ApiKeyRow)
            → find_where (has_hash (codec.hash (drop_text "Bearer " auth))) s.keys.rows ≡ some row
            → starts_with auth "Bearer " ≡ true
            → IsKeyOf codec row perms id
            → {r : Response String} {w : World S} → Answers perms s.world r w
            → Serves auth s r w
        serves row found bearer key (away status code p q) = turned_away status code p q
        serves row found bearer key (through route h) =
            handled row perms id bearer found key route h

    -- POST /v1/send, behind its middlewares: either the request is refused and neither the queue nor a
    -- homeserver has changed; or it came with the token of an active key that may use the route and
    -- the account, and answer and world are those of Submit with the decoded message.
    pub post_send-Serves :
        (auth : String) (s : ServerOf)
        → Serves auth s
            (post_send decode64 json accounts clients codec buckets auth body uuid now arrived s).0
            (post_send decode64 json accounts clients codec buckets auth body uuid now arrived
              s).1.world
    unfolding post_send
    post_send-Serves auth s =
        caller-Serves auth s (authenticate codec auth s.keys).0 (authenticate codec auth s.keys).1
          refl

  module _ {L : Type 0} (codec : KeyCodec) (buckets : Buckets L) (b : SendBody) (uuid : String)
      (now arrived : ℤ) where
    -- A request with the token of a key that may use the route and the account, that its bucket lets
    -- through and whose fields are filled and message decodes, is submitted.
    post_send-submits :
        (auth : String) (s : Server decode64 json accounts clients codec buckets)
        (status limit_status : ℕ) (perms : Permissions) (id : String) (message : SendRequest)
        → (authenticate codec auth s.keys).0 ≡ success status (perms, id)
        → (limited buckets arrived (perms, id) s.limiters).0 ≡ success limit_status tt
        → route_allowed perms "send" ≡ true
        → (b.account_id == "") ≡ false
        → (b.destination == "") ≡ false
        → check_account (some perms) b.account_id ≡ true
        → payload_to_send_request decode64 b.message ≡ some message
        → let (r, s') =
            post_send decode64 json accounts clients codec buckets auth
              (some b)
              uuid
              now
              arrived
              s in
          let (answer, w) =
            submit json accounts clients (submission_of b message) uuid now s.world in
          (r ≡ submitted answer) × (s'.world ≡ w)
    unfolding post_send as_caller within_limit routed require_route send_handler submit_message
    post_send-submits auth s status limit_status perms id message h l route p q may decodes =
        rw (h, l, route, p, q, may, decodes) (refl, refl)
