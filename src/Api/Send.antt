-- ===== src/Api/Send.antt =====
-- POST /v1/send: sendHandler of internal/api/send.go behind the middlewares of router.go.
pub mod Guarded
use matfix.Shared.{
  ℕ, String, Bool, true, false, not, Option, none, some, List, ◌==◌, if◌then◌else◌, ℤ, Result, ok,
  err,
}
use matfix.Engine.SendTypes.{SendRequest}
use matfix.Engine.Rooms.{Matrix}
use matfix.Persistence.ApiKeys.{ApiKeyDb}
use matfix.Queue.Payload.{Json}
use matfix.Submission.{SubmitRequest, World, submit}
use matfix.Api.Response.{Response, failure, success, unless_failure}
use matfix.Api.Auth.{KeyCodec, Permissions, Caller, authenticate, check_account, require_route}
use matfix.Api.Payload.{MessagePayload, payload_to_send_request}
use matfix.Api.RateLimit.{Buckets, Limiters, limited}

pub record SendBody : Type 0 where
  pub account_id : String
  pub destination : String
  pub idempotency_key : String
  pub message : MessagePayload

abbrev pub submission_of : SendBody → SendRequest → SubmitRequest
submission_of body message = record {
  account_id = body.account_id;
  destination = body.destination;
  message = some message;
  idempotency_key = body.idempotency_key;
}

-- The status and the job ID of a SendResponse.
unfoldable pub submitted : Result String → Response String
submitted (ok job) = success 202 job
submitted (err e) = failure 400 "submission_error"

module _ {S : Type 0} (decode64 : String → Option (List ℕ)) (json : Json) (accounts : List String)
    (clients : String → Option (Matrix S)) where
  unfoldable pub submit_message :
      SendBody → Option SendRequest → String → ℤ → World S → Response String × World S
  unfolding submitted
  submit_message body none uuid now w = (failure 400 "bad_request", w)
  submit_message body (some message) uuid now w =
      let (r, w') = submit json accounts clients (submission_of body message) uuid now w in
      (submitted r, w')

  -- `none` is a body that does not decode.
  unfoldable pub send_handler :
      Option Permissions → Option SendBody → String → ℤ → World S → Response String × World S
  unfolding submit_message
  send_handler perms none uuid now w = (failure 400 "bad_request", w)
  send_handler perms (some body) uuid now w =
      if body.account_id == ""
      then (failure 400 "bad_request", w)
      else if body.destination == ""
      then (failure 400 "bad_request", w)
      else if not (check_account perms body.account_id)
      then (failure 403 "forbidden", w)
      else submit_message body (payload_to_send_request decode64 body.message) uuid now w

  module _ {L : Type 0} (codec : KeyCodec) (buckets : Buckets L) where
    pub record Server : Type 0 where
      pub keys : ApiKeyDb
      pub limiters : Limiters buckets
      pub world : World S

    abbrev on_world : (World S → Response String × World S) → Server → Response String × Server
    on_world f s = let (r, w) = f s.world in (r, record s { world = w })

    unfoldable pub routed :
        Caller
        → Option SendBody
        → String
        → ℤ
        → Response (Unit {0})
        → Server
        → Response String × Server
    unfolding send_handler
    routed caller body uuid now (failure status code) s = (failure status code, s)
    routed caller body uuid now (success status u) s =
        on_world (send_handler (some caller.0) body uuid now) s

    unfoldable pub within_limit :
        Caller
        → Option SendBody
        → String
        → ℤ
        → Response (Unit {0})
        → Server
        → Response String × Server
    unfolding routed require_route
    within_limit caller body uuid now (failure status code) s = (failure status code, s)
    within_limit caller body uuid now (success status u) s =
        routed caller body uuid now (require_route (some caller.0) "send") s

    unfoldable pub as_caller :
        Option SendBody → String → ℤ → ℤ → Response Caller → Server → Response String × Server
    unfolding within_limit limited
    as_caller body uuid now arrived (failure status code) s = (failure status code, s)
    as_caller body uuid now arrived (success status caller) s =
        let (r, limiters) = limited buckets arrived caller s.limiters in
        within_limit caller body uuid now r (record s { limiters = limiters })

    -- `auth` is the Authorization header, `arrived` what the rate limiter reads of the clock.
    unfoldable pub post_send :
        String → Option SendBody → String → ℤ → ℤ → Server → Response String × Server
    unfolding as_caller authenticate
    post_send auth body uuid now arrived s =
        let (r, keys) = authenticate codec auth s.keys in
        as_caller body uuid now arrived r (record s { keys = keys })
