-- ===== src/Scenarios/QueueManager.antt =====
-- internal/queue/job.go and manager.go on small data, with a codec of encoding/json that knows text
-- messages only.
use matfix.Shared.{
  String, ◌≡◌, refl, false, some, none, [], arith, pos, ok, ◌==◌, if◌then◌else◌, eq_iff,
}
use matfix.Persistence.Statement.{working}
use matfix.Persistence.Queue as Store
use matfix.Engine.SendTypes.{TextMessage, SendRequest, text_message}
use matfix.Queue.Payload.{
  Codec, Json, EncodedPayload, IsFaithful, IsFaithfulJson, encode_payload, decode_payload,
  decode_payload-encode_payload,
}
use matfix.Queue.Manager.{Manager, Job, enqueue, entry_to_job}

abbrev refusing : {A : Type 0} → Codec A
refusing = record { marshal = λ a. none; unmarshal = λ s. none }

refusing-IsFaithful : {A : Type 0} → IsFaithful (refusing {A = A})
refusing-IsFaithful = record { reads_back = λ a s h. cc }

abbrev bodies : Codec TextMessage
bodies = record { marshal = λ m. some m.body; unmarshal = λ s. some (record { body = s }) }

abbrev tagged : Codec EncodedPayload
tagged = record {
  marshal = λ ep. if ep.type == "text_message" then some ep.content else none;
  unmarshal = λ s. some (record { type = "text_message"; content = s });
}

bodies-IsFaithful : IsFaithful bodies
bodies-IsFaithful = record { reads_back = λ a s h. ground arith }

tagged-back :
    (ep : EncodedPayload) (raw : String)
    → tagged.marshal ep ≡ some raw
    → tagged.unmarshal raw ≡ some ep
tagged-back ep raw h = ground (arith, eq_iff ep.type "text_message")

abbrev pub texts_only : Json
texts_only = record {
  text = bodies;
  html = refusing;
  replies = refusing;
  reactions = refusing;
  edits = refusing;
  redactions = refusing;
  files = refusing;
  envelope = tagged;
}

pub texts_only-IsFaithful : IsFaithfulJson texts_only
texts_only-IsFaithful = record {
  text = bodies-IsFaithful;
  html = refusing-IsFaithful;
  replies = refusing-IsFaithful;
  reactions = refusing-IsFaithful;
  edits = refusing-IsFaithful;
  redactions = refusing-IsFaithful;
  files = refusing-IsFaithful;
  envelope = λ ep raw made h. tagged-back ep raw h;
}

abbrev pub hello : SendRequest
hello = text_message (record { body = "hello" })

hello_encodes : encode_payload texts_only hello ≡ ok "hello"
unfolding encode_payload
hello_encodes = refl

decode_payload-encode_payload_example : decode_payload texts_only "hello" ≡ ok hello
decode_payload-encode_payload_example =
    decode_payload-encode_payload texts_only texts_only-IsFaithful hello "hello" hello_encodes

abbrev pub idle : Manager
idle = record { store = working []; notified = false }

abbrev pub first_job : Job
first_job = record {
  id = "job-1";
  account_id = "alice";
  room_id = "!room:hs";
  request = hello;
  state = Store.queued;
  retry_count = 0;
  scheduled_at = pos 0;
  idempotency_key = "k1";
  created_at = pos 10;
  updated_at = pos 10;
}

keyed : ("k1" == "") ≡ false
keyed = refl

first_enqueue :
    (enqueue texts_only "alice" "!room:hs" hello "k1" "job-1" (pos 10) idle).0 ≡ ok first_job
unfolding enqueue entry_to_job encode_payload decode_payload Store.enqueue
    Store.get_by_idempotency_key
first_enqueue = refl

abbrev pub after_first : Manager
after_first = (enqueue texts_only "alice" "!room:hs" hello "k1" "job-1" (pos 10) idle).1
