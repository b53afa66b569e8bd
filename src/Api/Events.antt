-- ===== src/Api/Events.antt =====
-- envelopeToPayload and envelopesToPayloads of internal/api/receive.go, into the types of
-- internal/api/response/types.go.
pub mod Views
use matfix.Shared.{String, Option, none, some, List, [], ◌∷◌, ℤ, pos}
use matfix.Bus.Events.{
  EventEnvelope, Payload, InboundAttachment, InboundEncryptedFile, type_name, message, reaction,
  edit, redaction, membership, receipt,
}

pub record EncryptedFilePayload : Type 0 where
  pub url : String
  pub key : String
  pub iv : String
  pub sha256 : String
  pub version : String

pub record AttachmentPayload : Type 0 where
  pub url : String
  pub mime_type : String
  pub filename : String
  pub size : ℤ
  pub width : ℤ
  pub height : ℤ
  pub duration : ℤ
  pub encrypted_file : Option EncryptedFilePayload

pub record EventPayload : Type 0 where
  pub event_id : String
  pub account_id : String
  pub room_id : String
  pub sender_id : String
  pub type : String
  pub body : String
  pub timestamp : ℤ
  pub attachment : Option AttachmentPayload

unfoldable pub encrypted_payload : Option InboundEncryptedFile → Option EncryptedFilePayload
encrypted_payload none = none
encrypted_payload (some f) =
    some (record { url = f.url; key = f.key; iv = f.iv; sha256 = f.sha256; version = f.version })

unfoldable pub attachment_payload : Option InboundAttachment → Option AttachmentPayload
unfolding encrypted_payload
attachment_payload none = none
attachment_payload (some a) = some (record {
  url = a.url;
  mime_type = a.mime_type;
  filename = a.filename;
  size = a.size;
  width = a.width;
  height = a.height;
  duration = a.duration;
  encrypted_file = encrypted_payload a.encrypted_file;
})

-- The `switch` on the payload; a payload of another type leaves the fields at their zero values.
unfoldable pub fill : Payload → EventPayload → EventPayload
unfolding attachment_payload
fill (message e) p = record p {
  event_id = e.event_id;
  sender_id = e.sender_id;
  body = e.body;
  timestamp = e.timestamp;
  attachment = attachment_payload e.attachment;
}
fill (reaction e) p = record p {
  event_id = e.event_id;
  sender_id = e.sender_id;
  body = e.key;
  timestamp = e.timestamp;
}
fill (edit e) p = record p {
  event_id = e.event_id;
  sender_id = e.sender_id;
  body = e.new_body;
  timestamp = e.timestamp;
}
fill (redaction e) p = record p {
  event_id = e.event_id;
  sender_id = e.sender_id;
  body = e.reason;
  timestamp = e.timestamp;
}
fill (membership e) p = record p {
  event_id = e.event_id;
  sender_id = e.user_id;
  body = e.membership;
  timestamp = e.timestamp;
}
fill (receipt e) p = record p {
  event_id = e.event_id;
  sender_id = e.user_id;
  timestamp = e.timestamp;
}
fill _ p = p

unfoldable pub envelope_to_payload : EventEnvelope → EventPayload
unfolding fill
envelope_to_payload env = fill env.payload (record {
  event_id = "";
  account_id = env.account_id;
  room_id = env.room_id;
  sender_id = "";
  type = type_name env.type;
  body = "";
  timestamp = pos 0;
  attachment = none;
})

unfoldable pub envelopes_to_payloads : List EventEnvelope → List EventPayload
unfolding envelope_to_payload
envelopes_to_payloads [] = []
envelopes_to_payloads (env ∷ envs) = envelope_to_payload env ∷ envelopes_to_payloads envs
