-- ===== src/Api/Payload.antt =====
-- payloadToSendRequest of internal/api/send.go over MessagePayload of internal/api/request/types.go.
-- The decoder of encoding/base64 is a parameter.
pub mod RoundTrip
use matfix.Shared.{
  ℕ, String, Bool, true, false, ◌&&◌, not, Option, none, some, List, ◌==◌, if◌then◌else◌, ltb,
  length, ℤ, pos,
}
use matfix.Engine.SendTypes.{
  SendRequest, text_message, html_message, reply, reaction, edit, redaction, file_message,
}

pub record FileAttachment : Type 0 where
  pub data64 : String
  pub mime_type : String
  pub filename : String
  pub width : ℤ
  pub height : ℤ
  pub duration : ℤ

pub record MessagePayload : Type 0 where
  pub type : String
  pub body : String
  pub formatted_body : String
  pub in_reply_to : String
  pub target_event_id : String
  pub key : String
  pub reason : String
  pub file : Option FileAttachment

-- 50 MiB.
abbrev pub max_file_size : ℕ
max_file_size = 52428800

module _ (decode64 : String → Option (List ℕ)) where
  unfoldable pub sized_file : MessagePayload → FileAttachment → List ℕ → Option SendRequest
  sized_file p f raw =
      if ltb max_file_size (length raw)
      then none
      else some (
          file_message (record {
            filename = f.filename;
            mime_type = f.mime_type;
            contents = raw;
            caption = p.body;
            formatted_caption = p.formatted_body;
            width = f.width;
            height = f.height;
            duration = f.duration;
            size = pos 0;
          }))

  unfoldable pub decoded_file :
      MessagePayload → FileAttachment → Option (List ℕ) → Option SendRequest
  unfolding sized_file
  decoded_file p f none = none
  decoded_file p f (some raw) = sized_file p f raw

  unfoldable pub file_payload : MessagePayload → Option FileAttachment → Option SendRequest
  unfolding decoded_file
  file_payload p none = none
  file_payload p (some f) =
      if not (p.formatted_body == "") && p.body == ""
      then none
      else if f.mime_type == ""
      then none
      else if f.data64 == ""
      then none
      else decoded_file p f (decode64 f.data64)

  -- `none` is an error, which the handlers answer with 400.
  unfoldable pub payload_to_send_request : MessagePayload → Option SendRequest
  unfolding file_payload
  payload_to_send_request p =
      if p.type == "text"
      then some (text_message (record { body = p.body }))
      else if p.type == "html"
      then some (html_message (record { body = p.body; formatted_body = p.formatted_body }))
      else if p.type == "reply"
      then some (
          reply (record {
            in_reply_to = p.in_reply_to;
            body = p.body;
            formatted_body = p.formatted_body;
          }))
      else if p.type == "reaction"
      then some (reaction (record { target_event_id = p.target_event_id; key = p.key }))
      else if p.type == "edit"
      then some (
          edit (record {
            target_event_id = p.target_event_id;
            new_body = p.body;
            new_formatted_body = p.formatted_body;
          }))
      else if p.type == "redaction"
      then some (redaction (record { target_event_id = p.target_event_id; reason = p.reason }))
      else if p.type == "file"
      then file_payload p p.file
      else none
