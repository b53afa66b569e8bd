-- ===== src/Engine/Calls.antt =====
-- The calls of mautrix.Client that internal/engine/send.go and internal/media/manager.go make, in
-- the order in which they are made. Their answers and the attachment ciphers of mautrix are
-- parameters, and may depend on all calls before.
pub mod Adds
use matfix.Shared.{
  ℕ, String, Bool, Option, none, some, List, [], ◌∷◌, ◌++◌, ℤ, Result, ok, err, Exec,
}

-- The constants of event.MessageType and event.Format that are used.
pub data MessageType : Type 0 where
  msg_text msg_image msg_audio msg_video msg_file : MessageType

pub data Format : Type 0 where
  no_format format_html : Format

-- What SetReplyTo and SetEdit of mautrix add to a content.
pub data Relates : Type 0 where
  unrelated : Relates
  set_reply_to : String → Relates
  set_edit : String → Relates

pub record AttachmentInfo : Type 0 where
  pub mime_type : String
  pub size : ℤ
  pub width : ℤ
  pub height : ℤ
  pub duration : ℤ

-- event.MessageEventContent; `file` is the key material with the URL of the ciphertext.
pub record MessageEventContent (K : Type 0) : Type 0 where
  pub msg_type : MessageType
  pub body : String
  pub format : Format
  pub formatted_body : String
  pub file_name : String
  pub info : Option AttachmentInfo
  pub file : Option (K × String)
  pub url : String
  pub relates_to : Relates

pub data ServerCall (K : Type 0) : Type 0 where
  send_message : String → MessageEventContent K → ServerCall K
  -- the room, the annotated event and the key
  send_reaction : String → String → String → ServerCall K
  -- the room, the event and the reason
  redact_event : String → String → String → ServerCall K
  -- the bytes, the content type and the file name
  upload_media : List ℕ → String → String → ServerCall K

abbrev pub Log : Type 0 → Type 0
Log K = List (ServerCall K)

-- `answer` gives the ID of the event, or the URI of what was uploaded.
pub record Mautrix (K : Type 0) : Type 0 where
  pub answer : Log K → ServerCall K → Result String
  pub is_encrypted : Log K → String → Result Bool
  pub new_encrypted_file : Log K → K
  pub encrypt_in_place : K → List ℕ → List ℕ × K

unfoldable pub call : {K : Type 0} → Mautrix K → ServerCall K → Exec (Log K) String
call mx c log = (mx.answer log c, log ++ c ∷ [])

-- A content with a type and a body, and zero values elsewhere.
abbrev pub plain_content : {K : Type 0} → MessageType → String → MessageEventContent K
plain_content type body = record {
  msg_type = type;
  body = body;
  format = no_format;
  formatted_body = "";
  file_name = "";
  info = none;
  file = none;
  url = "";
  relates_to = unrelated;
}
