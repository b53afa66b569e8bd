-- ===== src/Sync/Event.antt =====
-- The events of mautrix, as far as internal/sync/normalize.go reads them. Parsing and the typed views
-- of a content belong to mautrix and are parameters.
use matfix.Shared.{String, Bool, Option, List, ℤ}
use matfix.Bus.Events.{InboundEncryptedFile}

-- What evt.Type is compared with.
pub data Kind : Type 0 where
  encrypted message reaction redaction member receipt other : Kind

-- content.RelatesTo: whether its type is RelReplace, its event and GetReplyTo().
pub record Relation : Type 0 where
  pub replaces : Bool
  pub event_id : String
  pub reply_to : String

pub record NewContent : Type 0 where
  pub body : String
  pub formatted_body : String

pub record FileInfo : Type 0 where
  pub mime_type : String
  pub size : ℤ
  pub width : ℤ
  pub height : ℤ
  pub duration : ℤ

-- `file` has the fields of content.File that are read, `file_name` is GetFileName().
pub record MessageContent : Type 0 where
  pub body : String
  pub formatted_body : String
  pub msg_type : String
  pub file_name : String
  pub relates_to : Option Relation
  pub new_content : Option NewContent
  pub info : Option FileInfo
  pub file : Option InboundEncryptedFile
  pub url : String

pub record ReactionContent : Type 0 where
  pub event_id : String
  pub key : String

pub record RedactionContent : Type 0 where
  pub redacts : String
  pub reason : String

-- A map of maps of maps, in the order of its iteration: event, receipt type, user, timestamp.
abbrev pub Receipts : Type 0
Receipts = List (String × List (String × List (String × ℤ)))

-- The package event: the constants for files, ParseRaw (true is no error) and the views.
pub record Mautrix : Type 1 where
  pub Content : Type 0
  pub msg_file : String
  pub msg_image : String
  pub msg_audio : String
  pub msg_video : String
  pub parse_raw : Kind → Content → Bool × Content
  pub as_message : Content → MessageContent
  pub as_reaction : Content → ReactionContent
  pub as_redaction : Content → RedactionContent
  pub membership_of : Content → String
  pub as_receipt : Content → Option Receipts

pub record Event (x : Mautrix) : Type 0 where
  pub id : String
  pub sender : String
  pub kind : Kind
  pub content : x.Content
  pub redacts : String
  pub state_key : Option String
  pub prev_content : Option x.Content
  pub timestamp : ℤ
