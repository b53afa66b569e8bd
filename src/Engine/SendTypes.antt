-- ===== src/Engine/SendTypes.antt =====
-- internal/engine/send_types.go. Identifiers of rooms, events and users are strings.
use matfix.Shared.{ℕ, String, List, ℤ}

pub record TextMessage : Type 0 where
  pub body : String

pub record HtmlMessage : Type 0 where
  pub body : String
  pub formatted_body : String

pub record Reply : Type 0 where
  pub in_reply_to : String
  pub body : String
  pub formatted_body : String

pub record Reaction : Type 0 where
  pub target_event_id : String
  pub key : String

pub record Edit : Type 0 where
  pub target_event_id : String
  pub new_body : String
  pub new_formatted_body : String

pub record Redaction : Type 0 where
  pub target_event_id : String
  pub reason : String

-- `contents` is the field Data, a list of bytes.
pub record FileMessage : Type 0 where
  pub filename : String
  pub mime_type : String
  pub contents : List ℕ
  pub caption : String
  pub formatted_caption : String
  pub width : ℤ
  pub height : ℤ
  pub duration : ℤ
  pub size : ℤ

-- The marker method closes the interface: these are all its implementations.
pub data SendRequest : Type 0 where
  text_message : TextMessage → SendRequest
  html_message : HtmlMessage → SendRequest
  reply : Reply → SendRequest
  reaction : Reaction → SendRequest
  edit : Edit → SendRequest
  redaction : Redaction → SendRequest
  file_message : FileMessage → SendRequest
