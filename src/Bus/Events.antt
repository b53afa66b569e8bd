-- ===== src/Bus/Events.antt =====
-- internal/bus/events.go. A time.Time is its Unix time in milliseconds, as the readers take it.
use matfix.Shared.{ℕ, String, Bool, Option, ℤ}

pub data EventType : Type 0 where
  inbound_message inbound_reaction inbound_edit inbound_redaction : EventType
  inbound_membership inbound_receipt : EventType
  delivery_acknowledged retry_scheduled retry_exhausted : EventType
  ask_registered ask_resolved : EventType
  encryption_failure : EventType

-- The text of the constant, which filters are compared with.
unfoldable pub type_name : EventType → String
type_name inbound_message = "inbound.message"
type_name inbound_reaction = "inbound.reaction"
type_name inbound_edit = "inbound.edit"
type_name inbound_redaction = "inbound.redaction"
type_name inbound_membership = "inbound.membership"
type_name inbound_receipt = "inbound.receipt"
type_name delivery_acknowledged = "delivery.acknowledged"
type_name retry_scheduled = "delivery.retry_scheduled"
type_name retry_exhausted = "delivery.retry_exhausted"
type_name ask_registered = "ask.registered"
type_name ask_resolved = "ask.resolved"
type_name encryption_failure = "crypto.encryption_failure"

pub record InboundEncryptedFile : Type 0 where
  pub url : String
  pub key : String
  pub iv : String
  pub sha256 : String
  pub version : String

pub record InboundAttachment : Type 0 where
  pub url : String
  pub mime_type : String
  pub filename : String
  pub size : ℤ
  pub width : ℤ
  pub height : ℤ
  pub duration : ℤ
  pub encrypted_file : Option InboundEncryptedFile

pub record InboundMessageEvent : Type 0 where
  pub event_id : String
  pub sender_id : String
  pub body : String
  pub formatted_body : String
  pub msg_type : String
  pub in_reply_to : String
  pub attachment : Option InboundAttachment
  pub timestamp : ℤ

pub record InboundReactionEvent : Type 0 where
  pub event_id : String
  pub sender_id : String
  pub relates_to_event_id : String
  pub key : String
  pub timestamp : ℤ

pub record InboundEditEvent : Type 0 where
  pub event_id : String
  pub sender_id : String
  pub relates_to_event_id : String
  pub new_body : String
  pub new_formatted_body : String
  pub timestamp : ℤ

pub record InboundRedactionEvent : Type 0 where
  pub event_id : String
  pub sender_id : String
  pub redacts : String
  pub reason : String
  pub timestamp : ℤ

pub record InboundMembershipEvent : Type 0 where
  pub event_id : String
  pub user_id : String
  pub membership : String
  pub prev_membership : String
  pub timestamp : ℤ

pub record InboundReceiptEvent : Type 0 where
  pub user_id : String
  pub event_id : String
  pub receipt_type : String
  pub timestamp : ℤ

pub record DeliveryAcknowledgedEvent : Type 0 where
  pub job_id : String
  pub matrix_event_id : String
  pub timestamp : ℤ

pub record RetryScheduledEvent : Type 0 where
  pub job_id : String
  pub retry_count : ℕ
  pub scheduled_at : ℤ

pub record RetryExhaustedEvent : Type 0 where
  pub job_id : String
  pub retry_count : ℕ
  pub last_error : String

pub record AskRegisteredEvent : Type 0 where
  pub correlation_id : String
  pub outbound_event_id : String

pub record AskResolvedEvent : Type 0 where
  pub correlation_id : String
  pub matched_event_id : String
  pub timed_out : Bool

pub record EncryptionFailureEvent : Type 0 where
  pub event_id : String
  pub sender_id : String
  pub error_msg : String

-- The values that the packages store in the field Payload of type `any`.
pub data Payload : Type 0 where
  message : InboundMessageEvent → Payload
  reaction : InboundReactionEvent → Payload
  edit : InboundEditEvent → Payload
  redaction : InboundRedactionEvent → Payload
  membership : InboundMembershipEvent → Payload
  receipt : InboundReceiptEvent → Payload
  acknowledged : DeliveryAcknowledgedEvent → Payload
  scheduled : RetryScheduledEvent → Payload
  exhausted : RetryExhaustedEvent → Payload
  registered : AskRegisteredEvent → Payload
  resolved : AskResolvedEvent → Payload
  undecrypted : EncryptionFailureEvent → Payload

pub record EventEnvelope : Type 0 where
  pub type : EventType
  pub account_id : String
  pub room_id : String
  pub payload : Payload
