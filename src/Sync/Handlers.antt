-- ===== src/Sync/Handlers.antt =====
-- The handlers of the event types of internal/sync/normalize.go.
use matfix.Shared.{
  String, Bool, true, false, ◌||◌, Option, none, some, List, [], ◌∷◌, ◌++◌, ◌==◌, if◌then◌else◌, ℤ,
  pos,
}
use matfix.Bus.Events.{
  EventType, Payload, EventEnvelope, InboundAttachment, InboundEncryptedFile, inbound_message,
  inbound_reaction, inbound_edit, inbound_redaction, inbound_membership, inbound_receipt,
  encryption_failure, undecrypted,
}
use matfix.Bus.Events as Bus
use matfix.Persistence.EventCache.{CacheDb}
use matfix.Sync.Event.{
  member, Relation, NewContent, FileInfo, MessageContent, ReactionContent, RedactionContent,
  Mautrix, Event,
}
use matfix.Sync.Dedup.{is_seen, mark_seen}

-- evt.Content.ParseRaw(evt.Type), whose error is ignored.
abbrev pub parsed : {x : Mautrix} → Event x → Event x
parsed {x} evt = record evt { content = (x.parse_raw evt.kind evt.content).1 }

-- The event cache, and what was published, in order.
pub record SyncState : Type 0 where
  pub cache : CacheDb
  pub published : List EventEnvelope

-- DecryptMegolmEvent: the plaintext event, or the text of the error.
pub data Decrypted (x : Mautrix) : Type 0 where
  plain : Event x → Decrypted x
  failed : String → Decrypted x

pub record Manager (x : Mautrix) : Type 0 where
  pub account_id : String
  pub user_id : String
  pub decrypter : Option (Event x → Decrypted x)

reply_to : Option Relation → String
reply_to none = ""
reply_to (some rel) = rel.reply_to

with_info : Option FileInfo → InboundAttachment → InboundAttachment
with_info none a = a
with_info (some i) a = record a {
  mime_type = i.mime_type;
  size = i.size;
  width = i.width;
  height = i.height;
  duration = i.duration;
}

with_file : MessageContent → Option InboundEncryptedFile → InboundAttachment → InboundAttachment
with_file c none a = record a { url = c.url }
with_file c (some f) a = record a { encrypted_file = some f }

abbrev named : String → InboundAttachment
named name = record {
  url = "";
  mime_type = "";
  filename = name;
  size = pos 0;
  width = pos 0;
  height = pos 0;
  duration = pos 0;
  encrypted_file = none;
}

unfoldable pub attachment : Mautrix → MessageContent → Option InboundAttachment
unfolding with_info with_file
attachment x c =
    if c.msg_type == x.msg_file
      || c.msg_type == x.msg_image
      || c.msg_type == x.msg_audio
      || c.msg_type == x.msg_video
    then some (with_file c c.file (with_info c.info (named c.file_name)))
    else none

module _ {x : Mautrix} (m : Manager x) (now : ℤ) where
  abbrev pub publish : EventType → String → Payload → SyncState → SyncState
  publish type room p s = record s {
    published =
        s.published
        ++ record { type = type; account_id = m.account_id; room_id = room; payload = p } ∷ [];
  }

  -- `if !m.isSeen(ctx, eventID) { return }` before `body`.
  unfoldable pub unless_known : String → (SyncState → SyncState) → SyncState → SyncState
  unfolding is_seen
  unless_known event body s =
      let (fresh, cache) = is_seen m.account_id event s.cache in
      if fresh then body (record s { cache = cache }) else record s { cache = cache }

  unfoldable pub marked : String → SyncState → SyncState
  unfolding mark_seen
  marked event s = record s { cache = mark_seen m.account_id event now s.cache }

  unfoldable pub publish_edit :
      String → Event x → Relation → Option NewContent → SyncState → SyncState
  unfolding marked
  publish_edit room evt rel none s = s
  publish_edit room evt rel (some c) s = marked evt.id (
      publish inbound_edit room
        (Bus.edit (record {
          event_id = evt.id;
          sender_id = evt.sender;
          relates_to_event_id = rel.event_id;
          new_body = c.body;
          new_formatted_body = c.formatted_body;
          timestamp = evt.timestamp;
        }))
        s)

  unfoldable pub publish_message : String → Event x → MessageContent → SyncState → SyncState
  unfolding marked attachment reply_to
  publish_message room evt c s = marked evt.id (
      publish inbound_message room
        (Bus.message (record {
          event_id = evt.id;
          sender_id = evt.sender;
          body = c.body;
          formatted_body = c.formatted_body;
          msg_type = c.msg_type;
          in_reply_to = reply_to c.relates_to;
          attachment = attachment x c;
          timestamp = evt.timestamp;
        }))
        s)

  unfoldable pub by_relation :
      String → Event x → MessageContent → Option Relation → SyncState → SyncState
  unfolding publish_edit publish_message
  by_relation room evt c none s = publish_message room evt c s
  by_relation room evt c (some rel) s =
      if rel.replaces
      then publish_edit room evt rel c.new_content s
      else publish_message room evt c s

  unfoldable pub dispatch_message : String → Event x → SyncState → SyncState
  unfolding unless_known by_relation
  dispatch_message room evt =
      let c = x.as_message evt.content in unless_known evt.id (by_relation room evt c c.relates_to)

  unfoldable pub publish_reaction : String → Event x → ReactionContent → SyncState → SyncState
  unfolding marked
  publish_reaction room evt c s = marked evt.id (
      publish inbound_reaction room
        (Bus.reaction (record {
          event_id = evt.id;
          sender_id = evt.sender;
          relates_to_event_id = c.event_id;
          key = c.key;
          timestamp = evt.timestamp;
        }))
        s)

  unfoldable pub dispatch_reaction : String → Event x → SyncState → SyncState
  unfolding unless_known publish_reaction
  dispatch_reaction room evt =
      unless_known evt.id (publish_reaction room evt (x.as_reaction evt.content))

  unfoldable pub publish_redaction : String → Event x → RedactionContent → SyncState → SyncState
  unfolding marked
  publish_redaction room evt c s = marked evt.id (
      publish inbound_redaction room
        (Bus.redaction (record {
          event_id = evt.id;
          sender_id = evt.sender;
          redacts = if evt.redacts == "" then c.redacts else evt.redacts;
          reason = c.reason;
          timestamp = evt.timestamp;
        }))
        s)

  unfoldable pub dispatch_redaction : String → Event x → SyncState → SyncState
  unfolding unless_known publish_redaction
  dispatch_redaction room evt =
      unless_known evt.id (publish_redaction room evt (x.as_redaction evt.content))

  parsed_membership : Bool × x.Content → String
  parsed_membership (true, c) = x.membership_of c
  parsed_membership (false, c) = ""

  unfoldable pub prev_membership : Option x.Content → String
  unfolding parsed_membership
  prev_membership none = ""
  prev_membership (some c) = parsed_membership (x.parse_raw member c)

  unfoldable pub publish_membership : String → Event x → String → SyncState → SyncState
  unfolding marked prev_membership
  publish_membership room evt user s = marked evt.id (
      publish inbound_membership room
        (Bus.membership (record {
          event_id = evt.id;
          user_id = user;
          membership = x.membership_of evt.content;
          prev_membership = prev_membership evt.prev_content;
          timestamp = evt.timestamp;
        }))
        s)

  unfoldable pub membership_of_key : String → Event x → Option String → SyncState → SyncState
  unfolding unless_known publish_membership
  membership_of_key room evt none s = s
  membership_of_key room evt (some user) s =
      unless_known evt.id (publish_membership room evt user) s

  unfoldable pub dispatch_membership : String → Event x → SyncState → SyncState
  unfolding membership_of_key
  dispatch_membership room evt = membership_of_key room evt evt.state_key
