-- ===== src/Api/Events/Views.antt =====
-- What a client reads of an event (internal/api/receive.go) against what filters are evaluated on.
use matfix.Shared.{◌≡◌, refl, Bool, true, false, Option, none, some, pos}
use matfix.Bus.Events.{
  EventEnvelope, Payload, InboundAttachment, type_name, message, reaction, edit, redaction,
  membership, receipt, acknowledged, scheduled, exhausted, registered, resolved, undecrypted,
}
use matfix.Correlation.Filter.Meaning.{sender, body, reaction_key, timestamp, attached, has_value}
use matfix.Api.Events.{
  EventPayload, AttachmentPayload, attachment_payload, fill, envelope_to_payload,
}

-- A view that the event has is shown in the field.
abbrev pub Shows : {A : Type 0} → Option A → A → Type 0
Shows none shown = Unit
Shows (some a) shown = shown ≡ a

abbrev pub is_attached : Option AttachmentPayload → Bool
is_attached none = false
is_attached (some a) = true

pub record ShowsViews (env : EventEnvelope) (p : EventPayload) : Type 0 where
  pub same_account : p.account_id ≡ env.account_id
  pub same_room : p.room_id ≡ env.room_id
  pub same_type : p.type ≡ type_name env.type
  pub shows_sender : Shows (sender env.payload) p.sender_id
  pub shows_body : Shows (body env.payload) p.body
  pub shows_key : Shows (reaction_key env.payload) p.body
  pub shows_time : Shows (timestamp env.payload) p.timestamp
  pub shows_attachment : Shows (attached env.payload) (is_attached p.attachment)

attached_lem : (a : Option InboundAttachment) → is_attached (attachment_payload a) ≡ has_value a
unfolding attachment_payload
attached_lem none = refl
attached_lem (some a) = refl

-- The fields that are set before the payload is looked at.
abbrev plain : EventEnvelope → EventPayload
plain env = record {
  event_id = "";
  account_id = env.account_id;
  room_id = env.room_id;
  sender_id = "";
  type = type_name env.type;
  body = "";
  timestamp = pos 0;
  attachment = none;
}

record FillShows (e : Payload) (blank p : EventPayload) : Type 0 where
  same_account : p.account_id ≡ blank.account_id
  same_room : p.room_id ≡ blank.room_id
  same_type : p.type ≡ blank.type
  shows_sender : Shows (sender e) p.sender_id
  shows_body : Shows (body e) p.body
  shows_key : Shows (reaction_key e) p.body
  shows_time : Shows (timestamp e) p.timestamp
  shows_attachment : Shows (attached e) (is_attached p.attachment)

fill_lem : (e : Payload) (blank : EventPayload) → FillShows e blank (fill e blank)
unfolding fill
fill_lem (message e) blank = record {
  same_account = refl;
  same_room = refl;
  same_type = refl;
  shows_sender = refl;
  shows_body = refl;
  shows_key = tt;
  shows_time = refl;
  shows_attachment = attached_lem e.attachment;
}
fill_lem (reaction e) blank = record {
  same_account = refl;
  same_room = refl;
  same_type = refl;
  shows_sender = refl;
  shows_body = tt;
  shows_key = refl;
  shows_time = refl;
  shows_attachment = tt;
}
fill_lem (edit e) blank = record {
  same_account = refl;
  same_room = refl;
  same_type = refl;
  shows_sender = refl;
  shows_body = refl;
  shows_key = tt;
  shows_time = refl;
  shows_attachment = tt;
}
fill_lem (redaction e) blank = record {
  same_account = refl;
  same_room = refl;
  same_type = refl;
  shows_sender = refl;
  shows_body = tt;
  shows_key = tt;
  shows_time = refl;
  shows_attachment = tt;
}
fill_lem (membership e) blank = record {
  same_account = refl;
  same_room = refl;
  same_type = refl;
  shows_sender = refl;
  shows_body = tt;
  shows_key = tt;
  shows_time = refl;
  shows_attachment = tt;
}
fill_lem (receipt e) blank = record {
  same_account = refl;
  same_room = refl;
  same_type = refl;
  shows_sender = refl;
  shows_body = tt;
  shows_key = tt;
  shows_time = refl;
  shows_attachment = tt;
}
fill_lem (acknowledged e) blank = record {
  same_account = refl;
  same_room = refl;
  same_type = refl;
  shows_sender = tt;
  shows_body = tt;
  shows_key = tt;
  shows_time = tt;
  shows_attachment = tt;
}
fill_lem (scheduled e) blank = record {
  same_account = refl;
  same_room = refl;
  same_type = refl;
  shows_sender = tt;
  shows_body = tt;
  shows_key = tt;
  shows_time = tt;
  shows_attachment = tt;
}
fill_lem (exhausted e) blank = record {
  same_account = refl;
  same_room = refl;
  same_type = refl;
  shows_sender = tt;
  shows_body = tt;
  shows_key = tt;
  shows_time = tt;
  shows_attachment = tt;
}
fill_lem (registered e) blank = record {
  same_account = refl;
  same_room = refl;
  same_type = refl;
  shows_sender = tt;
  shows_body = tt;
  shows_key = tt;
  shows_time = tt;
  shows_attachment = tt;
}
fill_lem (resolved e) blank = record {
  same_account = refl;
  same_room = refl;
  same_type = refl;
  shows_sender = tt;
  shows_body = tt;
  shows_key = tt;
  shows_time = tt;
  shows_attachment = tt;
}
fill_lem (undecrypted e) blank = record {
  same_account = refl;
  same_room = refl;
  same_type = refl;
  shows_sender = tt;
  shows_body = tt;
  shows_key = tt;
  shows_time = tt;
  shows_attachment = tt;
}

-- Account, room, type and every view of an event that a filter can ask for by sender, body, reaction
-- key, time or attachment is what the client is shown.
envelope_to_payload-ShowsViews : (env : EventEnvelope) → ShowsViews env (envelope_to_payload env)
unfolding envelope_to_payload
envelope_to_payload-ShowsViews env =
    let f = fill_lem env.payload (plain env) in
    record {
      same_account = f.same_account;
      same_room = f.same_room;
      same_type = f.same_type;
      shows_sender = f.shows_sender;
      shows_body = f.shows_body;
      shows_key = f.shows_key;
      shows_time = f.shows_time;
      shows_attachment = f.shows_attachment;
    }
