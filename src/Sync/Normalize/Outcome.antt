-- ===== src/Sync/Normalize/Outcome.antt =====
-- What dispatchEvent of internal/sync/normalize.go makes of an event, case by case, without fuel.
pub mod Plain
pub mod Dispatched
use matfix.Shared.{
  ◌≡◌, ◌≢◌, refl, sym, ℕ, zero, suc, ◌<◌, inl, inr, String, Bool, true, false, Option, none, some,
  [], ◌∷◌, ◌++◌, arith, ◌==◌, ℤ, Bool-cases, eq_iff, ◌⊎◌,
}
use matfix.Bus.Events.{
  EventType, Payload, EventEnvelope, inbound_message, inbound_reaction, inbound_edit,
  inbound_redaction, inbound_membership, encryption_failure, undecrypted,
}
use matfix.Bus.Events as Bus
use matfix.Sync.Event.{
  Kind, encrypted, message, reaction, redaction, member, receipt, other, Relation, NewContent,
  MessageContent, ReactionContent, RedactionContent, Mautrix, Event,
}
use matfix.Sync.Dedup.{is_seen, mark_seen}
use matfix.Sync.Handlers.{
  SyncState, Manager, Decrypted, plain, failed, parsed, marked, publish, unless_known, publish_edit,
  publish_message, by_relation, dispatch_message, dispatch_reaction, publish_reaction,
  dispatch_redaction, publish_redaction, dispatch_membership, membership_of_key, publish_membership,
}
use matfix.Sync.Normalize.{
  dispatch_event, dispatch_kind, dispatch_encrypted, redispatch, dispatch_plain, unless_own,
}
use matfix.Sync.Normalize.Total.{Peels, dispatch_event-total}

module _ {x : Mautrix} (m : Manager x) (now : ℤ) (room : String) where
  abbrev IsForeign : Event x → String → String → Type 0
  IsForeign evt id sender = (id ≡ evt.id) × (sender ≡ evt.sender) × (evt.sender ≢ m.user_id)

  -- The payload tells of this event, which fits its type and which the account did not send itself; a
  -- membership event may be its own.
  abbrev pub Tells : Event x → EventType → Payload → Type 0
  Tells evt type (Bus.message p) =
      (evt.kind ≡ message)
      × (type ≡ inbound_message)
      × IsForeign evt p.event_id p.sender_id
      × (p.body ≡ (x.as_message evt.content).body)
  Tells evt type (Bus.edit p) =
      (evt.kind ≡ message) × (type ≡ inbound_edit) × IsForeign evt p.event_id p.sender_id
  Tells evt type (Bus.reaction p) =
      (evt.kind ≡ reaction)
      × (type ≡ inbound_reaction)
      × IsForeign evt p.event_id p.sender_id
      × (p.relates_to_event_id ≡ (x.as_reaction evt.content).event_id)
      × (p.key ≡ (x.as_reaction evt.content).key)
  Tells evt type (Bus.redaction p) =
      (evt.kind ≡ redaction) × (type ≡ inbound_redaction) × IsForeign evt p.event_id p.sender_id
  Tells evt type (Bus.membership p) =
      (evt.kind ≡ member)
      × (type ≡ inbound_membership)
      × (p.event_id ≡ evt.id)
      × (evt.state_key ≡ some p.user_id)
      × (p.membership ≡ x.membership_of evt.content)
  Tells evt type _ = ⊥

  -- An event for which there is nothing to do.
  abbrev pub IsIgnored : Event x → Kind → Type 0
  IsIgnored evt encrypted = m.decrypter ≡ none
  IsIgnored evt member = evt.state_key ≡ none
  IsIgnored evt receipt = Unit
  IsIgnored evt other = Unit
  IsIgnored evt _ = ⊥

  -- An event that is only remembered, as the account sent it itself.
  abbrev pub IsOwn : Event x → Kind → Type 0
  IsOwn evt encrypted = (evt.sender ≡ m.user_id) × (m.decrypter ≢ none)
  IsOwn evt message = evt.sender ≡ m.user_id
  IsOwn evt reaction = evt.sender ≡ m.user_id
  IsOwn evt redaction = evt.sender ≡ m.user_id
  IsOwn evt _ = ⊥

  -- An event that is looked up in the cache.
  abbrev pub IsLookedUp : Event x → Kind → Type 0
  IsLookedUp evt message = evt.sender ≢ m.user_id
  IsLookedUp evt reaction = evt.sender ≢ m.user_id
  IsLookedUp evt redaction = evt.sender ≢ m.user_id
  IsLookedUp evt member = evt.state_key ≢ none
  IsLookedUp evt _ = ⊥

  -- An edit without the new content.
  abbrev pub IsBareEdit : Event x → Type 0
  IsBareEdit evt =
      let c = x.as_message evt.content in
      (rel : Relation) × (evt.kind ≡ message)
      × (c.relates_to ≡ some rel)
      × (rel.replaces ≡ true)
      × (c.new_content ≡ none)

  abbrev pub IsFresh : Event x → SyncState → Bool → Type 0
  IsFresh evt s b = (is_seen m.account_id evt.id s.cache).0 ≡ b

  abbrev pub looked_up : Event x → SyncState → SyncState
  looked_up evt s = record s { cache = (is_seen m.account_id evt.id s.cache).1 }

  abbrev pub remembered : Event x → SyncState → SyncState
  remembered evt s = record s { cache = mark_seen m.account_id evt.id now s.cache }

  -- From the state before an event to the state after it. The event's content is parsed.
  pub data Outcome (s s' : SyncState) : Event x → Type 0 where
    ignored : {evt : Event x} → IsIgnored evt evt.kind → s' ≡ s → Outcome s s' evt
    own : {evt : Event x} → IsOwn evt evt.kind → s' ≡ remembered evt s → Outcome s s' evt
    known :
        {evt : Event x}
        → IsLookedUp evt evt.kind
        → IsFresh evt s false
        → s' ≡ looked_up evt s
        → Outcome s s' evt
    bare_edit :
        {evt : Event x}
        → IsLookedUp evt evt.kind
        → IsFresh evt s true
        → IsBareEdit evt
        → s' ≡ looked_up evt s
        → Outcome s s' evt
    told :
        {evt : Event x} (type : EventType) (p : Payload)
        → IsLookedUp evt evt.kind
        → IsFresh evt s true
        → Tells evt type p
        → s' ≡ remembered evt (publish m now type room p (looked_up evt s))
        → Outcome s s' evt
    unopened :
        {evt : Event x} (decrypt : Event x → Decrypted x) (text : String)
        → evt.kind ≡ encrypted
        → evt.sender ≢ m.user_id
        → m.decrypter ≡ some decrypt
        → decrypt evt ≡ failed text
        → s'
          ≡ publish m now encryption_failure room
              (undecrypted (record { event_id = evt.id; sender_id = evt.sender; error_msg = text }))
              s
        → Outcome s s' evt
    opened :
        {evt : Event x} (decrypt : Event x → Decrypted x) (p : Event x)
        → evt.kind ≡ encrypted
        → evt.sender ≢ m.user_id
        → m.decrypter ≡ some decrypt
        → decrypt evt ≡ plain p
        → Outcome s s' (parsed p)
        → Outcome s s' evt
