-- ===== src/Sync/Normalize.antt =====
-- internal/sync/normalize.go: events of the sync response become envelopes on the bus.
pub mod Total
pub mod Once
pub mod Outcome
use matfix.Shared.{
  ℕ, zero, suc, String, Bool, true, false, ◌||◌, not, Option, none, some, List, [], ◌∷◌, ◌++◌, ◌==◌,
  if◌then◌else◌, ℤ, pos, Result, ok, err,
}
use matfix.Bus.Events.{
  EventType, Payload, EventEnvelope, InboundAttachment, InboundEncryptedFile, inbound_message,
  inbound_reaction, inbound_edit, inbound_redaction, inbound_membership, inbound_receipt,
  encryption_failure, undecrypted,
}
use matfix.Bus.Events as Bus
use matfix.Persistence.EventCache.{CacheDb}
use matfix.Sync.Event.{
  Kind, encrypted, message, reaction, redaction, member, receipt, other, Relation, NewContent,
  FileInfo, MessageContent, ReactionContent, RedactionContent, Mautrix, Event, Receipts,
}
use matfix.Sync.Dedup.{is_seen, mark_seen}
use matfix.Sync.Handlers.{
  Decrypted, Manager, SyncState, attachment, by_relation, dispatch_membership, dispatch_message,
  dispatch_reaction, dispatch_redaction, marked, membership_of_key, parsed, prev_membership,
  publish, publish_edit, publish_membership, publish_message, publish_reaction, publish_redaction,
  unless_known, plain, failed,
}

module _ {x : Mautrix} (m : Manager x) (now : ℤ) where
  -- The cases of a timeline event that is not encrypted; the sender's own messages are only marked.
  unfoldable pub unless_own : Event x → (SyncState → SyncState) → SyncState → SyncState
  unfolding marked
  unless_own evt body s = if evt.sender == m.user_id then marked m now evt.id s else body s

  unfoldable pub dispatch_plain : String → Event x → Kind → SyncState → SyncState
  unfolding unless_own dispatch_message dispatch_reaction dispatch_redaction dispatch_membership
  dispatch_plain room evt message = unless_own evt (dispatch_message m now room evt)
  dispatch_plain room evt reaction = unless_own evt (dispatch_reaction m now room evt)
  dispatch_plain room evt redaction = unless_own evt (dispatch_redaction m now room evt)
  dispatch_plain room evt member = dispatch_membership m now room evt
  dispatch_plain room evt _ = λ s. s

  -- `again` is the call of dispatchEvent for the plaintext.
  unfoldable pub redispatch :
      (Event x → SyncState → Option SyncState)
      → String
      → Event x
      → Decrypted x
      → SyncState
      → Option SyncState
  redispatch again room evt (plain e) s = again e s
  redispatch again room evt (failed text) s = some (
      publish m now encryption_failure room
        (undecrypted (record { event_id = evt.id; sender_id = evt.sender; error_msg = text })) s)

  unfoldable pub dispatch_encrypted :
      (Event x → SyncState → Option SyncState)
      → String
      → Event x
      → Option (Event x → Decrypted x)
      → SyncState
      → Option SyncState
  unfolding marked redispatch
  dispatch_encrypted again room evt none s = some s
  dispatch_encrypted again room evt (some decrypt) s =
      if evt.sender == m.user_id
      then some (marked m now evt.id s)
      else redispatch again room evt (decrypt evt) s

  unfoldable pub dispatch_kind :
      (Event x → SyncState → Option SyncState)
      → String
      → Event x
      → Kind
      → SyncState
      → Option SyncState
  unfolding dispatch_plain dispatch_encrypted
  dispatch_kind again room evt encrypted s = dispatch_encrypted again room evt m.decrypter s
  dispatch_kind again room evt kind s = some (dispatch_plain room evt kind s)

  -- The fuel bounds the layers of encryption; none says that it ran out.
  unfoldable pub dispatch_event : ℕ → String → Event x → SyncState → Option SyncState
  unfolding dispatch_kind
  dispatch_event zero room evt s = none
  dispatch_event (suc n) room evt s =
      dispatch_kind (dispatch_event n room) room (parsed evt) evt.kind s

  receipts_of : String → String → String → List (String × ℤ) → SyncState → SyncState
  receipts_of room event type [] s = s
  receipts_of room event type ((user, at) ∷ rest) s = receipts_of room event type rest (
      publish m now inbound_receipt room
        (Bus.receipt
          (record { user_id = user; event_id = event; receipt_type = type; timestamp = at }))
        s)

  receipts_by_type : String → String → List (String × List (String × ℤ)) → SyncState → SyncState
  unfolding receipts_of
  receipts_by_type room event [] s = s
  receipts_by_type room event ((type, users) ∷ rest) s =
      receipts_by_type room event rest (receipts_of room event type users s)

  publish_receipts : String → Receipts → SyncState → SyncState
  unfolding receipts_by_type
  publish_receipts room [] s = s
  publish_receipts room ((event, types) ∷ rest) s =
      publish_receipts room rest (receipts_by_type room event types s)

  receipts_in : String → Option Receipts → SyncState → SyncState
  unfolding publish_receipts
  receipts_in room none s = s
  receipts_in room (some content) s = publish_receipts room content s

  dispatch_parsed : String → Kind → Bool × x.Content → SyncState → SyncState
  unfolding receipts_in
  dispatch_parsed room receipt (true, content) s = receipts_in room (x.as_receipt content) s
  dispatch_parsed room _ _ s = s

  unfoldable pub dispatch_ephemeral : String → Event x → SyncState → SyncState
  unfolding dispatch_parsed
  dispatch_ephemeral room evt = dispatch_parsed room evt.kind (x.parse_raw evt.kind evt.content)
