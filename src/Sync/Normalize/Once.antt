-- ===== src/Sync/Normalize/Once.antt =====
-- A second delivery of an event to internal/sync/normalize.go.
use matfix.Shared.{
  ◌≡◌, ◌≢◌, refl, ◌∙◌, ◌⊎◌, inl, inr, String, false, Option, none, some, List, arith, ◌==◌, ℤ,
  Bool-cases, eq_iff, eq_refl,
}
use matfix.Persistence.Statement.{working}
use matfix.Persistence.EventCache.{EventCacheEntry}
use matfix.Sync.Event.{
  Kind, encrypted, message, reaction, redaction, member, receipt, other, Mautrix, Event, Relation,
  NewContent, MessageContent,
}
use matfix.Bus.Events.{EventEnvelope}
use matfix.Sync.Dedup.{is_seen, mark_seen}
use matfix.Sync.Dedup.Memory.{is_seen-mark_seen}
use matfix.Sync.Handlers.{
  SyncState, unless_known, publish_edit, publish_reaction, publish_redaction, publish_membership,
  dispatch_message, dispatch_reaction, dispatch_redaction, by_relation, membership_of_key, Manager,
}
use matfix.Sync.Normalize.{dispatch_plain, unless_own}

-- A redelivery: the driver works, and the cache and the bus are as the first delivery left them.
abbrev pub redelivered : SyncState → SyncState
redelivered s = record { cache = working s.cache.rows; published = s.published }

module _ {x : Mautrix} (m : Manager x) (now later : ℤ) where
  unless_known-known :
      (event : String) (body : SyncState → SyncState) (s : SyncState)
      → (is_seen m.account_id event s.cache).0 ≡ false
      → (unless_known m later event body s).published ≡ s.published
  unfolding unless_known
  unless_known-known event body s h = rw h refl

  seen_working :
      (event : String) (rows : List EventCacheEntry)
      → (is_seen m.account_id event (working rows)).1 ≡ working rows
  unfolding is_seen
  seen_working event rows = ground arith

  marked_known :
      (event : String) (rows : List EventCacheEntry)
      → event ≢ ""
      → (is_seen m.account_id event
          (working (mark_seen m.account_id event now (working rows)).rows)).0
        ≡ false
  marked_known event rows id =
      is_seen-mark_seen m.account_id m.account_id event event now rows
      ∙ ground (arith, eq_refl event, eq_refl m.account_id, eq_iff event "")

  known_after :
      (event : String) (body : SyncState → SyncState) (rows : List EventCacheEntry)
      (sent : List EventEnvelope)
      → event ≢ ""
      → ((s : SyncState) → (body s).cache ≡ mark_seen m.account_id event now s.cache)
      → let s1 =
          unless_known m now event body (record { cache = working rows; published = sent }) in
        (is_seen m.account_id event (working s1.cache.rows)).0 ≡ false
  unfolding unless_known
  known_after event body rows sent id marks =
      elim (Bool-cases (is_seen m.account_id event (working rows)).0) [
        | inl fresh ↦ rw fresh (
            rw
              (marks (record {
                cache = (is_seen m.account_id event (working rows)).1;
                published = sent;
              }))
              (rw (seen_working event rows) (marked_known event rows id)))
        | inr known ↦ rw known (rw (seen_working event rows) known)
      ]

  -- A body that marks the event, or whose repetition publishes nothing.
  abbrev IsOnce : String → (SyncState → SyncState) → (SyncState → SyncState) → Type 0
  IsOnce event first second =
      ((s : SyncState) → (first s).cache ≡ mark_seen m.account_id event now s.cache)
      ⊎ ((s : SyncState) → (second s).published ≡ s.published)

  unless_known-silent :
      (event : String) (body : SyncState → SyncState) (s : SyncState)
      → ((s' : SyncState) → (body s').published ≡ s'.published)
      → (unless_known m later event body s).published ≡ s.published
  unfolding unless_known
  unless_known-silent event body s h = elim (Bool-cases (is_seen m.account_id event s.cache).0) [
    | inl fresh ↦ rw fresh (h (record s { cache = (is_seen m.account_id event s.cache).1 }))
    | inr known ↦ rw known refl
  ]

  module _ (rows : List EventCacheEntry) (sent : List EventEnvelope) where
    abbrev before : SyncState
    before = record { cache = working rows; published = sent }

    unless_known-twice :
        (event : String) (first second : SyncState → SyncState)
        → event ≢ ""
        → IsOnce event first second
        → let s1 = unless_known m now event first before in
          (unless_known m later event second (redelivered s1)).published ≡ s1.published
    unless_known-twice event first second id (inl marks) =
        unless_known-known event second (redelivered (unless_known m now event first before))
          (known_after event first rows sent id marks)
    unless_known-twice event first second id (inr silent) =
        unless_known-silent event second (redelivered (unless_known m now event first before))
          silent

    module _ (room : String) (evt : Event x) (id : evt.id ≢ "") where
      edit-IsOnce :
          (rel : Relation) (c : Option NewContent)
          → IsOnce evt.id (publish_edit m now room evt rel c) (publish_edit m later room evt rel c)
      unfolding publish_edit
      edit-IsOnce rel none = inr (λ s. refl)
      edit-IsOnce rel (some c) = inl (λ s. refl)

      relation-IsOnce :
          (c : MessageContent) (r : Option Relation)
          → IsOnce evt.id (by_relation m now room evt c r) (by_relation m later room evt c r)
      unfolding by_relation
      relation-IsOnce c none = inl (λ s. refl)
      relation-IsOnce c (some rel) = elim (Bool-cases rel.replaces) [
        | inl h ↦ rw h (edit-IsOnce rel c.new_content)
        | inr h ↦ rw h (inl (λ s. refl))
      ]

      abbrev IsTwice : (SyncState → SyncState) → (SyncState → SyncState) → Type 0
      IsTwice first second =
          (second (redelivered (first before))).published ≡ (first before).published

      own-IsTwice :
          (first second : SyncState → SyncState)
          → IsTwice first second
          → IsTwice (unless_own m now evt first) (unless_own m later evt second)
      unfolding unless_own
      own-IsTwice first second h = elim (Bool-cases (evt.sender == m.user_id)) [
        | inl own ↦ rw own refl
        | inr foreign ↦ rw foreign h
      ]

      member-IsTwice :
          (key : Option String)
          → IsTwice (membership_of_key m now room evt key) (membership_of_key m later room evt key)
      unfolding membership_of_key
      member-IsTwice none = refl
      member-IsTwice (some user) =
          unless_known-twice evt.id (publish_membership m now room evt user)
            (publish_membership m later room evt user) id (inl (λ s. refl))

      -- While the driver works, an event with an ID that is not encrypted publishes nothing when it
      -- is dispatched a second time, at whatever time and whatever was cached before the first.
      pub dispatch_plain-twice :
          (k : Kind)
          → let s1 = dispatch_plain m now room evt k before in
            (dispatch_plain m later room evt k (redelivered s1)).published ≡ s1.published
      unfolding dispatch_plain
      dispatch_plain-twice encrypted = refl
      dispatch_plain-twice message =
          let c = x.as_message evt.content in
          own-IsTwice (dispatch_message m now room evt) (dispatch_message m later room evt) (
            unless_known-twice evt.id (by_relation m now room evt c c.relates_to)
              (by_relation m later room evt c c.relates_to) id (relation-IsOnce c c.relates_to))
      dispatch_plain-twice reaction =
          own-IsTwice (dispatch_reaction m now room evt) (dispatch_reaction m later room evt) (
            unless_known-twice evt.id (publish_reaction m now room evt (x.as_reaction evt.content))
              (publish_reaction m later room evt (x.as_reaction evt.content)) id (inl (λ s. refl)))
      dispatch_plain-twice redaction =
          own-IsTwice (dispatch_redaction m now room evt) (dispatch_redaction m later room evt) (
            unless_known-twice evt.id
              (publish_redaction m now room evt (x.as_redaction evt.content))
              (publish_redaction m later room evt (x.as_redaction evt.content)) id
              (inl (λ s. refl)))
      dispatch_plain-twice member = member-IsTwice evt.state_key
      dispatch_plain-twice receipt = refl
      dispatch_plain-twice other = refl
