-- ===== src/Sync/Normalize/Outcome/Plain.antt =====
-- The handlers of internal/sync/normalize.go, case by case.
use matfix.Shared.{
  ◌≡◌, ◌≢◌, refl, inl, inr, String, Option, none, some, arith, ◌==◌, ℤ, Bool-cases, eq_iff, ◌⊎◌,
}
use matfix.Bus.Events.{EventType, Payload}
use matfix.Sync.Event.{
  Kind, encrypted, message, reaction, redaction, member, receipt, other, Relation, NewContent,
  RedactionContent, Mautrix, Event,
}
use matfix.Sync.Dedup.{is_seen}
use matfix.Sync.Handlers.{
  SyncState, Manager, marked, publish, unless_known, publish_edit, publish_message, by_relation,
  dispatch_message, dispatch_reaction, publish_reaction, dispatch_redaction, publish_redaction,
  dispatch_membership, membership_of_key, publish_membership,
}
use matfix.Sync.Normalize.{dispatch_plain, unless_own}
use matfix.Sync.Normalize.Outcome.{
  Tells, IsOwn, IsLookedUp, IsBareEdit, looked_up, remembered, Outcome, ignored, own, known,
  bare_edit, told,
}

module _ {x : Mautrix} (m : Manager x) (now : ℤ) (room : String) where
  -- A handler's part behind the look at the cache.
  abbrev Handles : Event x → SyncState → SyncState → Type 0
  Handles evt s s' =
      ((type : EventType) × (p : Payload) × Tells m now room evt type p
        × (s' ≡ remembered m now room evt (publish m now type room p s)))
      ⊎ (IsBareEdit m now room evt × (s' ≡ s))

  unless_known-Outcome :
      (evt : Event x) (body : SyncState → SyncState) (s : SyncState)
      → IsLookedUp m now room evt evt.kind
      → ((s1 : SyncState) → Handles evt s1 (body s1))
      → Outcome m now room s (unless_known m now evt.id body s) evt
  unfolding unless_known
  unless_known-Outcome evt body s looks h =
      elim (Bool-cases (is_seen m.account_id evt.id s.cache).0) [
        | inl fresh ↦ rw fresh (elim (h (looked_up m now room evt s)) [
          | inl (type, p, tells, e) ↦ told type p looks fresh tells e
          | inr (bare, e) ↦ bare_edit looks fresh bare e
        ])
        | inr seen ↦ rw seen (known looks seen refl)
      ]

  unless_own-Outcome :
      (evt : Event x) (body : SyncState → SyncState) (s : SyncState)
      → (evt.sender ≡ m.user_id → IsOwn m now room evt evt.kind)
      → (evt.sender ≢ m.user_id → Outcome m now room s (body s) evt)
      → Outcome m now room s (unless_own m now evt body s) evt
  unfolding unless_own marked
  unless_own-Outcome evt body s mine h = elim (Bool-cases (evt.sender == m.user_id)) [
    | inl own_event ↦ rw own_event (own (mine ((eq_iff evt.sender m.user_id).0 own_event)) refl)
    | inr foreign ↦ rw foreign (h (ground (arith, eq_iff evt.sender m.user_id)))
  ]

  publish_message-Handles :
      (evt : Event x) (s : SyncState)
      → evt.kind ≡ message
      → evt.sender ≢ m.user_id
      → Handles evt s (publish_message m now room evt (x.as_message evt.content) s)
  unfolding publish_message marked
  publish_message-Handles evt s k foreign = inl (_, _, (k, refl, (refl, refl, foreign), refl), refl)

  publish_edit-Handles :
      (evt : Event x) (rel : Relation) (new : Option NewContent) (s : SyncState)
      → evt.kind ≡ message
      → evt.sender ≢ m.user_id
      → (new ≡ none → IsBareEdit m now room evt)
      → Handles evt s (publish_edit m now room evt rel new s)
  unfolding publish_edit marked
  publish_edit-Handles evt rel none s k foreign bare = inr (bare refl, refl)
  publish_edit-Handles evt rel (some c) s k foreign bare =
      inl (_, _, (k, refl, (refl, refl, foreign)), refl)

  by_relation-Handles :
      (evt : Event x) (related : Option Relation) (s : SyncState)
      → evt.kind ≡ message
      → evt.sender ≢ m.user_id
      → (x.as_message evt.content).relates_to ≡ related
      → Handles evt s (by_relation m now room evt (x.as_message evt.content) related s)
  unfolding by_relation
  by_relation-Handles evt none s k foreign q = publish_message-Handles evt s k foreign
  by_relation-Handles evt (some rel) s k foreign q = elim (Bool-cases rel.replaces) [
    | inl edits ↦
        rw edits (publish_edit-Handles evt rel _ s k foreign (λ bare. (rel, k, q, edits, bare)))
    | inr no_edit ↦ rw no_edit (publish_message-Handles evt s k foreign)
  ]

  publish_reaction-Handles :
      (evt : Event x) (s : SyncState)
      → evt.kind ≡ reaction
      → evt.sender ≢ m.user_id
      → Handles evt s (publish_reaction m now room evt (x.as_reaction evt.content) s)
  unfolding publish_reaction marked
  publish_reaction-Handles evt s k foreign =
      inl (_, _, (k, refl, (refl, refl, foreign), refl, refl), refl)

  publish_redaction-Handles :
      (evt : Event x) (c : RedactionContent) (s : SyncState)
      → evt.kind ≡ redaction
      → evt.sender ≢ m.user_id
      → Handles evt s (publish_redaction m now room evt c s)
  unfolding publish_redaction marked
  publish_redaction-Handles evt c s k foreign = inl (_, _, (k, refl, (refl, refl, foreign)), refl)

  publish_membership-Handles :
      (evt : Event x) (user : String) (s : SyncState)
      → evt.kind ≡ member
      → evt.state_key ≡ some user
      → Handles evt s (publish_membership m now room evt user s)
  unfolding publish_membership marked
  publish_membership-Handles evt user s k named = inl (_, _, (k, refl, refl, named, refl), refl)

  membership_of_key-Outcome :
      (evt : Event x) (key : Option String) (s : SyncState)
      → evt.kind ≡ member
      → evt.state_key ≡ key
      → Outcome m now room s (membership_of_key m now room evt key s) evt
  unfolding membership_of_key
  membership_of_key-Outcome evt none s q none_there = ignored (rw q none_there) refl
  membership_of_key-Outcome evt (some user) s q named =
      unless_known-Outcome evt (publish_membership m now room evt user) s (rw (q, named) (λ h. cc))
        (λ s1. publish_membership-Handles evt user s1 q named)

  pub dispatch_plain-Outcome :
      (evt : Event x) (k : Kind) (s : SyncState)
      → evt.kind ≡ k
      → k ≢ encrypted
      → Outcome m now room s (dispatch_plain m now room evt k s) evt
  unfolding dispatch_plain dispatch_message dispatch_reaction dispatch_redaction dispatch_membership
      membership_of_key
  dispatch_plain-Outcome evt encrypted s q h = absurd (h refl)
  dispatch_plain-Outcome evt message s q h =
      unless_own-Outcome evt (dispatch_message m now room evt) s (λ z. rw q z)
        (λ foreign.
          unless_known-Outcome evt
            (by_relation m now room evt (x.as_message evt.content)
              (x.as_message evt.content).relates_to)
            s (rw q foreign)
            (λ s1. by_relation-Handles evt (x.as_message evt.content).relates_to s1 q foreign refl))
  dispatch_plain-Outcome evt reaction s q h =
      unless_own-Outcome evt (dispatch_reaction m now room evt) s (λ z. rw q z)
        (λ foreign.
          unless_known-Outcome evt (publish_reaction m now room evt (x.as_reaction evt.content)) s
            (rw q foreign) (λ s1. publish_reaction-Handles evt s1 q foreign))
  dispatch_plain-Outcome evt redaction s q h =
      unless_own-Outcome evt (dispatch_redaction m now room evt) s (λ z. rw q z)
        (λ foreign.
          unless_known-Outcome evt (publish_redaction m now room evt (x.as_redaction evt.content)) s
            (rw q foreign)
            (λ s1. publish_redaction-Handles evt (x.as_redaction evt.content) s1 q foreign))
  dispatch_plain-Outcome evt member s q h = membership_of_key-Outcome evt evt.state_key s q refl
  dispatch_plain-Outcome evt receipt s q h = ignored (rw q tt) refl
  dispatch_plain-Outcome evt other s q h = ignored (rw q tt) refl
