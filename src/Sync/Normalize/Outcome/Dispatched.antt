-- ===== src/Sync/Normalize/Outcome/Dispatched.antt =====
-- dispatchEvent of internal/sync/normalize.go, with the recursion on decrypted events.
use matfix.Shared.{
  ◌≡◌, ◌≢◌, refl, sym, ◌∙◌, ℕ, zero, suc, ◌<◌, inl, inr, String, Option, none, some, arith, ◌==◌, ℤ,
  Bool-cases, eq_iff,
}
use matfix.Sync.Event.{
  Kind, encrypted, message, reaction, redaction, member, receipt, other, Mautrix, Event,
}
use matfix.Sync.Handlers.{SyncState, Manager, Decrypted, plain, failed, parsed, marked}
use matfix.Sync.Normalize.{
  dispatch_event, dispatch_kind, dispatch_encrypted, redispatch, dispatch_plain,
}
use matfix.Sync.Normalize.Total.{Peels, dispatch_event-total}
use matfix.Sync.Normalize.Outcome.{Outcome, ignored, own, unopened, opened}
use matfix.Sync.Normalize.Outcome.Plain.{dispatch_plain-Outcome}

some_eq : {a b : SyncState} → some a ≡ some b → a ≡ b
some_eq h = cc

module _ {x : Mautrix} (m : Manager x) (now : ℤ) (room : String) where
  module _ (again : Event x → SyncState → Option SyncState)
      (agrees : (p : Event x) (s s' : SyncState)
        → again p s ≡ some s'
        → Outcome m now room s s' (parsed p))
      (evt : Event x) (s s' : SyncState) where
    redispatch-Outcome :
        (decrypt : Event x → Decrypted x) (d : Decrypted x)
        → evt.kind ≡ encrypted
        → evt.sender ≢ m.user_id
        → m.decrypter ≡ some decrypt
        → decrypt evt ≡ d
        → redispatch m now again room evt d s ≡ some s'
        → Outcome m now room s s' evt
    unfolding redispatch
    redispatch-Outcome decrypt (plain p) k foreign there q h =
        opened decrypt p k foreign there q (agrees p s s' h)
    redispatch-Outcome decrypt (failed text) k foreign there q h =
        unopened decrypt text k foreign there q (sym (some_eq h))

    dispatch_encrypted-Outcome :
        (d : Option (Event x → Decrypted x))
        → evt.kind ≡ encrypted
        → m.decrypter ≡ d
        → dispatch_encrypted m now again room evt d s ≡ some s'
        → Outcome m now room s s' evt
    unfolding dispatch_encrypted marked
    dispatch_encrypted-Outcome none k there h = ignored (rw k there) (sym (some_eq h))
    dispatch_encrypted-Outcome (some decrypt) k there h =
        elim (Bool-cases (evt.sender == m.user_id)) [
          | inl own_event ↦
              own
                (rw k (
                  (eq_iff evt.sender m.user_id).0 own_event,
                  λ none_there. absurd (let z = sym there ∙ none_there in cc),
                ))
                (sym (some_eq (rw own_event at h)))
          | inr foreign ↦
              redispatch-Outcome decrypt (decrypt evt) k
                (ground (arith, eq_iff evt.sender m.user_id)) there refl (rw foreign at h)
        ]

    plain_again :
        (k : Kind)
        → evt.kind ≡ k
        → k ≢ encrypted
        → some (dispatch_plain m now room evt k s) ≡ some s'
        → Outcome m now room s s' evt
    plain_again k q open_text h =
        rw (some_eq h) at (dispatch_plain-Outcome m now room evt k s q open_text)

    dispatch_kind-Outcome :
        (k : Kind)
        → evt.kind ≡ k
        → dispatch_kind m now again room evt k s ≡ some s'
        → Outcome m now room s s' evt
    unfolding dispatch_kind
    dispatch_kind-Outcome encrypted q h = dispatch_encrypted-Outcome m.decrypter q refl h
    dispatch_kind-Outcome message q h = plain_again message q (λ z. cc) h
    dispatch_kind-Outcome reaction q h = plain_again reaction q (λ z. cc) h
    dispatch_kind-Outcome redaction q h = plain_again redaction q (λ z. cc) h
    dispatch_kind-Outcome member q h = plain_again member q (λ z. cc) h
    dispatch_kind-Outcome receipt q h = plain_again receipt q (λ z. cc) h
    dispatch_kind-Outcome other q h = plain_again other q (λ z. cc) h

  ends_as :
      (n : ℕ) (evt : Event x) (s s' : SyncState)
      → dispatch_event m now n room evt s ≡ some s'
      → Outcome m now room s s' (parsed evt)
  unfolding dispatch_event
  ends_as zero evt s s' h = absurd (cc)
  ends_as (suc n) evt s s' h =
      dispatch_kind-Outcome (dispatch_event m now n room) (ends_as n) (parsed evt) s s' evt.kind
        refl h

  -- Where each decryption takes a layer off an event, dispatching an event with fewer layers than
  -- there is fuel ends, and does one of these. Without a decrypter an encrypted event, a membership
  -- event with no state key, a receipt and an unknown type change nothing. Any other event that the
  -- account sent itself, unless it is a membership change, is marked as seen and not published. A
  -- message, edit, reaction or redaction of another user and any membership change is looked up in
  -- the cache. If the cache knows it, or it is an edit without its new content, it is not published
  -- and not marked. Else it is published exactly once, under the account and the room, with the
  -- event's ID and sender (or user), a message with its body, a reaction with its target and key,
  -- and is marked as seen. An encrypted event of another user that cannot be decrypted is published
  -- as a failure; one that can does what its plaintext does.
  pub dispatch_event-Outcome :
      (layers : Event x → ℕ) (n : ℕ) (evt : Event x) (s : SyncState)
      → Peels layers m.decrypter
      → layers evt < n
      → (s' : SyncState) × (dispatch_event m now n room evt s ≡ some s')
        × Outcome m now room s s' (parsed evt)
  dispatch_event-Outcome layers n evt s peels lt =
      let (s', h) = dispatch_event-total m now room layers n evt s peels lt in
      (s', h, ends_as n evt s s' h)
