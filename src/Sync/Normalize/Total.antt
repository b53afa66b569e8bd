-- ===== src/Sync/Normalize/Total.antt =====
-- How deep the recursion of dispatchEvent in internal/sync/normalize.go on decrypted events goes.
use matfix.Shared.{
  ◌≡◌, refl, ℕ, zero, suc, ◌<◌, inl, inr, String, Option, none, some, arith, ◌==◌, ℤ, Bool-cases,
}
use matfix.Sync.Event.{
  Kind, encrypted, message, reaction, redaction, member, receipt, other, Mautrix, Event,
}
use matfix.Sync.Handlers.{SyncState, Manager, Decrypted, plain, failed, parsed, marked}
use matfix.Sync.Normalize.{dispatch_event, dispatch_kind, dispatch_encrypted, redispatch}

-- Decryption takes one layer off.
abbrev pub Peels : {x : Mautrix} → (Event x → ℕ) → Option (Event x → Decrypted x) → Type 0
Peels layers none = Unit
Peels {x} layers (some decrypt) =
    (e p : Event x) → e.kind ≡ encrypted → decrypt (parsed e) ≡ plain p → layers p < layers e

module _ {x : Mautrix} (m : Manager x) (now : ℤ) (room : String) where
  module _ (layers : Event x → ℕ) where
    redispatched :
        (again : Event x → SyncState → Option SyncState) (evt : Event x) (r : Decrypted x)
        (s : SyncState)
        → ((p : Event x) → r ≡ plain p → (s' : SyncState) × (again p s ≡ some s'))
        → (s' : SyncState) × (redispatch m now again room evt r s ≡ some s')
    unfolding redispatch
    redispatched again evt (plain p) s h = h p refl
    redispatched again evt (failed text) s h = (_, refl)

    encrypted_total :
        (again : Event x → SyncState → Option SyncState) (evt : Event x)
        (d : Option (Event x → Decrypted x)) (s : SyncState)
        → Peels layers d
        → evt.kind ≡ encrypted
        → ((p : Event x) → layers p < layers evt → (s' : SyncState) × (again p s ≡ some s'))
        → (s' : SyncState) × (dispatch_encrypted m now again room (parsed evt) d s ≡ some s')
    unfolding dispatch_encrypted
    encrypted_total again evt none s peels k h = (s, refl)
    encrypted_total again evt (some decrypt) s peels k h =
        elim (Bool-cases (evt.sender == m.user_id)) [
          | inl own ↦ (marked m now evt.id s, rw own refl)
          | inr foreign ↦ rw foreign (
              redispatched again (parsed evt) (decrypt (parsed evt)) s
                (λ p q. h p (peels evt p k q)))
        ]

    kind_total :
        (again : Event x → SyncState → Option SyncState) (evt : Event x) (k : Kind) (s : SyncState)
        → Peels layers m.decrypter
        → evt.kind ≡ k
        → ((p : Event x) → layers p < layers evt → (s' : SyncState) × (again p s ≡ some s'))
        → (s' : SyncState) × (dispatch_kind m now again room (parsed evt) k s ≡ some s')
    unfolding dispatch_kind
    kind_total again evt encrypted s peels q h = encrypted_total again evt m.decrypter s peels q h
    kind_total again evt message s peels q h = (_, refl)
    kind_total again evt reaction s peels q h = (_, refl)
    kind_total again evt redaction s peels q h = (_, refl)
    kind_total again evt member s peels q h = (_, refl)
    kind_total again evt receipt s peels q h = (_, refl)
    kind_total again evt other s peels q h = (_, refl)

    -- Where each decryption takes a layer off an event, fuel above the number of layers is enough.
    pub dispatch_event-total :
        (n : ℕ) (evt : Event x) (s : SyncState)
        → Peels layers m.decrypter
        → layers evt < n
        → (s' : SyncState) × (dispatch_event m now n room evt s ≡ some s')
    unfolding dispatch_event
    dispatch_event-total zero evt s peels lt = absurd (omega arith)
    dispatch_event-total (suc n) evt s peels lt =
        kind_total (dispatch_event m now n room) evt evt.kind s peels refl
          (λ p less. dispatch_event-total n p s peels (omega arith))
