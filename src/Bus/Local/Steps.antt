-- ===== src/Bus/Local/Steps.antt =====
-- Interleavings of the operations of internal/bus/local.go, and Unsubscribe among them.
use matfix.Shared.{
  String, ◌≡◌, refl, sym, ◌∙◌, true, false, not, ◌&&◌, some, List, [], ◌∷◌, ◌==◌, any_where,
  update_where, delete_where, arith, eq_iff, Bool-cases, inl, inr,
}
use matfix.Bus.Events.{EventEnvelope}
use matfix.Bus.Local.{
  Subscription, LocalBus, new_local_bus, has_sub, holds, publish, subscribe, unsubscribe,
  unsubscribe_found, run_subscriber, close, remove_entry, change_type,
}
use matfix.Bus.Local.Objects.{
  object-update, IsDistinct, holds-remove_entry, remove_entry-IsDistinct, update_where-All,
}
use matfix.Bus.Local.Invariant.{IsOpen, IsWellFormed, publish-Offered, run_subscriber-IsWellFormed}
use matfix.Bus.Local.Subscribe.{subscribe-IsWellFormed}

holds-delete :
    (id k : String) (ids : List String)
    → holds k (delete_where (λ j. j == id) ids) ≡ (holds k ids && not (k == id))
unfolding any_where delete_where
holds-delete id k [] = refl
holds-delete id k (j ∷ js) =
    ground (arith, holds-delete id k js, eq_iff j id, eq_iff j k, eq_iff k id)

-- Closing one channel leaves the others open.
other-IsOpen :
    (id t k : String) (os : List Subscription)
    → (k == id) ≡ false
    → IsOpen os t k
    → IsOpen (update_where (has_sub id) close os) t k
other-IsOpen id t k os apart o =
    let e : (id == k) ≡ false = ground (arith, eq_iff id k, eq_iff k id) in
    record {
      it = o.it;
      found = object-update close id k os (λ s. refl) ∙ (rw (e, o.found) refl);
      same_type = o.same_type;
      is_open = o.is_open;
    }

module _ (id : String) (b : LocalBus) (c : IsWellFormed b) where
  -- The broker after the subscription has been cut out.
  abbrev without : String → LocalBus
  without t = record {
    objects = update_where (has_sub id) close b.objects;
    subs = delete_where (λ j. j == id) b.subs;
    by_type = change_type t (remove_entry id (b.by_type t)) b.by_type;
  }

  module _ (t : String) (o : IsOpen b.objects t id) where
    without_listed :
        (u k : String)
        → holds k (change_type t (remove_entry id (b.by_type t)) b.by_type u) ≡ true
        → IsOpen (without t).objects u k
    without_listed u k h = elim (Bool-cases (u == t)) [
      | inl p ↦
          let e : u ≡ t = ground (arith, eq_iff u t) in
          let h' = sym (holds-remove_entry id k (b.by_type t) (c.distinct t)) ∙ (rw p at h) in
          other-IsOpen id u k b.objects (ground arith) (c.listed u k (rw e (ground arith)))
      | inr p ↦
          let old = c.listed u k (rw p at h) in
          other-IsOpen id u k b.objects (other_id u k p old) old
    ]
      where
        other_id : (u k : String) → (u == t) ≡ false → IsOpen b.objects u k → (k == id) ≡ false
        other_id u k p old = elim (Bool-cases (k == id)) [
          | inr q ↦ q
          | inl q ↦ absurd (
              let e : k ≡ id = ground (arith, eq_iff k id) in
              let f = rw e at old.found in
              let g = o.found in
              let same : old.it ≡ o.it = (let x = sym f ∙ g in cc) in
              let types : u ≡ t = sym old.same_type ∙ (rw same o.same_type) in
              ground (arith, eq_iff u t))
        ]

    without-IsWellFormed : IsWellFormed (without t)
    without-IsWellFormed = record {
      bounded = update_where-All (has_sub id) close b.objects (λ s h. h) c.bounded;
      listed = without_listed;
      distinct = λ u. distinct_in u;
      named = λ k h. named_in k (sym (holds-delete id k b.subs) ∙ h);
    }
      where
        distinct_in :
            (u : String) → IsDistinct (change_type t (remove_entry id (b.by_type t)) b.by_type u)
        distinct_in u = elim (Bool-cases (u == t)) [
          | inl p ↦ rw p (remove_entry-IsDistinct id (b.by_type t) (c.distinct t))
          | inr p ↦ rw p (c.distinct u)
        ]

        named_in :
            (k : String)
            → (holds k b.subs && not (k == id)) ≡ true
            → (u : String) × IsOpen (without t).objects u k
        named_in k h =
            let (u, old) = c.named k (ground arith) in
            (u, other-IsOpen id u k b.objects (ground arith) old)

  -- Unsubscribe never closes a channel twice, and keeps the broker consistent.
  unsubscribe-IsWellFormed : (b' : LocalBus) × (unsubscribe id b ≡ some b') × IsWellFormed b'
  unfolding unsubscribe unsubscribe_found
  unsubscribe-IsWellFormed = elim (Bool-cases (holds id b.subs)) [
    | inr h ↦ (b, rw h refl, c)
    | inl h ↦
        let (t, o) = c.named id h in
        (without t, rw (h, o.found, o.is_open, o.same_type) refl, without-IsWellFormed t o)
  ]

-- Each operation runs under the mutex or takes one event from a channel. A new ID is one that no
-- subscription had.
pub data Step (b b' : LocalBus) : Type 0 where
  publishes : (env : EventEnvelope) → publish env b ≡ some b' → Step b b'
  subscribes :
      (t uuid : String)
      → any_where (has_sub uuid) b.objects ≡ false
      → b' ≡ subscribe t uuid b
      → Step b b'
  unsubscribes : (id : String) → unsubscribe id b ≡ some b' → Step b b'
  handles : (id : String) → b' ≡ run_subscriber id b → Step b b'

pub data Steps (b : LocalBus) : LocalBus → Type 0 where
  here : Steps b b
  next : {between after : LocalBus} → Steps b between → Step between after → Steps b after

Step-IsWellFormed : (b b' : LocalBus) → Step b b' → IsWellFormed b → IsWellFormed b'
Step-IsWellFormed b b' (publishes env h) c =
    let (d, p, offered, after) = publish-Offered env b c in
    let e : d ≡ b' = (let q = sym p ∙ h in cc) in rw (← e) after
Step-IsWellFormed b b' (subscribes t uuid fresh h) c =
    rw h (subscribe-IsWellFormed t uuid b fresh c)
Step-IsWellFormed b b' (unsubscribes id h) c =
    let (d, p, after) = unsubscribe-IsWellFormed id b c in
    let e : d ≡ b' = (let q = sym p ∙ h in cc) in rw (← e) after
Step-IsWellFormed b b' (handles id h) c = rw h (run_subscriber-IsWellFormed id b c)

later-IsWellFormed : (b b' : LocalBus) → Steps b b' → IsWellFormed b → IsWellFormed b'
later-IsWellFormed b b' here c = c
later-IsWellFormed b b' (next {between = d} before step) c =
    Step-IsWellFormed d b' step (later-IsWellFormed b d before c)

new-IsWellFormed : IsWellFormed new_local_bus
unfolding any_where
new-IsWellFormed = record {
  bounded = tt;
  listed = λ t id h. absurd (cc);
  distinct = λ t. tt;
  named = λ id h. absurd (cc);
}

-- However publications, subscriptions, their ends and the takes of the handlers follow one another on
-- a new broker, no buffer exceeds its size, the lists name open subscriptions, none twice, and neither
-- Publish nor Unsubscribe panics next.
pub Steps-IsWellFormed :
    (b : LocalBus)
    → Steps new_local_bus b
    → IsWellFormed b
      × ((env : EventEnvelope) → (b' : LocalBus) × (publish env b ≡ some b'))
      × ((id : String) → (b' : LocalBus) × (unsubscribe id b ≡ some b'))
Steps-IsWellFormed b steps =
    let c = later-IsWellFormed new_local_bus b steps new-IsWellFormed in
    (
      c,
      λ env. let (d, p, offered, after) = publish-Offered env b c in (d, p),
      λ id. let (d, p, after) = unsubscribe-IsWellFormed id b c in (d, p),
    )
