-- ===== src/Bus/Local/Invariant.antt =====
-- What holds of the broker of internal/bus/local.go however publications, subscriptions and their
-- goroutines interleave.
use matfix.Shared.{
  ◌≤◌, String, ◌≡◌, refl, ◌∙◌, Bool, true, false, ◌||◌, some, List, [], ◌∷◌, ◌==◌, if◌then◌else◌,
  ltb, length, length-append, any_where, update_where, arith, eq_iff, eq_refl, All, Bool-cases, inl,
  inr,
}
use matfix.Bus.Events.{EventEnvelope, type_name}
use matfix.Bus.Local.{
  Subscription, LocalBus, has_sub, holds, offer, send_each, publish, run_subscriber, drop_head,
  default_channel_size,
}
use matfix.Bus.Local.Objects.{
  object, changed, object-update, IsDistinct, holds_same, update_where-All,
}

-- An open subscription of a type.
pub record IsOpen (os : List Subscription) (t id : String) : Type 0 where
  pub it : Subscription
  pub found : object id os ≡ some it
  pub same_type : it.event_type ≡ t
  pub is_open : it.closed ≡ false

-- No buffer is over its size, and the lists of the types name open subscriptions of their type, none
-- twice; those named in `subs` exist.
pub record IsWellFormed (b : LocalBus) : Type 0 where
  pub bounded : All (λ s. length s.buffer ≤ default_channel_size) b.objects
  pub listed : (t id : String) → holds id (b.by_type t) ≡ true → IsOpen b.objects t id
  pub distinct : (t : String) → IsDistinct (b.by_type t)
  pub named : (id : String) → holds id b.subs ≡ true → (t : String) × IsOpen b.objects t id

-- An object that changes, but not in what the lists rely on.
abbrev pub Keeps : (Subscription → Subscription) → Type 0
Keeps f =
    (s : Subscription)
    → ((f s).id ≡ s.id) × ((f s).event_type ≡ s.event_type) × ((f s).closed ≡ s.closed)

offer-Keeps : (env : EventEnvelope) → Keeps (offer env)
unfolding offer
offer-Keeps env s = elim (Bool-cases (ltb (length s.buffer) default_channel_size)) [
  | inl h ↦ rw h (refl, refl, refl)
  | inr h ↦ rw h (refl, refl, refl)
]

drop_head-Keeps : Keeps drop_head
drop_head-Keeps s = (refl, refl, refl)

pub update-IsOpen :
    (f : Subscription → Subscription) (i t id : String) (os : List Subscription)
    → Keeps f
    → IsOpen os t id
    → IsOpen (update_where (has_sub i) f os) t id
update-IsOpen f i t id os keeps o = elim (Bool-cases (i == id)) [
  | inl h ↦
      let (same, same_type, same_closed) = keeps o.it in
      record {
        it = f o.it;
        found = object-update f i id os (λ s. (keeps s).0) ∙ (rw (h, o.found) refl);
        same_type = same_type ∙ o.same_type;
        is_open = same_closed ∙ o.is_open;
      }
  | inr h ↦ record {
    it = o.it;
    found = object-update f i id os (λ s. (keeps s).0) ∙ (rw (h, o.found) refl);
    same_type = o.same_type;
    is_open = o.is_open;
  }
]

-- One more event, or none, in a buffer that has room.
abbrev pub FitsIn : Subscription → Type 0
FitsIn s = length s.buffer ≤ default_channel_size

offer-fits : (env : EventEnvelope) (s : Subscription) → FitsIn s → FitsIn (offer env s)
unfolding offer
offer-fits env s h = elim (Bool-cases (ltb (length s.buffer) default_channel_size)) [
  | inl p ↦ rw p (ground (arith, length-append s.buffer (env ∷ [])))
  | inr p ↦ rw p h
]

drop_head-fits : (s : Subscription) → FitsIn s → FitsIn (drop_head s)
drop_head-fits s h = by_buffer s.buffer h
  where
    by_buffer :
        (es : List EventEnvelope)
        → length es ≤ default_channel_size
        → length (elim es as (λ x. List EventEnvelope) [ [] ↦ [] | env ∷ rest ↦ rest ])
          ≤ default_channel_size
    by_buffer [] h = h
    by_buffer (e ∷ es) h = omega (arith, h)

-- What a round of sends does to a subscription.
abbrev pub Offered : EventEnvelope → List String → List Subscription → List Subscription → Type 0
Offered env ids old new =
    (id : String)
    → object id new ≡ (if holds id ids then changed (offer env) (object id old) else object id old)

-- A round of sends over open subscriptions succeeds, and makes each an offer.
record Sends (env : EventEnvelope) (ids : List String) (os : List Subscription) : Type 0 where
  after : List Subscription
  succeeds : send_each ids env os ≡ some after
  offers : Offered env ids os after
  fits : All FitsIn os → All FitsIn after
  keeps_open : (t id : String) → IsOpen os t id → IsOpen after t id

both_offers :
    (env : EventEnvelope) (id : String) (ids : List String) (os after : List Subscription)
    → holds id ids ≡ false
    → Offered env ids (update_where (has_sub id) (offer env) os) after
    → Offered env (id ∷ ids) os after
unfolding any_where
both_offers env id ids os after apart rest k =
    let one = object-update (offer env) id k os (λ s. (offer-Keeps env s).0) in
    elim (Bool-cases (id == k)) [
      | inl h ↦
          let e : holds k ids ≡ false = ground (arith, holds_same id k ids, eq_iff id k) in
          rest k ∙ (rw (e, h) (one ∙ (rw h refl)))
      | inr h ↦ rest k ∙ (rw (one, h) refl)
    ]

send_each-Sends :
    (env : EventEnvelope) (ids : List String) (os : List Subscription)
    → IsDistinct ids
    → ((id : String) → holds id ids ≡ true → (t : String) × IsOpen os t id)
    → Sends env ids os
unfolding send_each any_where
send_each-Sends env [] os d opens = record {
  after = os;
  succeeds = refl;
  offers = λ id. refl;
  fits = λ a. a;
  keeps_open = λ t id o. o;
}
send_each-Sends env (id ∷ ids) os d opens =
    let (t, o) = opens id (rw (eq_refl id) refl) in
    let os' = update_where (has_sub id) (offer env) os in
    let rest = send_each-Sends env ids os' d.1 (λ k h.
      let (u, p) = opens k (or_true (id == k) h) in
      (u, update-IsOpen (offer env) id u k os (offer-Keeps env) p)) in
    record {
      after = rest.after;
      succeeds = rw (o.found, o.is_open) rest.succeeds;
      offers = both_offers env id ids os rest.after d.0 rest.offers;
      fits = λ a. rest.fits (update_where-All (has_sub id) (offer env) os (offer-fits env) a);
      keeps_open =
          λ u k p. rest.keeps_open u k (update-IsOpen (offer env) id u k os (offer-Keeps env) p);
    }
  where
    or_true : (b : Bool) {c : Bool} → c ≡ true → (b || c) ≡ true
    or_true true h = refl
    or_true false h = h

-- Publish, on a consistent broker, never sends on a closed channel; each subscription listed under
-- the type of the event gets it at the end of its buffer, or counts one more drop if the buffer is
-- full, and all others stay as they are.
pub publish-Offered :
    (env : EventEnvelope) (b : LocalBus)
    → IsWellFormed b
    → (b' : LocalBus) × (publish env b ≡ some b')
      × Offered env (b.by_type (type_name env.type)) b.objects b'.objects
      × IsWellFormed b'
unfolding publish
publish-Offered env b c =
    let t = type_name env.type in
    let s =
      send_each-Sends env (b.by_type t) b.objects (c.distinct t) (λ id h. (t, c.listed t id h)) in
    (
      record b { objects = s.after },
      rw s.succeeds refl,
      s.offers,
      record {
        bounded = s.fits c.bounded;
        listed = λ u id h. s.keeps_open u id (c.listed u id h);
        distinct = c.distinct;
        named = λ id h. let (u, o) = c.named id h in (u, s.keeps_open u id o);
      },
    )

pub run_subscriber-IsWellFormed :
    (id : String) (b : LocalBus) → IsWellFormed b → IsWellFormed (run_subscriber id b)
unfolding run_subscriber
run_subscriber-IsWellFormed id b c = record {
  bounded = update_where-All (has_sub id) drop_head b.objects drop_head-fits c.bounded;
  listed = λ t k h. update-IsOpen drop_head id t k b.objects drop_head-Keeps (c.listed t k h);
  distinct = c.distinct;
  named = λ k h.
      let (t, o) = c.named k h in (t, update-IsOpen drop_head id t k b.objects drop_head-Keeps o);
}
