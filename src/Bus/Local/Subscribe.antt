-- ===== src/Bus/Local/Subscribe.antt =====
-- Subscribe of internal/bus/local.go on a consistent broker.
use matfix.Shared.{
  String, ◌≡◌, refl, sym, ◌∙◌, true, false, List, [], ◌∷◌, ◌++◌, ◌==◌, any_where, arith, eq_iff,
  eq_refl, All, Bool-cases, inl, inr,
}
use matfix.Bus.Local.{Subscription, LocalBus, has_sub, holds, subscribe, change_type}
use matfix.Bus.Local.Objects.{object-append, no_object, IsDistinct, append-IsDistinct, holds-append}
use matfix.Bus.Local.Invariant.{IsOpen, IsWellFormed, FitsIn}

-- An open subscription has an object, so a new ID is not among them.
append-IsOpen :
    (t id : String) (new : Subscription) (os : List Subscription)
    → any_where (has_sub new.id) os ≡ false
    → IsOpen os t id
    → IsOpen (os ++ new ∷ []) t id
append-IsOpen t id new os fresh o = elim (Bool-cases (new.id == id)) [
  | inl h ↦ absurd (
      let e : new.id ≡ id = ground (arith, eq_iff new.id id) in
      let none_there = no_object id os (rw e at fresh) in let f = o.found in cc)
  | inr h ↦ record {
    it = o.it;
    found = object-append id new os fresh ∙ (rw h o.found);
    same_type = o.same_type;
    is_open = o.is_open;
  }
]

append-All :
    (P : Subscription → Type 0) (os : List Subscription) (new : Subscription)
    → All P os
    → P new
    → All P (os ++ new ∷ [])
append-All P [] new a p = (p, tt)
append-All P (s ∷ os) new a p = (a.0, append-All P os new a.1 p)

module _ (event_type uuid : String) (b : LocalBus)
    (fresh : any_where (has_sub uuid) b.objects ≡ false) (c : IsWellFormed b) where
  abbrev new_sub : Subscription
  new_sub = record { id = uuid; event_type = event_type; buffer = []; closed = false; dropped = 0 }

  new-IsOpen : IsOpen (b.objects ++ new_sub ∷ []) event_type uuid
  new-IsOpen = record {
    it = new_sub;
    found = object-append uuid new_sub b.objects fresh ∙ (rw (eq_refl uuid) refl);
    same_type = refl;
    is_open = refl;
  }

  not_listed : (t : String) → holds uuid (b.by_type t) ≡ false
  not_listed t = elim (Bool-cases (holds uuid (b.by_type t))) [
    | inr h ↦ h
    | inl h ↦
        absurd (let f = (c.listed t uuid h).found in let n = no_object uuid b.objects fresh in cc)
  ]

  old-IsOpen : (t id : String) → IsOpen b.objects t id → IsOpen (b.objects ++ new_sub ∷ []) t id
  old-IsOpen t id o = append-IsOpen t id new_sub b.objects fresh o

  new_listed :
      (t id : String)
      → holds id (change_type event_type (b.by_type event_type ++ uuid ∷ []) b.by_type t) ≡ true
      → IsOpen (b.objects ++ new_sub ∷ []) t id
  new_listed t id h = elim (Bool-cases (t == event_type)) [
    | inr p ↦ old-IsOpen t id (c.listed t id (rw p at h))
    | inl p ↦
        let e : t ≡ event_type = ground (arith, eq_iff t event_type) in
        let h' = sym (holds-append uuid id (b.by_type event_type)) ∙ (rw p at h) in
        elim (Bool-cases (uuid == id)) [
          | inl q ↦ let e' : uuid ≡ id = ground (arith, eq_iff uuid id) in rw (e, ← e') new-IsOpen
          | inr q ↦ old-IsOpen t id (c.listed t id (rw e (rw q at h')))
        ]
  ]

  new-IsDistinct :
      (t : String)
      → IsDistinct (change_type event_type (b.by_type event_type ++ uuid ∷ []) b.by_type t)
  new-IsDistinct t = elim (Bool-cases (t == event_type)) [
    | inr p ↦ rw p (c.distinct t)
    | inl p ↦ rw p (
        append-IsDistinct uuid (b.by_type event_type) (not_listed event_type)
          (c.distinct event_type))
  ]

  new_named :
      (id : String)
      → holds id (uuid ∷ b.subs) ≡ true
      → (t : String) × IsOpen (b.objects ++ new_sub ∷ []) t id
  unfolding any_where
  new_named id h = elim (Bool-cases (uuid == id)) [
    | inl q ↦
        let e : uuid ≡ id = ground (arith, eq_iff uuid id) in (event_type, rw (← e) new-IsOpen)
    | inr q ↦ let (t, o) = c.named id (rw q at h) in (t, old-IsOpen t id o)
  ]

  pub subscribe-IsWellFormed : IsWellFormed (subscribe event_type uuid b)
  unfolding subscribe any_where
  subscribe-IsWellFormed = record {
    bounded = append-All FitsIn b.objects new_sub c.bounded (omega arith);
    listed = new_listed;
    distinct = new-IsDistinct;
    named = new_named;
  }
