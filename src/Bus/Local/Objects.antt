-- ===== src/Bus/Local/Objects.antt =====
-- The objects of internal/bus/local.go under changes that keep their IDs.
use matfix.Shared.{
  String, ◌≡◌, refl, ◌∙◌, Bool, true, false, not, ◌&&◌, Option, none, some, List, [], ◌∷◌, ◌++◌,
  ◌==◌, if◌then◌else◌, find_where, any_where, update_where, arith, eq_iff, All, Bool-cases, inl,
  inr,
}
use matfix.Bus.Local.{Subscription, has_sub, holds, remove_entry}

abbrev pub object : String → List Subscription → Option Subscription
object id os = find_where (has_sub id) os

abbrev pub changed : (Subscription → Subscription) → Option Subscription → Option Subscription
changed f none = none
changed f (some s) = some (f s)

-- One object changes, and the others do not.
pub object-update :
    (f : Subscription → Subscription) (i k : String) (os : List Subscription)
    → ((s : Subscription) → (f s).id ≡ s.id)
    → object k (update_where (has_sub i) f os)
      ≡ (if i == k then changed f (object k os) else object k os)
unfolding find_where update_where
object-update f i k [] same = ground arith
object-update f i k (s ∷ os) same = ground (
  arith,
  object-update f i k os same,
  same s,
  eq_iff s.id i,
  eq_iff s.id k,
  eq_iff (f s).id k,
  eq_iff i k,
)

pub object-append :
    (k : String) (new : Subscription) (os : List Subscription)
    → any_where (has_sub new.id) os ≡ false
    → object k (os ++ new ∷ []) ≡ (if new.id == k then some new else object k os)
unfolding find_where any_where
object-append k new [] h = ground arith
object-append k new (s ∷ os) h =
    ground (arith, object-append k new os, eq_iff s.id k, eq_iff new.id k, eq_iff s.id new.id)

pub no_object :
    (k : String) (os : List Subscription) → any_where (has_sub k) os ≡ false → object k os ≡ none
unfolding find_where any_where
no_object k [] h = refl
no_object k (s ∷ os) h = ground (arith, no_object k os)

-- No ID twice.
abbrev pub IsDistinct : List String → Type 0
IsDistinct [] = Unit
IsDistinct (j ∷ js) = (holds j js ≡ false) × IsDistinct js

pub holds_same : (j k : String) (ids : List String) → j ≡ k → holds j ids ≡ holds k ids
holds_same j k ids e = rw e refl

pub holds-remove_entry :
    (id k : String) (ids : List String)
    → IsDistinct ids
    → holds k (remove_entry id ids) ≡ (holds k ids && not (k == id))
unfolding any_where remove_entry
holds-remove_entry id k [] d = refl
holds-remove_entry id k (j ∷ js) d = ground (
  arith,
  holds-remove_entry id k js,
  d.1,
  d.0,
  holds_same j k js,
  eq_iff j id,
  eq_iff j k,
  eq_iff k id,
)

pub remove_entry-IsDistinct :
    (id : String) (ids : List String) → IsDistinct ids → IsDistinct (remove_entry id ids)
unfolding any_where remove_entry
remove_entry-IsDistinct id [] d = tt
remove_entry-IsDistinct id (j ∷ js) d = elim (Bool-cases (j == id)) [
  | inl h ↦ rw h d.1
  | inr h ↦ rw h (holds-remove_entry id j js d.1 ∙ (rw d.0 refl), remove_entry-IsDistinct id js d.1)
]

pub holds-append :
    (id k : String) (ids : List String)
    → holds k (ids ++ id ∷ []) ≡ (if id == k then true else holds k ids)
unfolding any_where
holds-append id k [] = ground arith
holds-append id k (j ∷ js) = ground (arith, holds-append id k js)

pub append-IsDistinct :
    (id : String) (ids : List String)
    → holds id ids ≡ false
    → IsDistinct ids
    → IsDistinct (ids ++ id ∷ [])
unfolding any_where
append-IsDistinct id [] h d = (refl, tt)
append-IsDistinct id (j ∷ js) h d = (
  holds-append id j js ∙ (ground (arith, d.0, eq_iff id j, eq_iff j id)),
  append-IsDistinct id js (ground arith) d.1,
)

pub update_where-All :
    {P : Subscription → Type 0} (p : Subscription → Bool) (f : Subscription → Subscription)
    (os : List Subscription)
    → ((s : Subscription) → P s → P (f s))
    → All P os
    → All P (update_where p f os)
unfolding update_where
update_where-All p f [] keeps a = tt
update_where-All p f (s ∷ os) keeps a = elim (Bool-cases (p s)) [
  | inl h ↦ rw h (keeps s a.0, update_where-All p f os keeps a.1)
  | inr h ↦ rw h (a.0, update_where-All p f os keeps a.1)
]
