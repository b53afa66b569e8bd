-- ===== src/Persistence/Queue/Keys.antt =====
-- The constraints of schema/002_outbound_queue.sql: the primary key, and the unique index on the
-- idempotency keys of an account.
use matfix.Shared.{
  ◌≡◌, refl, ◌∙◌, Bool, false, List, [], ◌∷◌, ◌++◌, arith, eq_iff, inl, inr, Bool-cases, ℤ, ℕ,
}
use matfix.Persistence.Queue.{
  QueueEntry, State, conflicts, any_row, update_rows, claim, set_state, reschedule,
}

-- No two rows conflict.
abbrev pub IsUnique : List QueueEntry → Type 0
IsUnique [] = Unit
IsUnique (e ∷ es) = (any_row (conflicts e) es ≡ false) × IsUnique es

conflicts_comm : (a b : QueueEntry) → conflicts a b ≡ conflicts b a
unfolding conflicts
conflicts_comm a b = ground (
  arith,
  eq_iff a.id b.id,
  eq_iff b.id a.id,
  eq_iff a.account_id b.account_id,
  eq_iff b.account_id a.account_id,
  eq_iff a.idempotency_key b.idempotency_key,
  eq_iff b.idempotency_key a.idempotency_key,
  eq_iff a.idempotency_key "",
  eq_iff b.idempotency_key "",
)

any_row-append :
    (p : QueueEntry → Bool) (es : List QueueEntry) (x : QueueEntry)
    → any_row p es ≡ false
    → p x ≡ false
    → any_row p (es ++ x ∷ []) ≡ false
unfolding any_row
any_row-append p [] x h q = rw q
any_row-append p (e ∷ es) x h q = ground (arith, any_row-append p es x)

-- A row that conflicts with none keeps the table unique.
pub append-IsUnique :
    (new : QueueEntry) (rows : List QueueEntry)
    → any_row (conflicts new) rows ≡ false
    → IsUnique rows
    → IsUnique (rows ++ new ∷ [])
unfolding any_row
append-IsUnique new [] h u = (refl, tt)
append-IsUnique new (e ∷ es) h u = (
  any_row-append (conflicts e) es new u.0 (conflicts_comm e new ∙ (ground arith)),
  append-IsUnique new es (ground arith) u.1,
)

-- An update that leaves the constrained columns alone.
abbrev pub KeepsKeys : (QueueEntry → QueueEntry) → Type 0
KeepsKeys f =
    (e : QueueEntry)
    → ((f e).id ≡ e.id)
      × ((f e).account_id ≡ e.account_id)
      × ((f e).idempotency_key ≡ e.idempotency_key)

module _ (f : QueueEntry → QueueEntry) (keeps : KeepsKeys f) where
  conflicts_keeps : (a b : QueueEntry) → conflicts a (f b) ≡ conflicts a b
  unfolding conflicts
  conflicts_keeps a b = rw ((keeps b).0, (keeps b).1, (keeps b).2)

  keeps_conflicts : (a b : QueueEntry) → conflicts (f a) b ≡ conflicts a b
  unfolding conflicts
  keeps_conflicts a b = rw ((keeps a).0, (keeps a).1, (keeps a).2)

  any_row-update :
      (a : QueueEntry) (p : QueueEntry → Bool) (es : List QueueEntry)
      → any_row (conflicts a) (update_rows p f es) ≡ any_row (conflicts a) es
  unfolding any_row update_rows
  any_row-update a p [] = refl
  any_row-update a p (e ∷ es) = ground (arith, any_row-update a p es, conflicts_keeps a e)

  any_row-keeps :
      (a : QueueEntry) (es : List QueueEntry)
      → any_row (conflicts (f a)) es ≡ any_row (conflicts a) es
  unfolding any_row
  any_row-keeps a [] = refl
  any_row-keeps a (e ∷ es) = ground (arith, any_row-keeps a es, keeps_conflicts a e)

  pub update-IsUnique :
      (p : QueueEntry → Bool) (rows : List QueueEntry)
      → IsUnique rows
      → IsUnique (update_rows p f rows)
  unfolding update_rows
  update-IsUnique p [] u = tt
  update-IsUnique p (e ∷ es) u = elim (Bool-cases (p e)) [
    | inl h ↦ rw h (any_row-update (f e) p es ∙ any_row-keeps e es ∙ u.0, update-IsUnique p es u.1)
    | inr h ↦ rw h (any_row-update e p es ∙ u.0, update-IsUnique p es u.1)
  ]

pub set_state-KeepsKeys : (s : State) (now : ℤ) → KeepsKeys (set_state s now)
set_state-KeepsKeys s now e = (refl, refl, refl)

pub reschedule-KeepsKeys : (n : ℕ) (at now : ℤ) → KeepsKeys (reschedule n at now)
reschedule-KeepsKeys n at now e = (refl, refl, refl)

pub claim-KeepsKeys : (now : ℤ) → KeepsKeys (claim now)
claim-KeepsKeys now e = (refl, refl, refl)
