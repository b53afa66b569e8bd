-- ===== src/Worker/Pool/Held.antt =====
-- Jobs in flight in internal/worker, under changes of the table.
use matfix.Shared.{
  ◌≡◌, ◌≢◌, sym, ◌∙◌, ap, String, some, List, [], ◌∷◌, ◌++◌, arith, ℤ, All, Bool, true, false, ◌==◌,
  eq_iff, Bool-cases, inl, inr,
}
use matfix.Persistence.Queue.{QueueEntry, queued, update_rows, has_id, eligible, conflicts, any_row}
use matfix.Persistence.Queue.Keys.{KeepsKeys}
use matfix.Persistence.Queue.Lookup.{row_of, row_of-update, row_of-append_old}
use matfix.Queue.Manager.{Job}
use matfix.Worker.Pool.{IsHeld, IsFresh, IsDistinct}

-- Lists.
pub All-update :
    (P : QueueEntry → Type 0) (p : QueueEntry → Bool) (f : QueueEntry → QueueEntry)
    (rows : List QueueEntry)
    → ((e : QueueEntry) → P e → P (f e))
    → All P rows
    → All P (update_rows p f rows)
unfolding update_rows
All-update P p f [] k a = tt
All-update P p f (e ∷ es) k a = elim (Bool-cases (p e)) [
  | inl h ↦ rw h (k e a.0, All-update P p f es k a.1)
  | inr h ↦ rw h (a.0, All-update P p f es k a.1)
]

pub All-append :
    {A : Type 0} (P : A → Type 0) (xs : List A) (x : A) → All P xs → P x → All P (xs ++ x ∷ [])
All-append P [] x a h = (h, tt)
All-append P (y ∷ xs) x a h = (a.0, All-append P xs x a.1 h)

pub All-map :
    {A : Type 0} (P Q : A → Type 0) (xs : List A) → ((x : A) → P x → Q x) → All P xs → All Q xs
All-map P Q [] k a = tt
All-map P Q (x ∷ xs) k a = (k x a.0, All-map P Q xs k a.1)

pub All-middle :
    {A : Type 0} (P : A → Type 0) (xs : List A) (x : A) (ys : List A)
    → All P (xs ++ x ∷ ys)
    → P x × All P (xs ++ ys)
All-middle P [] x ys a = a
All-middle P (y ∷ xs) x ys a = let (h, r) = All-middle P xs x ys a.1 in (h, (a.0, r))

-- Without the settled job, the others are distinct, and none of them is it.
pub IsDistinct-middle :
    (xs : List Job) (j : Job) (ys : List Job)
    → IsDistinct (xs ++ j ∷ ys)
    → IsDistinct (xs ++ ys) × All (λ k. j.id ≢ k.id) (xs ++ ys)
IsDistinct-middle [] j ys d = (d.1, d.0)
IsDistinct-middle (x ∷ xs) j ys d =
    let (rest, others) = IsDistinct-middle xs j ys d.1 in
    let (apart, fresh) = All-middle (λ k. x.id ≢ k.id) xs j ys d.0 in
    ((fresh, rest), ((λ e. apart (sym e)), others))

id_test : (i k : String) → i ≢ k → (i == k) ≡ false
id_test i k h = ground (arith, eq_iff i k)

-- A job in flight is held as long as no update names its ID.
pub IsHeld-update :
    (f : QueueEntry → QueueEntry) (keeps : KeepsKeys f) (i : String) (rows : List QueueEntry)
    (j : Job)
    → i ≢ j.id
    → IsHeld rows j
    → IsHeld (update_rows (has_id i) f rows) j
IsHeld-update f keeps i rows j apart h = record {
  row = h.row;
  found = row_of-update f keeps i j.id rows ∙ (rw (id_test i j.id apart) h.found);
  is_sending = h.is_sending;
  same_count = h.same_count;
}

pub IsHeld-All :
    (f : QueueEntry → QueueEntry) (keeps : KeepsKeys f) (i : String) (rows : List QueueEntry)
    (js : List Job)
    → IsFresh i js
    → All (IsHeld rows) js
    → All (IsHeld (update_rows (has_id i) f rows)) js
IsHeld-All f keeps i rows [] fresh h = tt
IsHeld-All f keeps i rows (j ∷ js) fresh h =
    (IsHeld-update f keeps i rows j fresh.0 h.0, IsHeld-All f keeps i rows js fresh.1 h.1)

-- A queued row that is found under its ID is none of those in flight.
pub queued-IsFresh :
    (e : QueueEntry) (rows : List QueueEntry) (js : List Job)
    → row_of e.id rows ≡ some e
    → e.state ≡ queued
    → All (IsHeld rows) js
    → IsFresh e.id js
queued-IsFresh e rows [] here_it q h = tt
queued-IsFresh e rows (j ∷ js) here_it q h = (
  (λ p. let k = h.0 in cc (here_it, q, k.found, k.is_sending, ap (λ i. row_of i rows) p)),
  queued-IsFresh e rows js here_it q h.1,
)

pub eligible-queued :
    (account : String) (now : ℤ) (e : QueueEntry) → eligible account now e ≡ true → e.state ≡ queued
unfolding eligible
eligible-queued account now e h = ground arith

pub IsHeld-append :
    (new : QueueEntry) (rows : List QueueEntry) (j : Job)
    → any_row (conflicts new) rows ≡ false
    → IsHeld rows j
    → IsHeld (rows ++ new ∷ []) j
IsHeld-append new rows j apart h = record {
  row = h.row;
  found = row_of-append_old j.id new rows h.row apart h.found;
  is_sending = h.is_sending;
  same_count = h.same_count;
}
