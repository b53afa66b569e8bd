-- ===== src/Admin/Views/Counts.antt =====
-- internal/admin/routes/inspect.go: the counts of GET /queue against the rows of the table.
use matfix.Shared.{
  ◌≡◌, ◌≢◌, refl, sym, ap, ◌∙◌, inl, inr, ℕ, ◌+◌, String, Bool, true, false, ◌&&◌, List, [], ◌∷◌,
  ◌==◌, if◌then◌else◌, All, any_where, Bool-cases, eq_iff, arith,
}
use matfix.Persistence.Statement.{statement, statement_cases, working}
use matfix.Persistence.Queue.{
  State, queued, sending, failed, dead_letter, same_state, QueueEntry, QueueDb, before,
}
use matfix.Persistence.Queue.Listing.{has_state, insert_in_order, listed_rows, list_by_state}
use matfix.Account.{AccountContext}
use matfix.Api.Response.{Response, failure, success}
use matfix.Admin.Views.{
  QueueCounts, no_jobs, count_state, count_entries, significant, after_listing, count_accounts,
  all_ids, queue_handler,
}

-- How many rows pass a test.
abbrev pub count_where : (QueueEntry → Bool) → List QueueEntry → ℕ
count_where p [] = 0
count_where p (e ∷ rows) = (if p e then 1 else 0) + count_where p rows

-- The count of a state.
abbrev pub jobs_in : State → QueueCounts → ℕ
jobs_in queued c = c.queued_jobs
jobs_in sending c = c.sending_jobs
jobs_in failed c = c.failed_jobs
jobs_in dead_letter c = c.dead_jobs
jobs_in _ c = 0

-- The states that the handler reports.
abbrev pub is_reported : State → Bool
is_reported queued = true
is_reported sending = true
is_reported failed = true
is_reported dead_letter = true
is_reported _ = false

abbrev pub in_state : State → QueueEntry → Bool
in_state s e = same_state e.state s

abbrev pub is_managed : List String → QueueEntry → Bool
is_managed ids e = any_where (λ id. e.account_id == id) ids

abbrev pub AllDiffer : List String → Type 0
AllDiffer [] = Unit
AllDiffer (id ∷ ids) = All (λ j. j ≢ id) ids × AllDiffer ids

jobs-count_state :
    (s t : State) (c : QueueCounts)
    → is_reported s ≡ true
    → jobs_in s (count_state t c) ≡ (if same_state t s then 1 else 0) + jobs_in s c
unfolding count_state same_state
jobs-count_state s t c h = ground arith

jobs-count_entries :
    (s : State) (entries : List QueueEntry) (c : QueueCounts)
    → is_reported s ≡ true
    → jobs_in s (count_entries entries c) ≡ count_where (in_state s) entries + jobs_in s c
unfolding count_entries
jobs-count_entries s [] c h = omega arith
jobs-count_entries s (e ∷ entries) c h =
    omega (
      arith,
      jobs-count_entries s entries (count_state e.state c) h,
      jobs-count_state s e.state c h,
    )

count-insert :
    (p : QueueEntry → Bool) (e : QueueEntry) (rows : List QueueEntry)
    → count_where p (insert_in_order e rows) ≡ (if p e then 1 else 0) + count_where p rows
unfolding insert_in_order
count-insert p e [] = refl
count-insert p e (f ∷ rows) = elim (Bool-cases (before f e)) [
  | inl later ↦ rw later (omega (arith, count-insert p e rows))
  | inr here ↦ rw here refl
]

count-listed_rows :
    (p q : QueueEntry → Bool) (rows : List QueueEntry)
    → count_where p (listed_rows q rows) ≡ count_where (λ e. q e && p e) rows
unfolding listed_rows
count-listed_rows p q [] = refl
count-listed_rows p q (e ∷ rows) = elim (Bool-cases (q e)) [
  | inl taken ↦
      rw taken (omega (arith, count-insert p e (listed_rows q rows), count-listed_rows p q rows))
  | inr passed ↦ rw passed (omega (arith, count-listed_rows p q rows))
]

reported-state :
    (t s : State)
    → is_reported s ≡ true
    → (any_where (same_state t) significant && same_state t s) ≡ same_state t s
unfolding any_where same_state
reported-state t s h = ground arith

count-ext :
    (p q : QueueEntry → Bool) (rows : List QueueEntry)
    → ((e : QueueEntry) → p e ≡ q e)
    → count_where p rows ≡ count_where q rows
count-ext p q [] h = refl
count-ext p q (e ∷ rows) h = rw (h e) (ap (λ n. (if q e then 1 else 0) + n) (count-ext p q rows h))

-- What one query finds in a state.
count-list_by_state :
    (id : String) (s : State) (rows : List QueueEntry)
    → is_reported s ≡ true
    → count_where (in_state s) (listed_rows (has_state id significant) rows)
      ≡ count_where (λ e. e.account_id == id && in_state s e) rows
unfolding has_state
count-list_by_state id s rows h =
    count-listed_rows (in_state s) (has_state id significant) rows
    ∙ count-ext _ _ rows (λ e. elim (Bool-cases (e.account_id == id)) [
      | inl own ↦ rw own (reported-state e.state s h)
      | inr other ↦ rw other refl
    ])

differ-unmanaged :
    (account id : String) (ids : List String)
    → All (λ j. j ≢ id) ids
    → account ≡ id
    → any_where (λ j. account == j) ids ≡ false
unfolding any_where
differ-unmanaged account id [] h q = refl
differ-unmanaged account id (j ∷ ids) (h, hs) q = elim (Bool-cases (account == j)) [
  | inl same ↦ absurd (h (sym ((eq_iff account j).0 same) ∙ q))
  | inr differs ↦ rw differs (differ-unmanaged account id ids hs q)
]

count-first_account :
    (s : State) (id : String) (ids : List String) (rows : List QueueEntry)
    → All (λ j. j ≢ id) ids
    → count_where (λ e. is_managed (id ∷ ids) e && in_state s e) rows
      ≡ count_where (λ e. e.account_id == id && in_state s e) rows
        + count_where (λ e. is_managed ids e && in_state s e) rows
unfolding any_where
count-first_account s id ids [] h = refl
count-first_account s id ids (e ∷ rows) h = elim (Bool-cases (e.account_id == id)) [
  | inl own ↦ rw own (
      rw (differ-unmanaged e.account_id id ids h ((eq_iff e.account_id id).0 own))
        (omega (arith, count-first_account s id ids rows h)))
  | inr other ↦ rw other (omega (arith, count-first_account s id ids rows h))
]

-- The rows stay, and each count has grown by the rows of the accounts in its state.
abbrev Counted :
    List String → QueueCounts → List QueueEntry → Response QueueCounts × QueueDb → Type 0
Counted ids c rows (r, db) =
    (db.rows ≡ rows)
    × ((c' : QueueCounts) (s : State)
        → r ≡ success 200 c'
        → is_reported s ≡ true
        → jobs_in s c' ≡ count_where (λ e. is_managed ids e && in_state s e) rows + jobs_in s c)

abbrev counts_of : Response QueueCounts → QueueCounts
counts_of (success status c) = c
counts_of (failure status code) = no_jobs

none_managed :
    (s : State) (rows : List QueueEntry)
    → count_where (λ e. is_managed [] e && in_state s e) rows ≡ 0
unfolding any_where
none_managed s [] = refl
none_managed s (e ∷ rows) = omega (arith, none_managed s rows)

no_jobs-zero : (s : State) → jobs_in s no_jobs ≡ 0
no_jobs-zero s = ground arith

count_accounts-Counted :
    (ids : List String) (c : QueueCounts) (db : QueueDb)
    → AllDiffer ids
    → Counted ids c db.rows (count_accounts ids c db)
unfolding count_accounts list_by_state after_listing
count_accounts-Counted [] c db d = (
  refl,
  λ c' s q h.
      let e : c ≡ c' = ap counts_of q in omega (arith, ap (jobs_in s) e, none_managed s db.rows),
)
count_accounts-Counted (id ∷ ids) c db (apart, d) =
    let (rest, cases) =
      statement_cases (listed_rows (has_state id significant)) (λ rows. rows) db in
    elim cases [
      | inl stopped ↦ rw stopped (refl, λ c' s q h. absurd (cc))
      | inr ran ↦ rw ran (
          let found = listed_rows (has_state id significant) db.rows in
          let (keep, count) =
            count_accounts-Counted ids (count_entries found c) (record db { faults = rest }) d in
          (
            keep,
            λ c' s q h. omega (
              arith,
              count c' s q h,
              jobs-count_entries s found c h,
              count-list_by_state id s db.rows h,
              count-first_account s id ids db.rows apart,
            ),
          ))
    ]

count_accounts-working :
    (ids : List String) (c : QueueCounts) (rows : List QueueEntry)
    → (c' : QueueCounts) × ((count_accounts ids c (working rows)).0 ≡ success 200 c')
unfolding count_accounts list_by_state after_listing statement
count_accounts-working [] c rows = (c, refl)
count_accounts-working (id ∷ ids) c rows =
    count_accounts-working ids (count_entries (listed_rows (has_state id significant) rows) c) rows

-- If no two accounts have one ID, GET /queue changes no row, and where it succeeds, which it does on
-- a driver that works, each of its four counts is the number of rows of all accounts in that state.
pub queue_handler-counts :
    (accounts : List (String × AccountContext)) (db : QueueDb)
    → AllDiffer (all_ids accounts)
    → let (r, db') = queue_handler accounts db in
      (db'.rows ≡ db.rows)
      × ((c : QueueCounts) (s : State)
          → r ≡ success 200 c
          → is_reported s ≡ true
          → jobs_in s c
            ≡ count_where (λ e. is_managed (all_ids accounts) e && in_state s e) db.rows)
      × ((c : QueueCounts) × ((queue_handler accounts (working db.rows)).0 ≡ success 200 c))
unfolding queue_handler
queue_handler-counts accounts db d =
    let (keep, count) = count_accounts-Counted (all_ids accounts) no_jobs db d in
    (
      keep,
      λ c s q h. omega (arith, count c s q h, no_jobs-zero s),
      count_accounts-working (all_ids accounts) no_jobs db.rows,
    )
