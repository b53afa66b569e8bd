-- ===== src/Persistence/Correlations/Sweep.antt =====
-- What DeleteExpired of sqlCorrelationStore deletes and what it keeps.
use matfix.Shared.{
  ◌≡◌, refl, sym, ◌∙◌, ◌↔◌, inl, inr, ℕ, ◌+◌, Bool, true, false, not, ◌&&◌, ◌||◌, List, [], ◌∷◌,
  arith, ℤ, pos, ◌≤ℤ◌, leb_ℤ, ltb_ℤ, Result, ok, err, length, IsIn, Bool-cases,
}
use matfix.Persistence.Correlations.{
  CorrelationState, pending, resolved, expired, CorrelationEntry, CorrelationDb, is_pending,
  is_overdue, select, count_overdue, delete_expired,
}

abbrev pub is_closed : CorrelationEntry → Bool
is_closed e = not (is_pending e.state)

-- A pending row whose timeout is not set (zero or negative) or is not before `now`.
abbrev pub is_live : ℤ → CorrelationEntry → Bool
is_live now e = is_pending e.state && (leb_ℤ e.timeout_at (pos 0) || leb_ℤ now e.timeout_at)

-- A row is due if it is pending and its timeout is positive and before `now`.
abbrev pub IsDue : ℤ → CorrelationEntry → Type 0
IsDue now e = (e.state ≡ pending) × (¬ (e.timeout_at ≤ℤ pos 0)) × (¬ (now ≤ℤ e.timeout_at))

abbrev pub Sweeps : ℤ → List CorrelationEntry → Result ℕ → List CorrelationEntry → Type 0
Sweeps now old (err e) rows = rows ≡ old
Sweeps now old (ok n) rows =
    (select is_closed rows ≡ select is_closed old)
    × (select (λ e. is_pending e.state) rows ≡ select (is_live now) old)
    × ((e : CorrelationEntry) → IsIn e rows ↔ (IsIn e old × ¬ IsDue now e))
    × (n + length rows ≡ length old)

module _ (p : CorrelationEntry → Bool) where
  IsIn-select :
      (e : CorrelationEntry) (rows : List CorrelationEntry)
      → IsIn e (select p rows)
      → IsIn e rows × (p e ≡ true)
  unfolding select
  IsIn-select e [] h = absurd h
  IsIn-select e (x ∷ xs) h = elim (Bool-cases (p x)) [
    | inl q ↦ elim (rw q at h) [
      | inl same ↦ (inl same, rw same q)
      | inr later ↦ let (m, k) = IsIn-select e xs later in (inr m, k)
    ]
    | inr q ↦ let (m, k) = IsIn-select e xs (rw q at h) in (inr m, k)
  ]

  select-IsIn :
      (e : CorrelationEntry) (rows : List CorrelationEntry)
      → IsIn e rows
      → p e ≡ true
      → IsIn e (select p rows)
  unfolding select
  select-IsIn e [] h k = absurd h
  select-IsIn e (x ∷ xs) (inl same) k = rw (← same, k) (inl refl)
  select-IsIn e (x ∷ xs) (inr later) k = elim (Bool-cases (p x)) [
    | inl q ↦ rw q (inr (select-IsIn e xs later k))
    | inr q ↦ rw q (select-IsIn e xs later k)
  ]

not-ltb_ℤ : (a b : ℤ) → not (ltb_ℤ a b) ≡ leb_ℤ b a
not-ltb_ℤ a b = ground arith

leb_ℤ_iff : (a b : ℤ) → (leb_ℤ a b ≡ true) ↔ (a ≤ℤ b)
leb_ℤ_iff a b = (λ h. ground arith, λ h. ground arith)

not_both : (a b : Bool) → not (a && b) ≡ (not a || not b)
not_both true b = refl
not_both false b = refl

unless_both :
    {A B : Type 0} (a b : Bool)
    → (a ≡ true) ↔ A
    → (b ≡ true) ↔ B
    → ((a || b) ≡ true) ↔ (¬ ((pending ≡ pending) × (¬ A) × (¬ B)))
unless_both true b p q = (λ h (same, no_a, no_b). no_a (p.0 refl), λ h. refl)
unless_both false true p q = (λ h (same, no_a, no_b). no_b (q.0 refl), λ h. refl)
unless_both false false p q = (
  λ h. absurd (cc),
  λ h. absurd (h (refl, λ a. absurd (let z = p.1 a in cc), λ b. absurd (let z = q.1 b in cc))),
)

-- Both selections at once.
select-select :
    (p q r : CorrelationEntry → Bool)
    → ((e : CorrelationEntry) → r e ≡ (q e && p e))
    → (rows : List CorrelationEntry) → select p (select q rows) ≡ select r rows
unfolding select
select-select p q r h [] = refl
select-select p q r h (e ∷ es) = elim (Bool-cases (q e)) [
  | inl kept ↦ elim (Bool-cases (p e)) [
    | inl there ↦ rw (h e, kept, there) (rw (select-select p q r h es) refl)
    | inr gone ↦ rw (h e, kept, gone) (select-select p q r h es)
  ]
  | inr dropped ↦ rw (h e, dropped) (select-select p q r h es)
]

module _ (now : ℤ) where
  -- Of a pending row.
  not_overdue : (t : ℤ) → not (ltb_ℤ (pos 0) t && ltb_ℤ t now) ≡ (leb_ℤ t (pos 0) || leb_ℤ now t)
  not_overdue t =
      rw (not_both (ltb_ℤ (pos 0) t) (ltb_ℤ t now), not-ltb_ℤ (pos 0) t, not-ltb_ℤ t now) refl

  kept_state : (e : CorrelationEntry) → not (is_overdue now e) ≡ (is_closed e || is_live now e)
  unfolding is_overdue
  kept_state e = by_state e.state
    where
      by_state :
          (s : CorrelationState)
          → not (is_pending s && ltb_ℤ (pos 0) e.timeout_at && ltb_ℤ e.timeout_at now) ≡ (
              not (is_pending s)
              || is_pending s && (leb_ℤ e.timeout_at (pos 0) || leb_ℤ now e.timeout_at))
      by_state pending = not_overdue e.timeout_at
      by_state resolved = refl
      by_state expired = refl

  kept-IsDue : (e : CorrelationEntry) → (is_closed e || is_live now e) ≡ true ↔ (¬ IsDue now e)
  unfolding is_pending
  kept-IsDue e = by_state e.state
    where
      by_state :
          (s : CorrelationState)
          → ((not (is_pending s)
                || is_pending s && (leb_ℤ e.timeout_at (pos 0) || leb_ℤ now e.timeout_at))
              ≡ true)
            ↔ (¬ ((s ≡ pending) × (¬ (e.timeout_at ≤ℤ pos 0)) × (¬ (now ≤ℤ e.timeout_at))))
      by_state pending =
          unless_both (leb_ℤ e.timeout_at (pos 0)) (leb_ℤ now e.timeout_at)
            (leb_ℤ_iff e.timeout_at (pos 0)) (leb_ℤ_iff now e.timeout_at)
      by_state resolved = (λ h due. cc, λ h. refl)
      by_state expired = (λ h due. cc, λ h. refl)

  abbrev kept : List CorrelationEntry → List CorrelationEntry
  kept rows = select (λ e. not (is_overdue now e)) rows

  closed_of_kept : (e : CorrelationEntry) → is_closed e ≡ (not (is_overdue now e) && is_closed e)
  closed_of_kept e = rw (kept_state e) (both (is_pending e.state) (is_live now e))
    where
      both : (a b : Bool) → not a ≡ ((not a || b) && not a)
      both true true = refl
      both true false = refl
      both false b = refl

  live_of_kept :
      (e : CorrelationEntry) → is_live now e ≡ (not (is_overdue now e) && is_pending e.state)
  live_of_kept e =
      rw (kept_state e)
        (both (is_pending e.state) (leb_ℤ e.timeout_at (pos 0) || leb_ℤ now e.timeout_at))
    where
      both : (a b : Bool) → (a && b) ≡ ((not a || a && b) && a)
      both true true = refl
      both true false = refl
      both false b = refl

  closed_kept :
      (rows : List CorrelationEntry) → select is_closed (kept rows) ≡ select is_closed rows
  closed_kept = select-select is_closed (λ e. not (is_overdue now e)) is_closed closed_of_kept

  pending_kept :
      (rows : List CorrelationEntry)
      → select (λ e. is_pending e.state) (kept rows) ≡ select (is_live now) rows
  pending_kept =
      select-select (λ e. is_pending e.state) (λ e. not (is_overdue now e)) (is_live now)
        live_of_kept

  IsIn-kept :
      (rows : List CorrelationEntry) (e : CorrelationEntry)
      → IsIn e (kept rows) ↔ (IsIn e rows × ¬ IsDue now e)
  IsIn-kept rows e = (
    λ h.
        let (m, k) = IsIn-select (λ e. not (is_overdue now e)) e rows h in
        (m, (kept-IsDue e).0 (sym (kept_state e) ∙ k)),
    λ (m, k).
        select-IsIn (λ e. not (is_overdue now e)) e rows m (kept_state e ∙ (kept-IsDue e).1 k),
  )

  count_kept :
      (rows : List CorrelationEntry) → count_overdue now rows + length (kept rows) ≡ length rows
  unfolding select count_overdue
  count_kept [] = refl
  count_kept (e ∷ es) = ground (arith, count_kept es)

-- DeleteExpired either fails and writes nothing, or leaves exactly the rows that are not pending with
-- a positive timeout before `now`: those that are resolved or expired stay in their order, as do
-- the pending ones whose timeout is zero, negative or not before `now`; and it returns how many rows
-- it deleted.
pub delete_expired-Sweeps :
    (now : ℤ) (t : CorrelationDb) → let m = delete_expired now t in Sweeps now t.rows m.0 m.1.rows
unfolding delete_expired
delete_expired-Sweeps now t = ground (
  arith,
  closed_kept now t.rows,
  pending_kept now t.rows,
  IsIn-kept now t.rows,
  count_kept now t.rows,
)
