-- ===== src/Persistence/Queue/Select.antt =====
-- Which job PullNext of internal/persistence/store.go claims, and what it writes.
use matfix.Shared.{
  String, ◌≡◌, refl, inl, inr, Bool, true, false, Option, none, some, List, [], ◌∷◌, arith, ℤ, ok,
  err, All, IsIn, Bool-cases, Result,
}
use matfix.Persistence.Statement.{transaction, roll_back}
use matfix.Persistence.Queue.{
  QueueEntry, QueueDb, eligible, before, earlier, next_eligible, has_id, claim, claim_found,
  update_rows, pull_next,
}

before_trans : (a b c : QueueEntry) → before a b ≡ false → before b c ≡ false → before a c ≡ false
unfolding before
before_trans a b c p q = ground arith

before_asym : (a b : QueueEntry) → before a b ≡ true → before b a ≡ false
unfolding before
before_asym a b p = ground arith

before_irrefl : (a : QueueEntry) → before a a ≡ false
unfolding before
before_irrefl a = ground arith

module _ (account : String) (now : ℤ) where
  -- The row is in the table and eligible, and no eligible row comes strictly before it.
  pub record IsNext (rows : List QueueEntry) (e : QueueEntry) : Type 0 where
    pub in_table : IsIn e rows
    pub is_eligible : eligible account now e ≡ true
    pub is_first : All (λ x. eligible account now x ≡ true → before x e ≡ false) rows

  -- What the search found is first, or there is nothing to find.
  abbrev pub Found : List QueueEntry → Option QueueEntry → Type 0
  Found rows none = All (λ x. eligible account now x ≡ false) rows
  Found rows (some e) = IsNext rows e

  none_first :
      (e : QueueEntry) (es : List QueueEntry)
      → All (λ x. eligible account now x ≡ false) es
      → All (λ x. eligible account now x ≡ true → before x e ≡ false) es
  none_first e [] h = tt
  none_first e (x ∷ es) h = (λ p. cc (h.0, p), none_first e es h.1)

  first_trans :
      (e r : QueueEntry) (es : List QueueEntry)
      → before r e ≡ false
      → All (λ x. eligible account now x ≡ true → before x r ≡ false) es
      → All (λ x. eligible account now x ≡ true → before x e ≡ false) es
  first_trans e r [] b h = tt
  first_trans e r (x ∷ es) b h = (λ p. before_trans x r e (h.0 p) b, first_trans e r es b h.1)

  extend :
      (e : QueueEntry) (es : List QueueEntry) (best : Option QueueEntry)
      → eligible account now e ≡ true
      → Found es best
      → IsNext (e ∷ es) (earlier e best)
  unfolding earlier
  extend e es none p f = record {
    in_table = inl refl;
    is_eligible = p;
    is_first = (λ _. before_irrefl e, none_first e es f);
  }
  extend e es (some r) p f = elim (Bool-cases (before r e)) [
    | inl b ↦ rw b (record {
      in_table = inr f.in_table;
      is_eligible = f.is_eligible;
      is_first = (λ _. before_asym r e b, f.is_first);
    })
    | inr b ↦ rw b (record {
      in_table = inl refl;
      is_eligible = p;
      is_first = (λ _. before_irrefl e, first_trans e r es b f.is_first);
    })
  ]

  skip :
      (e : QueueEntry) (es : List QueueEntry) (best : Option QueueEntry)
      → eligible account now e ≡ false
      → Found es best
      → Found (e ∷ es) best
  skip e es none p f = (p, f)
  skip e es (some r) p f = record {
    in_table = inr f.in_table;
    is_eligible = f.is_eligible;
    is_first = (λ q. cc (p, q), f.is_first);
  }

  pub next_eligible-Found : (rows : List QueueEntry) → Found rows (next_eligible account now rows)
  unfolding next_eligible
  next_eligible-Found [] = tt
  next_eligible-Found (e ∷ es) = elim (Bool-cases (eligible account now e)) [
    | inl p ↦ rw p (extend e es (next_eligible account now es) p (next_eligible-Found es))
    | inr p ↦ rw p (skip e es (next_eligible account now es) p (next_eligible-Found es))
  ]

-- What a call of PullNext may do to the rows, by what it returns.
abbrev pub Pulls :
    String → ℤ → List QueueEntry → Result (Option QueueEntry) → List QueueEntry → Type 0
Pulls account now old (err e) rows = rows ≡ old
Pulls account now old (ok none) rows = (rows ≡ old) × All (λ x. eligible account now x ≡ false) old
Pulls account now old (ok (some j)) rows =
    (e : QueueEntry) × IsNext account now old e
    × (j ≡ claim now e)
    × (rows ≡ update_rows (has_id e.id) (claim now) old)

-- The same before the transaction ends: an error may leave rows that the rollback discards.
abbrev Claims : String → ℤ → List QueueEntry → Result (Option QueueEntry) → List QueueEntry → Type 0
Claims account now old (err e) rows = Unit
Claims account now old (ok r) rows = Pulls account now old (ok r) rows

module _ (account : String) (now : ℤ) (rows : List QueueEntry) where
  claim_found-Claims :
      (found : Option QueueEntry) (faults : List Bool)
      → Found account now rows found
      → let m = claim_found now found (record { rows = rows; faults = faults }) in
        Claims account now rows m.0 m.1.rows
  unfolding claim_found
  claim_found-Claims none faults f = (refl, f)
  claim_found-Claims (some e) [] f = (e, f, refl, refl)
  claim_found-Claims (some e) (true ∷ faults) f = tt
  claim_found-Claims (some e) (false ∷ []) f = (e, f, refl, refl)
  claim_found-Claims (some e) (false ∷ true ∷ faults) f = tt
  claim_found-Claims (some e) (false ∷ false ∷ faults) f = (e, f, refl, refl)

  roll_back-Pulls :
      (r : Result (Option QueueEntry)) (t : QueueDb)
      → Claims account now rows r t.rows
      → let m = roll_back rows (r, t) in Pulls account now rows m.0 m.1.rows
  unfolding transaction
  roll_back-Pulls (ok none) t c = c
  roll_back-Pulls (ok (some j)) t c = c
  roll_back-Pulls (err e) t c = refl

  rolled_back :
      (faults : List Bool)
      → let found = next_eligible account now rows in
        let (r, t) = claim_found now found (record { rows = rows; faults = faults }) in
        let m = roll_back rows (r, t) in Pulls account now rows m.0 m.1.rows
  rolled_back faults =
      let found = next_eligible account now rows in
      let m = claim_found now found (record { rows = rows; faults = faults }) in
      roll_back-Pulls m.0 m.1
        (claim_found-Claims found faults (next_eligible-Found account now rows))

  pull_next_from :
      (faults : List Bool)
      → let m = pull_next account now (record { rows = rows; faults = faults }) in
        Pulls account now rows m.0 m.1.rows
  unfolding pull_next
  pull_next_from [] = rolled_back []
  pull_next_from (true ∷ faults) = refl
  pull_next_from (false ∷ []) = rolled_back []
  pull_next_from (false ∷ true ∷ faults) = refl
  pull_next_from (false ∷ false ∷ faults) = rolled_back faults

-- Whatever statement fails, PullNext either leaves the rows as they were (after an error, and when
-- it returns no job, which it does only if no row of the account is eligible), or it returns a row
-- that was eligible and that no eligible row strictly precedes in (scheduled_at, created_at), and
-- then the table differs exactly in that the rows of its id are marked as sending at `now`.
pub pull_next-Pulls :
    (account : String) (now : ℤ) (t : QueueDb)
    → Pulls account now t.rows (pull_next account now t).0 (pull_next account now t).1.rows
pull_next-Pulls account now t = pull_next_from account now t.rows t.faults
