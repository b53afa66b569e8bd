-- ===== src/Persistence/Statement.antt =====
-- One call of ExecContext, QueryRowContext or QueryContext of internal/persistence/store.go.
use matfix.Shared.{
  List, [], ◌∷◌, Bool, true, false, Result, ok, err, database, Exec, ◌≡◌, ◌⊎◌, inl, inr, refl,
}

-- A table and the fate of the statements to come: `true` is one at which the driver fails. Past
-- the end of `faults` every statement runs.
pub record Table {ℓ} (R : Type ℓ) : Type ℓ where
  pub rows : List R
  pub faults : List Bool

module _ {ℓ} {R A : Type ℓ} where
  -- What a statement that runs does: `run` may refuse a row by a constraint of the schema, and then
  -- nothing is written.
  settle : Result (A × List R) → List R → List Bool → Result A × Table R
  settle (ok (a, rows)) old faults = (ok a, record { rows = rows; faults = faults })
  settle (err e) old faults = (err e, record { rows = old; faults = faults })

  attempt : List Bool → (List R → Result (A × List R)) → List R → Result A × Table R
  unfolding settle
  attempt [] run rows = settle (run rows) rows []
  attempt (true ∷ faults) run rows = (err database, record { rows = rows; faults = faults })
  attempt (false ∷ faults) run rows = settle (run rows) rows faults

  unfoldable pub statement : (List R → Result (A × List R)) → Exec (Table R) A
  unfolding attempt
  statement run t = attempt t.faults run t.rows

  -- Rollback: the rows are those from before, the fate of the later statements is not.
  unfoldable pub roll_back : List R → Result A × Table R → Result A × Table R
  roll_back old (ok a, t) = (ok a, t)
  roll_back old (err e, t) = (err e, record t { rows = old })

  -- BeginTx ... Commit with a deferred Rollback; `body` holds the statements between.
  unfoldable pub transaction : Exec (Table R) A → Exec (Table R) A
  unfolding roll_back
  transaction body t = roll_back t.rows (body t)

  -- A statement that reads with `a` and writes with `g` fails at the driver and writes nothing, or
  -- does both.
  pub statement_cases :
      (a : List R → A) (g : List R → List R) (t : Table R)
      → (rest : List Bool) × ((statement (λ rows. ok (a rows, g rows)) t
            ≡ (err database, record { rows = t.rows; faults = rest }))
          ⊎ (statement (λ rows. ok (a rows, g rows)) t
              ≡ (ok (a t.rows), record { rows = g t.rows; faults = rest })))
  unfolding statement
  statement_cases a g t = by_faults t.faults
    where
      by_faults :
          (fs : List Bool)
          → (rest : List Bool) × ((attempt fs (λ rows. ok (a rows, g rows)) t.rows
                ≡ (err database, record { rows = t.rows; faults = rest }))
              ⊎ (attempt fs (λ rows. ok (a rows, g rows)) t.rows
                  ≡ (ok (a t.rows), record { rows = g t.rows; faults = rest })))
      by_faults [] = ([], inr refl)
      by_faults (true ∷ fs) = (fs, inl refl)
      by_faults (false ∷ fs) = (fs, inr refl)

abbrev pub working {ℓ} : {R : Type ℓ} → List R → Table R
working rows = record { rows = rows; faults = [] }
