-- ===== src/Persistence/SyncStore/Tokens.antt =====
-- What the store of sync tokens in internal/persistence/store.go gives back.
use matfix.Shared.{
  ◌≡◌, refl, ap, inl, inr, String, true, List, [], ◌∷◌, ℤ, find_where, any_where, update_where,
  find_where-append, Bool-cases, eq_refl,
}
use matfix.Persistence.SyncStore.{SyncRow, of_account, token_of, stored_token, upsert_token}

module _ (account token : String) (now : ℤ) where
  find-update :
      (rows : List SyncRow)
      → any_where (of_account account) rows ≡ true
      → token_of (
          find_where (of_account account) (
            update_where
              (of_account account)
              (λ row. record row { next_batch = token; updated_at = now })
              rows))
        ≡ token
  unfolding find_where any_where update_where
  find-update [] h = absurd (cc)
  find-update (row ∷ rows) h = elim (Bool-cases (of_account account row)) [
    | inl own ↦ rw own (rw own refl)
    | inr other ↦ rw other (rw other (find-update rows (rw other at h)))
  ]

  -- What SetNextBatch writes is what GetNextBatch reads.
  pub stored_token-upsert_token :
      (rows : List SyncRow) → stored_token account (upsert_token account token now rows) ≡ token
  unfolding stored_token upsert_token
  stored_token-upsert_token rows = elim (Bool-cases (any_where (of_account account) rows)) [
    | inl known ↦ rw known (find-update rows known)
    | inr fresh ↦ rw fresh (
        ap token_of (
          find_where-append (of_account account) rows
            (record { account_id = account; next_batch = token; updated_at = now }) fresh
            (eq_refl account)))
  ]
