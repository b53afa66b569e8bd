-- ===== src/Correlation/Manager/Heap.antt =====
-- Writes at the addresses of internal/correlation's objects.
use matfix.Shared.{
  ◌≡◌, ◌≢◌, refl, sym, ◌∙◌, ◌⊎◌, inl, inr, ℕ, ◌+◌, ◌≤◌, ◌<◌, Option, none, some, eqb, arith,
  Bool-cases,
}
use native.Mathlib.Decide.{dec_lt}
use matfix.Correlation.Manager.{put}

abbrev pub Heap : Type 0 → Type 0
Heap A = ℕ → Option A

module _ {A : Type 0} where
  pub put_cases :
      (k j : ℕ) (a : A) (f : Heap A)
      → ((k ≡ j) × (put k (some a) f j ≡ some a)) ⊎ ((k ≢ j) × (put k (some a) f j ≡ f j))
  unfolding put
  put_cases k j a f = elim (Bool-cases (eqb k j)) [
    | inl h ↦ inl (ground arith, rw h refl)
    | inr h ↦ inr (ground arith, rw h refl)
  ]

  pub All-put :
      (P : A → Type 0) (k : ℕ) (a : A) (f : Heap A)
      → ((j : ℕ) (b : A) → f j ≡ some b → P b)
      → P a
      → (j : ℕ) (b : A) → put k (some a) f j ≡ some b
      → P b
  All-put P k a f all p j b h = elim (put_cases k j a f) [
    | inl (e, q) ↦ rw (← (let same_object : a ≡ b = cc in same_object)) p
    | inr (e, q) ↦ all j b (sym q ∙ h)
  ]

  -- Addresses from `n` on are free.
  abbrev pub IsFree : ℕ → Heap A → Type 0
  IsFree n f = (k : ℕ) → n ≤ k → f k ≡ none

  pub used-lt : (n k : ℕ) (a : A) (f : Heap A) → IsFree n f → f k ≡ some a → k < n
  used-lt n k a f free h = elim (dec_lt k n) [ yes p ↦ p | no p ↦ absurd (ground (arith, free k)) ]

  pub IsFree-put : (n k : ℕ) (a : A) (f : Heap A) → k < n → IsFree n f → IsFree n (put k (some a) f)
  IsFree-put n k a f lt free j le = elim (put_cases k j a f) [
    | inl (e, q) ↦ absurd (omega arith)
    | inr (e, q) ↦ q ∙ free j le
  ]

  pub IsFree-suc : (n : ℕ) (f : Heap A) → IsFree n f → IsFree (n + 1) f
  IsFree-suc n f free k le = free k (omega arith)

  -- What stood at an address, after a write to a free one ...
  pub put-used :
      (n j : ℕ) (a b : A) (f : Heap A) → IsFree n f → f j ≡ some b → put n (some a) f j ≡ some b
  put-used n j a b f free h = elim (put_cases n j a f) [
    | inl (e, q) ↦ absurd (omega (arith, used-lt n j b f free h))
    | inr (e, q) ↦ q ∙ h
  ]

  pub put-same : (k : ℕ) (a : A) (f : Heap A) → put k (some a) f k ≡ some a
  unfolding put
  put-same k a f = ground arith
