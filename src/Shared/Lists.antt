-- ===== src/Shared/Lists.antt =====
-- Lists measured by native numbers, and the predicates on lists that the proofs go by.
use Prim.Native.Nat.{ℕ, suc, ◌+◌}
use mathlib.Core.Path.{◌≡◌, refl}
use mathlib.Core.Bool.{Bool, true, false, ◌||◌}
use mathlib.Core.Option.{Option, none, some}
use matfix.Shared.Tests.{if◌then◌else◌, Bool-cases}
use mathlib.Core.Logic.{◌⊎◌, inl, inr}
use mathlib.Core.List.{List, [], ◌∷◌, ◌++◌}
use native.Mathlib.Omega.{arith}

module _ {ℓ} {A : Type ℓ} where
  abbrev pub length : List A → ℕ
  length [] = 0
  length (x ∷ xs) = suc (length xs)

  pub length-append : (xs ys : List A) → length (xs ++ ys) ≡ length xs + length ys
  length-append [] ys = omega arith
  length-append (x ∷ xs) ys = omega (arith, length-append xs ys)

-- Each item satisfies the predicate.
abbrev pub All {ℓ κ} : {A : Type ℓ} → (A → Type κ) → List A → Type κ
All P [] = Unit
All P (x ∷ xs) = P x × All P xs

-- The item is one of the list, at a place that the proof names.
abbrev pub IsIn : {A : Type 0} → A → List A → Type 0
IsIn a [] = ⊥
IsIn a (x ∷ xs) = (a ≡ x) ⊎ IsIn a xs

module _ {A : Type 0} where
  pub IsIn-left : (a : A) (xs ys : List A) → IsIn a xs → IsIn a (xs ++ ys)
  IsIn-left a [] ys h = absurd h
  IsIn-left a (x ∷ xs) ys (inl q) = inl q
  IsIn-left a (x ∷ xs) ys (inr h) = inr (IsIn-left a xs ys h)

  pub IsIn-right : (a : A) (xs ys : List A) → IsIn a ys → IsIn a (xs ++ ys)
  IsIn-right a [] ys h = h
  IsIn-right a (x ∷ xs) ys h = inr (IsIn-right a xs ys h)

  IsIn-append : (a : A) (xs ys : List A) → IsIn a (xs ++ ys) → IsIn a xs ⊎ IsIn a ys
  IsIn-append a [] ys h = inr h
  IsIn-append a (x ∷ xs) ys (inl q) = inl (inl q)
  IsIn-append a (x ∷ xs) ys (inr h) = elim (IsIn-append a xs ys h) [
    | inl here ↦ inl (inr here)
    | inr there ↦ inr there
  ]

  -- What each item of two lists satisfies.
  pub both_lists {κ} :
      (P : A → Type κ) (xs ys : List A)
      → ((a : A) → IsIn a xs → P a)
      → ((a : A) → IsIn a ys → P a)
      → (a : A) → IsIn a (xs ++ ys)
      → P a
  both_lists P xs ys f g a h = elim (IsIn-append a xs ys h) [
    | inl here ↦ f a here
    | inr there ↦ g a there
  ]

-- The first item that a test selects.
module _ {ℓ} {A : Type ℓ} where
  unfoldable pub find_where : (A → Bool) → List A → Option A
  find_where p [] = none
  find_where p (x ∷ xs) = if p x then some x else find_where p xs

  unfoldable pub any_where : (A → Bool) → List A → Bool
  any_where p [] = false
  any_where p (x ∷ xs) = p x || any_where p xs

  -- Each item that a test selects is changed ...
  unfoldable pub update_where : (A → Bool) → (A → A) → List A → List A
  update_where p f [] = []
  update_where p f (x ∷ xs) = (if p x then f x else x) ∷ update_where p f xs

  -- ... or left out.
  unfoldable pub delete_where : (A → Bool) → List A → List A
  delete_where p [] = []
  delete_where p (x ∷ xs) = let rest = delete_where p xs in if p x then rest else x ∷ rest

  pub find_where-append :
      (p : A → Bool) (xs : List A) (x : A)
      → any_where p xs ≡ false
      → p x ≡ true
      → find_where p (xs ++ x ∷ []) ≡ some x
  unfolding find_where any_where
  find_where-append p [] x h q = rw q refl
  find_where-append p (y ∷ ys) x h q = ground (arith, find_where-append p ys x)

  -- What is found is selected.
  pub find_where-eq-some :
      (p : A → Bool) (xs : List A) (x : A) → find_where p xs ≡ some x → p x ≡ true
  unfolding find_where
  find_where-eq-some p [] x h = absurd (cc)
  find_where-eq-some p (y ∷ ys) x h = ground (arith, find_where-eq-some p ys x)

  pub find_where-All {κ} :
      (P : A → Type κ) (p : A → Bool) (xs : List A) (x : A)
      → All P xs
      → find_where p xs ≡ some x
      → P x
  unfolding find_where
  find_where-All P p [] x a h = absurd (cc)
  find_where-All P p (y ∷ ys) x a h = elim (Bool-cases (p y)) [
    | inl q ↦ let e : y ≡ x = (let r = rw q at h in cc) in rw (← e) a.0
    | inr q ↦ find_where-All P p ys x a.1 (rw q at h)
  ]
