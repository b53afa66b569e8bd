-- ===== src/Shared/Outcome.antt =====
-- Fallible code: a result, and actions on a state that may fail. What an action wrote before it
-- failed stays written, so the state comes back beside the error too.
use mathlib.Core.Path.{◌≡◌, refl}
use mathlib.Core.Logic.{◌⊎◌, inl, inr}
use mathlib.Core.Bool.{Bool, true, false}
use mathlib.Core.Option.{Option, none, some}

-- The causes that the code tells apart. The texts of the messages are not modelled.
pub data Error : Type 0 where
  -- persistence: the driver failed, or a constraint of the schema refused a row
  database constraint : Error
  -- queue: json.Marshal or json.Unmarshal failed, or an unknown discriminator was read
  codec unknown_payload : Error
  -- submission
  unknown_account invalid_destination nil_message unavailable unresolved : Error
  -- engine: the homeserver refused or could not be reached
  homeserver : Error
  -- engine: no media manager is configured
  no_media : Error
  -- account: no account could be started
  all_accounts_failed : Error
  -- correlation: what validation of a filter refuses
  empty_all_of empty_any_of invalid_regex bad_window empty_set : Error

pub data Result {ℓ} (A : Type ℓ) : Type ℓ where
  ok : A → Result A
  err : Error → Result A

pub Result-cases {ℓ} :
    {A : Type ℓ} (r : Result A) → ((a : A) × (r ≡ ok a)) ⊎ ((e : Error) × (r ≡ err e))
Result-cases (ok a) = inl (a, refl)
Result-cases (err e) = inr (e, refl)

abbrev pub Exec {ℓ} : Type ℓ → Type ℓ → Type ℓ
Exec S A = S → Result A × S

module _ {ℓ} {S A : Type ℓ} where
  abbrev pub pure : A → Exec S A
  pure a s = (ok a, s)

  abbrev pub raise : Error → Exec S A
  raise e s = (err e, s)

  abbrev pub lift : Result A → Exec S A
  lift r s = (r, s)

module _ {ℓ} {S A B : Type ℓ} where
  abbrev pub and_then : Result A → (A → Exec S B) → Exec S B
  and_then (ok a) f s = f a s
  and_then (err e) f s = (err e, s)

  infixl 5 ◌>>=◌ ◌>>◌
  abbrev pub ◌>>=◌ : Exec S A → (A → Exec S B) → Exec S B
  ◌>>=◌ m f s = let (r, s') = m s in and_then r f s'

  abbrev pub ◌>>◌ : Exec S A → Exec S B → Exec S B
  m >> n = m >>= λ _. n

-- A chain that succeeds, taken apart.
module _ {ℓ} {S A B : Type ℓ} where
  result-eq-ok :
      (f : A → Exec S B) (r : Result A) (s : S) {b : B}
      → (and_then r f s).0 ≡ ok b
      → (a : A) × (r ≡ ok a) × (and_then r f s ≡ f a s) × ((f a s).0 ≡ ok b)
  result-eq-ok f (ok a) s h = (a, refl, refl, h)
  result-eq-ok f (err e) s h = absurd (cc)

  pub bind-eq-ok :
      (m : Exec S A) (f : A → Exec S B) (s : S) {b : B}
      → ((m >>= f) s).0 ≡ ok b
      → (a : A) × ((m s).0 ≡ ok a) × ((m >>= f) s ≡ f a (m s).1) × ((f a (m s).1).0 ≡ ok b)
  bind-eq-ok m f s h = result-eq-ok f (m s).0 (m s).1 h

-- A chain of fallible steps with no state.
module _ {ℓ κ} {A : Type ℓ} {B : Type κ} where
  abbrev pub chain : Result A → (A → Result B) → Result B
  chain (ok a) f = f a
  chain (err e) f = err e

  pub chain-eq-ok :
      (r : Result A) (f : A → Result B) {b : B}
      → chain r f ≡ ok b
      → (a : A) × (r ≡ ok a) × (f a ≡ ok b)
  chain-eq-ok (ok a) f h = (a, refl, h)
  chain-eq-ok (err e) f h = absurd (cc)

abbrev pub refuse_if : Bool → Error → Result (Unit {0})
refuse_if true e = err e
refuse_if false e = ok tt

-- A chain of steps that may give no value.
module _ {ℓ κ} {A : Type ℓ} {B : Type κ} where
  abbrev pub if_some : Option A → (A → Option B) → Option B
  if_some none f = none
  if_some (some a) f = f a
