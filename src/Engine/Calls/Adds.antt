-- ===== src/Engine/Calls/Adds.antt =====
-- Which calls an action of the engine adds to those that were made.
use matfix.Shared.{◌≡◌, refl, sym, ◌∙◌, [], ◌∷◌, ◌++◌, Result, ok, err, Exec, ◌>>=◌, and_then, All}
use mathlib.Core.List.{append_assoc, append-nil}
use matfix.Engine.Calls.{ServerCall, Log, Mautrix, call}

module _ {K : Type 0} (P : ServerCall K → Type 0) where
  -- The log grows by calls that satisfy P.
  abbrev pub Grows : Log K → Log K → Type 0
  Grows log log' = (new : Log K) × (log' ≡ log ++ new) × All P new

  pub Grows-refl : (log : Log K) → Grows log log
  Grows-refl log = ([], sym (append-nil log), tt)

  All-append : (xs ys : Log K) → All P xs → All P ys → All P (xs ++ ys)
  All-append [] ys h k = k
  All-append (x ∷ xs) ys (h, hs) k = (h, All-append xs ys hs k)

  Grows-trans : (a b c : Log K) → Grows a b → Grows b c → Grows a c
  Grows-trans a b c (new, q, h) (more, r, k) =
      (new ++ more, r ∙ rw q (append_assoc a new more), All-append new more h k)

  pub call-Grows :
      (mx : Mautrix K) (c : ServerCall K) (log : Log K) → P c → Grows log (call mx c log).1
  unfolding call
  call-Grows mx c log h = (c ∷ [], refl, (h, tt))

  module _ {A B : Type 0} where
    after_result :
        (f : A → Exec (Log K) B) (r : Result A) (log log' : Log K)
        → Grows log log'
        → ((a : A) → r ≡ ok a → Grows log' (f a log').1)
        → Grows log (and_then r f log').1
    after_result f (ok a) log log' h k = Grows-trans log log' _ h (k a refl)
    after_result f (err e) log log' h k = h

    pub bind-Grows :
        (m : Exec (Log K) A) (f : A → Exec (Log K) B) (log : Log K)
        → Grows log (m log).1
        → ((a : A) → (m log).0 ≡ ok a → Grows (m log).1 (f a (m log).1).1)
        → Grows log ((m >>= f) log).1
    bind-Grows m f log h k = after_result f (m log).0 log (m log).1 h k
