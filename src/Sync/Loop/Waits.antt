-- ===== src/Sync/Loop/Waits.antt =====
-- The backoff of internal/sync/loop.go while the homeserver does not answer.
use native.Mathlib.Nat.{pow-suc}
use matfix.Shared.{
  String, ◌≡◌, refl, ap, ◌∙◌, inl, inr, ℕ, zero, suc, ◌*◌, ◌^◌, none, some, List, [], ◌∷◌, ◌++◌, ℤ,
  pos, ◌*ℤ◌, leb, if◌then◌else◌, All, length, arith,
}
use mathlib.Core.List.{append_assoc, append-nil}
use matfix.Persistence.Statement.{statement_cases}
use matfix.Persistence.SyncStore.{stored_token, get_next_batch}
use matfix.Sync.Event.{Mautrix}
use matfix.Sync.Handlers.{Manager}
use matfix.Sync.Loop.{
  look, ReqSync, Turn, Touched, request, clamp_duration, max_backoff, after_failure, after_request,
  loop, run,
}

-- The wait after `i` failures in a row: 2 ^ i seconds, and a minute at most.
abbrev pub planned_wait : ℕ → ℤ
planned_wait i = pos ((if leb (2 ^ i) 60 then 2 ^ i else 60) * 1000000000)

abbrev pub planned_waits : ℕ → ℕ → List ℤ
planned_waits i zero = []
planned_waits i (suc n) = planned_wait i ∷ planned_waits (suc i) n

double_pos : (n : ℕ) → pos n *ℤ pos 2 ≡ pos (n * 2)
unfolding ◌*ℤ◌
double_pos n = ground arith

clamp_pos : (a b : ℕ) → clamp_duration (pos a) (pos b) ≡ pos (if leb a b then a else b)
unfolding clamp_duration
clamp_pos a b = ground arith

doubled_wait :
    (n : ℕ)
    → clamp_duration (pos ((if leb n 60 then n else 60) * 1000000000) *ℤ pos 2) max_backoff
      ≡ pos ((if leb (n * 2) 60 then n * 2 else 60) * 1000000000)
doubled_wait n =
    rw (double_pos ((if leb n 60 then n else 60) * 1000000000)) (
      clamp_pos ((if leb n 60 then n else 60) * 1000000000 * 2) 60000000000 ∙ ap pos (ground arith))

next_wait : (i : ℕ) → clamp_duration (planned_wait i *ℤ pos 2) max_backoff ≡ planned_wait (suc i)
next_wait i = rw (pow-suc 2 i) (doubled_wait (2 ^ i))

module _ {x : Mautrix} (m : Manager x) (fuel : ℕ) where
  abbrev pub IsDown : Turn x → Type 0
  IsDown t = (q : ReqSync) → t.reply q ≡ none

  loop-waits :
      (ts : List (Turn x)) (since : String) (i : ℕ) (w : Touched)
      → All IsDown ts
      → w.ctx ≡ none
      → loop m fuel ts since (planned_wait i) w
        ≡ some (record w { waits = w.waits ++ planned_waits i (length ts) })
  unfolding loop after_request after_failure look
  loop-waits [] since i w down live = rw (append-nil w.waits) refl
  loop-waits (t ∷ ts) since i w (down, later) live = rw live (
      rw (down (request since)) (
        rw (next_wait i) (
          loop-waits ts since (suc i)
            (record w { ctx = none; waits = w.waits ++ planned_wait i ∷ [] }) later refl
          ∙ ap (λ l. some (record w { ctx = none; waits = l }))
              (append_assoc w.waits (planned_wait i ∷ []) (planned_waits (suc i) (length ts))))))

  -- While no request is answered and nothing cancels the loop, the run waits 1, 2, 4 seconds and so
  -- on between the requests, and a minute from the seventh on; it publishes nothing and keeps the
  -- stored tokens.
  pub run-waits :
      (ts : List (Turn x)) (w : Touched)
      → All IsDown ts
      → w.ctx ≡ none
      → (w' : Touched) × (run m fuel ts w ≡ some w')
        × (w'.waits ≡ w.waits ++ planned_waits 0 (length ts))
        × (w'.bus ≡ w.bus)
        × (w'.store.rows ≡ w.store.rows)
  unfolding run get_next_batch
  run-waits ts w down live =
      let (rest, cases) = statement_cases (stored_token m.account_id) (λ rows. rows) w.store in
      elim cases [
        | inl failed ↦
            rw failed (_, loop-waits ts "" 0 (record w { store = _ }) down live, refl, refl, refl)
        | inr read ↦ rw read (
          _,
          loop-waits ts (stored_token m.account_id w.store.rows) 0 (record w { store = _ }) down
              live,
          refl,
          refl,
          refl,
        )
      ]
