-- ===== src/Queue/Retry/Bounds.antt =====
-- The intervals of internal/queue/retry.go against plain arithmetic.
use native.Mathlib.Nat.{pow-suc}
use matfix.Shared.{
  ℕ, zero, suc, ◌-◌, ◌*◌, ◌^◌, ◌≤◌, ◌<◌, ◌≡◌, refl, arith, ℤ, pos, negsuc, ◌+ℤ◌, ◌*ℤ◌, ◌≤ℤ◌, ltb,
  if◌then◌else◌, +ℤ_parts, ◌∙◌, ap,
}
use matfix.Queue.Retry.{
  BackoffPolicy, linear, exponential, RetryPolicy, Float64, IsExact, wrap64, backoff, cap,
  next_interval, next_scheduled_at,
}

-- What the documentation promises: n times the initial interval, or doubled at each further attempt.
abbrev pub planned : BackoffPolicy → ℕ → ℕ → ℕ
planned linear d n = d * n
planned exponential d n = d * 2 ^ (n - 1)

-- A maximum of 0 is none.
abbrev pub capped : ℕ → ℕ → ℕ
capped zero i = i
capped (suc m) i = if ltb (suc m) i then suc m else i

wrap64_small : (n : ℕ) → n < 2 ^ 63 → wrap64 (pos n) ≡ pos n
unfolding wrap64
wrap64_small n h = ground arith

pos-*ℤ : (a b : ℕ) → pos a *ℤ pos b ≡ pos (a * b)
unfolding ◌*ℤ◌
pos-*ℤ a b = ground arith

pos_pred : (n : ℕ) → 1 ≤ n → pos n +ℤ negsuc 0 ≡ pos (n - 1)
unfolding ◌+ℤ◌
pos_pred n h = ground arith

-- The policy with these values.
abbrev pub policy_of : ℕ → BackoffPolicy → ℕ → ℕ → RetryPolicy
policy_of max_retries b d m = record {
  max_retries = max_retries;
  backoff_policy = b;
  initial_interval = pos d;
  max_interval = pos m;
}

module _ (f : Float64) where
  cap_lem : (m i : ℕ) → cap f (pos m) (pos i) ≡ pos (capped m i)
  unfolding cap
  cap_lem zero i = refl
  cap_lem (suc m) i = ground arith

pow_pos : (b : ℕ) → 1 ≤ 2 ^ b
pow_pos zero = omega arith
pow_pos (suc b) = omega (arith, pow-suc 2 b, pow_pos b)

pow_mono : (a b : ℕ) → a ≤ b → 2 ^ a ≤ 2 ^ b
pow_mono zero b h = pow_pos b
pow_mono (suc a) zero h = absurd (omega arith)
pow_mono (suc a) (suc b) h = omega (arith, pow-suc 2 b, pow-suc 2 a, pow_mono a b)

mul_mono : (d a b : ℕ) → a ≤ b → d * a ≤ d * b
mul_mono d a b h = grind arith

planned_mono : (b : BackoffPolicy) (d n k : ℕ) → n ≤ k → planned b d n ≤ planned b d k
planned_mono linear d n k h = grind arith
planned_mono exponential d n k h =
    let p = pow_mono (n - 1) (k - 1) (omega arith) in
    grind (arith, mul_mono d (2 ^ (n - 1)) (2 ^ (k - 1)) p)

capped_le : (m i : ℕ) → 0 < m → capped m i ≤ m
capped_le zero i h = absurd (omega arith)
capped_le (suc m) i h = ground arith

capped_mono : (m i j : ℕ) → i ≤ j → capped m i ≤ capped m j
capped_mono zero i j h = h
capped_mono (suc m) i j h = ground arith

module _ (f : Float64) (exact : IsExact f) where
  backoff_lem :
      (max_retries d m n : ℕ)
      → 1 ≤ d
      → d < 2 ^ 53
      → (b : BackoffPolicy) → 1 ≤ n
      → planned b d n < 2 ^ 63
      → backoff f (policy_of max_retries b d m) b n ≡ pos (planned b d n)
  unfolding backoff
  backoff_lem r d m n some_time h linear p fits = ap wrap64 (pos-*ℤ d n) ∙ wrap64_small (d * n) fits
  backoff_lem r d m n some_time h exponential p fits =
      ap (λ x. f.to_int64 (f.times (f.of_int (pos d)) (f.pow2 (f.of_int x)))) (pos_pred n p)
      ∙ exact.scaled d (n - 1) some_time h fits

  -- Where float64 is exact on the values met, the initial interval is from 1 to 2^53 - 1 ns and the planned
  -- interval fits an int64, attempt n waits exactly the planned interval (the initial one times n,
  -- or doubled n - 1 times), cut at the maximum if there is one.
  next_interval-eq-capped :
      (max_retries : ℕ) (b : BackoffPolicy) (d m n : ℕ)
      → 1 ≤ d
      → d < 2 ^ 53
      → 1 ≤ n
      → planned b d n < 2 ^ 63
      → next_interval f (policy_of max_retries b d m) n ≡ pos (capped m (planned b d n))
  unfolding next_interval
  next_interval-eq-capped r b d m n some_time h p fits =
      ap (cap f (pos m)) (backoff_lem r d m n some_time h b p fits) ∙ cap_lem f m (planned b d n)

  -- Where float64 is exact on the values met, the initial interval is from 1 to 2^53 - 1 ns and the
  -- planned interval of the later attempt fits an int64, a later attempt never waits less, no attempt
  -- waits more than a maximum that is set, and the schedule is never before `now`.
  pub next_interval_mono :
      (max_retries : ℕ) (b : BackoffPolicy) (d m n k : ℕ) (now : ℤ)
      → 1 ≤ d
      → d < 2 ^ 53
      → 1 ≤ n
      → n ≤ k
      → planned b d k < 2 ^ 63
      → let policy = policy_of max_retries b d m in
        (next_interval f policy n ≤ℤ next_interval f policy k)
        × (0 < m → next_interval f policy k ≤ℤ pos m)
        × (now ≤ℤ next_scheduled_at f policy k now)
  unfolding next_scheduled_at
  next_interval_mono r b d m n k now some_time h p q fits =
      let low = planned_mono b d n k q in
      let en = next_interval-eq-capped r b d m n some_time h p (omega arith) in
      let ek = next_interval-eq-capped r b d m k some_time h (omega arith) fits in
      rw (en, ek)
        (
          omega (arith, capped_mono m (planned b d n) (planned b d k) low),
          (λ z. omega (arith, capped_le m (planned b d k) z)),
          (omega (arith, +ℤ_parts now (pos (capped m (planned b d k))))),
        )
