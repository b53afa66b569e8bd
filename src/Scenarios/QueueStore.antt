-- ===== src/Scenarios/QueueStore.antt =====
-- internal/persistence/store.go and internal/queue/retry.go on small data.
use matfix.Shared.{
  ◌^◌, ◌<◌, ◌≡◌, refl, some, none, [], ◌∷◌, arith, ℤ, pos, ◌*ℤ◌, ◌≤ℤ◌, ok, pos_part,
}
use matfix.Persistence.Statement.{working}
use matfix.Persistence.Queue.{QueueEntry, queued, sending, pull_next}
use matfix.Persistence.Queue.Select.{Pulls, pull_next-Pulls}
use matfix.Queue.Retry.{Float64, IsExact, exponential, next_interval, next_scheduled_at}
use matfix.Queue.Retry.Bounds.{policy_of, next_interval_mono}

abbrev pub early : QueueEntry
early = record {
  id = "job-1";
  account_id = "alice";
  room_id = "!room:hs";
  payload = "hello";
  state = queued;
  retry_count = 0;
  scheduled_at = pos 0;
  idempotency_key = "k1";
  created_at = pos 10;
  updated_at = pos 10;
}

abbrev pub late : QueueEntry
late = record early {
  id = "job-2";
  scheduled_at = pos 50;
  idempotency_key = "";
  created_at = pos 5;
}

abbrev pub stuck : QueueEntry
stuck = record early { id = "job-3"; state = sending; idempotency_key = "" }

pull_takes_early :
    (pull_next "alice" (pos 60) (working (late ∷ early ∷ []))).0
    ≡ ok (some (record early { state = sending; updated_at = pos 60 }))
unfolding pull_next
pull_takes_early = refl

pull_waits : (pull_next "alice" (pos 40) (working (late ∷ []))).0 ≡ ok none
unfolding pull_next
pull_waits = refl

pull_next-Pulls_example :
    let m = pull_next "alice" (pos 60) (working (late ∷ early ∷ [])) in
    Pulls "alice" (pos 60) (late ∷ early ∷ []) m.0 m.1.rows
pull_next-Pulls_example = pull_next-Pulls "alice" (pos 60) (working (late ∷ early ∷ []))

-- Floats that are integers.
abbrev pub whole_floats : Float64
whole_floats = record {
  Float = ℤ;
  of_int = λ z. z;
  pow2 = λ z. pos (2 ^ pos_part z);
  times = λ a b. a *ℤ b;
  to_int64 = λ z. z;
}

pub whole_floats-IsExact : IsExact whole_floats
unfolding ◌*ℤ◌
whole_floats-IsExact = record { scaled = λ d k some_time h fits. ground arith }

next_interval_mono_example :
    let policy = policy_of 5 exponential 1000000000 300000000000 in
    (next_interval whole_floats policy 2 ≤ℤ next_interval whole_floats policy 9)
    × (0 < 300000000000 → next_interval whole_floats policy 9 ≤ℤ pos 300000000000)
    × (pos 77 ≤ℤ next_scheduled_at whole_floats policy 9 (pos 77))
next_interval_mono_example =
    next_interval_mono whole_floats whole_floats-IsExact 5 exponential 1000000000 300000000000 2 9
      (pos 77) (omega arith) (omega arith) (omega arith) (omega arith) (omega arith)
