-- ===== src/Sync/Dedup.antt =====
-- internal/sync/dedup.go: which events of an account are dispatched.
pub mod Memory
use matfix.Shared.{String, Bool, true, false, not, ◌==◌, if◌then◌else◌, ℤ, Result, ok, err}
use matfix.Persistence.EventCache.{CacheDb, has, insert}

-- A failed lookup lets the event through.
unfoldable pub new_unless : Result Bool → Bool
new_unless (ok found) = not found
new_unless (err e) = true

module _ (account : String) where
  -- isSeen: despite its name, true says that the event is new.
  unfoldable pub is_seen : String → CacheDb → Bool × CacheDb
  unfolding new_unless has
  is_seen event t =
      if event == ""
      then (true, t)
      else (let (found, t') = has event account t in (new_unless found, t'))

  -- `now` is time.Now().UnixMilli(); an error is logged and ignored.
  unfoldable pub mark_seen : String → ℤ → CacheDb → CacheDb
  unfolding insert
  mark_seen event now t =
      if event == ""
      then t
      else (insert (record { event_id = event; account_id = account; seen_at = now }) t).1
