-- ===== src/Scenarios/Dedup.antt =====
-- The event cache and internal/sync/dedup.go at concrete inputs.
use matfix.Shared.{◌≡◌, refl, true, false, List, [], ◌∷◌, pos, arith}
use matfix.Persistence.Statement.{working}
use matfix.Persistence.EventCache.{EventCacheEntry, CacheDb, any_entry, prune}
use matfix.Sync.Dedup.{is_seen, mark_seen}
use matfix.Sync.Dedup.Memory.{is_since, Calls, stop, next, mark, clean, Calls-remembered}

abbrev one_row : List EventCacheEntry
one_row = record { event_id = "$a"; account_id = "bot"; seen_at = pos 50 } ∷ []

-- The driver fails at the second statement.
abbrev cache : CacheDb
cache = record { rows = one_row; faults = false ∷ true ∷ [] }

abbrev marked : CacheDb
marked = mark_seen "bot" "$b" (pos 70) cache

abbrev pruned : CacheDb
pruned = (prune (pos 40) marked).1

calls : Calls (pos 45) cache pruned
calls = next (next stop (mark "$b" "bot" (pos 70) refl)) (clean (pos 40) (omega arith) refl)

Calls-remembered_example : (is_seen "bot" "$a" (working pruned.rows)).0 ≡ false
unfolding any_entry is_since
Calls-remembered_example =
    Calls-remembered "$a" "bot" (pos 45) cache pruned (λ h. absurd (cc)) refl calls
