-- ===== src/Sync/Dedup/Memory.antt =====
-- The event cache as the memory of internal/sync/dedup.go.
use matfix.Shared.{
  ◌≡◌, ◌≢◌, String, Bool, true, false, ◌&&◌, ◌||◌, not, List, [], ◌∷◌, ◌++◌, ◌==◌, arith,
  if◌then◌else◌, ℤ, leb_ℤ, ◌≤ℤ◌, eq_iff,
}
use matfix.Persistence.Statement.{working}
use matfix.Persistence.EventCache.{
  EventCacheEntry, CacheDb, is_of, any_entry, has, insert_entry, keep_since, prune,
}
use matfix.Sync.Dedup.{is_seen, mark_seen}

abbrev entry : String → String → ℤ → EventCacheEntry
entry event account now = record { event_id = event; account_id = account; seen_at = now }

any_entry-append :
    (p : EventCacheEntry → Bool) (rows : List EventCacheEntry) (new : EventCacheEntry)
    → any_entry p (rows ++ new ∷ []) ≡ (any_entry p rows || p new)
unfolding any_entry
any_entry-append p [] new = ground arith
any_entry-append p (e ∷ es) new = ground (arith, any_entry-append p es new)

-- An entry of the key, seen at `horizon` or later.
unfoldable pub is_since : String → String → ℤ → EventCacheEntry → Bool
unfolding is_of
is_since event account horizon e = is_of event account e && leb_ℤ horizon e.seen_at

-- The calls on the cache, with whatever failures.
pub data Call (horizon : ℤ) (t t' : CacheDb) : Type 0 where
  look : (event account : String) → t' ≡ (is_seen account event t).1 → Call horizon t t'
  mark : (event account : String) (now : ℤ) → t' ≡ mark_seen account event now t → Call horizon t t'
  clean : (before : ℤ) → before ≤ℤ horizon → t' ≡ (prune before t).1 → Call horizon t t'

pub data Calls (horizon : ℤ) (t : CacheDb) : CacheDb → Type 0 where
  stop : Calls horizon t t
  next : {u t' : CacheDb} → Calls horizon t u → Call horizon u t' → Calls horizon t t'

module _ (event account : String) (horizon : ℤ) where
  abbrev pub IsHeld : CacheDb → Type 0
  IsHeld t = any_entry (is_since event account horizon) t.rows ≡ true

  insert-IsHeld :
      (new : EventCacheEntry) (rows : List EventCacheEntry)
      → any_entry (is_since event account horizon) rows ≡ true
      → any_entry (is_since event account horizon) (insert_entry new rows) ≡ true
  unfolding insert_entry
  insert-IsHeld new rows h =
      ground (arith, any_entry-append (is_since event account horizon) rows new)

  keep_since-IsHeld :
      (before : ℤ) (le : before ≤ℤ horizon) (rows : List EventCacheEntry)
      → any_entry (is_since event account horizon) rows ≡ true
      → any_entry (is_since event account horizon) (keep_since before rows) ≡ true
  unfolding any_entry keep_since is_since
  keep_since-IsHeld before le [] h = h
  keep_since-IsHeld before le (e ∷ es) h = ground (arith, keep_since-IsHeld before le es)

  held_has :
      (rows : List EventCacheEntry)
      → any_entry (is_since event account horizon) rows ≡ true
      → any_entry (is_of event account) rows ≡ true
  unfolding any_entry is_since
  held_has [] h = h
  held_has (e ∷ es) h = ground (arith, held_has es)

  mark-IsHeld :
      (k other : String) (now : ℤ) (rows : List EventCacheEntry) (faults : List Bool)
      → IsHeld (record { rows = rows; faults = faults })
      → IsHeld (mark_seen other k now (record { rows = rows; faults = faults }))
  unfolding mark_seen
  mark-IsHeld k other now rows [] h = ground (arith, insert-IsHeld (entry k other now) rows h)
  mark-IsHeld k other now rows (true ∷ fs) h = ground arith
  mark-IsHeld k other now rows (false ∷ fs) h =
      ground (arith, insert-IsHeld (entry k other now) rows h)

  look-IsHeld :
      (k other : String) (rows : List EventCacheEntry) (faults : List Bool)
      → IsHeld (record { rows = rows; faults = faults })
      → IsHeld (is_seen other k (record { rows = rows; faults = faults })).1
  unfolding is_seen
  look-IsHeld k other rows [] h = ground arith
  look-IsHeld k other rows (true ∷ fs) h = ground arith
  look-IsHeld k other rows (false ∷ fs) h = ground arith

  clean-IsHeld :
      (before : ℤ) (rows : List EventCacheEntry) (faults : List Bool)
      → before ≤ℤ horizon
      → IsHeld (record { rows = rows; faults = faults })
      → IsHeld (prune before (record { rows = rows; faults = faults })).1
  unfolding prune
  clean-IsHeld before rows [] le h = keep_since-IsHeld before le rows h
  clean-IsHeld before rows (true ∷ fs) le h = h
  clean-IsHeld before rows (false ∷ fs) le h = keep_since-IsHeld before le rows h

  Call-IsHeld : (t t' : CacheDb) → Call horizon t t' → IsHeld t → IsHeld t'
  Call-IsHeld t t' (look k other p) h = rw p (look-IsHeld k other t.rows t.faults h)
  Call-IsHeld t t' (mark k other now p) h = rw p (mark-IsHeld k other now t.rows t.faults h)
  Call-IsHeld t t' (clean before le p) h = rw p (clean-IsHeld before t.rows t.faults le h)

  Calls-IsHeld : (t t' : CacheDb) → Calls horizon t t' → IsHeld t → IsHeld t'
  Calls-IsHeld t t' stop h = h
  Calls-IsHeld t t' (next {u} cs c) h = Call-IsHeld u t' c (Calls-IsHeld t u cs h)

  -- Once an event other than the empty ID is in the cache with a time from `horizon` on, then after
  -- any lookups and marks of any events and any prunes of what is older than `horizon`, whatever
  -- statements fail, isSeen finds it to be no new event if its lookup runs.
  pub Calls-remembered :
      (t t' : CacheDb)
      → event ≢ ""
      → IsHeld t
      → Calls horizon t t'
      → (is_seen account event (working t'.rows)).0 ≡ false
  unfolding is_seen has
  Calls-remembered t t' some h cs =
      ground (arith, held_has t'.rows (Calls-IsHeld t t' cs h), eq_iff event "")

mark_entry :
    (k other : String) (new : EventCacheEntry) (rows : List EventCacheEntry)
    → any_entry (is_of k other) (insert_entry new rows)
      ≡ (any_entry (is_of k other) rows || is_of k other new)
unfolding insert_entry
mark_entry k other new rows = ground (
  arith,
  any_entry-append (is_of k other) rows new,
  eq_iff new.event_id k,
  eq_iff new.account_id other,
)

-- On a driver that works, marking an event changes the answer of isSeen for that event of that
-- account alone, which is no longer new; an event without an ID stays new.
pub is_seen-mark_seen :
    (account other event k : String) (now : ℤ) (rows : List EventCacheEntry)
    → (is_seen other k (working (mark_seen account event now (working rows)).rows)).0 ≡ (
        if not (k == "") && (k == event && other == account)
        then false
        else (is_seen other k (working rows)).0)
unfolding is_seen mark_seen
is_seen-mark_seen account other event k now rows = ground (
  arith,
  mark_entry k other (entry event account now) rows,
  eq_iff k event,
  eq_iff event k,
  eq_iff account other,
  eq_iff other account,
)
