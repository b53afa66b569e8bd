-- ===== src/Persistence/EventCache.antt =====
-- sqlEventCacheStore of internal/persistence/store.go over schema/005_event_cache.sql.
use matfix.Shared.{
  ℕ, suc, String, Bool, false, ◌&&◌, ◌||◌, List, [], ◌∷◌, ◌++◌, ◌==◌, if◌then◌else◌, ℤ, ltb_ℤ, ok,
  Exec,
}
use matfix.Persistence.Statement.{Table, statement}

pub record EventCacheEntry : Type 0 where
  pub event_id : String
  pub account_id : String
  pub seen_at : ℤ

abbrev pub CacheDb : Type 0
CacheDb = Table EventCacheEntry

-- The primary key (event_id, account_id).
unfoldable pub is_of : String → String → EventCacheEntry → Bool
is_of event account e = e.event_id == event && e.account_id == account

unfoldable pub any_entry : (EventCacheEntry → Bool) → List EventCacheEntry → Bool
any_entry p [] = false
any_entry p (e ∷ es) = p e || any_entry p es

unfoldable pub has : String → String → Exec CacheDb Bool
unfolding statement any_entry is_of
has event account = statement (λ rows. ok (any_entry (is_of event account) rows, rows))

-- ON CONFLICT (event_id, account_id) DO NOTHING: an older row keeps its time.
unfoldable pub insert_entry : EventCacheEntry → List EventCacheEntry → List EventCacheEntry
unfolding any_entry is_of
insert_entry new rows =
    if any_entry (is_of new.event_id new.account_id) rows then rows else rows ++ new ∷ []

unfoldable pub insert : EventCacheEntry → Exec CacheDb (Unit {0})
unfolding statement insert_entry
insert entry = statement (λ rows. ok (tt, insert_entry entry rows))

-- DELETE ... WHERE seen_at < ?
unfoldable pub keep_since : ℤ → List EventCacheEntry → List EventCacheEntry
keep_since before [] = []
keep_since before (e ∷ es) =
    let rest = keep_since before es in if ltb_ℤ e.seen_at before then rest else e ∷ rest

unfoldable pub count_before : ℤ → List EventCacheEntry → ℕ
count_before before [] = 0
count_before before (e ∷ es) =
    let rest = count_before before es in if ltb_ℤ e.seen_at before then suc rest else rest

-- The result is the number of rows deleted.
unfoldable pub prune : ℤ → Exec CacheDb ℕ
unfolding statement keep_since count_before
prune before = statement (λ rows. ok (count_before before rows, keep_since before rows))
