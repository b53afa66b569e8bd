-- ===== src/Admin/Views.antt =====
-- internal/admin/routes/inspect.go and internal/api/admin.go and health.go: what the administration
-- is shown. The two files have the same handlers, but for the subscriptions.
pub mod Counts
use matfix.Shared.{
  ℕ, zero, suc, String, Bool, true, false, ◌&&◌, not, Option, List, [], ◌∷◌, ◌==◌, if◌then◌else◌, ℤ,
  pos, ltb_ℤ, Result, ok, err, Error,
}
use matfix.Persistence.Queue.{
  State, accepted, queued, sending, sent, acknowledged, failed, dead_letter, QueueEntry, QueueDb,
}
use matfix.Persistence.Queue.Listing.{list_by_state}
use matfix.Persistence.Correlations.{CorrelationEntry, CorrelationDb, list_active}
use matfix.Account.{AccountContext, is_available, available_accounts}
use matfix.Api.Response.{Response, failure, success}

pub record QueueCounts : Type 0 where
  pub queued_jobs : ℕ
  pub sending_jobs : ℕ
  pub failed_jobs : ℕ
  pub dead_jobs : ℕ

abbrev pub no_jobs : QueueCounts
no_jobs = record { queued_jobs = 0; sending_jobs = 0; failed_jobs = 0; dead_jobs = 0 }

-- The switch over the state of an entry.
unfoldable pub count_state : State → QueueCounts → QueueCounts
count_state queued c = record c { queued_jobs = suc c.queued_jobs }
count_state sending c = record c { sending_jobs = suc c.sending_jobs }
count_state failed c = record c { failed_jobs = suc c.failed_jobs }
count_state dead_letter c = record c { dead_jobs = suc c.dead_jobs }
count_state _ c = c

unfoldable pub count_entries : List QueueEntry → QueueCounts → QueueCounts
unfolding count_state
count_entries [] c = c
count_entries (e ∷ entries) c = count_entries entries (count_state e.state c)

abbrev pub significant : List State
significant = queued ∷ sending ∷ failed ∷ dead_letter ∷ []

-- After the query for one account; `rest` counts the others.
unfoldable pub after_listing :
    (QueueCounts → QueueDb → Response QueueCounts × QueueDb)
    → QueueCounts
    → Result (List QueueEntry)
    → QueueDb
    → Response QueueCounts × QueueDb
unfolding count_entries
after_listing rest c (ok entries) db = rest (count_entries entries c) db
after_listing rest c (err e) db = (failure 500 "internal_error", db)

-- The loop over the accounts, by their IDs.
unfoldable pub count_accounts : List String → QueueCounts → QueueDb → Response QueueCounts × QueueDb
unfolding after_listing list_by_state
count_accounts [] c db = (success 200 c, db)
count_accounts (id ∷ ids) c db =
    let (r, db') = list_by_state id significant db in after_listing (count_accounts ids) c r db'

-- accounts.All()
abbrev pub all_ids : List (String × AccountContext) → List String
all_ids [] = []
all_ids ((k, actx) ∷ rest) = actx.account_id ∷ all_ids rest

unfoldable pub queue_handler :
    List (String × AccountContext) → QueueDb → Response QueueCounts × QueueDb
unfolding count_accounts
queue_handler accounts = count_accounts (all_ids accounts) no_jobs

pub record AccountEntry : Type 0 where
  pub id : String
  pub available : Bool
  pub error : Option Error

unfoldable pub accounts_handler : List (String × AccountContext) → List AccountEntry
accounts_handler [] = []
accounts_handler ((k, actx) ∷ rest) =
    record { id = actx.account_id; available = is_available actx; error = actx.err }
    ∷ accounts_handler rest

pub record SubscriptionCounts : Type 0 where
  pub asks : ℕ
  pub receives : ℕ

unfoldable pub count_type : String → SubscriptionCounts → SubscriptionCounts
count_type type c =
    if type == "ask"
    then record c { asks = suc c.asks }
    else (if type == "receive" then record c { receives = suc c.receives } else c)

-- The test of the API for an entry whose timeout has passed.
unfoldable pub has_timed_out : ℤ → CorrelationEntry → Bool
has_timed_out now e = ltb_ℤ (pos 0) e.timeout_at && ltb_ℤ e.timeout_at now

-- The loop over the entries, of which those that `skip` selects are passed over.
unfoldable pub count_subscriptions :
    (CorrelationEntry → Bool) → List CorrelationEntry → SubscriptionCounts → SubscriptionCounts
unfolding count_type
count_subscriptions skip [] c = c
count_subscriptions skip (e ∷ entries) c =
    count_subscriptions skip entries (if skip e then c else count_type e.type c)

unfoldable pub counted_subscriptions :
    (CorrelationEntry → Bool) → Result (List CorrelationEntry) → Response SubscriptionCounts
unfolding count_subscriptions
counted_subscriptions skip (ok entries) =
    success 200 (count_subscriptions skip entries (record { asks = 0; receives = 0 }))
counted_subscriptions skip (err e) = failure 500 "internal_error"

-- SubscriptionsHandler of the admin routes.
unfoldable pub subscriptions_handler : CorrelationDb → Response SubscriptionCounts × CorrelationDb
unfolding counted_subscriptions list_active
subscriptions_handler db =
    let (r, db') = list_active db in (counted_subscriptions (λ e. false) r, db')

-- adminSubscriptionsHandler of the API.
unfoldable pub admin_subscriptions_handler :
    ℤ → CorrelationDb → Response SubscriptionCounts × CorrelationDb
unfolding counted_subscriptions list_active has_timed_out
admin_subscriptions_handler now db =
    let (r, db') = list_active db in (counted_subscriptions (has_timed_out now) r, db')

abbrev ready_status : List AccountContext → ℕ
ready_status [] = 503
ready_status (a ∷ accounts) = 200

-- The status of GET /health/ready.
unfoldable pub ready_handler : List (String × AccountContext) → ℕ
unfolding available_accounts
ready_handler accounts = ready_status (available_accounts accounts)
