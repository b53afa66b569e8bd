-- ===== src/Scenarios/Views.antt =====
-- What the administration is shown of two jobs and two asks.
use matfix.Shared.{◌≡◌, ◌≢◌, refl, ◌&&◌, String, true, none, List, [], ◌∷◌, pos, eq_iff}
use matfix.Persistence.Statement.{working}
use matfix.Persistence.Queue.{State, queued, dead_letter, QueueEntry}
use matfix.Persistence.Correlations.{pending, CorrelationEntry}
use matfix.Account.{available, AccountContext}
use matfix.Api.Response.{success}
use matfix.Admin.Views.{
  QueueCounts, all_ids, queue_handler, subscriptions_handler, admin_subscriptions_handler,
}
use matfix.Admin.Views.Counts.{
  count_where, in_state, is_managed, is_reported, jobs_in, queue_handler-counts,
}

abbrev account : String → AccountContext
account id = record { account_id = id; sync = none; crypto = none; status = available; err = none }

abbrev accounts : List (String × AccountContext)
accounts = ("a", account "a") ∷ ("b", account "b") ∷ []

abbrev row : String → String → State → QueueEntry
row id owner state = record {
  id = id;
  account_id = owner;
  room_id = "!r";
  payload = "";
  state = state;
  retry_count = 0;
  scheduled_at = pos 1;
  idempotency_key = "";
  created_at = pos 1;
  updated_at = pos 1;
}

abbrev rows : List QueueEntry
rows = row "1" "a" queued ∷ row "2" "b" queued ∷ row "3" "b" dead_letter ∷ row "4" "c" queued ∷ []

two_queued :
    (queue_handler accounts (working rows)).0
    ≡ success 200 (record { queued_jobs = 2; sending_jobs = 0; failed_jobs = 0; dead_jobs = 1 })
unfolding queue_handler
two_queued = refl

b_is_not_a : (account "b").account_id ≢ (account "a").account_id
b_is_not_a q = absurd (let r = (eq_iff "b" "a").1 q in cc)

queue_handler-counts_example :
    let (r, db') = queue_handler accounts (working rows) in
    (db'.rows ≡ rows)
    × ((c : QueueCounts) (s : State)
        → r ≡ success 200 c
        → is_reported s ≡ true
        → jobs_in s c ≡ count_where (λ e. is_managed (all_ids accounts) e && in_state s e) rows)
    × ((c : QueueCounts) × ((queue_handler accounts (working rows)).0 ≡ success 200 c))
queue_handler-counts_example =
    queue_handler-counts accounts (working rows) ((b_is_not_a, tt), (tt, tt))

abbrev ask : CorrelationEntry
ask = record {
  id = "$1";
  type = "ask";
  account_id = "a";
  room_id = "!r";
  outbound_event_id = "";
  filter_json = "{}";
  timeout_at = pos 5;
  state = pending;
  created_at = pos 1;
  updated_at = pos 1;
}

-- An ask past its timeout: the admin socket counts it, the API does not.
socket_counts :
    (subscriptions_handler (working (ask ∷ []))).0 ≡ success 200 (record { asks = 1; receives = 0 })
unfolding subscriptions_handler
socket_counts = refl

api_skips :
    (admin_subscriptions_handler (pos 9) (working (ask ∷ []))).0
    ≡ success 200 (record { asks = 0; receives = 0 })
unfolding admin_subscriptions_handler
api_skips = refl
