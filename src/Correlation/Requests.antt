-- ===== src/Correlation/Requests.antt =====
-- The requests of internal/correlation/types.go, and what RegisterAsk and RegisterReceive derive from
-- them. Times and durations count nanoseconds.
use matfix.Shared.{
  String, ◌&&◌, not, Option, none, some, List, [], ◌∷◌, ◌++◌, ◌==◌, if◌then◌else◌, ℤ, ◌+ℤ◌,
}
use matfix.Correlation.Filter.{StringSetFilter, Predicates, FilterNode, node, Slice}
use matfix.Persistence.Correlations.{CorrelationEntry, pending}
use matfix.Queue.Retry.{unix_milli}

-- A FilterNode by value.
pub record Filter : Type 0 where
  pub predicates : Predicates
  pub all_of : Slice
  pub any_of : Slice
  pub negated : FilterNode

abbrev pub pointer_to : Filter → FilterNode
pointer_to f = node f.predicates f.all_of f.any_of f.negated

pub record AskRequest : Type 0 where
  pub correlation_id : String
  pub account_id : String
  pub outbound_event_id : String
  pub bot_user_id : String
  pub filter : Filter
  pub timeout : ℤ

pub record ReceiveRequest : Type 0 where
  pub correlation_id : String
  pub account_id : String
  pub filter : Filter
  pub timeout : ℤ
  pub limit : ℤ

unfoldable pub reply_default : String → Predicates → Predicates
reply_default outbound p =
    if p.in_reply_to == "" && not (outbound == "") then record p { in_reply_to = outbound } else p

unfoldable pub add_exclude : String → Option StringSetFilter → StringSetFilter
add_exclude user none = record { include = []; exclude = user ∷ [] }
add_exclude user (some f) = record f { exclude = f.exclude ++ user ∷ [] }

unfoldable pub exclude_sender : String → Predicates → Predicates
unfolding add_exclude
exclude_sender user p =
    if user == "" then p else record p { sender_id = some (add_exclude user p.sender_id) }

-- The filter that RegisterAsk compiles and stores.
unfoldable pub ask_filter : AskRequest → Filter
unfolding reply_default exclude_sender
ask_filter req = record req.filter {
  predicates =
      exclude_sender req.bot_user_id (reply_default req.outbound_event_id req.filter.predicates);
}

unfoldable pub id_or : String → String → String
id_or id uuid = if id == "" then uuid else id

single : List String → String
single (x ∷ []) = x
single _ = ""

-- The room of a filter that includes exactly one.
unfoldable pub single_room : Option StringSetFilter → String
unfolding single
single_room none = ""
single_room (some f) = single f.include

-- `uuid` is uuid.New(), `now` the first reading of time.Now() and `later` the second.
unfoldable pub ask_entry : AskRequest → String → String → ℤ → ℤ → CorrelationEntry
unfolding id_or single_room ask_filter unix_milli ◌+ℤ◌
ask_entry req uuid json now later = record {
  id = id_or req.correlation_id uuid;
  type = "ask";
  account_id = req.account_id;
  room_id = single_room (ask_filter req).predicates.room_id;
  outbound_event_id = req.outbound_event_id;
  filter_json = json;
  timeout_at = unix_milli (now +ℤ req.timeout);
  state = pending;
  created_at = unix_milli later;
  updated_at = unix_milli later;
}

unfoldable pub receive_entry : ReceiveRequest → String → String → ℤ → ℤ → CorrelationEntry
unfolding id_or single_room unix_milli ◌+ℤ◌
receive_entry req uuid json now later = record {
  id = id_or req.correlation_id uuid;
  type = "receive";
  account_id = req.account_id;
  room_id = single_room req.filter.predicates.room_id;
  outbound_event_id = "";
  filter_json = json;
  timeout_at = unix_milli (now +ℤ req.timeout);
  state = pending;
  created_at = unix_milli later;
  updated_at = unix_milli later;
}
