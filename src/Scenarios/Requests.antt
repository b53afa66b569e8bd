-- ===== src/Scenarios/Requests.antt =====
-- A filter of a request on its way to the correlation manager, and an event on its way back.
use matfix.Shared.{◌≡◌, refl, ◌&&◌, ◌==◌, some, [], ◌∷◌}
use matfix.Correlation.Filter.{FilterNode, nil, node, nil_slice, slice, no_nodes, child}
use matfix.Correlation.Filter.Match.{matches}
use matfix.Correlation.Filter.Meaning.{accepts}
use matfix.Correlation.Filter.Correct.{IsWhole}
use matfix.Api.Filter.{request_filter_to_correlation}
use matfix.Api.Filter.Meant.{matches-request_filter}
use matfix.Scenarios.Filters.{
  literal, anything, replies, compiled_replies, replies_compile, reply_event,
}

-- The replies, with empty lists in place of absent ones.
abbrev requested : FilterNode
requested =
    node (record anything { in_reply_to = "$q" })
      (slice (
        child (node (record anything { body_regex = "yes" }) (slice no_nodes) nil_slice nil)
          no_nodes))
      nil_slice
      (node
        (record anything { sender_id = some (record { include = "@bot:hs" ∷ []; exclude = [] }) })
        nil_slice nil_slice nil)

converted : request_filter_to_correlation requested ≡ some replies
unfolding request_filter_to_correlation
converted = refl

matches-request_filter_example :
    matches literal compiled_replies reply_event "alice"
    ≡ some (reply_event.account_id == "alice" && accepts literal requested reply_event)
matches-request_filter_example =
    matches-request_filter literal requested replies compiled_replies reply_event "alice" converted
      replies_compile

requested-IsWhole : IsWhole requested
unfolding IsWhole
requested-IsWhole = ((tt, (tt, tt, tt), tt), tt, (tt, tt, tt))
