-- ===== src/Correlation/Filter/Meaning.antt =====
-- What a filter means, read off the documentation of FilterNode in internal/correlation/types.go and
-- not off the matching code: every field that is set is one condition on one view of the event, and a
-- condition on a view that the event does not have fails.
use matfix.Shared.{String, Bool, true, false, ◌&&◌, ◌||◌, not, Option, none, some, ℤ, leb_ℤ, ◌==◌}
use matfix.Bus.Events.{
  EventEnvelope, Payload, InboundAttachment, message, reaction, edit, redaction, membership,
  receipt, type_name,
}
use matfix.Correlation.Filter.{
  StringSetFilter, Predicates, FilterNode, nil, node, Slice, nil_slice, slice, Nodes, no_nodes,
  child, Regexp, is_set, is_empty,
}
use matfix.Correlation.Filter.Match.{member}

-- The views of a payload; `none` where the event has no such thing.
abbrev pub sender : Payload → Option String
sender (message p) = some p.sender_id
sender (reaction p) = some p.sender_id
sender (edit p) = some p.sender_id
sender (redaction p) = some p.sender_id
sender (membership p) = some p.user_id
sender (receipt p) = some p.user_id
sender _ = none

abbrev pub replied_to : Payload → Option String
replied_to (message p) = some p.in_reply_to
replied_to _ = none

abbrev pub body : Payload → Option String
body (message p) = some p.body
body (edit p) = some p.new_body
body _ = none

abbrev pub reaction_key : Payload → Option String
reaction_key (reaction p) = some p.key
reaction_key _ = none

abbrev pub related_event : Payload → Option String
related_event (reaction p) = some p.relates_to_event_id
related_event (edit p) = some p.relates_to_event_id
related_event (redaction p) = some p.redacts
related_event _ = none

abbrev pub has_value : Option InboundAttachment → Bool
has_value none = false
has_value (some a) = true

abbrev pub attached : Payload → Option Bool
attached (message p) = some (has_value p.attachment)
attached _ = none

abbrev pub timestamp : Payload → Option ℤ
timestamp (message p) = some p.timestamp
timestamp (reaction p) = some p.timestamp
timestamp (edit p) = some p.timestamp
timestamp (redaction p) = some p.timestamp
timestamp (membership p) = some p.timestamp
timestamp (receipt p) = some p.timestamp
timestamp _ = none

-- A condition on a view.
abbrev pub on_view {ℓ} : {A : Type ℓ} → Option A → (A → Bool) → Bool
on_view none test = false
on_view (some a) test = test a

-- Exclusion wins; an empty list of inclusions includes all.
unfoldable pub in_set : Option StringSetFilter → String → Bool
unfolding is_empty member
in_set none v = true
in_set (some f) v = not (member v f.exclude) && (is_empty f.include || member v f.include)

abbrev pub equals_if_set : String → Option String → Bool
equals_if_set wanted view = wanted == "" || on_view view (λ v. v == wanted)

unfoldable pub same_bool : Bool → Bool → Bool
same_bool true b = b
same_bool false b = not b

unfoldable pub has_if_set : Option Bool → Option Bool → Bool
unfolding same_bool
has_if_set none view = true
has_if_set (some b) view = on_view view (same_bool b)

unfoldable pub in_window : ℤ → ℤ → ℤ → Bool
unfolding is_set
in_window low high t = (not (is_set low) || leb_ℤ low t) && (not (is_set high) || leb_ℤ t high)

module _ (re : Regexp) where
  -- A source that does not compile matches nothing.
  unfoldable pub matches_source : String → Option String → Bool
  matches_source source view =
      source == ""
      || elim (re.compile source) [ none ↦ false | some r ↦ on_view view (re.match_string r) ]

  unfoldable pub accepts_payload : Predicates → Payload → Bool
  unfolding in_set has_if_set in_window matches_source
  accepts_payload p e =
      on_view (sender e) (in_set p.sender_id)
      && equals_if_set p.in_reply_to (replied_to e)
      && matches_source p.body_regex (body e)
      && equals_if_set p.reaction_key (reaction_key e)
      && equals_if_set p.relates_to_event_id (related_event e)
      && has_if_set p.has_attachment (attached e)
      && on_view (timestamp e) (in_window p.min_timestamp p.max_timestamp)

  unfoldable pub accepts_node : Predicates → EventEnvelope → Bool
  unfolding accepts_payload
  accepts_node p env =
      in_set p.room_id env.room_id
      && in_set p.event_type (type_name env.type)
      && accepts_payload p env.payload

  -- All of `all`, one of `any` if there are any, and not `negated`; nil filters nothing.
  unfoldable mutual
    unfolding accepts_node

    pub accepts : FilterNode → EventEnvelope → Bool
    accepts nil env = true
    accepts (node p all any negated) env =
        accepts_node p env
        && accepts_each all env
        && accepts_some any env
        && refuses negated (accepts negated env)

    pub refuses : FilterNode → Bool → Bool
    refuses nil b = true
    refuses (node p all any negated) b = not b

    pub accepts_each : Slice → EventEnvelope → Bool
    accepts_each nil_slice env = true
    accepts_each (slice ns) env = each ns env

    pub accepts_some : Slice → EventEnvelope → Bool
    accepts_some nil_slice env = true
    accepts_some (slice no_nodes) env = true
    accepts_some (slice (child n ns)) env = accepts n env || one ns env

    pub each : Nodes → EventEnvelope → Bool
    each no_nodes env = true
    each (child n ns) env = accepts n env && each ns env

    pub one : Nodes → EventEnvelope → Bool
    one no_nodes env = false
    one (child n ns) env = accepts n env || one ns env
