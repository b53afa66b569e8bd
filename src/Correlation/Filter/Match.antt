-- ===== src/Correlation/Filter/Match.antt =====
-- Matching of events against compiled filters: internal/correlation/filter.go. `none` is a panic, by
-- a method call on a nil *compiledFilterNode.
use matfix.Shared.{
  String, Bool, true, false, ◌&&◌, ◌||◌, not, Option, none, some, List, [], ◌∷◌, ℤ, ltb_ℤ, ◌==◌,
  if◌then◌else◌,
}
use matfix.Bus.Events.{
  EventEnvelope, Payload, InboundAttachment, message, reaction, edit, redaction, membership,
  receipt, type_name,
}
use matfix.Correlation.Filter.{
  StringSet, Regexp, CompiledPredicates, CompiledNode, absent, compiled, CompiledNodes, end, next,
  is_set,
}

unfoldable pub member : String → List String → Bool
member v [] = false
member v (x ∷ xs) = x == v || member v xs

unfoldable pub is_some {ℓ} : {A : Type ℓ} → Option A → Bool
is_some none = false
is_some (some a) = true

unfoldable pub active : StringSet → Bool
unfolding is_some
active ss = is_some ss.included || is_some ss.excluded

unfoldable pub in_map : String → Option (List String) → Bool
unfolding member
in_map v none = false
in_map v (some vs) = member v vs

unfoldable pub set_matches : StringSet → String → Bool
unfolding in_map is_some
set_matches ss v =
    if in_map v ss.excluded
    then false
    else if is_some ss.included && not (in_map v ss.included)
    then false
    else true

unfoldable pub unset : String → Bool
unset s = s == ""

-- *n.hasAttachment != (p.Attachment != nil)
unfoldable pub attachment_differs : Option Bool → Option InboundAttachment → Bool
attachment_differs none a = false
attachment_differs (some true) none = true
attachment_differs (some true) (some a) = false
attachment_differs (some false) none = false
attachment_differs (some false) (some a) = true

module _ (re : Regexp) where
  -- n.bodyRegex != nil && !n.bodyRegex.MatchString(body)
  unfoldable pub regex_misses : Option re.Pattern → String → Bool
  regex_misses none body = false
  regex_misses (some r) body = not (re.match_string r body)

  module _ (n : CompiledPredicates re) where
    unfoldable pub matches_timestamp : ℤ → Bool
    unfolding is_set
    matches_timestamp ts =
        if is_set n.min_timestamp && ltb_ℤ ts n.min_timestamp
        then false
        else if is_set n.max_timestamp && ltb_ℤ n.max_timestamp ts
        then false
        else true

    unfoldable pub wrong_sender : String → Bool
    unfolding active set_matches
    wrong_sender sender = active n.sender_id && not (set_matches n.sender_id sender)

    -- What membership and receipt events can never satisfy.
    unfoldable pub any_inapplicable : Bool
    unfolding unset is_some
    any_inapplicable =
        not (unset n.in_reply_to)
        || is_some n.body_regex
        || not (unset n.reaction_key)
        || not (unset n.relates_to_event_id)
        || is_some n.has_attachment

    unfoldable pub matches_payload : Payload → Bool
    unfolding matches_timestamp wrong_sender any_inapplicable regex_misses attachment_differs
    matches_payload (message p) =
        if wrong_sender p.sender_id
        then false
        else if not (unset n.in_reply_to) && not (p.in_reply_to == n.in_reply_to)
        then false
        else if regex_misses n.body_regex p.body
        then false
        else if attachment_differs n.has_attachment p.attachment
        then false
        else if not (unset n.reaction_key)
        then false
        else if not (unset n.relates_to_event_id)
        then false
        else matches_timestamp p.timestamp
    matches_payload (reaction p) =
        if wrong_sender p.sender_id
        then false
        else if not (unset n.reaction_key) && not (p.key == n.reaction_key)
        then false
        else if not (unset n.relates_to_event_id)
            && not (p.relates_to_event_id == n.relates_to_event_id)
        then false
        else if not (unset n.in_reply_to)
        then false
        else if is_some n.body_regex
        then false
        else if is_some n.has_attachment
        then false
        else matches_timestamp p.timestamp
    matches_payload (edit p) =
        if wrong_sender p.sender_id
        then false
        else if regex_misses n.body_regex p.new_body
        then false
        else if not (unset n.relates_to_event_id)
            && not (p.relates_to_event_id == n.relates_to_event_id)
        then false
        else if not (unset n.in_reply_to)
        then false
        else if not (unset n.reaction_key)
        then false
        else if is_some n.has_attachment
        then false
        else matches_timestamp p.timestamp
    matches_payload (redaction p) =
        if wrong_sender p.sender_id
        then false
        else if not (unset n.relates_to_event_id) && not (p.redacts == n.relates_to_event_id)
        then false
        else if not (unset n.in_reply_to)
        then false
        else if is_some n.body_regex
        then false
        else if not (unset n.reaction_key)
        then false
        else if is_some n.has_attachment
        then false
        else matches_timestamp p.timestamp
    matches_payload (membership p) =
        if wrong_sender p.user_id
        then false
        else if any_inapplicable
        then false
        else matches_timestamp p.timestamp
    matches_payload (receipt p) =
        if wrong_sender p.user_id
        then false
        else if any_inapplicable
        then false
        else matches_timestamp p.timestamp
    matches_payload _ = false

    -- The tests of a node before those of its children.
    unfoldable pub matches_node : EventEnvelope → Bool
    unfolding matches_payload active set_matches
    matches_node env =
        if active n.room_id && not (set_matches n.room_id env.room_id)
        then false
        else if active n.event_type && not (set_matches n.event_type (type_name env.type))
        then false
        else matches_payload env.payload

  unfoldable pub and_also : Option Bool → Option Bool → Option Bool
  and_also none later = none
  and_also (some false) later = some false
  and_also (some true) later = later

  unfoldable pub or_else : Option Bool → Option Bool → Option Bool
  or_else none later = none
  or_else (some true) later = some true
  or_else (some false) later = later

  unfoldable pub negation : Option Bool → Option Bool
  negation none = none
  negation (some b) = some (not b)

  -- !(n.not != nil && n.not.matchesEnvelope(env)); the answer of an absent child is not looked at.
  unfoldable pub not_child : CompiledNode re → Option Bool → Option Bool
  unfolding negation
  not_child absent answer = some true
  not_child (compiled n all any negated) answer = negation answer

  unfoldable mutual
    unfolding matches_node and_also or_else not_child

    pub matches_envelope : CompiledNode re → EventEnvelope → Option Bool
    matches_envelope absent env = none
    matches_envelope (compiled n all any negated) env = and_also (some (matches_node n env)) (
        and_also (matches_all all env)
          (and_also (matches_any any env) (not_child negated (matches_envelope negated env))))

    pub matches_all : CompiledNodes re → EventEnvelope → Option Bool
    matches_all end env = some true
    matches_all (next c cs) env = and_also (matches_envelope c env) (matches_all cs env)

    -- An empty slice is vacuously true.
    pub matches_any : CompiledNodes re → EventEnvelope → Option Bool
    matches_any end env = some true
    matches_any (next c cs) env = or_else (matches_envelope c env) (matches_one cs env)

    pub matches_one : CompiledNodes re → EventEnvelope → Option Bool
    matches_one end env = some false
    matches_one (next c cs) env = or_else (matches_envelope c env) (matches_one cs env)

  -- A nil root matches every event of the account.
  unfoldable pub matches_root : CompiledNode re → EventEnvelope → Option Bool
  unfolding matches_envelope
  matches_root absent env = some true
  matches_root (compiled n all any negated) env = matches_envelope (compiled n all any negated) env

  unfoldable pub matches : CompiledNode re → EventEnvelope → String → Option Bool
  unfolding matches_root
  matches root env account = if env.account_id == account then matches_root root env else some false
