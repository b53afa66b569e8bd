-- ===== src/Correlation/Filter/Local.antt =====
-- The tests of one node in internal/correlation/filter.go against its meaning, whatever its children are.
use matfix.Shared.{
  String, Bool, true, false, ◌&&◌, not, Option, none, some, List, [], ◌∷◌, ℤ, ◌≡◌, refl, arith, ok,
}
use matfix.Bus.Events.{
  EventEnvelope, Payload, InboundAttachment, message, reaction, edit, redaction, membership,
  receipt, type_name,
}
use matfix.Correlation.Filter.{
  StringSetFilter, StringSet, Predicates, Regexp, new_string_set, compile_regex, compile_predicates,
}
use matfix.Correlation.Filter.Match.{
  active, set_matches, is_some, unset, attachment_differs, regex_misses, matches_timestamp,
  wrong_sender, matches_payload, matches_node,
}
use matfix.Correlation.Filter.Meaning.{
  in_set, has_if_set, in_window, matches_source, accepts_payload, accepts_node, has_value,
}

wrong_set : StringSet → String → Bool
unfolding active set_matches
wrong_set ss v = active ss && not (set_matches ss v)

wrong_set_lists :
    (include exclude : List String) (v : String)
    → wrong_set (new_string_set (some (record { include = include; exclude = exclude }))) v
      ≡ not (in_set (some (record { include = include; exclude = exclude })) v)
unfolding wrong_set new_string_set in_set
wrong_set_lists [] [] v = refl
wrong_set_lists (x ∷ xs) [] v = ground arith
wrong_set_lists [] (y ∷ ys) v = ground arith
wrong_set_lists (x ∷ xs) (y ∷ ys) v = ground arith

wrong_set-in_set :
    (f : Option StringSetFilter) (v : String) → wrong_set (new_string_set f) v ≡ not (in_set f v)
unfolding wrong_set new_string_set in_set
wrong_set-in_set none v = refl
wrong_set-in_set (some f) v = wrong_set_lists f.include f.exclude v

attachment_lem :
    (h : Option Bool) (a : Option InboundAttachment)
    → attachment_differs h a ≡ not (has_if_set h (some (has_value a)))
unfolding attachment_differs has_if_set
attachment_lem none a = refl
attachment_lem (some true) none = refl
attachment_lem (some true) (some a) = refl
attachment_lem (some false) none = refl
attachment_lem (some false) (some a) = refl

no_attachment_lem : (h : Option Bool) → has_if_set h none ≡ not (is_some h)
unfolding has_if_set is_some
no_attachment_lem none = refl
no_attachment_lem (some b) = refl

module _ (re : Regexp) where
  regex_lem :
      (source : String) (r : Option re.Pattern) (body : String)
      → compile_regex re source ≡ ok r
      → (regex_misses re r body ≡ not (matches_source re source (some body)))
        × (matches_source re source none ≡ not (is_some r))
  unfolding compile_regex regex_misses matches_source is_some
  regex_lem source r body h = ground arith

  module _ (p : Predicates) (r : Option re.Pattern) (h : compile_regex re p.body_regex ≡ ok r) where
    timestamp_lem :
        (t : ℤ)
        → matches_timestamp re (compile_predicates re p r) t
          ≡ in_window p.min_timestamp p.max_timestamp t
    unfolding matches_timestamp compile_predicates in_window
    timestamp_lem t = ground arith

    sender_lem :
        (s : String) → wrong_sender re (compile_predicates re p r) s ≡ not (in_set p.sender_id s)
    unfolding wrong_sender compile_predicates wrong_set
    sender_lem s = wrong_set-in_set p.sender_id s

    payload_lem :
        (e : Payload) → matches_payload re (compile_predicates re p r) e ≡ accepts_payload re p e
    unfolding matches_payload accepts_payload compile_predicates unset is_some
    payload_lem (message e) = ground (
      arith,
      sender_lem e.sender_id,
      regex_lem p.body_regex r e.body h,
      attachment_lem p.has_attachment e.attachment,
      timestamp_lem e.timestamp,
    )
    payload_lem (reaction e) = ground (
      arith,
      sender_lem e.sender_id,
      regex_lem p.body_regex r e.key h,
      no_attachment_lem p.has_attachment,
      timestamp_lem e.timestamp,
    )
    payload_lem (edit e) = ground (
      arith,
      sender_lem e.sender_id,
      regex_lem p.body_regex r e.new_body h,
      no_attachment_lem p.has_attachment,
      timestamp_lem e.timestamp,
    )
    payload_lem (redaction e) = ground (
      arith,
      sender_lem e.sender_id,
      regex_lem p.body_regex r e.reason h,
      no_attachment_lem p.has_attachment,
      timestamp_lem e.timestamp,
    )
    payload_lem (membership e) = ground (
      arith,
      sender_lem e.user_id,
      regex_lem p.body_regex r e.user_id h,
      no_attachment_lem p.has_attachment,
      timestamp_lem e.timestamp,
    )
    payload_lem (receipt e) = ground (
      arith,
      sender_lem e.user_id,
      regex_lem p.body_regex r e.user_id h,
      no_attachment_lem p.has_attachment,
      timestamp_lem e.timestamp,
    )
    payload_lem _ = refl

    pub node_lem :
        (env : EventEnvelope)
        → matches_node re (compile_predicates re p r) env ≡ accepts_node re p env
    unfolding matches_node accepts_node compile_predicates wrong_set
    node_lem env = ground (
      arith,
      wrong_set-in_set p.room_id env.room_id,
      wrong_set-in_set p.event_type (type_name env.type),
      payload_lem env.payload,
    )
