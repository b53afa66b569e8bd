-- ===== src/Scenarios/Filters.antt =====
-- internal/correlation/filter.go on small filters, with a regexp package whose patterns are texts to
-- equal, and in which "(" does not compile.
use matfix.Shared.{
  String, true, ◌&&◌, ◌≡◌, refl, some, none, [], ◌∷◌, pos, ok, err, ◌==◌, if◌then◌else◌,
  invalid_regex,
}
use matfix.Bus.Events.{EventEnvelope, inbound_message, message}
use matfix.Correlation.Filter.{
  Predicates, FilterNode, nil, node, nil_slice, slice, no_nodes, child, Regexp, CompiledNode,
  absent, compiled, end, next, compile_predicates, validate, new_compiled_filter,
}
use matfix.Correlation.Filter.Match.{matches}
use matfix.Correlation.Filter.Meaning.{accepts, accepts_node}
use matfix.Correlation.Filter.Correct.{IsWhole}
use matfix.Correlation.Filter.Verdicts.{matches-new_compiled_filter, nil_child_panics}

abbrev pub literal : Regexp
literal = record {
  Pattern = String;
  compile = λ s. if s == "(" then none else some s;
  match_string = λ r s. s == r;
}

abbrev pub anything : Predicates
anything = record {
  sender_id = none;
  room_id = none;
  event_type = none;
  in_reply_to = "";
  body_regex = "";
  reaction_key = "";
  relates_to_event_id = "";
  has_attachment = none;
  min_timestamp = pos 0;
  max_timestamp = pos 0;
}

abbrev pub replies : FilterNode
replies =
    node (record anything { in_reply_to = "$q" })
      (slice
        (child (node (record anything { body_regex = "yes" }) nil_slice nil_slice nil) no_nodes))
      nil_slice
      (node
        (record anything { sender_id = some (record { include = "@bot:hs" ∷ []; exclude = [] }) })
        nil_slice nil_slice nil)

abbrev pub reply_event : EventEnvelope
reply_event = record {
  type = inbound_message;
  account_id = "alice";
  room_id = "!room:hs";
  payload = message (record {
    event_id = "$r";
    sender_id = "@bob:hs";
    body = "yes";
    formatted_body = "";
    msg_type = "m.text";
    in_reply_to = "$q";
    attachment = none;
    timestamp = pos 5;
  });
}

replies_valid : validate literal replies ≡ ok tt
unfolding validate
replies_valid = refl

bad_regex_refused :
    new_compiled_filter literal
      (node (record anything { body_regex = "(" }) nil_slice nil_slice nil)
    ≡ err invalid_regex
unfolding new_compiled_filter
bad_regex_refused = refl

abbrev pub compiled_replies : CompiledNode literal
compiled_replies =
    compiled (compile_predicates literal (record anything { in_reply_to = "$q" }) none)
      (next
        (compiled (compile_predicates literal (record anything { body_regex = "yes" }) (some "yes"))
          end end absent)
        end)
      end
      (compiled
        (compile_predicates literal
          (record anything { sender_id = some (record { include = "@bot:hs" ∷ []; exclude = [] }) })
          none)
        end end absent)

pub replies_compile : new_compiled_filter literal replies ≡ ok compiled_replies
unfolding new_compiled_filter
replies_compile = refl

replies_match : matches literal compiled_replies reply_event "alice" ≡ some true
unfolding matches compile_predicates
replies_match = refl

replies-IsWhole : IsWhole replies
unfolding IsWhole
replies-IsWhole = ((tt, (tt, tt, tt), tt), tt, (tt, tt, tt))

matches-new_compiled_filter_example :
    matches literal compiled_replies reply_event "alice"
    ≡ some (reply_event.account_id == "alice" && accepts literal replies reply_event)
matches-new_compiled_filter_example =
    matches-new_compiled_filter literal replies compiled_replies reply_event "alice" replies-IsWhole
      replies_compile

abbrev nil_child : CompiledNode literal
nil_child = compiled (compile_predicates literal anything none) (next absent end) end absent

nil_child_compiles :
    new_compiled_filter literal (node anything (slice (child nil no_nodes)) nil_slice nil)
    ≡ ok nil_child
unfolding new_compiled_filter
nil_child_compiles = refl

reply_passes : accepts_node literal anything reply_event ≡ true
unfolding accepts_node
reply_passes = refl

nil_child_panics_example : matches literal nil_child reply_event "alice" ≡ none
nil_child_panics_example =
    nil_child_panics literal anything no_nodes nil_slice nil nil_child reply_event "alice"
      nil_child_compiles refl reply_passes
