-- ===== src/Scenarios/Asks.antt =====
-- The correlation manager at concrete inputs, with the regexp package of the filter scenarios.
use matfix.Shared.{
  ◌≡◌, refl, ◌&&◌, ◌==◌, String, eqb, if◌then◌else◌, true, false, Option, none, some, [], ◌∷◌, pos,
  inl, ok,
}
use matfix.Persistence.Correlations.{insert_correlation}
use matfix.Persistence.Statement.{working}
use matfix.Correlation.Filter.{
  FilterNode, Predicates, nil, nil_slice, CompiledNode, absent, compiled, end, compile_predicates,
  new_compiled_filter,
}
use matfix.Correlation.Filter.Correct.{IsWhole}
use matfix.Correlation.Filter.Match.{matches}
use matfix.Correlation.Requests.{AskRequest, pointer_to, ask_filter}
use matfix.Correlation.AskFilter.{asks_for, matches-ask_filter}
use matfix.Correlation.Manager.{
  Manager, ActiveAsk, waiting, matched, deliver, ask_matches, matching, register_ask,
}
use matfix.Correlation.Manager.Steps.{System, ask, event, Steps, here, next, observe}
use matfix.Correlation.Manager.Invariant.{IsConsistent, Steps-IsConsistent, Steps-Keeps}
use matfix.Correlation.Manager.Keeps.{Keeps}
use matfix.Correlation.Manager.Delivery.{waiting-Steps-matched}
use matfix.Scenarios.Filters.{literal, anything, reply_event}

abbrev marshal : FilterNode → Option String
marshal f = some "{}"

abbrev request : AskRequest
request = record {
  correlation_id = "$q";
  account_id = "alice";
  outbound_event_id = "$q";
  bot_user_id = "@bot:hs";
  filter = record { predicates = anything; all_of = nil_slice; any_of = nil_slice; negated = nil };
  timeout = pos 30;
}

abbrev idle : Manager literal
idle = record {
  store = working [];
  asks = [];
  receives = [];
  ask_at = λ k. none;
  receive_at = λ k. none;
  next = 0;
  stuck = false;
}

abbrev start : System literal marshal
start = record { manager = idle; tasks = [] }

start-IsConsistent : IsConsistent literal marshal start
start-IsConsistent = record {
  sound = record {
    asks = λ k a h. absurd (cc);
    receives = λ k r h. absurd (cc);
    free_ask = λ k le. refl;
    free_receive = λ k le. refl;
  };
  due = tt;
}

abbrev asked : System literal marshal
asked = record start { manager = (register_ask literal marshal request "u" (pos 1) (pos 2) idle).1 }

abbrev seen : System literal marshal
seen = observe literal marshal reply_event asked

run_to_seen : Steps literal marshal start seen
run_to_seen = next (next here (ask request "u" (pos 1) (pos 2) refl)) (event reply_event refl)

-- The ask is registered, and the reply is due for it.
asked_tasks : seen.tasks ≡ deliver 0 reply_event ∷ []
unfolding observe register_ask insert_correlation
asked_tasks = refl

Steps-IsConsistent_example : IsConsistent literal marshal seen
Steps-IsConsistent_example =
    Steps-IsConsistent literal marshal start seen start-IsConsistent run_to_seen

asked-IsConsistent : IsConsistent literal marshal asked
asked-IsConsistent =
    Steps-IsConsistent literal marshal start asked start-IsConsistent
      (next here (ask request "u" (pos 1) (pos 2) refl))

Steps-Keeps_example : Keeps literal asked.manager seen.manager
Steps-Keeps_example =
    Steps-Keeps literal marshal asked seen asked-IsConsistent (next here (event reply_event refl))

abbrev predicates : Predicates
predicates = record anything { in_reply_to = "$q" }

abbrev open_ask : ActiveAsk literal
open_ask = record {
  id = "$q";
  account_id = "alice";
  filter = compiled (compile_predicates literal predicates none) end end absent;
  timeout_at = pos 31;
  outcome = waiting;
}

abbrev one_ask : System literal marshal
one_ask = record start {
  manager = record idle {
    asks = ("$q", 0) ∷ [];
    ask_at = λ k. if eqb k 0 then some open_ask else none;
  };
}

fits : ask_matches literal reply_event (some open_ask) ≡ some true
unfolding ask_matches compile_predicates
fits = refl

no_panic : matching literal reply_event one_ask.manager ≡ some (deliver 0 reply_event ∷ [])
unfolding matching compile_predicates
no_panic = refl

waiting-Steps-matched_example :
    (t : System literal marshal) × Steps literal marshal one_ask t
    × (t.manager.ask_at 0 ≡ some (record open_ask { outcome = matched reply_event }))
    × (t.manager.stuck ≡ false)
waiting-Steps-matched_example =
    waiting-Steps-matched literal marshal one_ask reply_event "$q" 0 open_ask
      (deliver 0 reply_event ∷ []) (pos 9) refl (inl refl) refl refl fits no_panic

abbrev asked_filter : CompiledNode literal
asked_filter =
    compiled (compile_predicates literal (ask_filter request).predicates none) end end absent

compiles : new_compiled_filter literal (pointer_to (ask_filter request)) ≡ ok asked_filter
unfolding new_compiled_filter ask_filter
compiles = refl

matches-ask_filter_example :
    matches literal asked_filter reply_event "alice"
    ≡ some (reply_event.account_id == "alice" && asks_for literal request reply_event)
unfolding IsWhole
matches-ask_filter_example =
    matches-ask_filter literal request asked_filter reply_event (tt, tt, tt) compiles
