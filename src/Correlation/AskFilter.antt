-- ===== src/Correlation/AskFilter.antt =====
-- What the filter that RegisterAsk (internal/correlation/ask.go) compiles adds to the caller's.
use matfix.Shared.{
  ◌≡◌, refl, sym, String, Bool, true, false, ◌&&◌, ◌||◌, not, Option, none, some, List, [], ◌∷◌,
  ◌++◌, ◌==◌, arith, eq_iff, Bool-cases, inl, inr, ok,
}
use matfix.Bus.Events.{EventEnvelope, Payload, type_name}
use matfix.Correlation.Filter.{
  StringSetFilter, Predicates, Regexp, CompiledNode, new_compiled_filter,
}
use matfix.Correlation.Filter.Match.{member, matches}
use matfix.Correlation.Filter.Meaning
use matfix.Correlation.Filter.Meaning.{
  matches_source, related_event, has_if_set, attached, timestamp, in_window, sender, replied_to,
  on_view, in_set, equals_if_set, accepts, accepts_node, accepts_payload,
}
use matfix.Correlation.Filter.Correct.{IsWhole}
use matfix.Correlation.Filter.Verdicts.{matches-new_compiled_filter}
use matfix.Correlation.Requests.{
  AskRequest, pointer_to, reply_default, add_exclude, exclude_sender, ask_filter,
}

-- The event has a sender, who is not `user`; no condition if `user` is empty.
abbrev pub is_from_other : String → Payload → Bool
is_from_other user p = user == "" || on_view (sender p) (λ v. not (v == user))

-- The event replies to `outbound`; no condition if the caller asked for another event or there is
-- none.
abbrev pub replies_to : String → String → Payload → Bool
replies_to own outbound p = not (own == "") || equals_if_set outbound (replied_to p)

member-append_one :
    (v user : String) (xs : List String) → member v (xs ++ user ∷ []) ≡ (member v xs || v == user)
unfolding member
member-append_one v user [] = ground (arith, eq_iff user v, eq_iff v user)
member-append_one v user (x ∷ xs) = ground (arith, member-append_one v user xs)

in_set-add_exclude :
    (f : Option StringSetFilter) (user v : String)
    → in_set (some (add_exclude user f)) v ≡ (in_set f v && not (v == user))
unfolding in_set add_exclude
in_set-add_exclude none user v = ground (arith, eq_iff user v, eq_iff v user)
in_set-add_exclude (some f) user v = ground (arith, member-append_one v user f.exclude)

sender_view :
    (view : Option String) (f : Option StringSetFilter) (user : String)
    → on_view view (in_set (some (add_exclude user f)))
      ≡ (on_view view (in_set f) && on_view view (λ v. not (v == user)))
sender_view none f user = refl
sender_view (some v) f user = in_set-add_exclude f user v

&&-true : (b : Bool) → (b && true) ≡ b
&&-true true = refl
&&-true false = refl

-- A condition on the first or the second of seven tests is one on them all.
first_of :
    (c a d e f g h i : Bool)
    → ((a && c) && d && e && f && g && h && i) ≡ ((a && d && e && f && g && h && i) && c)
first_of true a d e f g h i = rw (&&-true a) (sym (&&-true _))
first_of false true d e f g h i = ground arith
first_of false false d e f g h i = refl

second_of :
    (c a d e f g h i : Bool)
    → (a && (d && c) && e && f && g && h && i) ≡ ((a && d && e && f && g && h && i) && c)
second_of true a d e f g h i = rw (&&-true d) (sym (&&-true _))
second_of false true true e f g h i = ground arith
second_of false true false e f g h i = refl
second_of false false d e f g h i = refl

module _ (re : Regexp) where
  exclude_lem :
      (user : String) (p : Predicates) (e : Payload)
      → accepts_payload re (exclude_sender user p) e
        ≡ (accepts_payload re p e && is_from_other user e)
  unfolding accepts_payload exclude_sender
  exclude_lem user p e = elim (Bool-cases (user == "")) [
    | inl h ↦ rw h (sym (&&-true _))
    | inr h ↦ rw h (
        rw (sender_view (sender e) p.sender_id user) (
          first_of (on_view (sender e) (λ v. not (v == user)))
            (on_view (sender e) (in_set p.sender_id)) (equals_if_set p.in_reply_to (replied_to e))
            (matches_source re p.body_regex (Meaning.body e))
            (equals_if_set p.reaction_key (Meaning.reaction_key e))
            (equals_if_set p.relates_to_event_id (related_event e))
            (has_if_set p.has_attachment (attached e))
            (on_view (timestamp e) (in_window p.min_timestamp p.max_timestamp))))
  ]

  replaced :
      (outbound : String) (p : Predicates) (e : Payload)
      → (p.in_reply_to == "") ≡ true
      → accepts_payload re (record p { in_reply_to = outbound }) e
        ≡ (accepts_payload re p e && equals_if_set outbound (replied_to e))
  unfolding accepts_payload
  replaced outbound p e h = rw h (
      second_of (equals_if_set outbound (replied_to e)) (on_view (sender e) (in_set p.sender_id))
        true (matches_source re p.body_regex (Meaning.body e))
        (equals_if_set p.reaction_key (Meaning.reaction_key e))
        (equals_if_set p.relates_to_event_id (related_event e))
        (has_if_set p.has_attachment (attached e))
        (on_view (timestamp e) (in_window p.min_timestamp p.max_timestamp)))

  reply_lem :
      (outbound : String) (p : Predicates) (e : Payload)
      → accepts_payload re (reply_default outbound p) e
        ≡ (accepts_payload re p e && replies_to p.in_reply_to outbound e)
  unfolding reply_default
  reply_lem outbound p e = elim (Bool-cases (p.in_reply_to == "")) [
    | inl h ↦ elim (Bool-cases (outbound == "")) [
      | inl k ↦ rw (h, k) (sym (&&-true _))
      | inr k ↦ rw (h, k) (rw k at (replaced outbound p e h))
    ]
    | inr h ↦ rw h (sym (&&-true _))
  ]

  sets_kept :
      (user outbound : String) (p : Predicates)
      → let q = exclude_sender user (reply_default outbound p) in
        (q.room_id ≡ p.room_id) × (q.event_type ≡ p.event_type)
  unfolding exclude_sender reply_default
  sets_kept user outbound p = (ground arith, ground arith)

  -- The meaning of the filter of an ask: the caller's, not from the bot, and a reply to the outbound
  -- event.
  abbrev pub asks_for : AskRequest → EventEnvelope → Bool
  asks_for req env =
      accepts re (pointer_to req.filter) env
      && is_from_other req.bot_user_id env.payload
      && replies_to req.filter.predicates.in_reply_to req.outbound_event_id env.payload

  third_of :
      (c d a x n all any neg : Bool)
      → ((a && x && ((n && d) && c)) && all && any && neg)
        ≡ ((a && x && n) && all && any && neg && c && d)
  third_of c d a x n all any neg = ground arith

  accepts-ask_filter :
      (req : AskRequest) (env : EventEnvelope)
      → accepts re (pointer_to (ask_filter req)) env ≡ asks_for req env
  unfolding accepts accepts_node ask_filter
  accepts-ask_filter req env =
      let p = req.filter.predicates in
      let (rooms, types) = sets_kept req.bot_user_id req.outbound_event_id p in
      rw
        (
          rooms,
          types,
          exclude_lem req.bot_user_id (reply_default req.outbound_event_id p) env.payload,
          reply_lem req.outbound_event_id p env.payload,
        )
        (third_of (is_from_other req.bot_user_id env.payload)
          (replies_to p.in_reply_to req.outbound_event_id env.payload)
          (in_set p.room_id env.room_id) (in_set p.event_type (type_name env.type))
          (accepts_payload re p env.payload) (Meaning.accepts_each re req.filter.all_of env)
          (Meaning.accepts_some re req.filter.any_of env)
          (Meaning.refuses re req.filter.negated (accepts re req.filter.negated env)))

  -- Where newCompiledFilter accepts the filter of an ask, which has no nil items, the compiled filter
  -- matches exactly the events of the account that the caller's own filter accepts, that have a sender
  -- other than the bot, if the request names it, and that reply to the outbound event, if the request
  -- names one and the caller's filter no other.
  pub matches-ask_filter :
      (req : AskRequest) (c : CompiledNode re) (env : EventEnvelope)
      → IsWhole (pointer_to req.filter)
      → new_compiled_filter re (pointer_to (ask_filter req)) ≡ ok c
      → matches re c env req.account_id
        ≡ some (env.account_id == req.account_id && asks_for req env)
  unfolding IsWhole ask_filter
  matches-ask_filter req c env w h =
      rw (← accepts-ask_filter req env)
        (matches-new_compiled_filter re (pointer_to (ask_filter req)) c env req.account_id w h)
