-- ===== src/Correlation/Manager/Effects.antt =====
-- Which writes to the objects each operation of the correlation manager makes.
use matfix.Shared.{
  ◌≡◌, refl, inl, inr, ℕ, String, Bool, true, false, Option, none, some, List, [], ◌∷◌,
  if◌then◌else◌, ℤ, Result, ok, err, Bool-cases, Option-cases, Result-cases, and_then,
}
use matfix.Bus.Events.{EventEnvelope}
use matfix.Persistence.Correlations.{
  CorrelationDb, CorrelationState, resolved, expired, insert_correlation,
}
use matfix.Correlation.Filter.{FilterNode, Regexp, new_compiled_filter}
use matfix.Correlation.Requests.{
  AskRequest, ReceiveRequest, ask_filter, pointer_to, ask_entry, receive_entry,
}
use matfix.Correlation.Manager.{
  Manager, ActiveAsk, ActiveReceive, AskOutcome, waiting, timed_out, matched, register_ask,
  register_receive, resolve_ask_timeout, deliver_to_ask, collect_for_receive, collect_at,
  resolve_receive, sweep_expired, at_limit, add_ask, add_receive, finish_ask, finish_at,
  finish_receive, finish_receive_at, time_out_all, expire_all, prune_rows, new_ask_of,
  new_receive_of, overdue, overdue_ask, overdue_receive, stuck_sweep, sweep_all,
}
use matfix.Correlation.Manager.Changes.{
  Change, same, new_ask, new_receive, finish, add, shut, IsSound, IsFitting, Fits, Collects,
  Change-IsSound,
}
use matfix.Correlation.Manager.Keeps.{Keeps, Change-Keeps, Keeps-trans, Keeps-refl}

module _ (re : Regexp) where
  pub data Evolves (m : Manager re) : Manager re → Type 0 where
    still : Evolves m m
    after : {m' m'' : Manager re} → Evolves m m' → Change re m' m'' → Evolves m m''

  one : {m m' : Manager re} → Change re m m' → Evolves m m'
  one c = after still c

  Evolves-trans : {m m' m'' : Manager re} → Evolves m m' → Evolves m' m'' → Evolves m m''
  Evolves-trans e still = e
  Evolves-trans e (after f c) = after (Evolves-trans e f) c

  pub Evolves-IsSound : {m m' : Manager re} → Evolves m m' → IsSound re m → IsSound re m'
  Evolves-IsSound still s = s
  Evolves-IsSound (after {m' = n} {m'' = o} e c) s = Change-IsSound re n o c (Evolves-IsSound e s)

  pub Evolves-Keeps : {m m' : Manager re} → Evolves m m' → IsSound re m → Keeps re m m'
  Evolves-Keeps {m} still s = Keeps-refl re m
  Evolves-Keeps {m} (after {m' = n} {m'' = o} e c) s =
      Keeps-trans re m n o (Evolves-Keeps e s) (Change-Keeps re n o c (Evolves-IsSound e s))

  module _ (k : ℕ) (now : ℤ) (state : CorrelationState) where
    finish_ask-Evolves :
        (a : ActiveAsk re) (new old : AskOutcome) (m : Manager re)
        → m.ask_at k ≡ some a
        → a.outcome ≡ old
        → IsFitting re a new
        → Evolves m (finish_ask re k a new state now old m)
    unfolding finish_ask
    finish_ask-Evolves a new waiting m h w fits = elim (Bool-cases m.stuck) [
      | inl p ↦ rw p (one (finish k a new h w fits refl refl refl))
      | inr p ↦ rw p (one (finish k a new h w fits refl refl refl))
    ]
    finish_ask-Evolves a new timed_out m h w fits = still
    finish_ask-Evolves a new (matched env) m h w fits = still

    finish_at-Evolves :
        (o : Option (ActiveAsk re)) (new : AskOutcome) (m : Manager re)
        → m.ask_at k ≡ o
        → ((a : ActiveAsk re) → o ≡ some a → IsFitting re a new)
        → Evolves m (finish_at re k o new state now m)
    unfolding finish_at
    finish_at-Evolves none new m h fits = still
    finish_at-Evolves (some a) new m h fits =
        finish_ask-Evolves a new a.outcome m h refl (fits a refl)

    finish_receive-Evolves :
        (r : ActiveReceive re) (result : Option (List EventEnvelope)) (m : Manager re)
        → m.receive_at k ≡ some r
        → r.result ≡ result
        → Evolves m (finish_receive re k r state now result m)
    unfolding finish_receive
    finish_receive-Evolves r none m h w = elim (Bool-cases m.stuck) [
      | inl p ↦ rw p (one (shut k r h w refl refl refl))
      | inr p ↦ rw p (one (shut k r h w refl refl refl))
    ]
    finish_receive-Evolves r (some es) m h w = still

    resolve_receive_from :
        (o : Option (ActiveReceive re)) (m : Manager re)
        → m.receive_at k ≡ o
        → Evolves m (finish_receive_at re k o state now m)
    unfolding finish_receive_at
    resolve_receive_from none m h = still
    resolve_receive_from (some r) m h = finish_receive-Evolves r r.result m h refl

    pub resolve_receive-Evolves : (m : Manager re) → Evolves m (resolve_receive re k state now m)
    unfolding resolve_receive
    resolve_receive-Evolves m = resolve_receive_from (m.receive_at k) m refl

  pub deliver_to_ask-Evolves :
      (k : ℕ) (env : EventEnvelope) (now : ℤ) (m : Manager re)
      → ((a : ActiveAsk re) → m.ask_at k ≡ some a → Fits re a env)
      → Evolves m (deliver_to_ask re k env now m)
  unfolding deliver_to_ask
  deliver_to_ask-Evolves k env now m fits =
      finish_at-Evolves k now resolved (m.ask_at k) (matched env) m refl fits

  pub resolve_ask_timeout-Evolves :
      (k : ℕ) (now : ℤ) (m : Manager re) → Evolves m (resolve_ask_timeout re k now m)
  unfolding resolve_ask_timeout
  resolve_ask_timeout-Evolves k now m =
      finish_at-Evolves k now expired (m.ask_at k) timed_out m refl (λ a h. tt)

  collect_from :
      (k : ℕ) (o : Option (ActiveReceive re)) (env : EventEnvelope) (m : Manager re)
      → m.receive_at k ≡ o
      → ((r : ActiveReceive re) → o ≡ some r → Collects re r env)
      → Evolves m (collect_at re k o env m).0
  unfolding collect_at
  collect_from k none env m h fits = still
  collect_from k (some r) env m h fits = elim (Bool-cases (at_limit r.limit r.collected)) [
    | inl full ↦ rw full still
    | inr below ↦ rw below (one (add k r env h (fits r refl) below refl refl refl))
  ]

  pub collect_for_receive-Evolves :
      (k : ℕ) (env : EventEnvelope) (m : Manager re)
      → ((r : ActiveReceive re) → m.receive_at k ≡ some r → Collects re r env)
      → Evolves m (collect_for_receive re k env m).0
  unfolding collect_for_receive
  collect_for_receive-Evolves k env m fits = collect_from k (m.receive_at k) env m refl fits

  time_out_all-Evolves :
      (ks : List ℕ) (now : ℤ) (m : Manager re) → Evolves m (time_out_all re ks now m)
  unfolding time_out_all
  time_out_all-Evolves [] now m = still
  time_out_all-Evolves (k ∷ ks) now m =
      Evolves-trans (resolve_ask_timeout-Evolves k now m)
        (time_out_all-Evolves ks now (resolve_ask_timeout re k now m))

  expire_all-Evolves : (ks : List ℕ) (now : ℤ) (m : Manager re) → Evolves m (expire_all re ks now m)
  unfolding expire_all
  expire_all-Evolves [] now m = still
  expire_all-Evolves (k ∷ ks) now m =
      Evolves-trans (resolve_receive-Evolves k now expired m)
        (expire_all-Evolves ks now (resolve_receive re k expired now m))

  prune_rows-Evolves : (now : ℤ) (m : Manager re) → Evolves m (prune_rows re now m)
  unfolding prune_rows
  prune_rows-Evolves now m = one (same refl refl refl)

  stuck_sweep-Evolves :
      (ks rs : List ℕ) (now later : ℤ) (m : Manager re)
      → Evolves m (stuck_sweep re ks rs now later m)
  unfolding stuck_sweep
  stuck_sweep-Evolves (k ∷ ks) rs now later m = resolve_ask_timeout-Evolves k later m
  stuck_sweep-Evolves [] (k ∷ rs) now later m = resolve_receive-Evolves k later expired m
  stuck_sweep-Evolves [] [] now later m = prune_rows-Evolves now m

  sweep_all-Evolves :
      (ks rs : List ℕ) (now later : ℤ) (m : Manager re) → Evolves m (sweep_all re ks rs now later m)
  unfolding sweep_all
  sweep_all-Evolves ks rs now later m =
      let m1 = time_out_all re ks later m in
      Evolves-trans (time_out_all-Evolves ks later m) (
        Evolves-trans (expire_all-Evolves rs later m1)
          (prune_rows-Evolves now (expire_all re rs later m1)))

  if-Evolves :
      (b : Bool) (m found other : Manager re)
      → Evolves m found
      → Evolves m other
      → Evolves m (if b then found else other)
  if-Evolves true m x y e f = e
  if-Evolves false m x y e f = f

  pub sweep_expired-Evolves :
      (now later : ℤ) (m : Manager re) → Evolves m (sweep_expired re now later m)
  unfolding sweep_expired
  sweep_expired-Evolves now later m =
      let ks = overdue re (λ k. overdue_ask re now (m.ask_at k)) m.asks in
      let rs = overdue re (λ k. overdue_receive re now (m.receive_at k)) m.receives in
      if-Evolves m.stuck m (stuck_sweep re ks rs now later m) (sweep_all re ks rs now later m)
        (stuck_sweep-Evolves ks rs now later m) (sweep_all-Evolves ks rs now later m)

  add_ask-Evolves :
      (a : ActiveAsk re) (m : Manager re) → a.outcome ≡ waiting → Evolves m (add_ask re a m).1
  unfolding add_ask
  add_ask-Evolves a m w = elim (Bool-cases m.stuck) [
    | inl p ↦ rw p still
    | inr p ↦ rw p (one (new_ask a w refl refl refl))
  ]

  add_receive-Evolves :
      (r : ActiveReceive re) (m : Manager re)
      → r.collected ≡ []
      → r.result ≡ none
      → Evolves m (add_receive re r m).1
  unfolding add_receive
  add_receive-Evolves r m c w = elim (Bool-cases m.stuck) [
    | inl p ↦ rw p still
    | inr p ↦ rw p (one (new_receive r c w refl refl refl))
  ]

  -- The rest of a registration after its INSERT.
  inserted_ask :
      (r : Result Unit) (table : CorrelationDb) (a : ActiveAsk re) (m : Manager re)
      → a.outcome ≡ waiting
      → Evolves m (and_then r (λ _. add_ask re a) (record m { store = table })).1
  inserted_ask (ok u) table a m w =
      Evolves-trans (one (same refl refl refl)) (add_ask-Evolves a (record m { store = table }) w)
  inserted_ask (err e) table a m w = one (same refl refl refl)

  inserted_receive :
      (x : Result Unit) (table : CorrelationDb) (r : ActiveReceive re) (m : Manager re)
      → r.collected ≡ []
      → r.result ≡ none
      → Evolves m (and_then x (λ _. add_receive re r) (record m { store = table })).1
  inserted_receive (ok u) table r m c w =
      Evolves-trans (one (same refl refl refl))
        (add_receive-Evolves r (record m { store = table }) c w)
  inserted_receive (err e) table r m c w = one (same refl refl refl)

  module _ (marshal : FilterNode → Option String) where
    pub register_ask-Evolves :
        (req : AskRequest) (uuid : String) (now later : ℤ) (m : Manager re)
        → Evolves m (register_ask re marshal req uuid now later m).1
    unfolding register_ask
    register_ask-Evolves req uuid now later m =
        let f = pointer_to (ask_filter req) in
        elim (Result-cases (new_compiled_filter re f)) [
          | inr (e, p) ↦ rw p still
          | inl (c, p) ↦ rw p (elim (Option-cases (marshal f)) [
            | inl q ↦ rw (q, and_then) still
            | inr (json, q) ↦
                let (r, table) = insert_correlation (ask_entry req uuid json now later) m.store in
                rw (q, and_then) (inserted_ask r table (new_ask_of re req uuid now c) m refl)
          ])
        ]

    pub register_receive-Evolves :
        (req : ReceiveRequest) (uuid : String) (now later : ℤ) (m : Manager re)
        → Evolves m (register_receive re marshal req uuid now later m).1
    unfolding register_receive
    register_receive-Evolves req uuid now later m =
        let f = pointer_to req.filter in
        elim (Result-cases (new_compiled_filter re f)) [
          | inr (e, p) ↦ rw p still
          | inl (c, p) ↦ rw p (elim (Option-cases (marshal f)) [
            | inl q ↦ rw (q, and_then) still
            | inr (json, q) ↦
                let (r, table) =
                  insert_correlation (receive_entry req uuid json now later) m.store in
                rw (q, and_then)
                  (inserted_receive r table (new_receive_of re req uuid now c) m refl refl)
          ])
        ]
