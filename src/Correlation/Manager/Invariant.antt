-- ===== src/Correlation/Manager/Invariant.antt =====
-- What every reachable state of the correlation manager satisfies, and what no step undoes.
use matfix.Shared.{
  ◌≡◌, refl, inl, inr, ℕ, String, Bool, true, false, Option, none, some, List, [], ◌∷◌, ◌++◌, arith,
  ℤ, All, Bool-cases,
}
use matfix.Bus.Events.{EventEnvelope}
use matfix.Persistence.Correlations.{resolved, expired}
use matfix.Correlation.Filter.{FilterNode, Regexp}
use matfix.Correlation.Manager.{
  add_task, Index, Manager, ActiveAsk, ActiveReceive, Task, deliver, collect, close, matching,
  run_task, collect_at, collect_for_receive, at_limit, ask_matches, receive_matches, ask_tasks,
  receive_tasks, both_tasks,
}
use matfix.Correlation.Manager.Steps.{
  System, Step, ask, receive, event, held_up, run, time_out, close_window, sweep, Steps, here, next,
  observe, after_matching,
}
use matfix.Correlation.Manager.Changes.{same, IsSound, Fits, Collects}
use matfix.Correlation.Manager.Keeps.{Keeps, Keeps-trans, Keeps-refl}
use matfix.Correlation.Manager.Effects.{
  Evolves, still, after, Evolves-IsSound, Evolves-Keeps, register_ask-Evolves,
  register_receive-Evolves, deliver_to_ask-Evolves, resolve_ask_timeout-Evolves,
  collect_for_receive-Evolves, resolve_receive-Evolves, sweep_expired-Evolves,
}

module _ (re : Regexp) where
  -- A task names an object that its event may go to.
  abbrev pub IsDue : Manager re → Task → Type 0
  IsDue m (deliver k env) = (a : ActiveAsk re) × (m.ask_at k ≡ some a) × Fits re a env
  IsDue m (collect k env) = (r : ActiveReceive re) × (m.receive_at k ≡ some r) × Collects re r env
  IsDue m (close k) = Unit

  IsDue-Keeps : (m m' : Manager re) → Keeps re m m' → (t : Task) → IsDue m t → IsDue m' t
  IsDue-Keeps m m' keeps (deliver k env) (a, h, fits) =
      let (o, p, c) = keeps.asks k a h in (record a { outcome = o }, p, fits)
  IsDue-Keeps m m' keeps (collect k env) (r, h, fits) =
      let (more, res, p, c) = keeps.receives k r h in
      (record r { collected = r.collected ++ more; result = res }, p, fits)
  IsDue-Keeps m m' keeps (close k) d = tt

  AllDue-Keeps :
      (m m' : Manager re) → Keeps re m m' → (ts : List Task) → All (IsDue m) ts → All (IsDue m') ts
  AllDue-Keeps m m' keeps [] d = tt
  AllDue-Keeps m m' keeps (t ∷ ts) d =
      (IsDue-Keeps m m' keeps t d.0, AllDue-Keeps m m' keeps ts d.1)

  AllDue-append :
      (m : Manager re) (ts us : List Task)
      → All (IsDue m) ts
      → All (IsDue m) us
      → All (IsDue m) (ts ++ us)
  AllDue-append m [] us d e = e
  AllDue-append m (t ∷ ts) us d e = (d.0, AllDue-append m ts us d.1 e)

  AllDue-split :
      (m : Manager re) (ts : List Task) (u : Task) (us : List Task)
      → All (IsDue m) (ts ++ u ∷ us)
      → All (IsDue m) ts × IsDue m u × All (IsDue m) us
  AllDue-split m [] u us d = (tt, d.0, d.1)
  AllDue-split m (t ∷ ts) u us d = let (a, b, c) = AllDue-split m ts u us d.1 in ((d.0, a), b, c)

  -- What the matching loops put on the list is due.
  ask-IsDue :
      (env : EventEnvelope) (m : Manager re) (k : ℕ) (o : Option (ActiveAsk re))
      → m.ask_at k ≡ o
      → ask_matches re env o ≡ some true
      → IsDue m (deliver k env)
  unfolding ask_matches
  ask-IsDue env m k none h q = absurd (cc)
  ask-IsDue env m k (some a) h q = (a, h, ground arith)

  receive-IsDue :
      (env : EventEnvelope) (m : Manager re) (k : ℕ) (o : Option (ActiveReceive re))
      → m.receive_at k ≡ o
      → receive_matches re env o ≡ some true
      → IsDue m (collect k env)
  unfolding receive_matches
  receive-IsDue env m k none h q = absurd (cc)
  receive-IsDue env m k (some r) h q = (r, h, q)

  add_task-IsDue :
      (m : Manager re) (o : Option Bool) (t : Task) (later : Option (List Task)) (ts : List Task)
      → add_task re o t later ≡ some ts
      → (o ≡ some true → IsDue m t)
      → ((us : List Task) → later ≡ some us → All (IsDue m) us)
      → All (IsDue m) ts
  unfolding add_task
  add_task-IsDue m none t later ts h due rest = absurd (cc)
  add_task-IsDue m (some false) t later ts h due rest = rest ts h
  add_task-IsDue m (some true) t none ts h due rest = absurd (cc)
  add_task-IsDue m (some true) t (some us) ts h due rest =
      let e : t ∷ us ≡ ts = cc h in rw (← e) (due refl, rest us refl)

  ask_tasks-IsDue :
      (env : EventEnvelope) (m : Manager re) (index : Index) (ts : List Task)
      → ask_tasks re env m.ask_at index ≡ some ts
      → All (IsDue m) ts
  unfolding ask_tasks
  ask_tasks-IsDue env m [] ts h = let e : [] ≡ ts = cc h in rw (← e) tt
  ask_tasks-IsDue env m ((id, k) ∷ rest) ts h =
      add_task-IsDue m (ask_matches re env (m.ask_at k)) (deliver k env)
        (ask_tasks re env m.ask_at rest) ts h (ask-IsDue env m k (m.ask_at k) refl)
        (λ us q. ask_tasks-IsDue env m rest us q)

  receive_tasks-IsDue :
      (env : EventEnvelope) (m : Manager re) (index : Index) (ts : List Task)
      → receive_tasks re env m.receive_at index ≡ some ts
      → All (IsDue m) ts
  unfolding receive_tasks
  receive_tasks-IsDue env m [] ts h = let e : [] ≡ ts = cc h in rw (← e) tt
  receive_tasks-IsDue env m ((id, k) ∷ rest) ts h =
      add_task-IsDue m (receive_matches re env (m.receive_at k)) (collect k env)
        (receive_tasks re env m.receive_at rest) ts h (receive-IsDue env m k (m.receive_at k) refl)
        (λ us q. receive_tasks-IsDue env m rest us q)

  both_tasks-IsDue :
      (m : Manager re) (a b : Option (List Task)) (ts : List Task)
      → both_tasks re a b ≡ some ts
      → ((us : List Task) → a ≡ some us → All (IsDue m) us)
      → ((us : List Task) → b ≡ some us → All (IsDue m) us)
      → All (IsDue m) ts
  unfolding both_tasks
  both_tasks-IsDue m none b ts h p q = absurd (cc)
  both_tasks-IsDue m (some a) none ts h p q = absurd (cc)
  both_tasks-IsDue m (some a) (some b) ts h p q =
      let e : a ++ b ≡ ts = cc h in rw (← e) (AllDue-append m a b (p a refl) (q b refl))

  matching-IsDue :
      (env : EventEnvelope) (m : Manager re) (ts : List Task)
      → matching re env m ≡ some ts
      → All (IsDue m) ts
  unfolding matching
  matching-IsDue env m ts h =
      both_tasks-IsDue m (ask_tasks re env m.ask_at m.asks)
        (receive_tasks re env m.receive_at m.receives) ts h (ask_tasks-IsDue env m m.asks)
        (receive_tasks-IsDue env m m.receives)

  -- A due task may run, and what it starts is due.
  run_task-Evolves :
      (now : ℤ) (t : Task) (m : Manager re) → IsDue m t → Evolves re m (run_task re now t m).0
  unfolding run_task
  run_task-Evolves now (deliver k env) m (a, h, fits) =
      deliver_to_ask-Evolves re k env now m (λ b q. let e : a ≡ b = cc in rw (← e) fits)
  run_task-Evolves now (collect k env) m (r, h, fits) =
      collect_for_receive-Evolves re k env m (λ b q. let e : r ≡ b = cc in rw (← e) fits)
  run_task-Evolves now (close k) m d = resolve_receive-Evolves re k now resolved m

  started-IsDue :
      (m n : Manager re) (k : ℕ) (o : Option (ActiveReceive re)) (env : EventEnvelope)
      → All (IsDue n) (collect_at re k o env m).1
  unfolding collect_at
  started-IsDue m n k none env = tt
  started-IsDue m n k (some r) env = elim (Bool-cases (at_limit r.limit r.collected)) [
    | inl full ↦ rw full tt
    | inr below ↦ rw below (elim (Bool-cases (at_limit r.limit (r.collected ++ env ∷ []))) [
      | inl full ↦ rw full (tt, tt)
      | inr more ↦ rw more tt
    ])
  ]

  run_task-IsDue : (now : ℤ) (t : Task) (m n : Manager re) → All (IsDue n) (run_task re now t m).1
  unfolding run_task collect_for_receive
  run_task-IsDue now (deliver k env) m n = tt
  run_task-IsDue now (collect k env) m n = started-IsDue m n k (m.receive_at k) env
  run_task-IsDue now (close k) m n = tt

  module _ (marshal : FilterNode → Option String) where
    pub record IsConsistent (s : System re marshal) : Type 0 where
      pub sound : IsSound re s.manager
      pub due : All (IsDue s.manager) s.tasks

    -- A step that leaves the tasks alone.
    moved :
        (s : System re marshal) (m : Manager re)
        → IsConsistent s
        → Evolves re s.manager m
        → IsConsistent (record s { manager = m }) × Keeps re s.manager m
    moved s m i e =
        let keeps = Evolves-Keeps re e i.sound in
        (
          record {
            sound = Evolves-IsSound re e i.sound;
            due = AllDue-Keeps s.manager m keeps s.tasks i.due;
          },
          keeps,
        )

    observed_from :
        (o : Option (List Task)) (s : System re marshal)
        → IsConsistent s
        → ((ts : List Task) → o ≡ some ts → All (IsDue s.manager) ts)
        → let t = after_matching re marshal o s in IsConsistent t × Keeps re s.manager t.manager
    unfolding after_matching
    observed_from none s i due = moved s _ i (after still (same refl refl refl))
    observed_from (some ts) s i due = (
      record { sound = i.sound; due = AllDue-append s.manager s.tasks ts i.due (due ts refl) },
      Keeps-refl re s.manager,
    )

    observed :
        (env : EventEnvelope) (s : System re marshal)
        → IsConsistent s
        → IsConsistent (observe re marshal env s)
          × Keeps re s.manager (observe re marshal env s).manager
    unfolding observe
    observed env s i = observed_from (matching re env s.manager) s i (matching-IsDue env s.manager)

    Step-IsConsistent :
        (s t : System re marshal)
        → Step re marshal s t
        → IsConsistent s
        → IsConsistent t × Keeps re s.manager t.manager
    Step-IsConsistent s t (ask req uuid now later p) i =
        rw p (moved s _ i (register_ask-Evolves re marshal req uuid now later s.manager))
    Step-IsConsistent s t (receive req uuid now later p) i =
        rw p (moved s _ i (register_receive-Evolves re marshal req uuid now later s.manager))
    Step-IsConsistent s t (event env p) i = rw p (observed env s i)
    Step-IsConsistent s t (held_up env stuck p) i = rw p (i, Keeps-refl re s.manager)
    Step-IsConsistent s t (run before task rest now q p) i =
        let (a, b, c) = AllDue-split s.manager before task rest (rw (← q) i.due) in
        let m = (run_task re now task s.manager).0 in
        let started = (run_task re now task s.manager).1 in
        let e = run_task-Evolves now task s.manager b in
        let keeps = Evolves-Keeps re e i.sound in
        rw p (
          record {
            sound = Evolves-IsSound re e i.sound;
            due =
                AllDue-append m before (rest ++ started) (AllDue-Keeps s.manager m keeps before a) (
                  AllDue-append m rest started (AllDue-Keeps s.manager m keeps rest c)
                    (run_task-IsDue now task s.manager m));
          },
          keeps,
        )
    Step-IsConsistent s t (time_out k now p) i =
        rw p (moved s _ i (resolve_ask_timeout-Evolves re k now s.manager))
    Step-IsConsistent s t (close_window k now p) i =
        rw p (moved s _ i (resolve_receive-Evolves re k now expired s.manager))
    Step-IsConsistent s t (sweep now later p) i =
        rw p (moved s _ i (sweep_expired-Evolves re now later s.manager))

    -- However registrations, events, goroutines, timers and sweeps interleave and whatever statements
    -- fail: an ask that an event resolved has a filter that matches the event and is not its echo;
    -- a receive holds only events that its filter matches, never more than a positive limit, and what
    -- it handed out is an initial part of what it collected; and so is every delivery still to come.
    pub Steps-IsConsistent :
        (s t : System re marshal) → IsConsistent s → Steps re marshal s t → IsConsistent t
    Steps-IsConsistent s t i here = i
    Steps-IsConsistent s t i (next {t = u} r st) =
        (Step-IsConsistent u t st (Steps-IsConsistent s u i r)).0

    -- From a state with the invariant, however the steps go on: an ask whose outcome is set keeps
    -- it, and a receive whose window is closed keeps the events that it handed out; no object
    -- disappears, and none changes its ID, account, filter, timeout or limit.
    pub Steps-Keeps :
        (s t : System re marshal)
        → IsConsistent s
        → Steps re marshal s t
        → Keeps re s.manager t.manager
    Steps-Keeps s t i here = Keeps-refl re s.manager
    Steps-Keeps s t i (next {t = u} r st) =
        Keeps-trans re s.manager u.manager t.manager (Steps-Keeps s u i r)
          (Step-IsConsistent u t st (Steps-IsConsistent s u i r)).1
