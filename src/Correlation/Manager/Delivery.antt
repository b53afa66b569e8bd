-- ===== src/Correlation/Manager/Delivery.antt =====
-- That a waiting ask is answered: handleEvent and deliverToAsk of internal/correlation, one after the
-- other.
use matfix.Shared.{
  ◌≡◌, refl, sym, ◌∙◌, ap, inl, inr, ℕ, String, Bool, true, false, Option, none, some, List, [],
  ◌∷◌, ◌++◌, ℤ, IsIn, Bool-cases,
}
use mathlib.Core.List.{append_assoc}
use matfix.Bus.Events.{EventEnvelope}
use matfix.Persistence.Correlations.{resolved}
use matfix.Correlation.Filter.{FilterNode, Regexp}
use matfix.Correlation.Manager.{
  Index, Manager, ActiveAsk, AskOutcome, waiting, timed_out, matched, Task, deliver, matching,
  run_task, ask_matches, ask_tasks, receive_tasks, both_tasks, add_task, deliver_to_ask, finish_ask,
  finish_at,
}
use matfix.Correlation.Manager.Heap.{put-same}
use matfix.Correlation.Manager.Steps.{
  System, Step, event, run, Steps, here, next, observe, after_matching,
}

module _ (re : Regexp) where
  -- The list holds the task.
  abbrev pub Holds : Task → List Task → Type 0
  Holds t ts = (before : List Task) × (after : List Task) × (ts ≡ before ++ t ∷ after)

  Holds-right : (t : Task) (ts us : List Task) → Holds t ts → Holds t (ts ++ us)
  Holds-right t ts us (before, after, e) =
      (before, after ++ us, rw e (append_assoc before (t ∷ after) us))

  Holds-left : (t : Task) (us ts : List Task) → Holds t ts → Holds t (us ++ ts)
  Holds-left t us ts (before, after, e) =
      (us ++ before, after, rw e (sym (append_assoc us before (t ∷ after))))

  add_task-Holds :
      (t u : Task) (o : Option Bool) (later : Option (List Task)) (ts : List Task)
      → add_task re o u later ≡ some ts
      → ((us : List Task) → later ≡ some us → Holds t us)
      → Holds t ts
  unfolding add_task
  add_task-Holds t u none later ts h rest = absurd (cc)
  add_task-Holds t u (some false) later ts h rest = rest ts h
  add_task-Holds t u (some true) none ts h rest = absurd (cc)
  add_task-Holds t u (some true) (some us) ts h rest =
      let (before, after, e) = rest us refl in
      let q : u ∷ us ≡ ts = cc h in (u ∷ before, after, rw (← q, e) refl)

  add_task_first :
      (u : Task) (o : Option Bool) (later : Option (List Task)) (ts : List Task)
      → o ≡ some true
      → add_task re o u later ≡ some ts
      → Holds u ts
  unfolding add_task
  add_task_first u none later ts p h = absurd (cc)
  add_task_first u (some false) later ts p h = absurd (cc)
  add_task_first u (some true) none ts p h = absurd (cc)
  add_task_first u (some true) (some us) ts p h = let q : u ∷ us ≡ ts = cc h in ([], us, sym q)

  module _ (env : EventEnvelope) (k : ℕ) (id : String) (heap : ℕ → Option (ActiveAsk re)) where
    ask_tasks-Holds :
        (index : Index) (ts : List Task)
        → IsIn (id, k) index
        → ask_matches re env (heap k) ≡ some true
        → ask_tasks re env heap index ≡ some ts
        → Holds (deliver k env) ts
    unfolding ask_tasks
    ask_tasks-Holds [] ts m fits h = absurd m
    ask_tasks-Holds ((i, j) ∷ rest) ts (inl p) fits h =
        let e : k ≡ j = ap (λ (x : String × ℕ). x.1) p in
        rw e (
          add_task_first (deliver j env) (ask_matches re env (heap j)) (ask_tasks re env heap rest)
            ts (rw (← e) fits) h)
    ask_tasks-Holds ((i, j) ∷ rest) ts (inr m) fits h =
        add_task-Holds (deliver k env) (deliver j env) (ask_matches re env (heap j))
          (ask_tasks re env heap rest) ts h (λ us q. ask_tasks-Holds rest us m fits q)

  both_tasks-Holds :
      (t : Task) (a b : Option (List Task)) (ts : List Task)
      → both_tasks re a b ≡ some ts
      → ((us : List Task) → a ≡ some us → Holds t us)
      → Holds t ts
  unfolding both_tasks
  both_tasks-Holds t none b ts h rest = absurd (cc)
  both_tasks-Holds t (some a) none ts h rest = absurd (cc)
  both_tasks-Holds t (some a) (some b) ts h rest =
      let q : a ++ b ≡ ts = cc h in rw (← q) (Holds-right t a b (rest a refl))

  finish_waiting :
      (k : ℕ) (env : EventEnvelope) (now : ℤ) (m : Manager re) (a : ActiveAsk re) (o : AskOutcome)
      → o ≡ waiting
      → (finish_ask re k a (matched env) resolved now o m).ask_at k
        ≡ some (record a { outcome = matched env })
  unfolding finish_ask
  finish_waiting k env now m a waiting w = elim (Bool-cases m.stuck) [
    | inl p ↦ rw p (put-same k (record a { outcome = matched env }) m.ask_at)
    | inr p ↦ rw p (put-same k (record a { outcome = matched env }) m.ask_at)
  ]
  finish_waiting k env now m a timed_out w = absurd (cc)
  finish_waiting k env now m a (matched e) w = absurd (cc)

  delivered :
      (k : ℕ) (env : EventEnvelope) (now : ℤ) (m : Manager re) (a : ActiveAsk re)
      → m.ask_at k ≡ some a
      → a.outcome ≡ waiting
      → (deliver_to_ask re k env now m).ask_at k ≡ some (record a { outcome = matched env })
  unfolding deliver_to_ask
  delivered k env now m a h w = rw (h, finish_at) (finish_waiting k env now m a a.outcome w)

  finish_ask-stuck :
      (k : ℕ) (a : ActiveAsk re) (env : EventEnvelope) (now : ℤ) (o : AskOutcome) (m : Manager re)
      → (finish_ask re k a (matched env) resolved now o m).stuck ≡ m.stuck
  unfolding finish_ask
  finish_ask-stuck k a env now waiting m = elim (Bool-cases m.stuck) [
    | inl p ↦ rw p refl
    | inr p ↦ rw p refl
  ]
  finish_ask-stuck k a env now timed_out m = refl
  finish_ask-stuck k a env now (matched e) m = refl

  deliver_to_ask-stuck :
      (k : ℕ) (env : EventEnvelope) (now : ℤ) (m : Manager re)
      → (deliver_to_ask re k env now m).stuck ≡ m.stuck
  unfolding deliver_to_ask finish_at
  deliver_to_ask-stuck k env now m = by_ask (m.ask_at k)
    where
      by_ask :
          (found : Option (ActiveAsk re))
          → (finish_at re k found (matched env) resolved now m).stuck ≡ m.stuck
      by_ask none = refl
      by_ask (some a) = finish_ask-stuck k a env now a.outcome m

  module _ (marshal : FilterNode → Option String) where
    delivery :
        (s : System re marshal) (k : ℕ) (env : EventEnvelope) (now : ℤ) (a : ActiveAsk re)
        → s.manager.ask_at k ≡ some a
        → a.outcome ≡ waiting
        → Holds (deliver k env) s.tasks
        → s.manager.stuck ≡ false
        → (t : System re marshal) × Step re marshal s t
          × (t.manager.ask_at k ≡ some (record a { outcome = matched env }))
          × (t.manager.stuck ≡ false)
    unfolding run_task
    delivery s k env now a h w (before, after, e) free = (
      _,
      run before (deliver k env) after now e refl,
      delivered k env now s.manager a h w,
      deliver_to_ask-stuck k env now s.manager ∙ free,
    )

    -- An ask in the map that still waits is answered by each event that it matches: if no filter
    -- panics on the event, and none has panicked before, so that no read lock is left taken and
    -- handleEvent gets its own, some steps (the matching half of handleEvent, then one delivery) lead
    -- to a state in which the ask's outcome is that event, and still no lock is left taken.
    pub waiting-Steps-matched :
        (s : System re marshal) (env : EventEnvelope) (id : String) (k : ℕ) (a : ActiveAsk re)
        (ts : List Task) (now : ℤ)
        → s.manager.stuck ≡ false
        → IsIn (id, k) s.manager.asks
        → s.manager.ask_at k ≡ some a
        → a.outcome ≡ waiting
        → ask_matches re env (some a) ≡ some true
        → matching re env s.manager ≡ some ts
        → (t : System re marshal) × Steps re marshal s t
          × (t.manager.ask_at k ≡ some (record a { outcome = matched env }))
          × (t.manager.stuck ≡ false)
    unfolding matching observe
    waiting-Steps-matched s env id k a ts now free m h w fits panics =
        let seen = observe re marshal env s in
        let held =
          both_tasks-Holds (deliver k env) (ask_tasks re env s.manager.ask_at s.manager.asks)
            (receive_tasks re env s.manager.receive_at s.manager.receives) ts panics
            (λ us q. ask_tasks-Holds env k id s.manager.ask_at s.manager.asks us m (rw h fits) q) in
        let next_state : seen ≡ record s { tasks = s.tasks ++ ts } =
          rw (panics, after_matching) refl in
        let (t, step, done, still_free) =
          delivery (record s { tasks = s.tasks ++ ts }) k env now a h w
            (Holds-left (deliver k env) s.tasks ts held) free in
        (t, next (next here (event env (sym next_state))) step, done, still_free)
