-- ===== src/Correlation/Manager/Steps.antt =====
-- The correlation manager under concurrency: registrations, events, the goroutines that they start,
-- timers and sweeps come in any order.
use matfix.Shared.{◌≡◌, ℕ, String, true, Option, none, some, List, ◌∷◌, ◌++◌, ℤ}
use matfix.Bus.Events.{EventEnvelope}
use matfix.Persistence.Correlations.{expired}
use matfix.Correlation.Filter.{FilterNode, Regexp}
use matfix.Correlation.Requests.{AskRequest, ReceiveRequest}
use matfix.Correlation.Manager.{
  Manager, Task, register_ask, register_receive, matching, run_task, resolve_ask_timeout,
  resolve_receive, sweep_expired,
}

module _ (re : Regexp) (marshal : FilterNode → Option String) where
  -- `tasks` is what the goroutines have still to do.
  pub record System : Type 0 where
    pub manager : Manager re
    pub tasks : List Task

  unfoldable pub after_matching : Option (List Task) → System → System
  after_matching none s = record s { manager = record s.manager { stuck = true } }
  after_matching (some tasks) s = record s { tasks = s.tasks ++ tasks }

  -- handleEvent up to the deliveries, from where it gets the read lock; after a panic that lock stays
  -- taken.
  unfoldable pub observe : EventEnvelope → System → System
  unfolding after_matching matching
  observe env s = after_matching (matching re env s.manager) s

  pub data Step (s t : System) : Type 0 where
    ask :
        (req : AskRequest) (uuid : String) (now later : ℤ)
        → t ≡ record s { manager = (register_ask re marshal req uuid now later s.manager).1 }
        → Step s t
    receive :
        (req : ReceiveRequest) (uuid : String) (now later : ℤ)
        → t ≡ record s { manager = (register_receive re marshal req uuid now later s.manager).1 }
        → Step s t
    event : (env : EventEnvelope) → t ≡ observe env s → Step s t
    -- Once a read lock stays taken, a writer waits for it and holds up the readers that come later:
    -- handleEvent does not get past RLock. Only a reader before that writer has the step `event`.
    held_up : (env : EventEnvelope) → s.manager.stuck ≡ true → t ≡ s → Step s t
    run :
        (before : List Task) (task : Task) (after : List Task) (now : ℤ)
        → s.tasks ≡ before ++ task ∷ after
        → t ≡ record {
          manager = (run_task re now task s.manager).0;
          tasks = before ++ (after ++ (run_task re now task s.manager).1);
        }
        → Step s t
    -- The timer of an ask fires.
    time_out :
        (k : ℕ) (now : ℤ)
        → t ≡ record s { manager = resolve_ask_timeout re k now s.manager }
        → Step s t
    -- The timer of a receive fires.
    close_window :
        (k : ℕ) (now : ℤ)
        → t ≡ record s { manager = resolve_receive re k expired now s.manager }
        → Step s t
    sweep :
        (now later : ℤ) → t ≡ record s { manager = sweep_expired re now later s.manager } → Step s t

  pub data Steps (s : System) : System → Type 0 where
    here : Steps s s
    next : {t u : System} → Steps s t → Step t u → Steps s u
