-- ===== src/Correlation/Manager.antt =====
-- CorrelationManager of internal/correlation: manager.go, ask.go, receive.go and cleanup.go. The
-- structs activeAsk and activeReceive are objects at addresses, which the maps hold by ID.
pub mod Steps
pub mod Heap
pub mod Changes
pub mod Keeps
pub mod Effects
pub mod Invariant
pub mod Delivery
use matfix.Shared.{
  ℕ, suc, ◌+◌, String, Bool, true, false, ◌&&◌, Option, none, some, List, [], ◌∷◌, ◌++◌, ◌==◌, eqb,
  if◌then◌else◌, length, ℤ, pos, ltb_ℤ, leb_ℤ, ◌+ℤ◌, Result, ok, err, codec, Exec, pure, lift,
  and_then, ◌>>=◌, ◌>>◌,
}
use matfix.Bus.Events.{EventEnvelope, Payload, message}
use matfix.Persistence.Correlations.{
  CorrelationDb, CorrelationState, resolved, expired, insert_correlation, update_correlation,
  delete_expired,
}
use matfix.Correlation.Filter.{FilterNode, Regexp, CompiledNode, new_compiled_filter}
use matfix.Correlation.Filter.Match.{matches}
use matfix.Correlation.Requests.{
  AskRequest, ReceiveRequest, pointer_to, ask_filter, id_or, ask_entry, receive_entry,
}
use matfix.Queue.Retry.{unix_milli}

-- The channels `result` and `done` with the sync.Once that guards them.
pub data AskOutcome : Type 0 where
  waiting timed_out : AskOutcome
  matched : EventEnvelope → AskOutcome

-- A write at an address.
unfoldable pub put {ℓ} : {A : Type ℓ} → ℕ → A → (ℕ → A) → ℕ → A
put k a f j = if eqb k j then a else f j

abbrev pub Index : Type 0
Index = List (String × ℕ)

-- m.asks[id] = a, and delete(m.asks, id).
unfoldable pub insert_key : String → ℕ → Index → Index
insert_key id k [] = (id, k) ∷ []
insert_key id k ((i, j) ∷ rest) = if i == id then (id, k) ∷ rest else (i, j) ∷ insert_key id k rest

unfoldable pub remove_key : String → Index → Index
remove_key id [] = []
remove_key id ((i, j) ∷ rest) = if i == id then rest else (i, j) ∷ remove_key id rest

-- What a goroutine has still to do: deliverToAsk, collectForReceive, or the resolveReceive that
-- collectForReceive starts at the limit.
pub data Task : Type 0 where
  deliver : ℕ → EventEnvelope → Task
  collect : ℕ → EventEnvelope → Task
  close : ℕ → Task

unfoldable pub is_echo : String → Payload → Bool
is_echo id (message p) = p.event_id == id
is_echo id _ = false

unfoldable pub at_limit : ℤ → List EventEnvelope → Bool
at_limit limit events = ltb_ℤ (pos 0) limit && leb_ℤ limit (pos (length events))

module _ (re : Regexp) where
  pub record ActiveAsk : Type 0 where
    pub id : String
    pub account_id : String
    pub filter : CompiledNode re
    pub timeout_at : ℤ
    pub outcome : AskOutcome

  -- `result` is what was sent to the channel, if anything.
  pub record ActiveReceive : Type 0 where
    pub id : String
    pub account_id : String
    pub filter : CompiledNode re
    pub timeout_at : ℤ
    pub limit : ℤ
    pub collected : List EventEnvelope
    pub result : Option (List EventEnvelope)

  -- `next` is the first free address. `stuck` says that a handler panicked with the read lock held:
  -- then whoever wants the write lock waits for ever.
  pub record Manager : Type 0 where
    pub store : CorrelationDb
    pub asks : Index
    pub receives : Index
    pub ask_at : ℕ → Option ActiveAsk
    pub receive_at : ℕ → Option ActiveReceive
    pub next : ℕ
    pub stuck : Bool

  abbrev on_table {ℓ} :
      {A : Type ℓ} → (CorrelationDb → Result A × CorrelationDb) → Manager → Result A × Manager
  on_table op m = let (r, t) = op m.store in (r, record m { store = t })

  -- Where the write lock is not to be had, the call never returns: `none`.
  unfoldable pub add_ask : ActiveAsk → Exec Manager (Option ℕ)
  unfolding put insert_key
  add_ask a m = if m.stuck then (ok none, m) else (
    ok (some m.next),
    record m {
      asks = insert_key a.id m.next m.asks;
      ask_at = put m.next (some a) m.ask_at;
      next = m.next + 1;
    },
  )

  unfoldable pub add_receive : ActiveReceive → Exec Manager (Option ℕ)
  unfolding put insert_key
  add_receive r m = if m.stuck then (ok none, m) else (
    ok (some m.next),
    record m {
      receives = insert_key r.id m.next m.receives;
      receive_at = put m.next (some r) m.receive_at;
      next = m.next + 1;
    },
  )

  abbrev pub new_ask_of : AskRequest → String → ℤ → CompiledNode re → ActiveAsk
  new_ask_of req uuid now filter = record {
    id = id_or req.correlation_id uuid;
    account_id = req.account_id;
    filter = filter;
    timeout_at = now +ℤ req.timeout;
    outcome = waiting;
  }

  abbrev pub new_receive_of : ReceiveRequest → String → ℤ → CompiledNode re → ActiveReceive
  new_receive_of req uuid now filter = record {
    id = id_or req.correlation_id uuid;
    account_id = req.account_id;
    filter = filter;
    timeout_at = now +ℤ req.timeout;
    limit = req.limit;
    collected = [];
    result = none;
  }

  -- json.Marshal of a filter, with `none` for an error.
  module _ (marshal : FilterNode → Option String) where
    abbrev marshalled : FilterNode → Result String
    marshalled f = elim (marshal f) [ none ↦ err codec | some text ↦ ok text ]

    -- The result is the address of the ask, which the handle shares.
    unfoldable pub register_ask : AskRequest → String → ℤ → ℤ → Exec Manager (Option ℕ)
    unfolding ask_filter id_or ask_entry new_compiled_filter add_ask
    register_ask req uuid now later = do
      filter ← lift (new_compiled_filter re (pointer_to (ask_filter req)))
      json ← lift (marshalled (pointer_to (ask_filter req)))
      on_table (insert_correlation (ask_entry req uuid json now later))
      add_ask (new_ask_of req uuid now filter)

    unfoldable pub register_receive : ReceiveRequest → String → ℤ → ℤ → Exec Manager (Option ℕ)
    unfolding id_or receive_entry new_compiled_filter add_receive
    register_receive req uuid now later = do
      filter ← lift (new_compiled_filter re (pointer_to req.filter))
      json ← lift (marshalled (pointer_to req.filter))
      on_table (insert_correlation (receive_entry req uuid json now later))
      add_receive (new_receive_of req uuid now filter)

  unfoldable pub ask_matches : EventEnvelope → Option ActiveAsk → Option Bool
  unfolding is_echo matches
  ask_matches env none = some false
  ask_matches env (some a) =
      if is_echo a.id env.payload then some false else matches re a.filter env a.account_id

  unfoldable pub receive_matches : EventEnvelope → Option ActiveReceive → Option Bool
  unfolding matches
  receive_matches env none = some false
  receive_matches env (some r) = matches re r.filter env r.account_id

  -- One round of a matching loop; `none` is a panic.
  unfoldable pub add_task : Option Bool → Task → Option (List Task) → Option (List Task)
  add_task none task later = none
  add_task (some false) task later = later
  add_task (some true) task none = none
  add_task (some true) task (some tasks) = some (task ∷ tasks)

  unfoldable pub ask_tasks : EventEnvelope → (ℕ → Option ActiveAsk) → Index → Option (List Task)
  unfolding ask_matches add_task
  ask_tasks env heap [] = some []
  ask_tasks env heap ((id, k) ∷ rest) =
      add_task (ask_matches env (heap k)) (deliver k env) (ask_tasks env heap rest)

  unfoldable pub receive_tasks :
      EventEnvelope → (ℕ → Option ActiveReceive) → Index → Option (List Task)
  unfolding receive_matches add_task
  receive_tasks env heap [] = some []
  receive_tasks env heap ((id, k) ∷ rest) =
      add_task (receive_matches env (heap k)) (collect k env) (receive_tasks env heap rest)

  unfoldable pub both_tasks : Option (List Task) → Option (List Task) → Option (List Task)
  both_tasks none b = none
  both_tasks (some a) none = none
  both_tasks (some a) (some b) = some (a ++ b)

  -- The first half of handleEvent, under the read lock. The order of a map is unspecified; here it is
  -- that of the index.
  unfoldable pub matching : EventEnvelope → Manager → Option (List Task)
  unfolding ask_tasks receive_tasks both_tasks
  matching env m =
      both_tasks (ask_tasks env m.ask_at m.asks) (receive_tasks env m.receive_at m.receives)

  -- The error of UpdateState is ignored.
  unfoldable pub record_state : String → CorrelationState → ℤ → Manager → Manager
  unfolding update_correlation
  record_state id state now m = record m { store = (update_correlation id state now m.store).1 }

  -- The body of once.Do of an ask. Removing it takes the write lock.
  unfoldable pub finish_ask :
      ℕ → ActiveAsk → AskOutcome → CorrelationState → ℤ → AskOutcome → Manager → Manager
  unfolding put remove_key record_state
  finish_ask k a new state now waiting m =
      let m' = record m { ask_at = put k (some (record a { outcome = new })) m.ask_at } in
      if m.stuck
      then m'
      else record_state a.id state now (record m' { asks = remove_key a.id m'.asks })
  finish_ask k a new state now timed_out m = m
  finish_ask k a new state now (matched env) m = m

  finish_at : ℕ → Option ActiveAsk → AskOutcome → CorrelationState → ℤ → Manager → Manager
  unfolding finish_ask
  finish_at k none new state now m = m
  finish_at k (some a) new state now m = finish_ask k a new state now a.outcome m

  unfoldable pub deliver_to_ask : ℕ → EventEnvelope → ℤ → Manager → Manager
  unfolding finish_at
  deliver_to_ask k env now m = finish_at k (m.ask_at k) (matched env) resolved now m

  unfoldable pub resolve_ask_timeout : ℕ → ℤ → Manager → Manager
  unfolding finish_at
  resolve_ask_timeout k now m = finish_at k (m.ask_at k) timed_out expired now m

  -- The tasks are the goroutines that it starts.
  unfoldable pub collect_at :
      ℕ → Option ActiveReceive → EventEnvelope → Manager → Manager × List Task
  unfolding at_limit put
  collect_at k none env m = (m, [])
  collect_at k (some r) env m =
      if at_limit r.limit r.collected
      then (m, [])
      else (let events = r.collected ++ env ∷ [] in
          (
            record m { receive_at = put k (some (record r { collected = events })) m.receive_at },
            if at_limit r.limit events then close k ∷ [] else [],
          ))

  unfoldable pub collect_for_receive : ℕ → EventEnvelope → Manager → Manager × List Task
  unfolding collect_at
  collect_for_receive k env m = collect_at k (m.receive_at k) env m

  unfoldable pub finish_receive :
      ℕ → ActiveReceive → CorrelationState → ℤ → Option (List EventEnvelope) → Manager → Manager
  unfolding put remove_key record_state
  finish_receive k r state now none m =
      let m' = record m {
        receive_at = put k (some (record r { result = some r.collected })) m.receive_at;
      } in
      if m.stuck
      then m'
      else record_state r.id state now (record m' { receives = remove_key r.id m'.receives })
  finish_receive k r state now (some events) m = m

  finish_receive_at : ℕ → Option ActiveReceive → CorrelationState → ℤ → Manager → Manager
  unfolding finish_receive
  finish_receive_at k none state now m = m
  finish_receive_at k (some r) state now m = finish_receive k r state now r.result m

  unfoldable pub resolve_receive : ℕ → CorrelationState → ℤ → Manager → Manager
  unfolding finish_receive_at
  resolve_receive k state now m = finish_receive_at k (m.receive_at k) state now m

  unfoldable pub run_task : ℤ → Task → Manager → Manager × List Task
  unfolding deliver_to_ask collect_for_receive resolve_receive
  run_task now (deliver k env) m = (deliver_to_ask k env now m, [])
  run_task now (collect k env) m = collect_for_receive k env m
  run_task now (close k) m = (resolve_receive k resolved now m, [])

  -- now.After(timeoutAt), for the objects of a map.
  overdue_ask : ℤ → Option ActiveAsk → Bool
  overdue_ask now none = false
  overdue_ask now (some a) = ltb_ℤ a.timeout_at now

  overdue_receive : ℤ → Option ActiveReceive → Bool
  overdue_receive now none = false
  overdue_receive now (some r) = ltb_ℤ r.timeout_at now

  abbrev overdue : (ℕ → Bool) → Index → List ℕ
  overdue p [] = []
  overdue p ((id, k) ∷ rest) = let ks = overdue p rest in if p k then k ∷ ks else ks

  unfoldable pub time_out_all : List ℕ → ℤ → Manager → Manager
  unfolding resolve_ask_timeout
  time_out_all [] now m = m
  time_out_all (k ∷ ks) now m = time_out_all ks now (resolve_ask_timeout k now m)

  unfoldable pub expire_all : List ℕ → ℤ → Manager → Manager
  unfolding resolve_receive
  expire_all [] now m = m
  expire_all (k ∷ ks) now m = expire_all ks now (resolve_receive k expired now m)

  prune_rows : ℤ → Manager → Manager
  unfolding delete_expired
  prune_rows now m = record m { store = (delete_expired (unix_milli now) m.store).1 }

  -- A sweep that wants the write lock in vain stops at the first handle.
  stuck_sweep : List ℕ → List ℕ → ℤ → ℤ → Manager → Manager
  unfolding resolve_ask_timeout resolve_receive prune_rows
  stuck_sweep (k ∷ ks) rs now later m = resolve_ask_timeout k later m
  stuck_sweep [] (k ∷ rs) now later m = resolve_receive k expired later m
  stuck_sweep [] [] now later m = prune_rows now m

  sweep_all : List ℕ → List ℕ → ℤ → ℤ → Manager → Manager
  unfolding time_out_all expire_all prune_rows
  sweep_all ks rs now later m = prune_rows now (expire_all rs later (time_out_all ks later m))

  -- `later` is the reading, in milliseconds, that the updates of the table make.
  unfoldable pub sweep_expired : ℤ → ℤ → Manager → Manager
  unfolding stuck_sweep sweep_all overdue_ask overdue_receive
  sweep_expired now later m =
      let ks = overdue (λ k. overdue_ask now (m.ask_at k)) m.asks in
      let rs = overdue (λ k. overdue_receive now (m.receive_at k)) m.receives in
      if m.stuck then stuck_sweep ks rs now later m else sweep_all ks rs now later m
