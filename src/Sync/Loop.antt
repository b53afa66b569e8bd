-- ===== src/Sync/Loop.antt =====
-- internal/sync/loop.go: the /sync loop of an account.
pub mod Batch
pub mod Covers
pub mod Waits
use matfix.Shared.{
  ℕ, zero, suc, ◌*◌, String, Bool, true, false, Option, none, some, List, [], ◌∷◌, ◌++◌, ◌==◌,
  if◌then◌else◌, ℤ, pos, ◌*ℤ◌, ltb_ℤ, Result, ok, err, if_some,
}
use matfix.Persistence.SyncStore.{SyncDb, get_next_batch, set_next_batch}
use matfix.Sync.Event.{Mautrix, Event}
use matfix.Sync.Handlers.{SyncState, Manager}
use matfix.Sync.Normalize.{dispatch_event, dispatch_ephemeral}

-- context.Context: how many looks at ctx.Err() find it open before it is cancelled, if it ever is.
abbrev pub Context : Type 0
Context = Option ℕ

-- Whether it is cancelled, and the context at the next look.
unfoldable pub look : Context → Bool × Context
look none = (false, none)
look (some zero) = (true, some zero)
look (some (suc n)) = (false, some n)

-- mautrix.RespSync, as far as it is read; the rooms in the order in which the maps are iterated.
pub record JoinedRoom (x : Mautrix) : Type 0 where
  pub state : List (Event x)
  pub timeline : List (Event x)
  pub ephemeral : List (Event x)

pub record LeftRoom (x : Mautrix) : Type 0 where
  pub state : List (Event x)
  pub timeline : List (Event x)

pub record RespSync (x : Mautrix) : Type 0 where
  pub next_batch : String
  pub join : List (String × JoinedRoom x)
  pub leave : List (String × LeftRoom x)

pub record ReqSync : Type 0 where
  pub timeout : ℤ
  pub since : String
  pub set_presence : String

abbrev pub sync_long_poll_ms : ℤ
sync_long_poll_ms = pos 30000

-- Durations are in nanoseconds.
abbrev pub one_second : ℤ
one_second = pos 1000000000

abbrev pub max_backoff : ℤ
max_backoff = pos 60000000000

unfoldable pub clamp_duration : ℤ → ℤ → ℤ
clamp_duration d max = if ltb_ℤ max d then max else d

-- What the loop touches. `waits` lists the durations that it slept, in order.
pub record Touched : Type 0 where
  pub store : SyncDb
  pub bus : SyncState
  pub ctx : Context
  pub waits : List ℤ

-- One pass of the loop: what the homeserver does with a request (none is an error), and the time.
pub record Turn (x : Mautrix) : Type 0 where
  pub reply : ReqSync → Option (RespSync x)
  pub now : ℤ

-- `if ctx.Err() != nil { return }` before `body`.
abbrev pub unless_done {ℓ} : {A : Type ℓ} → A → (Context → A) → Bool × Context → A
unless_done stopped body (true, ctx) = stopped
unless_done stopped body (false, ctx) = body ctx

abbrev pub request : String → ReqSync
request since = record {
  timeout = if since == "" then pos 0 else sync_long_poll_ms;
  since = since;
  set_presence = "offline";
}

-- `fuel` bounds the layers of encryption of an event; none says that it ran out.
module _ {x : Mautrix} (m : Manager x) (fuel : ℕ) where
  unfoldable pub dispatch_events : ℤ → String → List (Event x) → SyncState → Option SyncState
  unfolding dispatch_event
  dispatch_events now room [] s = some s
  dispatch_events now room (evt ∷ evts) s =
      if_some (dispatch_event m now fuel room evt s) (dispatch_events now room evts)

  unfoldable pub dispatch_ephemerals : ℤ → String → List (Event x) → SyncState → SyncState
  unfolding dispatch_ephemeral
  dispatch_ephemerals now room [] s = s
  dispatch_ephemerals now room (evt ∷ evts) s =
      dispatch_ephemerals now room evts (dispatch_ephemeral m now room evt s)

  unfoldable pub dispatch_joined : ℤ → String → JoinedRoom x → SyncState → Option SyncState
  unfolding dispatch_events dispatch_ephemerals
  dispatch_joined now room room_data s = if_some (dispatch_events now room room_data.state s) (λ s1.
      if_some (dispatch_events now room room_data.timeline s1)
        (λ s2. some (dispatch_ephemerals now room room_data.ephemeral s2)))

  unfoldable pub dispatch_left : ℤ → String → LeftRoom x → SyncState → Option SyncState
  unfolding dispatch_events
  dispatch_left now room room_data s =
      if_some (dispatch_events now room room_data.state s)
        (dispatch_events now room room_data.timeline)

  unfoldable pub process_left :
      ℤ → List (String × LeftRoom x) → Context → SyncState → Option (Context × SyncState)
  unfolding dispatch_left look
  process_left now [] ctx s = some (ctx, s)
  process_left now ((room, room_data) ∷ rest) ctx s =
      unless_done (some (ctx, s))
        (λ ctx'. if_some (dispatch_left now room room_data s) (process_left now rest ctx'))
        (look ctx)

  unfoldable pub process_joined :
      ℤ
      → List (String × JoinedRoom x)
      → List (String × LeftRoom x)
      → Context
      → SyncState
      → Option (Context × SyncState)
  unfolding dispatch_joined process_left look
  process_joined now [] leave ctx s = process_left now leave ctx s
  process_joined now ((room, room_data) ∷ rest) leave ctx s =
      unless_done (some (ctx, s))
        (λ ctx'.
          if_some (dispatch_joined now room room_data s) (process_joined now rest leave ctx'))
        (look ctx)

  unfoldable pub process_response :
      ℤ → RespSync x → Context → SyncState → Option (Context × SyncState)
  unfolding process_joined
  process_response now resp = process_joined now resp.join resp.leave

  -- SetNextBatch, whose error is logged.
  unfoldable pub save_token : ℤ → String → Touched → Touched
  unfolding set_next_batch
  save_token now token w = record w { store = (set_next_batch m.account_id token now w.store).1 }

  -- After an answer: `again` is the rest of the loop.
  unfoldable pub after_answer :
      (String → ℤ → Touched → Option Touched) → ℤ → RespSync x → Touched → Option Touched
  unfolding process_response save_token look
  after_answer again now resp w = if_some (process_response now resp w.ctx w.bus) (λ (ctx, bus).
      unless_done (some (record w { ctx = ctx; bus = bus }))
        (λ c.
          again resp.next_batch one_second
            (save_token now resp.next_batch (record w { ctx = c; bus = bus })))
        (look ctx))

  -- After a failed request: a look, the wait that a cancellation cuts short, and the next pass.
  unfoldable pub after_failure :
      (String → ℤ → Touched → Option Touched) → String → ℤ → Touched → Option Touched
  unfolding clamp_duration look
  after_failure again since backoff w =
      unless_done (some w)
        (λ c.
          unless_done (some (record w { ctx = c }))
            (λ c'.
              again since (clamp_duration (backoff *ℤ pos 2) max_backoff)
                (record w { ctx = c'; waits = w.waits ++ backoff ∷ [] }))
            (look c))
        (look w.ctx)

  unfoldable pub after_request :
      (String → ℤ → Touched → Option Touched)
      → ℤ
      → String
      → ℤ
      → Option (RespSync x)
      → Touched
      → Option Touched
  unfolding after_answer after_failure
  after_request again now since backoff (some resp) w = after_answer again now resp w
  after_request again now since backoff none w = after_failure again since backoff w

  -- The loop for as many passes as there are turns.
  unfoldable pub loop : List (Turn x) → String → ℤ → Touched → Option Touched
  unfolding after_request look
  loop [] since backoff w = some w
  loop (t ∷ ts) since backoff w =
      unless_done (some w)
        (λ c.
          after_request (loop ts) t.now since backoff (t.reply (request since))
            (record w { ctx = c }))
        (look w.ctx)

  -- The error of GetNextBatch is logged, and the loop starts from the empty token.
  abbrev or_empty : Result String → String
  or_empty (ok token) = token
  or_empty (err e) = ""

  unfoldable pub run : List (Turn x) → Touched → Option Touched
  unfolding get_next_batch loop
  run ts w =
      let (token, store) = get_next_batch m.account_id w.store in
      loop ts (or_empty token) one_second (record w { store = store })

  -- Start, again and again, on what the last process left behind.
  unfoldable pub runs : List (Context × List (Turn x)) → Touched → Option Touched
  unfolding run
  runs [] w = some w
  runs ((ctx, ts) ∷ lives) w = if_some (run ts (record w { ctx = ctx })) (runs lives)
