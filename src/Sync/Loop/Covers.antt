-- ===== src/Sync/Loop/Covers.antt =====
-- internal/sync/loop.go and the stored token: what was dispatched before a token is written.
use matfix.Shared.{◌≡◌, ℕ, ◌<◌, String, Option, some, List, [], ◌∷◌, ◌++◌, ℤ}
use matfix.Persistence.SyncStore.{stored_token}
use matfix.Sync.Event.{Mautrix, Event}
use matfix.Sync.Handlers.{SyncState, Manager}
use matfix.Sync.Normalize.Total.{Peels}
use matfix.Sync.Loop.{RespSync, ReqSync, Turn, Touched}
use matfix.Sync.Loop.Batch.{Call, calls_of, Runs}

module _ {x : Mautrix} (Answer : String → RespSync x → Type 0) where
  -- A chain of answers, the latest first, that leads from the empty token to `token`, each asked for
  -- with the token of the one before, whose events are all among the calls, batch after batch.
  abbrev pub Covers : List (ℤ × RespSync x) → String → List (Call x) → Type 0
  Covers [] token calls = token ≡ ""
  Covers ((now, resp) ∷ earlier) token calls =
      (token ≡ resp.next_batch)
      × ((since : String) × (pre : List (Call x)) × (post : List (Call x)) × Answer since resp
          × (calls ≡ pre ++ calls_of now resp ++ post)
          × Covers earlier since pre)

  abbrev pub IsCovered : String → List (Call x) → Type 0
  IsCovered token calls = (chain : List (ℤ × RespSync x)) × Covers chain token calls

  -- The homeserver answers a turn, whatever the timeout, as `Answer` says.
  abbrev pub IsAnswered : Turn x → Type 0
  IsAnswered t = (q : ReqSync) (resp : RespSync x) → t.reply q ≡ some resp → Answer q.since resp

module _ {x : Mautrix} (m : Manager x) (fuel : ℕ) (Answer : String → RespSync x → Type 0)
    (start : SyncState) where
  -- The calls so far lead to the state of the bus, and cover the token that is stored.
  abbrev IsSafe : Touched → Type 0
  IsSafe w =
      (calls : List (Call x)) × Runs m fuel calls start w.bus
      × IsCovered Answer (stored_token m.account_id w.store.rows) calls

  -- In the loop they cover the token of the next request as well.
  abbrev IsReady : String → Touched → Type 0
  IsReady since w =
      (calls : List (Call x)) × Runs m fuel calls start w.bus
      × IsCovered Answer since calls
      × IsCovered Answer (stored_token m.account_id w.store.rows) calls

  abbrev IsKept : Option Touched → Type 0
  IsKept r = (w' : Touched) × (r ≡ some w') × IsSafe w'

  module _ (layers : Event x → ℕ) (peels : Peels layers m.decrypter)
      (enough : (e : Event x) → layers e < fuel) where
    -- What the rest of the loop does with a state that is ready.
    abbrev Continues : (String → ℤ → Touched → Option Touched) → Type 0
    Continues again =
        (since : String) (backoff : ℤ) (w : Touched)
        → IsReady since w
        → IsKept (again since backoff w)
