-- ===== src/Sync/Loop/Batch.antt =====
-- processResponse of internal/sync/loop.go: the calls of dispatchEvent and dispatchEphemeral that
-- the events of a response make, in order.
use matfix.Shared.{
  ◌≡◌, refl, ap, ◌⊎◌, inl, inr, ℕ, zero, suc, ◌<◌, String, Option, none, some, List, [], ◌∷◌, ◌++◌,
  ℤ, if_some, Option-cases,
}
use matfix.Sync.Event.{Mautrix, Event}
use matfix.Sync.Handlers.{SyncState, Manager}
use matfix.Sync.Normalize.{dispatch_event, dispatch_ephemeral}
use matfix.Sync.Normalize.Total.{Peels, dispatch_event-total}
use matfix.Sync.Loop.{
  Context, look, JoinedRoom, LeftRoom, RespSync, dispatch_events, dispatch_ephemerals,
  dispatch_joined, dispatch_left, process_left, process_joined, process_response,
}

pub data Call (x : Mautrix) : Type 0 where
  event : ℤ → String → Event x → Call x
  ephemeral : ℤ → String → Event x → Call x

module _ {x : Mautrix} where
  abbrev pub event_calls : ℤ → String → List (Event x) → List (Call x)
  event_calls now room [] = []
  event_calls now room (e ∷ es) = event now room e ∷ event_calls now room es

  abbrev pub ephemeral_calls : ℤ → String → List (Event x) → List (Call x)
  ephemeral_calls now room [] = []
  ephemeral_calls now room (e ∷ es) = ephemeral now room e ∷ ephemeral_calls now room es

  abbrev pub left_calls : ℤ → List (String × LeftRoom x) → List (Call x)
  left_calls now [] = []
  left_calls now ((room, d) ∷ rest) =
      (event_calls now room d.state ++ event_calls now room d.timeline) ++ left_calls now rest

  abbrev pub joined_calls : ℤ → List (String × JoinedRoom x) → List (Call x) → List (Call x)
  joined_calls now [] tail = tail
  joined_calls now ((room, d) ∷ rest) tail =
      (event_calls now room d.state
        ++ event_calls now room d.timeline
        ++ ephemeral_calls now room d.ephemeral)
      ++ joined_calls now rest tail

  -- Each event of the response, at the time `now`.
  abbrev pub calls_of : ℤ → RespSync x → List (Call x)
  calls_of now resp = joined_calls now resp.join (left_calls now resp.leave)

module _ {x : Mautrix} (m : Manager x) (fuel : ℕ) where
  abbrev pub dispatch : Call x → SyncState → Option SyncState
  dispatch (event now room e) s = dispatch_event m now fuel room e s
  dispatch (ephemeral now room e) s = some (dispatch_ephemeral m now room e s)

  -- The calls one after the other.
  abbrev pub dispatch_all : List (Call x) → SyncState → Option SyncState
  dispatch_all [] s = some s
  dispatch_all (c ∷ cs) s = if_some (dispatch c s) (dispatch_all cs)

  pub dispatch_all-append :
      (cs ds : List (Call x)) (s : SyncState)
      → dispatch_all (cs ++ ds) s ≡ if_some (dispatch_all cs s) (dispatch_all ds)
  dispatch_all-append [] ds s = refl
  dispatch_all-append (c ∷ cs) ds s = elim (Option-cases (dispatch c s)) [
    | inl h ↦ rw h refl
    | inr (s', h) ↦ rw h (dispatch_all-append cs ds s')
  ]

  abbrev pub Runs : List (Call x) → SyncState → SyncState → Type 0
  Runs cs s s' = dispatch_all cs s ≡ some s'

  pub Runs-append :
      (cs ds : List (Call x)) (s s1 s2 : SyncState)
      → Runs cs s s1
      → Runs ds s1 s2
      → Runs (cs ++ ds) s s2
  Runs-append cs ds s s1 s2 h k = rw (dispatch_all-append cs ds s) (rw h k)

  -- The result of a part of processResponse: the calls were made, or the context was cancelled
  -- after some of them.
  abbrev pub IsProcessed : List (Call x) → SyncState → Option (Context × SyncState) → Type 0
  IsProcessed calls s r =
      (ctx : Context) × (s' : SyncState) × (made : List (Call x)) × (r ≡ some (ctx, s'))
      × Runs made s s'
      × ((made ≡ calls) ⊎ (ctx ≡ some 0))

  after_room :
      (cs ds : List (Call x)) (s s1 : SyncState) (r : Option (Context × SyncState))
      → Runs cs s s1
      → IsProcessed ds s1 r
      → IsProcessed (cs ++ ds) s r
  after_room cs ds s s1 r h (ctx, s', made, e, k, inl all) =
      (ctx, s', cs ++ made, e, Runs-append cs made s s1 s' h k, inl (ap (λ l. cs ++ l) all))
  after_room cs ds s s1 r h (ctx, s', made, e, k, inr cut) =
      (ctx, s', cs ++ made, e, Runs-append cs made s s1 s' h k, inr cut)

  module _ (layers : Event x → ℕ) (peels : Peels layers m.decrypter)
      (enough : (e : Event x) → layers e < fuel) where
    events-Runs :
        (now : ℤ) (room : String) (es : List (Event x)) (s : SyncState)
        → (s' : SyncState) × (dispatch_events m fuel now room es s ≡ some s')
          × Runs (event_calls now room es) s s'
    unfolding dispatch_events
    events-Runs now room [] s = (s, refl, refl)
    events-Runs now room (e ∷ es) s =
        let (s1, h) = dispatch_event-total m now room layers fuel e s peels (enough e) in
        let (s2, k, r) = events-Runs now room es s1 in (s2, rw h k, rw h r)

    ephemerals-Runs :
        (now : ℤ) (room : String) (es : List (Event x)) (s : SyncState)
        → Runs (ephemeral_calls now room es) s (dispatch_ephemerals m fuel now room es s)
    unfolding dispatch_ephemerals
    ephemerals-Runs now room [] s = refl
    ephemerals-Runs now room (e ∷ es) s =
        ephemerals-Runs now room es (dispatch_ephemeral m now room e s)

    left-Runs :
        (now : ℤ) (room : String) (d : LeftRoom x) (s : SyncState)
        → (s' : SyncState) × (dispatch_left m fuel now room d s ≡ some s')
          × Runs (event_calls now room d.state ++ event_calls now room d.timeline) s s'
    unfolding dispatch_left
    left-Runs now room d s =
        let (s1, h1, r1) = events-Runs now room d.state s in
        let (s2, h2, r2) = events-Runs now room d.timeline s1 in
        (s2, rw h1 h2, Runs-append (event_calls now room d.state) _ s s1 s2 r1 r2)

    joined-Runs :
        (now : ℤ) (room : String) (d : JoinedRoom x) (s : SyncState)
        → (s' : SyncState) × (dispatch_joined m fuel now room d s ≡ some s')
          × Runs
              (event_calls now room d.state
                ++ event_calls now room d.timeline
                ++ ephemeral_calls now room d.ephemeral)
              s
              s'
    unfolding dispatch_joined
    joined-Runs now room d s =
        let (s1, h1, r1) = events-Runs now room d.state s in
        let (s2, h2, r2) = events-Runs now room d.timeline s1 in
        (
          dispatch_ephemerals m fuel now room d.ephemeral s2,
          rw h1 (rw h2 refl),
          Runs-append (event_calls now room d.state ++ event_calls now room d.timeline) _ s s2 _
              (Runs-append (event_calls now room d.state) _ s s1 s2 r1 r2)
              (ephemerals-Runs now room d.ephemeral s2),
        )

    left-IsProcessed :
        (now : ℤ) (rooms : List (String × LeftRoom x)) (ctx : Context) (s : SyncState)
        → IsProcessed (left_calls now rooms) s (process_left m fuel now rooms ctx s)
    unfolding process_left look
    left-IsProcessed now [] ctx s = (ctx, s, [], refl, refl, inl refl)
    left-IsProcessed now ((room, d) ∷ rest) (some zero) s = (some zero, s, [], refl, refl, inr refl)
    left-IsProcessed now ((room, d) ∷ rest) none s =
        let (s1, h, r) = left-Runs now room d s in
        rw h (after_room _ _ s s1 _ r (left-IsProcessed now rest none s1))
    left-IsProcessed now ((room, d) ∷ rest) (some (suc n)) s =
        let (s1, h, r) = left-Runs now room d s in
        rw h (after_room _ _ s s1 _ r (left-IsProcessed now rest (some n) s1))

    joined-IsProcessed :
        (now : ℤ) (rooms : List (String × JoinedRoom x)) (leave : List (String × LeftRoom x))
        (ctx : Context) (s : SyncState)
        → IsProcessed
            (joined_calls now rooms (left_calls now leave))
            s
            (process_joined m fuel now rooms leave ctx s)
    unfolding process_joined look
    joined-IsProcessed now [] leave ctx s = left-IsProcessed now leave ctx s
    joined-IsProcessed now ((room, d) ∷ rest) leave (some zero) s =
        (some zero, s, [], refl, refl, inr refl)
    joined-IsProcessed now ((room, d) ∷ rest) leave none s =
        let (s1, h, r) = joined-Runs now room d s in
        rw h (after_room _ _ s s1 _ r (joined-IsProcessed now rest leave none s1))
    joined-IsProcessed now ((room, d) ∷ rest) leave (some (suc n)) s =
        let (s1, h, r) = joined-Runs now room d s in
        rw h (after_room _ _ s s1 _ r (joined-IsProcessed now rest leave (some n) s1))

    pub process_response-IsProcessed :
        (now : ℤ) (resp : RespSync x) (ctx : Context) (s : SyncState)
        → IsProcessed (calls_of now resp) s (process_response m fuel now resp ctx s)
    unfolding process_response
    process_response-IsProcessed now resp ctx s = joined-IsProcessed now resp.join resp.leave ctx s
