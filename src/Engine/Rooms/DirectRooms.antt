-- ===== src/Engine/Rooms/DirectRooms.antt =====
-- Direct rooms of internal/engine/rooms.go: resolveDMRoom on a homeserver that keeps m.direct, and
-- whose calls may fail.
use matfix.Shared.{
  ◌≡◌, ◌≢◌, ◌⊎◌, inl, inr, refl, ◌∙◌, String, true, false, Option, none, some, List, [], ◌∷◌, ◌++◌,
  ◌==◌, if◌then◌else◌, arith, eq_iff, eq_refl, All, ok, err, homeserver,
}
use matfix.Engine.Rooms.{
  Matrix, DirectContent, AccountData, present, missing, failed, rooms_of, add_room, first_room,
  found_room, find_dm_room, known_rooms, record_room, created_room, create_dm_room, or_create,
  resolve_dm_room,
}

-- What GetAccountData says of stored content, and the rooms of a user in it.
abbrev pub shown : Option DirectContent → AccountData
shown none = missing
shown (some d) = present d

abbrev pub direct_rooms : String → Option DirectContent → List String
direct_rooms user none = []
direct_rooms user (some d) = rooms_of user d

reading : (d : AccountData) → (d ≡ failed) ⊎ (d ≢ failed)
reading (present d) = inr (λ h. cc)
reading missing = inr (λ h. cc)
reading failed = inl refl

rooms_of-add_room :
    (user other room : String) (d : DirectContent)
    → rooms_of other (add_room user room d)
      ≡ (if user == other then rooms_of other d ++ room ∷ [] else rooms_of other d)
unfolding rooms_of add_room
rooms_of-add_room user other room [] = refl
rooms_of-add_room user other room ((u, rooms) ∷ rest) = ground (
  arith,
  rooms_of-add_room user other room rest,
  eq_iff u user,
  eq_iff u other,
  eq_iff user other,
)

module _ {S : Type 0} (mx : Matrix S) where
  -- The client-server API: m.direct is a cell, which a reading that does not fail shows and a writing
  -- that succeeds sets (of a writing that fails nothing is known), and which a reading and the making
  -- of a room leave alone; a room that is made has an ID.
  pub record Stores (direct : S → Option DirectContent) : Type 0 where
    pub reads : (s : S) → (mx.get_direct s).0 ≢ failed → (mx.get_direct s).0 ≡ shown (direct s)
    pub reading_keeps : (s : S) → direct (mx.get_direct s).1 ≡ direct s
    pub writes :
        (d : DirectContent) (s : S)
        → (mx.set_direct d s).0 ≡ true
        → direct (mx.set_direct d s).1 ≡ some d
    pub creating_keeps : (user : String) (s : S) → direct (mx.create_room user s).1 ≡ direct s
    pub names : (user : String) (s : S) → (mx.create_room user s).0 ≢ some ""

  -- The two calls that record a room in `s`, the reading of m.direct and its writing, succeed.
  abbrev pub IsRecorded : String → String → S → Type 0
  IsRecorded user room s =
      let (d, s') = mx.get_direct s in
      (d ≢ failed) × ((mx.set_direct (add_room user room (known_rooms mx d)) s').0 ≡ true)

  -- The user resolves to the room by one reading and no other call, or that reading fails.
  abbrev pub Finds : String → String → S → Type 0
  Finds user room s =
      (((mx.get_direct s).0 ≡ failed)
        × (resolve_dm_room mx user s ≡ (err homeserver, (mx.get_direct s).1)))
      ⊎ (resolve_dm_room mx user s ≡ (ok room, (mx.get_direct s).1))

  module _ (direct : S → Option DirectContent) (stores : Stores direct) (user : String) where
    rooms_known :
        (other room : String) (d : Option DirectContent)
        → rooms_of other (add_room user room (known_rooms mx (shown d)))
          ≡ (if user == other then direct_rooms other d ++ room ∷ [] else direct_rooms other d)
    unfolding known_rooms rooms_of
    rooms_known other room none = rooms_of-add_room user other room []
    rooms_known other room (some d) = rooms_of-add_room user other room d

    found_room-shown :
        (d : Option DirectContent) (s : S)
        → found_room mx user (shown d) s ≡ (ok (first_room mx (direct_rooms user d)), s)
    unfolding found_room
    found_room-shown none s = refl
    found_room-shown (some d) s = refl

    find_dm_room_lem :
        (s : S)
        → (mx.get_direct s).0 ≢ failed
        → find_dm_room mx user s
          ≡ (ok (first_room mx (direct_rooms user (direct s))), (mx.get_direct s).1)
    unfolding find_dm_room
    find_dm_room_lem s read =
        rw (stores.reads s read) (found_room-shown (direct s) (mx.get_direct s).1)

    -- A success comes with a reading that did not fail.
    readable :
        (s : S) (room : String)
        → (resolve_dm_room mx user s).0 ≡ ok room
        → (mx.get_direct s).0 ≢ failed
    unfolding resolve_dm_room find_dm_room found_room
    readable s room h p = absurd (let q = rw p at h in cc)

    unreadable :
        (s : S)
        → (mx.get_direct s).0 ≡ failed
        → resolve_dm_room mx user s ≡ (err homeserver, (mx.get_direct s).1)
    unfolding resolve_dm_room find_dm_room found_room
    unreadable s p = rw p refl

    -- The room that stands first is reused.
    reused :
        (s : S) (room : String) (rooms : List String)
        → direct_rooms user (direct s) ≡ room ∷ rooms
        → room ≢ ""
        → (mx.get_direct s).0 ≢ failed
        → resolve_dm_room mx user s ≡ (ok room, (mx.get_direct s).1)
    unfolding resolve_dm_room or_create first_room
    reused s room rooms p named read =
        let named' : (room == "") ≡ false = ground (arith, eq_iff room "") in
        rw (find_dm_room_lem s read, p, named') refl

    found :
        (s : S) (room : String) (rooms : List String)
        → direct_rooms user (direct s) ≡ room ∷ rooms
        → room ≢ ""
        → Finds user room s
    found s room rooms p named = elim (reading (mx.get_direct s).0) [
      | inl fails ↦ inl (fails, unreadable s fails)
      | inr read ↦ inr (reused s room rooms p named read)
    ]

    -- A room that is made is recorded behind those that are known.
    recorded :
        (other room : String) (s : S)
        → IsRecorded user room s
        → direct_rooms other (direct (record_room mx user room s)) ≡ (
            if user == other
            then direct_rooms other (direct s) ++ room ∷ []
            else direct_rooms other (direct s))
    unfolding record_room
    recorded other room s (read, written) =
        rw (stores.writes _ _ written, stores.reads s read) (rooms_known other room (direct s))

    -- The rooms of a user after one more has been made for `user`.
    abbrev extended : String → String → S → List String
    extended other room s =
        if user == other
        then direct_rooms other (direct s) ++ room ∷ []
        else direct_rooms other (direct s)

    created_lem :
        (room : String) (s : S) (made : Option String × S)
        → made.0 ≢ some ""
        → direct made.1 ≡ direct s
        → IsRecorded user room made.1
        → (created_room mx user made).0 ≡ ok room
        → (room ≢ "")
          × ((other : String)
              → direct_rooms other (direct (created_room mx user made).1) ≡ extended other room s)
    unfolding created_room
    created_lem room s (none, s') named same calls h = absurd (cc)
    created_lem room s (some r, s') named same calls h =
        let e : r ≡ room = cc h in
        ((λ z. named (cc)), λ other. rw e (recorded other room s' calls ∙ (rw same refl)))

    -- With no room that is known, one is made.
    fresh :
        (s : S)
        → (mx.get_direct s).0 ≢ failed
        → direct_rooms user (direct s) ≡ []
        → resolve_dm_room mx user s ≡ created_room mx user (mx.create_room user (mx.get_direct s).1)
    unfolding resolve_dm_room or_create create_dm_room first_room
    fresh s read empty = rw (find_dm_room_lem s read, empty)

    made_lem :
        (s : S) (room : String)
        → direct_rooms user (direct s) ≡ []
        → (resolve_dm_room mx user s).0 ≡ ok room
        → IsRecorded user room (mx.create_room user (mx.get_direct s).1).1
        → (room ≢ "")
          × ((other : String)
              → direct_rooms other (direct (resolve_dm_room mx user s).1) ≡ extended other room s)
    made_lem s room empty h calls =
        let s' = (mx.get_direct s).1 in
        let read = readable s room h in
        rw (fresh s read empty) (
          created_lem room s (mx.create_room user s') (stores.names user s')
            (stores.creating_keeps user s' ∙ stores.reading_keeps s) calls
            (rw (fresh s read empty) at h))

    -- ResolveRoom of a user whose recorded rooms have names, where m.direct keeps what is written and
    -- nothing else writes it during the call. If it succeeds, and if the calls that record a room
    -- succeed in case it had to make one, then from any later state with that m.direct the same user
    -- resolves to the same room by one reading and no other call, unless that reading fails, which is
    -- the result; so no second room is made. And the rooms of other users stay as they were.
    pub resolve_dm_room-again :
        (s later : S) (room : String)
        → All (λ r. r ≢ "") (direct_rooms user (direct s))
        → (resolve_dm_room mx user s).0 ≡ ok room
        → (direct_rooms user (direct s) ≡ []
            → IsRecorded user room (mx.create_room user (mx.get_direct s).1).1)
        → direct later ≡ direct (resolve_dm_room mx user s).1
        → Finds user room later
          × ((other : String)
              → (user == other) ≡ false
              → direct_rooms other (direct later) ≡ direct_rooms other (direct s))
    resolve_dm_room-again s later room named h calls same =
        by_rooms (direct_rooms user (direct s)) refl named
      where
        by_rooms :
            (known : List String)
            → direct_rooms user (direct s) ≡ known
            → All (λ r. r ≢ "") known
            → Finds user room later
              × ((other : String)
                  → (user == other) ≡ false
                  → direct_rooms other (direct later) ≡ direct_rooms other (direct s))
        by_rooms [] p named =
            let (some_name, rooms) = made_lem s room p h (calls p) in
            (
              found later room [] (rw same (rooms user ∙ (rw (eq_refl user, p) refl))) some_name,
              λ other q. rw same (rooms other ∙ (rw q refl)),
            )
        by_rooms (r ∷ rs) p named =
            let first = reused s r rs p named.0 (readable s room h) in
            let e : r ≡ room = (let q = rw first at h in cc) in
            let kept : direct later ≡ direct s = same ∙ (rw first (stores.reading_keeps s)) in
            (
              found later room rs (rw kept (p ∙ (rw e refl))) (rw (← e) named.0),
              λ other q. rw kept refl,
            )
