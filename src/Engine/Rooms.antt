-- ===== src/Engine/Rooms.antt =====
-- internal/engine/rooms.go over the homeserver behind mautrix.Client, which is a parameter: a state
-- of its own, and what each call answers and makes of it. Each answer may be an error.
pub mod DirectRooms
use matfix.Shared.{
  String, Bool, true, false, Option, none, some, List, [], ◌∷◌, ◌++◌, ◌==◌, if◌then◌else◌, Result,
  ok, err, homeserver, unresolved, Exec, pure, raise, ◌>>=◌,
}
use text.Mathlib.Text.{starts_with}
use matfix.Engine.SendTypes.{SendRequest}

-- mDirectContent: the rooms of a user, a user having one entry at most that counts.
abbrev pub DirectContent : Type 0
DirectContent = List (String × List String)

unfoldable pub rooms_of : String → DirectContent → List String
rooms_of user [] = []
rooms_of user ((u, rooms) ∷ rest) = if u == user then rooms else rooms_of user rest

-- direct[userID] = append(direct[userID], roomID)
unfoldable pub add_room : String → String → DirectContent → DirectContent
add_room user room [] = (user, room ∷ []) ∷ []
add_room user room ((u, rooms) ∷ rest) =
    let others = add_room user room rest in
    if u == user then (u, rooms ++ room ∷ []) ∷ rest else (u, rooms) ∷ others

-- What GetAccountData says of m.direct: it is there, M_NOT_FOUND, or another error.
pub data AccountData : Type 0 where
  present : DirectContent → AccountData
  missing failed : AccountData

-- The calls of mautrix.Client that the engine makes for one account. `none` is an error.
pub record Matrix (S : Type 0) : Type 0 where
  pub user_id : String
  pub resolve_alias : String → S → Option String × S
  pub get_direct : S → AccountData × S
  pub set_direct : DirectContent → S → Bool × S
  -- CreateRoom with the user as the only invitee.
  pub create_room : String → S → Option String × S
  pub send : String → SendRequest → S → Option String × S

abbrev pub answered : {S : Type 0} → Option String × S → Result String × S
answered (none, s) = (err homeserver, s)
answered (some a, s) = (ok a, s)

module _ {S : Type 0} (mx : Matrix S) where
  -- rooms[0], or "" if there is none.
  unfoldable pub first_room : List String → String
  first_room [] = ""
  first_room (r ∷ rs) = r

  unfoldable pub found_room : String → AccountData → Exec S String
  unfolding first_room rooms_of
  found_room user (present direct) = pure (first_room (rooms_of user direct))
  found_room user missing = pure ""
  found_room user failed = raise homeserver

  unfoldable pub find_dm_room : String → Exec S String
  unfolding found_room
  find_dm_room user s = let (d, s') = mx.get_direct s in found_room user d s'

  -- Whatever error the second reading of m.direct has, it is logged and nothing is kept of the rooms
  -- that were recorded.
  unfoldable pub known_rooms : AccountData → DirectContent
  known_rooms (present direct) = direct
  known_rooms missing = []
  known_rooms failed = []

  -- An error of SetAccountData is logged.
  unfoldable pub record_room : String → String → S → S
  unfolding known_rooms add_room
  record_room user room s =
      let (d, s') = mx.get_direct s in (mx.set_direct (add_room user room (known_rooms d)) s').1

  unfoldable pub created_room : String → Option String × S → Result String × S
  unfolding record_room
  created_room user (none, s) = (err homeserver, s)
  created_room user (some room, s) = (ok room, record_room user room s)

  unfoldable pub create_dm_room : String → Exec S String
  unfolding created_room
  create_dm_room user s = created_room user (mx.create_room user s)

  unfoldable pub or_create : String → String → Exec S String
  unfolding create_dm_room
  or_create user existing s = if existing == "" then create_dm_room user s else (ok existing, s)

  unfoldable pub resolve_dm_room : String → Exec S String
  unfolding find_dm_room or_create
  resolve_dm_room user = do existing ← find_dm_room user; or_create user existing

  unfoldable pub resolve_room : String → Exec S String
  unfolding resolve_dm_room
  resolve_room dest s =
      if starts_with dest "!"
      then (ok dest, s)
      else if starts_with dest "#"
      then answered (mx.resolve_alias dest s)
      else if starts_with dest "@"
      then resolve_dm_room dest s
      else (err unresolved, s)
