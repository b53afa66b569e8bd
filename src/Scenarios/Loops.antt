-- ===== src/Scenarios/Loops.antt =====
-- The sync loop at concrete inputs: a decrypted message, a cancelled pass and a restart.
use matfix.Shared.{
  ◌≡◌, refl, ℕ, String, true, Option, none, some, [], ◌∷◌, ◌++◌, pos, ◌==◌, if◌then◌else◌,
}
use matfix.Persistence.Statement.{working}
use matfix.Persistence.SyncStore.{stored_token}
use matfix.Sync.Event.{Kind, encrypted, message, Mautrix, Event}
use matfix.Sync.Handlers.{Manager, Decrypted, plain}
use matfix.Sync.Loop.{Context, RespSync, Turn, Touched, run, runs}
use matfix.Sync.Loop.Waits.{planned_waits, run-waits}

abbrev texts : Mautrix
texts = record {
  Content = String;
  msg_file = "m.file";
  msg_image = "m.image";
  msg_audio = "m.audio";
  msg_video = "m.video";
  parse_raw = λ k c. (true, c);
  as_message = λ c. record {
    body = c;
    formatted_body = "";
    msg_type = "m.text";
    file_name = "";
    relates_to = none;
    new_content = none;
    info = none;
    file = none;
    url = "";
  };
  as_reaction = λ c. record { event_id = "$m"; key = c };
  as_redaction = λ c. record { redacts = c; reason = "" };
  membership_of = λ c. c;
  as_receipt = λ c. none;
}

abbrev event : Kind → String → Event texts
event kind id = record {
  id = id;
  sender = "@ann:x";
  kind = kind;
  content = "hello";
  redacts = "";
  state_key = none;
  prev_content = none;
  timestamp = pos 7;
}

abbrev decrypt : Event texts → Decrypted texts
decrypt e = plain (record e { kind = message })

abbrev manager : Manager texts
manager = record { account_id = "bot"; user_id = "@bot:x"; decrypter = some decrypt }

abbrev layers_of_kind : Kind → ℕ
layers_of_kind encrypted = 1
layers_of_kind _ = 0

abbrev layers : Event texts → ℕ
layers e = layers_of_kind e.kind

abbrev kind_of : Decrypted texts → Kind
kind_of (plain e) = e.kind
kind_of _ = message

abbrev two_rooms : RespSync texts
two_rooms = record {
  next_batch = "s1";
  join =
      ("!a", record { state = []; timeline = event message "$1" ∷ []; ephemeral = [] })
      ∷ ("!b", record { state = []; timeline = event encrypted "$2" ∷ []; ephemeral = [] })
      ∷ [];
  leave = [];
}

abbrev quiet : RespSync texts
quiet = record { next_batch = "s2"; join = []; leave = [] }

abbrev answer : String → Option (RespSync texts)
answer since = if since == "" then some two_rooms else (if since == "s1" then some quiet else none)

abbrev turn : Turn texts
turn = record { reply = λ q. answer q.since; now = pos 9 }

abbrev touched : Context → Touched
touched ctx = record {
  store = working [];
  bus = record { cache = working []; published = [] };
  ctx = ctx;
  waits = [];
}

abbrev token_after : Option Touched → String
token_after none = "?"
token_after (some w) = stored_token "bot" w.store.rows

-- Cancelled between the two rooms: the token is not advanced; two passes later it is.
cut_short : token_after (runs manager 2 ((some 2, turn ∷ []) ∷ []) (touched none)) ≡ ""
unfolding runs
cut_short = refl

started_again :
    token_after
      (runs manager 2 ((some 2, turn ∷ []) ∷ (none, turn ∷ turn ∷ []) ∷ []) (touched none))
    ≡ "s2"
unfolding runs
started_again = refl

abbrev no_answer : Turn texts
no_answer = record { reply = λ q. none; now = pos 9 }

run-waits_example :
    (w' : Touched) × (run manager 2 (no_answer ∷ no_answer ∷ []) (touched none) ≡ some w')
    × (w'.waits ≡ [] ++ planned_waits 0 2)
    × (w'.bus ≡ (touched none).bus)
    × (w'.store.rows ≡ [])
run-waits_example =
    run-waits manager 2 (no_answer ∷ no_answer ∷ []) (touched none) (λ q. refl, (λ q. refl, tt))
      refl
