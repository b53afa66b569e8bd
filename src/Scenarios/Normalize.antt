-- ===== src/Scenarios/Normalize.antt =====
-- Events of the sync response at concrete inputs.
use matfix.Shared.{◌≡◌, sym, ap, ℕ, String, true, none, some, [], pos, arith}
use matfix.Persistence.Statement.{working}
use matfix.Sync.Event.{Kind, encrypted, message, Mautrix, Event}
use matfix.Sync.Handlers.{parsed, SyncState, Manager, Decrypted, plain, failed}
use matfix.Sync.Normalize.{dispatch_event, dispatch_plain}
use matfix.Sync.Normalize.Once.{redelivered, dispatch_plain-twice}
use matfix.Sync.Normalize.Total.{Peels}
use matfix.Sync.Normalize.Outcome.{Outcome}
use matfix.Sync.Normalize.Outcome.Dispatched.{dispatch_event-Outcome}

-- Contents are texts here, and the views put the text in the body.
abbrev texts : Mautrix
texts = record {
  Content = String;
  msg_file = "m.file";
  msg_image = "m.image";
  msg_audio = "m.audio";
  msg_video = "m.video";
  parse_raw = λ k c. (true, c);
  as_message = λ c. record {
    body = c;
    formatted_body = "";
    msg_type = "m.text";
    file_name = "";
    relates_to = none;
    new_content = none;
    info = none;
    file = none;
    url = "";
  };
  as_reaction = λ c. record { event_id = "$m"; key = c };
  as_redaction = λ c. record { redacts = c; reason = "" };
  membership_of = λ c. c;
  as_receipt = λ c. none;
}

abbrev event : Kind → String → Event texts
event kind sender = record {
  id = "$e";
  sender = sender;
  kind = kind;
  content = "hello";
  redacts = "";
  state_key = none;
  prev_content = none;
  timestamp = pos 7;
}

abbrev decrypt : Event texts → Decrypted texts
decrypt e = plain (record e { kind = message })

abbrev manager : Manager texts
manager = record { account_id = "bot"; user_id = "@bot:x"; decrypter = some decrypt }

abbrev start : SyncState
start = record { cache = working []; published = [] }

abbrev layers_of_kind : Kind → ℕ
layers_of_kind encrypted = 1
layers_of_kind _ = 0

abbrev layers : Event texts → ℕ
layers e = layers_of_kind e.kind

abbrev kind_of : Decrypted texts → Kind
kind_of (plain e) = e.kind
kind_of (failed text) = message

peeled : Peels {x = texts} layers (some decrypt)
peeled e p k h = rw k (rw (sym (ap kind_of h)) (omega arith))

dispatch_event-Outcome_example :
    (s' : SyncState) × (dispatch_event manager (pos 9) 2 "!r" (event encrypted "@ann:x") start
      ≡ some s')
    × Outcome manager (pos 9) "!r" start s' (parsed (event encrypted "@ann:x"))
dispatch_event-Outcome_example =
    dispatch_event-Outcome manager (pos 9) "!r" layers 2 (event encrypted "@ann:x") start peeled
      (omega arith)

dispatch_plain-twice_example :
    (dispatch_plain manager (pos 12) "!r" (event message "@ann:x") message (
      redelivered
        (dispatch_plain manager (pos 9) "!r" (event message "@ann:x") message start))).published
    ≡ (dispatch_plain manager (pos 9) "!r" (event message "@ann:x") message start).published
dispatch_plain-twice_example =
    dispatch_plain-twice manager (pos 9) (pos 12) [] [] "!r" (event message "@ann:x")
      (λ h. absurd (cc)) message
