-- ===== src/Scenarios/Client.antt =====
-- Sanitised bodies and uploads at concrete inputs.
use matfix.Shared.{
  ◌≡◌, ◌≢◌, refl, ℕ, suc, true, false, none, some, [], ◌∷◌, ◌==◌, if◌then◌else◌, pos, ok, map,
}
use matfix.Engine.SendTypes.{SendRequest, FileMessage, html_message, file_message}
use matfix.Engine.Html.{Nodes, words, element, end, sibling, Html, sanitize_html}
use matfix.Engine.Html.Clean.{
  Markups, IsClean, print_markups, markups_texts, sanitize_html-IsPrintOf,
}
use matfix.Engine.Calls.{Mautrix}
use matfix.Engine.Calls.Adds.{Grows}
use matfix.Engine.Client.{Client, send}
use matfix.Engine.Client.Sanitized.{IsCleanCall, send-IsCleanCall}
use matfix.Engine.Client.Sealed.{IsSealed, send-IsSealed}

-- <p>hi <script>x</script><a href="javascript:y" onclick="z">there</a><br></p>
abbrev fragment : Nodes
fragment =
    sibling
      (element "p" [] (
        sibling (words "hi ") (
          sibling (element "script" [] (sibling (words "x") end)) (
            sibling
              (element "a"
                (record { key = "href"; val = "javascript:y" }
                  ∷ record { key = "target"; val = "t" }
                  ∷ record { key = "onclick"; val = "z" }
                  ∷ [])
                (sibling (words "there") end))
              (sibling (element "br" [] end) end)))))
      end

abbrev html : Html
html = record {
  to_lower = λ s. s;
  trim_space = λ s. s;
  escape = λ s. s;
  parse_fragment = λ s. if s == "" then none else some fragment;
}

sanitized : sanitize_html html "<p>" ≡ "<p>hi x<a target=\"t\">there</a><br></p>"
unfolding sanitize_html
sanitized = refl

sanitize_html-IsPrintOf_example :
    (ms : Markups) × IsClean html ms
    × (sanitize_html html "<p>" ≡ print_markups html ms)
    × (markups_texts ms ≡ "hi " ∷ "x" ∷ "there" ∷ [])
sanitize_html-IsPrintOf_example = sanitize_html-IsPrintOf html "<p>"

-- Keys are numbers here, and the cipher adds the key to each byte.
abbrev mautrix : Mautrix ℕ
mautrix = record {
  answer = λ log call. ok "$e";
  is_encrypted = λ log room. ok (room == "!secret");
  new_encrypted_file = λ log. 1;
  encrypt_in_place = λ k bytes. (map suc bytes, k);
}

abbrev client : Client ℕ
client = record { mx = mautrix; html = html; media = true }

abbrev page : SendRequest
page = html_message (record { body = "hi"; formatted_body = "<p>" })

abbrev picture : FileMessage
picture = record {
  filename = "cat.png";
  mime_type = "image/png";
  contents = 1 ∷ 2 ∷ [];
  caption = "a cat";
  formatted_caption = "<p>";
  width = pos 3;
  height = pos 4;
  duration = pos 0;
  size = pos 0;
}

send-IsCleanCall_example : Grows (IsCleanCall client) [] (send client "!r" page []).1
send-IsCleanCall_example = send-IsCleanCall client "!r" page []

encrypted_here : mautrix.is_encrypted [] "!secret" ≢ ok false
encrypted_here h = absurd (cc)

send-IsSealed_example :
    IsSealed client [] "!secret" picture (send client "!secret" (file_message picture) [])
send-IsSealed_example = send-IsSealed client [] "!secret" picture encrypted_here
