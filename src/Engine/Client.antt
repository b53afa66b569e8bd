-- ===== src/Engine/Client.antt =====
-- internal/engine/send.go: a request to send becomes calls of the homeserver.
pub mod Sanitized
pub mod Sealed
use matfix.Shared.{
  ℕ, String, Bool, true, false, Option, none, some, List, [], ◌∷◌, ◌++◌, ◌==◌, if◌then◌else◌,
  Result, ok, err, no_media, Exec, raise, ◌>>=◌,
}
use matfix.Engine.SendTypes.{
  SendRequest, TextMessage, HtmlMessage, Reply, Reaction, Edit, Redaction, FileMessage,
  text_message, html_message, reply, reaction, edit, redaction, file_message,
}
use matfix.Engine.Html.{Html, sanitize_html}
use matfix.Engine.Calls.{
  msg_text, format_html, set_reply_to, set_edit, MessageEventContent, ServerCall, send_message,
  send_reaction, redact_event, Log, Mautrix, call, plain_content,
}
use matfix.Engine.Media.{Hints, prepare_attachment}

-- `media` says whether c.media is set.
pub record Client (K : Type 0) : Type 0 where
  pub mx : Mautrix K
  pub html : Html
  pub media : Bool

module _ {K : Type 0} (c : Client K) where
  unfoldable pub text_content : String → MessageEventContent K
  text_content body = plain_content msg_text body

  -- content with Format and FormattedBody.
  unfoldable pub formatted : String → MessageEventContent K → MessageEventContent K
  unfolding sanitize_html
  formatted html content = record content {
    format = format_html;
    formatted_body = sanitize_html c.html html;
  }

  unfoldable pub formatted_if_any : String → MessageEventContent K → MessageEventContent K
  unfolding formatted
  formatted_if_any html content = if html == "" then content else formatted html content

  unfoldable pub reply_content : Reply → MessageEventContent K
  unfolding formatted_if_any text_content
  reply_content r = record (formatted_if_any r.formatted_body (text_content r.body)) {
    relates_to = set_reply_to r.in_reply_to;
  }

  unfoldable pub edit_content : Edit → MessageEventContent K
  unfolding formatted_if_any text_content
  edit_content r = record (formatted_if_any r.new_formatted_body (text_content r.new_body)) {
    relates_to = set_edit r.target_event_id;
  }

  unfoldable pub hints_of : FileMessage → Hints
  unfolding sanitize_html
  hints_of r = record {
    caption = r.caption;
    formatted_caption = sanitize_html c.html r.formatted_caption;
    width = r.width;
    height = r.height;
    duration = r.duration;
    size = r.size;
  }

  unfoldable pub send_file : Bool → String → FileMessage → Exec (Log K) String
  unfolding prepare_attachment hints_of call
  send_file false room r = raise no_media
  send_file true room r =
      prepare_attachment c.mx room r.contents r.mime_type r.filename (hints_of r) >>= λ content.
      call c.mx (send_message room content)

  unfoldable pub send : String → SendRequest → Exec (Log K) String
  unfolding text_content formatted reply_content edit_content send_file call
  send room (text_message r) = call c.mx (send_message room (text_content r.body))
  send room (html_message r) =
      call c.mx (send_message room (formatted r.formatted_body (text_content r.body)))
  send room (reply r) = call c.mx (send_message room (reply_content r))
  send room (reaction r) = call c.mx (send_reaction room r.target_event_id r.key)
  send room (edit r) = call c.mx (send_message room (edit_content r))
  send room (redaction r) = call c.mx (redact_event room r.target_event_id r.reason)
  send room (file_message r) = send_file c.media room r
