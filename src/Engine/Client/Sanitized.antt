-- ===== src/Engine/Client/Sanitized.antt =====
-- internal/engine/send.go: the formatted bodies of what is sent.
use matfix.Shared.{
  ◌≡◌, refl, sym, ap, ◌⊎◌, inl, inr, ℕ, String, Bool, true, false, List, ◌==◌, Result, ok, err,
  bind-eq-ok, Bool-cases,
}
use matfix.Engine.SendTypes.{
  SendRequest, FileMessage, text_message, html_message, reply, reaction, edit, redaction,
  file_message,
}
use matfix.Engine.Html.{sanitize_html}
use matfix.Engine.Html.Clean.{Markups, IsClean, print_markups, sanitize_html-IsPrintOf}
use matfix.Engine.Calls.{
  MessageEventContent, ServerCall, send_message, send_reaction, redact_event, upload_media, Log,
  call,
}
use matfix.Engine.Calls.Adds.{Grows, Grows-refl, call-Grows, bind-Grows}
use matfix.Engine.Media.{
  Hints, with_caption, new_attachment_content, upload_encrypted, upload_plain, upload_as,
  prepare_attachment,
}
use matfix.Engine.Client.{
  Client, text_content, formatted, formatted_if_any, reply_content, edit_content, hints_of,
  send_file, send,
}

module _ {K : Type 0} (c : Client K) where
  -- Empty, or the print of a tree in which all elements and attributes are allowed.
  abbrev pub IsCleanText : String → Type 0
  IsCleanText s = (s ≡ "") ⊎ ((ms : Markups) × IsClean c.html ms × (s ≡ print_markups c.html ms))

  abbrev pub IsCleanCall : ServerCall K → Type 0
  IsCleanCall (send_message room content) = IsCleanText content.formatted_body
  IsCleanCall (send_reaction room target key) = Unit
  IsCleanCall (redact_event room target reason) = Unit
  IsCleanCall (upload_media contents type name) = Unit

  sanitized-IsCleanText : (html : String) → IsCleanText (sanitize_html c.html html)
  sanitized-IsCleanText html =
      let (ms, clean, q, same) = sanitize_html-IsPrintOf c.html html in inr (ms, clean, q)

  formatted_if_any-IsCleanText :
      (html body : String)
      → IsCleanText (formatted_if_any c html (text_content c body)).formatted_body
  unfolding formatted_if_any formatted text_content
  formatted_if_any-IsCleanText html body = elim (Bool-cases (html == "")) [
    | inl no_html ↦ rw no_html (inl refl)
    | inr some_html ↦ rw some_html (sanitized-IsCleanText html)
  ]

  abbrev formatted_or_empty : Result (MessageEventContent K) → String
  formatted_or_empty (ok content) = content.formatted_body
  formatted_or_empty (err e) = ""

  caption-IsCleanText :
      (hints : Hints) (content : MessageEventContent K)
      → content.formatted_body ≡ ""
      → IsCleanText hints.formatted_caption
      → IsCleanText (with_caption hints content).formatted_body
  unfolding with_caption
  caption-IsCleanText hints content none_yet clean = elim (Bool-cases (hints.caption == "")) [
    | inl no_caption ↦ rw no_caption (inl none_yet)
    | inr caption ↦ rw caption (elim (Bool-cases (hints.formatted_caption == "")) [
      | inl no_html ↦ rw no_html (inl none_yet)
      | inr some_html ↦ rw some_html clean
    ])
  ]

  -- Uploads keep the formatted body.
  upload_as-formatted :
      (encrypted : Bool) (contents : List ℕ) (mime filename : String)
      (content content' : MessageEventContent K) (log : Log K)
      → (upload_as c.mx encrypted contents mime filename content log).0 ≡ ok content'
      → content'.formatted_body ≡ content.formatted_body
  unfolding upload_as upload_encrypted upload_plain
  upload_as-formatted true contents mime filename content content' log h =
      let (uri, read, e, q) = bind-eq-ok (call c.mx _) _ log h in sym (ap formatted_or_empty q)
  upload_as-formatted false contents mime filename content content' log h =
      let (uri, read, e, q) = bind-eq-ok (call c.mx _) _ log h in sym (ap formatted_or_empty q)

  upload_as-IsClean :
      (encrypted : Bool) (contents : List ℕ) (mime filename : String)
      (content : MessageEventContent K) (log : Log K)
      → Grows IsCleanCall log (upload_as c.mx encrypted contents mime filename content log).1
  unfolding upload_as upload_encrypted upload_plain
  upload_as-IsClean true contents mime filename content log =
      bind-Grows IsCleanCall (call c.mx _) _ log (call-Grows IsCleanCall c.mx _ log tt)
        (λ uri q. Grows-refl IsCleanCall _)
  upload_as-IsClean false contents mime filename content log =
      bind-Grows IsCleanCall (call c.mx _) _ log (call-Grows IsCleanCall c.mx _ log tt)
        (λ uri q. Grows-refl IsCleanCall _)

  prepared-IsClean :
      (room : String) (r : FileMessage) (log : Log K)
      → let prepared =
          prepare_attachment c.mx room r.contents r.mime_type r.filename (hints_of c r) log in
        Grows IsCleanCall log prepared.1
        × ((content : MessageEventContent K)
            → prepared.0 ≡ ok content
            → IsCleanText content.formatted_body)
  unfolding prepare_attachment new_attachment_content hints_of
  prepared-IsClean room r log = (
    bind-Grows IsCleanCall (λ l. (c.mx.is_encrypted l room, l)) _ log (Grows-refl IsCleanCall log)
        (λ encrypted q. upload_as-IsClean encrypted r.contents r.mime_type r.filename _ log),
    λ content h.
        let (encrypted, read, e, q) = bind-eq-ok (λ l. (c.mx.is_encrypted l room, l)) _ log h in
        rw (upload_as-formatted encrypted r.contents r.mime_type r.filename _ content log q)
          (caption-IsCleanText (hints_of c r) _ refl (sanitized-IsCleanText r.formatted_caption)),
  )

  file-IsClean :
      (there : Bool) (room : String) (r : FileMessage) (log : Log K)
      → Grows IsCleanCall log (send_file c there room r log).1
  unfolding send_file
  file-IsClean false room r log = Grows-refl IsCleanCall log
  file-IsClean true room r log =
      let prepared = prepared-IsClean room r log in
      bind-Grows IsCleanCall
        (prepare_attachment c.mx room r.contents r.mime_type r.filename (hints_of c r)) _ log
        prepared.0 (λ content q. call-Grows IsCleanCall c.mx _ _ (prepared.1 content q))

  -- Whatever is sent, and whatever the homeserver answers, each message that is sent has no
  -- formatted body, or the print of a tree in which every element and attribute is allowed and
  -- every href and src has a safe prefix.
  pub send-IsCleanCall :
      (room : String) (req : SendRequest) (log : Log K)
      → Grows IsCleanCall log (send c room req log).1
  unfolding send text_content formatted reply_content edit_content
  send-IsCleanCall room (text_message r) log = call-Grows IsCleanCall c.mx _ log (inl refl)
  send-IsCleanCall room (html_message r) log =
      call-Grows IsCleanCall c.mx _ log (sanitized-IsCleanText r.formatted_body)
  send-IsCleanCall room (reply r) log =
      call-Grows IsCleanCall c.mx _ log (formatted_if_any-IsCleanText r.formatted_body r.body)
  send-IsCleanCall room (reaction r) log = call-Grows IsCleanCall c.mx _ log tt
  send-IsCleanCall room (edit r) log =
      call-Grows IsCleanCall c.mx _ log
        (formatted_if_any-IsCleanText r.new_formatted_body r.new_body)
  send-IsCleanCall room (redaction r) log = call-Grows IsCleanCall c.mx _ log tt
  send-IsCleanCall room (file_message r) log = file-IsClean c.media room r log
