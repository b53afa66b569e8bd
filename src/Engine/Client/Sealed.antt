-- ===== src/Engine/Client/Sealed.antt =====
-- internal/media/manager.go: files of encrypted rooms.
use matfix.Shared.{
  ◌≡◌, ◌≢◌, refl, ℕ, String, Bool, true, false, some, List, [], ◌∷◌, ◌++◌, ◌==◌, Error, no_media,
  Result, ok, err, Exec, ◌>>=◌, and_then, inl, inr, Bool-cases, pos, length,
}
use matfix.Engine.SendTypes.{FileMessage, file_message}
use matfix.Engine.Calls.{MessageEventContent, ServerCall, send_message, upload_media, Log, call}
use matfix.Engine.Media.{
  Hints, with_caption, new_attachment_content, encrypt_attachment, upload_encrypted, upload_as,
  prepare_attachment, size_or,
}
use matfix.Engine.Client.{Client, hints_of, send_file, send}

module _ {K : Type 0} (c : Client K) (log : Log K) (room : String) (r : FileMessage) where
  -- The ciphertext under the key that is drawn now, and the key material that goes with it.
  abbrev pub sealed : List ℕ × K
  sealed = c.mx.encrypt_in_place (c.mx.new_encrypted_file log) r.contents

  abbrev pub sealed_upload : ServerCall K
  sealed_upload = upload_media sealed.0 "application/octet-stream" r.filename

  -- The event links to where the homeserver put the ciphertext, and carries the key.
  abbrev pub IsLink : MessageEventContent K → String → Type 0
  IsLink content uri = (content.url ≡ "") × (content.file ≡ some (sealed.1, uri))

  -- What may come of a request: nothing is called, as there is no media manager or the state store
  -- fails; only the upload is called and is refused; or the upload is answered by a URI and one
  -- event that links to it is sent.
  pub data IsSealed (out : Result String × Log K) : Type 0 where
    no_manager : c.media ≡ false → out ≡ (err no_media, log) → IsSealed out
    unknown_room :
        (e : Error) → c.mx.is_encrypted log room ≡ err e → out ≡ (err e, log) → IsSealed out
    upload_refused :
        (e : Error)
        → c.mx.answer log sealed_upload ≡ err e
        → out ≡ (err e, log ++ sealed_upload ∷ [])
        → IsSealed out
    linked :
        (uri : String) (content : MessageEventContent K)
        → c.mx.answer log sealed_upload ≡ ok uri
        → IsLink content uri
        → out ≡ call c.mx (send_message room content) (log ++ sealed_upload ∷ [])
        → IsSealed out

  -- The attachment is prepared and its event sent.
  abbrev and_send : Exec (Log K) (MessageEventContent K) → Exec (Log K) String
  and_send prepare = prepare >>= λ content. call c.mx (send_message room content)

  and_send-upload_encrypted :
      (content : MessageEventContent K) (answer : Result String)
      → c.mx.answer log sealed_upload ≡ answer
      → content.url ≡ ""
      → IsSealed (and_send (upload_encrypted c.mx r.contents r.filename content) log)
  unfolding upload_encrypted encrypt_attachment call
  and_send-upload_encrypted content (err e) h no_url = upload_refused e h (rw h refl)
  and_send-upload_encrypted content (ok uri) h no_url =
      linked uri (record content { file = some (sealed.1, uri) }) h (no_url, refl) (rw h refl)

  caption-url :
      (hints : Hints) (content : MessageEventContent K)
      → (with_caption hints content).url ≡ content.url
  unfolding with_caption
  caption-url hints content = elim (Bool-cases (hints.caption == "")) [
    | inl no_caption ↦ rw no_caption refl
    | inr caption ↦ rw caption (elim (Bool-cases (hints.formatted_caption == "")) [
      | inl no_html ↦ rw no_html refl
      | inr some_html ↦ rw some_html refl
    ])
  ]

  abbrev filled : MessageEventContent K
  filled =
      new_attachment_content r.mime_type r.filename (size_or (pos (length r.contents)) r.size)
        (hints_of c r)

  filled-url : filled.url ≡ ""
  unfolding new_attachment_content hints_of
  filled-url = caption-url (hints_of c r) _

  then_upload-IsSealed :
      (encrypted : Result Bool)
      → c.mx.is_encrypted log room ≡ encrypted
      → encrypted ≢ ok false
      → IsSealed (
          and_send
            (λ l.
              and_then encrypted (λ e. upload_as c.mx e r.contents r.mime_type r.filename filled) l)
            log)
  unfolding upload_as
  then_upload-IsSealed (ok true) p h = and_send-upload_encrypted filled _ refl filled-url
  then_upload-IsSealed (ok false) p h = absurd (h refl)
  then_upload-IsSealed (err e) p h = unknown_room e p refl

  send_file-IsSealed :
      (there : Bool)
      → c.media ≡ there
      → c.mx.is_encrypted log room ≢ ok false
      → IsSealed (send_file c there room r log)
  unfolding send_file prepare_attachment hints_of
  send_file-IsSealed false p h = no_manager p refl
  send_file-IsSealed true p h = then_upload-IsSealed (c.mx.is_encrypted log room) refl h

  -- Unless the state store says that the room is not encrypted, sending a file calls nothing and
  -- fails if there is no media manager or the state store fails, and else uploads the ciphertext of
  -- its bytes under a key that was drawn for it, without its type. If that upload is refused, nothing
  -- else is called; if it is answered by a URI, exactly one event is sent, to the room, that links to
  -- this URI with the key material and to nothing else, and its answer is the result.
  pub send-IsSealed :
      c.mx.is_encrypted log room ≢ ok false → IsSealed (send c room (file_message r) log)
  unfolding send
  send-IsSealed h = send_file-IsSealed c.media refl h
