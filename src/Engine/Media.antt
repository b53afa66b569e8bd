-- ===== src/Engine/Media.antt =====
-- internal/media: attachments are uploaded, encrypted where the room is.
use matfix.Shared.{
  ℕ, zero, String, Bool, true, false, some, List, ◌==◌, if◌then◌else◌, ℤ, pos, Exec, pure, ◌>>=◌,
  length,
}
use text.Mathlib.Text.{starts_with}
use matfix.Engine.Calls.{
  MessageType, msg_image, msg_audio, msg_video, msg_file, format_html, MessageEventContent,
  upload_media, Log, Mautrix, call, plain_content,
}

pub record Hints : Type 0 where
  pub caption : String
  pub formatted_caption : String
  pub width : ℤ
  pub height : ℤ
  pub duration : ℤ
  pub size : ℤ

unfoldable pub infer_msg_type : String → MessageType
infer_msg_type mime =
    if starts_with mime "image/"
    then msg_image
    else (if starts_with mime "audio/"
        then msg_audio
        else (if starts_with mime "video/" then msg_video else msg_file))

-- hints.Size if it is not zero.
unfoldable pub size_or : ℤ → ℤ → ℤ
size_or default (pos zero) = default
size_or default size = size

module _ {K : Type 0} where
  unfoldable pub with_caption : Hints → MessageEventContent K → MessageEventContent K
  with_caption hints content =
      if hints.caption == ""
      then content
      else (if hints.formatted_caption == ""
          then content
          else record content { format = format_html; formatted_body = hints.formatted_caption })

  unfoldable pub new_attachment_content : String → String → ℤ → Hints → MessageEventContent K
  unfolding infer_msg_type with_caption
  new_attachment_content mime filename size hints =
      let body = if hints.caption == "" then filename else hints.caption in
      with_caption hints (record (plain_content {K = K} (infer_msg_type mime) body) {
        file_name = filename;
        info = some (record {
          mime_type = mime;
          size = size;
          width = hints.width;
          height = hints.height;
          duration = hints.duration;
        });
      })

  module _ (mx : Mautrix K) where
    unfoldable pub encrypt_attachment : Log K → List ℕ → List ℕ × K
    encrypt_attachment log plaintext = mx.encrypt_in_place (mx.new_encrypted_file log) plaintext

    unfoldable pub upload_encrypted :
        List ℕ → String → MessageEventContent K → Exec (Log K) (MessageEventContent K)
    unfolding encrypt_attachment call
    upload_encrypted contents filename content log =
        let (ciphertext, ef) = encrypt_attachment log contents in
        (call mx (upload_media ciphertext "application/octet-stream" filename) >>= λ uri.
        pure (record content { file = some (ef, uri) }))
          log

    unfoldable pub upload_plain :
        List ℕ → String → String → MessageEventContent K → Exec (Log K) (MessageEventContent K)
    unfolding call
    upload_plain contents mime filename content =
        call mx (upload_media contents mime filename) >>= λ uri. pure (record content { url = uri })

    unfoldable pub upload_as :
        Bool
        → List ℕ
        → String
        → String
        → MessageEventContent K
        → Exec (Log K) (MessageEventContent K)
    unfolding upload_encrypted upload_plain
    upload_as true contents mime filename content = upload_encrypted contents filename content
    upload_as false contents mime filename content = upload_plain contents mime filename content

    unfoldable pub prepare_attachment :
        String → List ℕ → String → String → Hints → Exec (Log K) (MessageEventContent K)
    unfolding upload_as new_attachment_content size_or
    prepare_attachment room contents mime filename hints =
        let size = size_or (pos (length contents)) hints.size in
        (λ log. (mx.is_encrypted log room, log)) >>= λ encrypted.
        upload_as encrypted contents mime filename (new_attachment_content mime filename size hints)
