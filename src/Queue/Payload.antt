-- ===== src/Queue/Payload.antt =====
-- encodePayload and decodePayload of internal/queue/job.go, over encoding/json as a parameter.
use matfix.Shared.{
  String, ◌≡◌, refl, Option, none, some, arith, Result, ok, err, codec, unknown_payload, ◌==◌,
  if◌then◌else◌,
}
use matfix.Engine.SendTypes.{
  TextMessage, HtmlMessage, Reply, Reaction, Edit, Redaction, FileMessage, SendRequest,
  text_message, html_message, reply, reaction, edit, redaction, file_message,
}

-- json.Marshal and json.Unmarshal at one type; `none` is an error.
pub record Codec (A : Type 0) : Type 0 where
  pub marshal : A → Option String
  pub unmarshal : String → Option A

-- The documented behaviour of encoding/json on structs of exported fields: what was marshalled is
-- read back. A value that is none of Go's (a byte above 255, an int of more than 64 bits) is not
-- marshalled.
pub record IsFaithful {A : Type 0} (c : Codec A) : Type 0 where
  pub reads_back : (a : A) (s : String) → c.marshal a ≡ some s → c.unmarshal s ≡ some a

pub record EncodedPayload : Type 0 where
  pub type : String
  pub content : String

pub record Json : Type 0 where
  pub text : Codec TextMessage
  pub html : Codec HtmlMessage
  pub replies : Codec Reply
  pub reactions : Codec Reaction
  pub edits : Codec Edit
  pub redactions : Codec Redaction
  pub files : Codec FileMessage
  pub envelope : Codec EncodedPayload

-- A content that json.Marshal made of a request: compact, and with its HTML escaped.
pub data IsMarshalled (json : Json) (content : String) : Type 0 where
  of_text : (m : TextMessage) → json.text.marshal m ≡ some content → IsMarshalled json content
  of_html : (m : HtmlMessage) → json.html.marshal m ≡ some content → IsMarshalled json content
  of_reply : (m : Reply) → json.replies.marshal m ≡ some content → IsMarshalled json content
  of_reaction : (m : Reaction) → json.reactions.marshal m ≡ some content → IsMarshalled json content
  of_edit : (m : Edit) → json.edits.marshal m ≡ some content → IsMarshalled json content
  of_redaction :
      (m : Redaction) → json.redactions.marshal m ≡ some content → IsMarshalled json content
  of_file : (m : FileMessage) → json.files.marshal m ≡ some content → IsMarshalled json content

-- Marshal compacts a json.RawMessage and escapes its HTML, so the envelope is read back as it was
-- only around a content that Marshal made: compacting and escaping that again changes nothing.
pub record IsFaithfulJson (json : Json) : Type 0 where
  pub text : IsFaithful json.text
  pub html : IsFaithful json.html
  pub replies : IsFaithful json.replies
  pub reactions : IsFaithful json.reactions
  pub edits : IsFaithful json.edits
  pub redactions : IsFaithful json.redactions
  pub files : IsFaithful json.files
  pub envelope :
      (ep : EncodedPayload) (raw : String)
      → IsMarshalled json ep.content
      → json.envelope.marshal ep ≡ some raw
      → json.envelope.unmarshal raw ≡ some ep

-- The payloadType constants.
abbrev pub payload_text_message : String
payload_text_message = "text_message"

abbrev pub payload_html_message : String
payload_html_message = "html_message"

abbrev pub payload_reply : String
payload_reply = "reply"

abbrev pub payload_reaction : String
payload_reaction = "reaction"

abbrev pub payload_edit : String
payload_edit = "edit"

abbrev pub payload_redaction : String
payload_redaction = "redaction"

abbrev pub payload_file_message : String
payload_file_message = "file_message"

module _ (json : Json) where
  -- The `switch` and the first json.Marshal: the tag and the content.
  tag_and_content : SendRequest → String × Option String
  tag_and_content (text_message m) = (payload_text_message, json.text.marshal m)
  tag_and_content (html_message m) = (payload_html_message, json.html.marshal m)
  tag_and_content (reply m) = (payload_reply, json.replies.marshal m)
  tag_and_content (reaction m) = (payload_reaction, json.reactions.marshal m)
  tag_and_content (edit m) = (payload_edit, json.edits.marshal m)
  tag_and_content (redaction m) = (payload_redaction, json.redactions.marshal m)
  tag_and_content (file_message m) = (payload_file_message, json.files.marshal m)

  marshal_envelope : String → Option String → Result String
  marshal_envelope tag none = err codec
  marshal_envelope tag (some content) =
      elim (json.envelope.marshal (record { type = tag; content = content })) [
        | none ↦ err codec
        | some raw ↦ ok raw
      ]

  unfoldable pub encode_payload : SendRequest → Result String
  unfolding tag_and_content marshal_envelope
  encode_payload req = let (tag, content) = tag_and_content req in marshal_envelope tag content

  decoded {ℓ} : {A : Type ℓ} → (A → SendRequest) → Option A → Result SendRequest
  decoded wrap none = err codec
  decoded wrap (some v) = ok (wrap v)

  decode_content : EncodedPayload → Result SendRequest
  unfolding decoded
  decode_content ep =
      if ep.type == payload_text_message
      then decoded text_message (json.text.unmarshal ep.content)
      else if ep.type == payload_html_message
      then decoded html_message (json.html.unmarshal ep.content)
      else if ep.type == payload_reply
      then decoded reply (json.replies.unmarshal ep.content)
      else if ep.type == payload_reaction
      then decoded reaction (json.reactions.unmarshal ep.content)
      else if ep.type == payload_edit
      then decoded edit (json.edits.unmarshal ep.content)
      else if ep.type == payload_redaction
      then decoded redaction (json.redactions.unmarshal ep.content)
      else if ep.type == payload_file_message
      then decoded file_message (json.files.unmarshal ep.content)
      else err unknown_payload

  unfoldable pub decode_payload : String → Result SendRequest
  unfolding decode_content
  decode_payload raw = elim (json.envelope.unmarshal raw) [
    | none ↦ err codec
    | some ep ↦ decode_content ep
  ]

  tag_and_content-IsMarshalled :
      (req : SendRequest) (content : String)
      → (tag_and_content req).1 ≡ some content
      → IsMarshalled json content
  unfolding tag_and_content
  tag_and_content-IsMarshalled (text_message m) content h = of_text m h
  tag_and_content-IsMarshalled (html_message m) content h = of_html m h
  tag_and_content-IsMarshalled (reply m) content h = of_reply m h
  tag_and_content-IsMarshalled (reaction m) content h = of_reaction m h
  tag_and_content-IsMarshalled (edit m) content h = of_edit m h
  tag_and_content-IsMarshalled (redaction m) content h = of_redaction m h
  tag_and_content-IsMarshalled (file_message m) content h = of_file m h

  module _ (faithful : IsFaithfulJson json) where
    content_back :
        (req : SendRequest) (content : String)
        → (tag_and_content req).1 ≡ some content
        → decode_content (record { type = (tag_and_content req).0; content = content }) ≡ ok req
    unfolding decode_content tag_and_content
    content_back (text_message m) content h = rw (faithful.text.reads_back m content h)
    content_back (html_message m) content h = rw (faithful.html.reads_back m content h)
    content_back (reply m) content h = rw (faithful.replies.reads_back m content h)
    content_back (reaction m) content h = rw (faithful.reactions.reads_back m content h)
    content_back (edit m) content h = rw (faithful.edits.reads_back m content h)
    content_back (redaction m) content h = rw (faithful.redactions.reads_back m content h)
    content_back (file_message m) content h = rw (faithful.files.reads_back m content h)

    marshal_envelope-back :
        (tag : String) (content : Option String) (raw : String)
        → marshal_envelope tag content ≡ ok raw
        → (c : String) × (content ≡ some c)
          × (json.envelope.marshal (record { type = tag; content = c }) ≡ some raw)
    unfolding marshal_envelope
    marshal_envelope-back tag none raw h = absurd (cc)
    marshal_envelope-back tag (some c) raw h = (c, refl, ground arith)

    -- If encoding/json reads back what it marshals, the envelope around marshalled content included,
    -- then every request that encodePayload stores is decoded to itself.
    pub decode_payload-encode_payload :
        (req : SendRequest) (raw : String)
        → encode_payload req ≡ ok raw
        → decode_payload raw ≡ ok req
    unfolding encode_payload decode_payload
    decode_payload-encode_payload req raw h =
        let (tag, content) = tag_and_content req in
        let (c, e, m) = marshal_envelope-back tag content raw h in
        let made = tag_and_content-IsMarshalled req c e in
        rw (faithful.envelope (record { type = tag; content = c }) raw made m, decode_payload)
          (content_back req c e)
