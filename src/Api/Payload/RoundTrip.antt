-- ===== src/Api/Payload/RoundTrip.antt =====
-- The messages that internal/api/send.go can be asked to send: exactly those below, by the payload
-- that names each.
use matfix.Shared.{
  ℕ, ◌<◌, ◌≤◌, All, String, ◌≡◌, ◌≢◌, ◌↔◌, inl, inr, refl, sym, ap, Bool, true, false, ◌&&◌, not,
  Option, none, some, List, [], ◌==◌, if◌then◌else◌, ltb, length, pos, arith, eq_iff, Bool-cases,
}
use matfix.Engine.SendTypes.{
  SendRequest, FileMessage, text_message, html_message, reply, reaction, edit, redaction,
  file_message,
}
use matfix.Api.Payload.{
  FileAttachment, MessagePayload, max_file_size, sized_file, decoded_file, file_payload,
  payload_to_send_request,
}

not_empty : (s : String) → s ≢ "" → (s == "") ≡ false
not_empty s h = ground (arith, eq_iff s "")

not_over : (n : ℕ) → n ≤ max_file_size → ltb max_file_size n ≡ false
not_over n h = ground arith

within_limit : (n : ℕ) → ltb max_file_size n ≡ false → n ≤ max_file_size
within_limit n h = ground arith

some_eq : {a b : SendRequest} → some a ≡ some b → a ≡ b
some_eq h = cc

abbrev pub IsBytes : List ℕ → Type 0
IsBytes raw = All (λ b. b < 256) raw

module _ (decode64 : String → Option (List ℕ)) (encode64 : List ℕ → String) where
  abbrev blank : String → MessagePayload
  blank type = record {
    type = type;
    body = "";
    formatted_body = "";
    in_reply_to = "";
    target_event_id = "";
    key = "";
    reason = "";
    file = none;
  }

  -- The payload that the documentation of the API describes for a message.
  abbrev pub payload_of : SendRequest → MessagePayload
  payload_of (text_message m) = record (blank "text") { body = m.body }
  payload_of (html_message m) = record (blank "html") {
    body = m.body;
    formatted_body = m.formatted_body;
  }
  payload_of (reply m) = record (blank "reply") {
    in_reply_to = m.in_reply_to;
    body = m.body;
    formatted_body = m.formatted_body;
  }
  payload_of (reaction m) = record (blank "reaction") {
    target_event_id = m.target_event_id;
    key = m.key;
  }
  payload_of (edit m) = record (blank "edit") {
    target_event_id = m.target_event_id;
    body = m.new_body;
    formatted_body = m.new_formatted_body;
  }
  payload_of (redaction m) = record (blank "redaction") {
    target_event_id = m.target_event_id;
    reason = m.reason;
  }
  payload_of (file_message m) = record (blank "file") {
    body = m.caption;
    formatted_body = m.formatted_caption;
    file = some (record {
      data64 = encode64 m.contents;
      mime_type = m.mime_type;
      filename = m.filename;
      width = m.width;
      height = m.height;
      duration = m.duration;
    });
  }

  -- A file has a type, 50 MiB at most and a caption if it has a formatted one; its Size is not set.
  pub record IsSendableFile (m : FileMessage) : Type 0 where
    pub typed : m.mime_type ≢ ""
    pub fits : length m.contents ≤ max_file_size
    pub captioned : (not (m.formatted_caption == "") && m.caption == "") ≡ false
    pub unsized : m.size ≡ pos 0

  abbrev pub IsSendable : SendRequest → Type 0
  IsSendable (file_message m) = IsSendableFile m
  IsSendable (text_message m) = Unit
  IsSendable (html_message m) = Unit
  IsSendable (reply m) = Unit
  IsSendable (reaction m) = Unit
  IsSendable (edit m) = Unit
  IsSendable (redaction m) = Unit

  -- Base64 reads back the bytes that it writes, and something is written of a file that is not empty.
  pub record IsFaithful64 : Type 0 where
    pub reads_back : (raw : List ℕ) → IsBytes raw → decode64 (encode64 raw) ≡ some raw
    pub writes : (raw : List ℕ) → IsBytes raw → raw ≢ [] → encode64 raw ≢ ""

  -- A file has contents, and they are bytes.
  abbrev pub IsFilled : SendRequest → Type 0
  IsFilled (file_message m) = (m.contents ≢ []) × IsBytes m.contents
  IsFilled _ = Unit

  -- Whatever is converted is sendable.
  decoded-IsSendable :
      (p : MessagePayload) (a : FileAttachment) (raw : Option (List ℕ)) (m : SendRequest)
      → (not (p.formatted_body == "") && p.body == "") ≡ false
      → a.mime_type ≢ ""
      → decoded_file decode64 p a raw ≡ some m
      → IsSendable m
  unfolding decoded_file sized_file
  decoded-IsSendable p a none m captioned typed h = absurd (cc)
  decoded-IsSendable p a (some raw) m captioned typed h =
      elim (Bool-cases (ltb max_file_size (length raw))) [
        | inl over ↦ absurd (let q = rw over at h in cc)
        | inr within ↦
            let q = rw within at h in
            let e = some_eq q in
            rw (← e) (record {
              typed = typed;
              fits = within_limit (length raw) within;
              captioned = captioned;
              unsized = refl;
            })
      ]

  file-IsSendable :
      (p : MessagePayload) (file : Option FileAttachment) (m : SendRequest)
      → file_payload decode64 p file ≡ some m
      → IsSendable m
  unfolding file_payload
  file-IsSendable p none m h = absurd (cc)
  file-IsSendable p (some a) m h =
      elim (Bool-cases (not (p.formatted_body == "") && p.body == "")) [
        | inl q ↦ absurd (let r = rw q at h in cc)
        | inr q ↦ elim (Bool-cases (a.mime_type == "")) [
          | inl t ↦ absurd (let r = rw (q, t) at h in cc)
          | inr t ↦ elim (Bool-cases (a.data64 == "")) [
            | inl d ↦ absurd (let r = rw (q, t, d) at h in cc)
            | inr d ↦
                decoded-IsSendable p a (decode64 a.data64) m q
                  (ground (arith, eq_iff a.mime_type "")) (rw (q, t, d) at h)
          ]
        ]
      ]

  payload_to_send_request-payload_of :
      IsFaithful64
      → (m : SendRequest) → IsSendable m
      → IsFilled m
      → payload_to_send_request decode64 (payload_of m) ≡ some m
  unfolding payload_to_send_request
  payload_to_send_request-payload_of f (text_message m) s n = refl
  payload_to_send_request-payload_of f (html_message m) s n = refl
  payload_to_send_request-payload_of f (reply m) s n = refl
  payload_to_send_request-payload_of f (reaction m) s n = refl
  payload_to_send_request-payload_of f (edit m) s n = refl
  payload_to_send_request-payload_of f (redaction m) s n = refl
  payload_to_send_request-payload_of f (file_message m) s n =
      rw
        (
          s.captioned,
          not_empty m.mime_type s.typed,
          not_empty (encode64 m.contents) (f.writes m.contents n.1 n.0),
          f.reads_back m.contents n.1,
          not_over (length m.contents) s.fits,
        )
        (ap (λ z. some (file_message (record m { size = z }))) (sym s.unsized))

  -- Every payload that is converted gives a sendable message.
  payload_to_send_request-IsSendable :
      (p : MessagePayload) (m : SendRequest)
      → payload_to_send_request decode64 p ≡ some m
      → IsSendable m
  unfolding payload_to_send_request
  payload_to_send_request-IsSendable p m = or_else (p.type == "text") _ tt (
      or_else (p.type == "html") _ tt (
        or_else (p.type == "reply") _ tt (
          or_else (p.type == "reaction") _ tt (
            or_else (p.type == "edit") _ tt
              (or_else (p.type == "redaction") _ tt (if_file (p.type == "file")))))))
    where
      or_else :
          (b : Bool) (x : SendRequest) {rest : Option SendRequest}
          → IsSendable x
          → (rest ≡ some m → IsSendable m)
          → (if b then some x else rest) ≡ some m
          → IsSendable m
      or_else true x sendable others h = let e = some_eq h in rw (← e) sendable
      or_else false x sendable others h = others h

      if_file :
          (b : Bool) → (if b then file_payload decode64 p p.file else none) ≡ some m → IsSendable m
      if_file true h = file-IsSendable p p.file m h
      if_file false h = absurd (cc)

  -- If base64 reads back the bytes that it writes, a message that is no empty file is what its payload
  -- is converted to exactly if it is no file, or a file with a type, 50 MiB at most, a caption if it
  -- has a formatted one, and Size not set.
  pub payload_of-IsSendable :
      IsFaithful64
      → (m : SendRequest) → IsFilled m
      → (payload_to_send_request decode64 (payload_of m) ≡ some m) ↔ IsSendable m
  payload_of-IsSendable f m filled = (
    payload_to_send_request-IsSendable (payload_of m) m,
    λ sendable. payload_to_send_request-payload_of f m sendable filled,
  )
