-- ===== src/Submission/Guards.antt =====
-- The guards of Submit and SendDirect (internal/submission/validate.go and idempotency.go): when
-- neither the queue nor a homeserver is touched.
use matfix.Shared.{
  String, ◌≡◌, refl, Bool, true, false, not, ◌||◌, Option, none, some, List, ◌⊎◌, ◌↔◌, Error,
  Result, ok, err, Result-cases, Bool-cases, inl, inr, and_then, ◌==◌, ℤ, any_where,
  unknown_account, invalid_destination, refuse_if, chain,
}
use text.Mathlib.Text.{starts_with}
use matfix.Engine.SendTypes.{SendRequest}
use matfix.Engine.Rooms.{Matrix}
use matfix.Persistence.Queue.{QueueEntry, get_by_idempotency_key}
use matfix.Persistence.Queue.Lookup.{id_of}
use matfix.Persistence.Queue.Contract.{get_by_idempotency_key-Reads}
use matfix.Queue.Manager.Outcome.{keyed_row}
use matfix.Queue.Payload.{Json}
use matfix.Submission.{
  SubmitRequest, World, validate_request, validate_destination, check_message, entry_id,
  check_idempotency, unless_known, submit_valid, submit, send_direct,
}
use matfix.Submission.Registry.{registry, check_idempotency_lem}

-- What the documentation asks of a request: a configured account, a destination that names a room, an
-- alias or a user, and a message.
pub record IsValid (accounts : List String) (req : SubmitRequest) (message : SendRequest)
    : Type 0 where
  pub configured : any_where (λ a. a == req.account_id) accounts ≡ true
  pub has_sigil :
      (starts_with req.destination "!" ≡ true)
      ⊎ (starts_with req.destination "#" ≡ true)
      ⊎ (starts_with req.destination "@" ≡ true)
  pub has_message : req.message ≡ some message

-- The three checks in their order, on what they look at.
abbrev checks : Bool → Bool → Bool → Bool → Option SendRequest → Result SendRequest
checks configured room alias user message = chain (refuse_if (not configured) unknown_account) (λ _.
    chain (refuse_if (not (room || alias || user)) invalid_destination)
      (λ _. check_message message))

checks-eq-ok :
    (configured room alias user : Bool) (m : Option SendRequest) (message : SendRequest)
    → checks configured room alias user m ≡ ok message
    → (configured ≡ true) × ((room ≡ true) ⊎ (alias ≡ true) ⊎ (user ≡ true)) × (m ≡ some message)
unfolding check_message
checks-eq-ok false room alias user m message h = absurd (cc)
checks-eq-ok true true alias user none message h = absurd (cc)
checks-eq-ok true true alias user (some x) message h = (refl, inl refl, cc)
checks-eq-ok true false true user none message h = absurd (cc)
checks-eq-ok true false true user (some x) message h = (refl, inr (inl refl), cc)
checks-eq-ok true false false true none message h = absurd (cc)
checks-eq-ok true false false true (some x) message h = (refl, inr (inr refl), cc)
checks-eq-ok true false false false m message h = absurd (cc)

ok-checks :
    (room alias user : Bool) (message : SendRequest)
    → (room ≡ true) ⊎ (alias ≡ true) ⊎ (user ≡ true)
    → checks true room alias user (some message) ≡ ok message
unfolding check_message
ok-checks room alias user message (inl h) = rw h refl
ok-checks true alias user message (inr (inl h)) = refl
ok-checks false alias user message (inr (inl h)) = rw h refl
ok-checks true alias user message (inr (inr h)) = refl
ok-checks false true user message (inr (inr h)) = refl
ok-checks false false user message (inr (inr h)) = rw h refl

module _ (accounts : List String) (req : SubmitRequest) where
  -- validateRequest accepts exactly the valid requests.
  pub validate_request-IsValid :
      (message : SendRequest)
      → (validate_request req accounts ≡ ok message) ↔ IsValid accounts req message
  unfolding validate_request validate_destination
  validate_request-IsValid message = (valid, accepted)
    where
      valid : validate_request req accounts ≡ ok message → IsValid accounts req message
      valid h =
          let (c, s, m) =
            checks-eq-ok (any_where (λ a. a == req.account_id) accounts)
              (starts_with req.destination "!") (starts_with req.destination "#")
              (starts_with req.destination "@") req.message message h in
          record { configured = c; has_sigil = s; has_message = m }

      accepted : IsValid accounts req message → validate_request req accounts ≡ ok message
      accepted v =
          rw (v.configured, v.has_message)
            (ok-checks (starts_with req.destination "!") (starts_with req.destination "#")
              (starts_with req.destination "@") message v.has_sigil)

entry_id_of :
    (found : Option QueueEntry) (id : String) → id_of found ≡ some id → ok (entry_id found) ≡ ok id
entry_id_of none id h = absurd (cc)
entry_id_of (some e) id h = cc

module _ {S : Type 0} (json : Json) (accounts : List String) (clients : String → Option (Matrix S))
    (req : SubmitRequest) (uuid : String) (now : ℤ) (w : World S) where
  -- A request that is not valid is refused by Submit and by SendDirect with one error, and neither
  -- the queue nor a homeserver is touched.
  invalid-untouched :
      ((message : SendRequest) → IsValid accounts req message → ⊥)
      → (e : Error) × (submit json accounts clients req uuid now w ≡ (err e, w))
        × (send_direct json accounts clients req w ≡ (err e, w))
  unfolding submit send_direct
  invalid-untouched invalid = elim (Result-cases (validate_request req accounts)) [
    | inl (message, p) ↦
        absurd (invalid message ((validate_request-IsValid accounts req message).0 p))
    | inr (e, p) ↦ (e, rw p refl, rw p refl)
  ]

  after_check :
      (w' : World S) (message : SendRequest) (r : Result String) (id : String)
      → (id == "") ≡ false
      → ((e : Error) × (r ≡ err e)) ⊎ (r ≡ ok id)
      → and_then r (unless_known json accounts clients req message uuid now) w' ≡ (r, w')
  unfolding unless_known
  after_check w' message r id named (inl (e, p)) = rw p refl
  after_check w' message r id named (inr p) = rw (p, named) refl

  check_known :
      (id : String)
      → registry w.manager.store.rows req.account_id req.idempotency_key ≡ some id
      → let r = (check_idempotency {S = S} req.account_id req.idempotency_key w).0 in
        ((e : Error) × (r ≡ err e)) ⊎ (r ≡ ok id)
  unfolding check_idempotency registry keyed_row
  check_known id held =
      let key = req.idempotency_key in
      elim (Bool-cases (key == "")) [
        | inl p ↦ absurd (let q = rw p at held in cc)
        | inr p ↦
            elim (Result-cases (get_by_idempotency_key req.account_id key w.manager.store).0) [
              | inr (e, q) ↦ inl (e, rw (p, q) refl)
              | inl (found, q) ↦
                  let reads =
                    rw (q, p) at
                      (get_by_idempotency_key-Reads req.account_id key w.manager.store) in
                  inr (rw (p, q) (entry_id_of found id (rw (reads.1) (rw p at held))))
            ]
      ]

  -- A valid request under a key that has a job already reaches no homeserver and writes no row; the
  -- answer is that job, unless reading the table fails.
  pub submit-held :
      (message : SendRequest) (id : String)
      → IsValid accounts req message
      → (id == "") ≡ false
      → registry w.manager.store.rows req.account_id req.idempotency_key ≡ some id
      → let (r, w') = submit json accounts clients req uuid now w in
        (w'.server ≡ w.server)
        × (w'.manager.store.rows ≡ w.manager.store.rows)
        × (((e : Error) × (r ≡ err e)) ⊎ (r ≡ ok id))
  unfolding submit submit_valid
  submit-held message id valid named held =
      let (r, w') = check_idempotency {S = S} req.account_id req.idempotency_key w in
      let (same, untouched, found) =
        check_idempotency_lem json accounts clients req.account_id req.idempotency_key w in
      let cases = check_known id held in
      rw
        (
          (validate_request-IsValid accounts req message).1 valid,
          after_check w' message r id named cases,
        )
        (untouched, same, cases)
