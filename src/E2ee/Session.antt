-- ===== src/E2ee/Session.antt =====
-- Session of internal/e2ee/session.go: records over the ratchet. The clock and the randomness are
-- arguments; times are in nanoseconds. The lock is not modelled: each method runs alone.
pub mod Failures
pub mod Roundtrip
pub mod Opening
use cmd_chat.Prelude.{
  ltb, leb, ◌==◌, if◌then◌else◌, length, take, drop, ◌>>=◌, ◌>>◌, refuse_if, or_fail, Result,
  nat_eq, bytes_eq, Bytes, ok, err, ℕ, ◌+◌, ◌-◌, ◌*◌, ◌/◌, min, ap, Bool, true, false, not, ◌&&◌,
  ◌||◌, Option, none, some, [], ◌++◌, map,
}
use cmd_chat.E2ee.Wire.{
  write_frame, read_frame, Error, malformed, decrypt_failed, session_closed, local_fault,
}
use cmd_chat.E2ee.Crypto.{Crypto}
use cmd_chat.E2ee.Padding.{pad, unpad}
use cmd_chat.E2ee.Header.{Header, header_size, encode, decode_header}
use cmd_chat.E2ee.Ratchet.Skipped.{SkippedKey, forget}
use cmd_chat.E2ee.Ratchet.{
  Ratchet, version_2, key_size, message_keys, next, receive, can_send, destroy,
  new_ratchet_initiator, new_ratchet_responder,
}

abbrev pub tag_size : ℕ
tag_size = 16

abbrev pub rekey_after_messages : ℕ
rekey_after_messages = 64

-- Five minutes.
abbrev pub rekey_after_interval : ℕ
rekey_after_interval = 5 * 60 * 1_000_000_000

-- The peer and the role, which nothing here reads, stand with the handshake.
pub record Session : Type 0 where
  pub ratchet : Ratchet
  pub closed : Bool
  pub associated : Bytes
  pub sent_since_step : ℕ
  pub last_step : ℕ
  pub steps : ℕ

-- `additionalData`.
unfoldable pub additional_data : Session → Bytes → Bytes
additional_data s header_bytes = s.associated ++ header_bytes

-- `aead`: a key of another length is refused.
unfoldable pub aead_key : Bytes → Result Error Bytes
aead_key key = do refuse_if (not (length key == key_size)) local_fault; ok key

module _ (c : Crypto) where
  unfoldable pub encrypt : Session → Bytes → Result Error (Bytes × Session)
  encrypt s plaintext = do
    refuse_if s.closed session_closed
    (h, message_key, r) ← next c s.ratchet
    (key, nonce) ← message_keys c message_key
    key ← aead_key key
    let header_bytes = encode h
    ok (
      header_bytes ++ c.seal key nonce (pad plaintext) (additional_data s header_bytes),
      record s { ratchet = r; sent_since_step = s.sent_since_step + 1 },
    )

  -- Opening and unpadding, once the message key is known; every fault is ErrDecrypt but one of the
  -- libraries.
  unfoldable pub open_record : Session → Bytes → Bytes → Bytes → Result Error Bytes
  open_record s message_key header_bytes body = do
    (key, nonce) ← message_keys c message_key
    key ← aead_key key
    padded ← or_fail (c.unseal key nonce body (additional_data s header_bytes)) decrypt_failed
    elim (unpad padded) [ ok plaintext ↦ ok plaintext | err _ ↦ err decrypt_failed ]

  -- The checks before the ratchet is touched.
  unfoldable pub parse_record : Session → Bytes → Result Error Header
  parse_record s text = do
    refuse_if s.closed session_closed
    refuse_if (ltb (length text) (header_size + tag_size)) malformed
    h ← decode_header (take header_size text)
    refuse_if (not (h.version == version_2)) malformed
    ok h

  -- The clone is adopted; a stored key that was used is deleted.
  unfoldable pub adopt : Session → Ratchet → Option SkippedKey → ℕ → Session
  adopt s speculative from now =
      let r : Ratchet = elim from [
        | none ↦ speculative
        | some k ↦ record speculative { store = forget k speculative.store }
      ] in
      if speculative.steps == s.ratchet.steps
      then record s { ratchet = r }
      else record s { ratchet = r; steps = r.steps; sent_since_step = 0; last_step = now }

  -- What `Decrypt` does with the outcome of `receive` on the clone. `clone` copies every buffer and
  -- map of the ratchet, so that what `receive` writes there does not reach the session: in the model,
  -- where nothing is shared, the copy is the ratchet itself.
  unfoldable pub settle :
      Session
      → Bytes
      → ℕ
      → Result Error (Bytes × Option SkippedKey × Ratchet)
      → Result Error Bytes × Session
  settle s text now (err e) = (err e, s)
  settle s text now (ok (message_key, from, speculative)) =
      elim (open_record s message_key (take header_size text) (drop header_size text)) [
        | err e ↦ (err e, s)
        | ok plaintext ↦ (ok plaintext, adopt s speculative from now)
      ]

  -- The plaintext or the error, the session behind it, and what is left of the randomness.
  unfoldable pub decrypt : Session → Bytes → ℕ → Bytes → Result Error Bytes × Session × Bytes
  decrypt s text now random = elim (parse_record s text) [
    | err e ↦ (err e, s, random)
    | ok h ↦
        let (outcome, random') = receive c s.ratchet h random in
        let (result, s') = settle s text now outcome in (result, s', random')
  ]

  -- The session behind an `Encrypt` that failed: a sending chain that `next` had moved on stays so.
  unfoldable pub moved_on : Session → Session
  moved_on s =
      let moved : Session = elim (next c s.ratchet) [
        | err _ ↦ s
        | ok (h, message_key, r) ↦ record s { ratchet = r }
      ] in
      if s.closed then s else moved

  -- `WriteMessage`: the record is counted also where it could not be written.
  unfoldable pub write_message :
      {W : Type 0} → (Bytes → W → Result Error W) → Session → Bytes → W → Result Error W × Session
  write_message write s plaintext w = elim (encrypt s plaintext) [
    | err e ↦ (err e, moved_on s)
    | ok (text, s') ↦ (write_frame write text w, s')
  ]

  -- `ReadMessage`: the plaintext with what is left of the stream.
  unfoldable pub read_message :
      Session → Bytes → ℕ → Bytes → Result Error (Bytes × Bytes) × Session × Bytes
  read_message s stream now random = elim (read_frame stream) [
    | err e ↦ (err e, s, random)
    | ok (text, rest) ↦
        let (result, s', random') = decrypt s text now random in
        (result >>= λ plaintext. ok (plaintext, rest), s', random')
  ]

unfoldable pub session_can_send : Session → Bool
session_can_send s = not s.closed && can_send s.ratchet

unfoldable pub needs_rekey : Session → ℕ → Bool
needs_rekey s now =
    if s.closed
    then false
    else leb rekey_after_messages s.sent_since_step || leb rekey_after_interval (now - s.last_step)

unfoldable pub close : Session → Session
close s =
    if s.closed then s else record s { closed = true; ratchet = destroy s.ratchet; associated = [] }
