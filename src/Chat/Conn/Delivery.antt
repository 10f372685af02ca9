-- ===== src/Chat/Conn/Delivery.antt =====
-- A packet sent over one end of a connection is received at the other.
use cmd_chat.Prelude.{
  length, Result, bytes_beq, nat_eq, bytes_eq, Bytes, codes, ok, ℕ, suc, ◌+◌, ◌^◌, ◌≤◌, ◌<◌, ◌≡◌,
  refl, ap, ◌∙◌, false, Option, some, ◌++◌, arith,
}
use cmd_chat.E2ee.Wire.{write_frame, read_frame}
use cmd_chat.E2ee.Wire.Frames.{buffer_write, read_frame-write_frame}
use cmd_chat.E2ee.Crypto.{Crypto, CryptoLaws}
use cmd_chat.E2ee.Ratchet.{max_skip}
use cmd_chat.E2ee.Session.{Session, encrypt, decrypt, read_message, write_message}
use cmd_chat.E2ee.Session.Roundtrip.{Linked, decrypt-encrypt, encrypt-length}
use cmd_chat.Chat.{Packet, too_long}
use cmd_chat.Chat.Conn.{
  Conn, Failure, Libraries, send, written, receive, receive_loop, take_plaintext, take_packet,
  after_read,
}

module _ (c : Crypto) (laws : CryptoLaws c) (l : Libraries) where
  -- A packet that the JSON library carries, of a kind that Receive does not keep to itself, whose
  -- text is within both bounds.
  pub record Carried (p : Packet) (plaintext : Bytes) : Type 0 where
    pub marshalled : l.marshal p ≡ some plaintext
    pub unmarshalled : l.unmarshal plaintext ≡ some p
    pub no_rekey : bytes_beq p.kind (codes "rekey") ≡ false
    pub no_ack : bytes_beq p.kind (codes "rekey_ack") ≡ false
    pub within_limit : too_long p ≡ false
    pub small : length plaintext ≤ 65_000

  -- Two ends of a connection whose sessions are linked.
  pub record Ends (chain key : Bytes) (a b : Conn Bytes) : Type 0 where
    pub linked : Linked c laws chain key a.session b.session
    pub first : a.session.ratchet.send_count + 1 < 2 ^ 32
    pub level : b.session.ratchet.receive_count ≤ a.session.ratchet.send_count
    pub near : a.session.ratchet.send_count ≤ b.session.ratchet.receive_count + max_skip

  write_message-ok :
      (s s' : Session) (plaintext text w : Bytes) {w' : Bytes}
      → encrypt c s plaintext ≡ ok (text, s')
      → write_frame buffer_write text w ≡ ok w'
      → write_message c buffer_write s plaintext w ≡ (ok w', s')
  unfolding write_message
  write_message-ok s s' plaintext text w e f = rw (e, write_message) (rw f refl)

  read_message-ok :
      (s s' : Session) (stream text rest plaintext random random' : Bytes) (now : ℕ)
      → read_frame stream ≡ ok (text, rest)
      → decrypt c s text now random ≡ (ok plaintext, s', random')
      → read_message c s stream now random ≡ (ok (plaintext, rest), s', random')
  unfolding read_message
  read_message-ok s s' stream text rest plaintext random random' now e f =
      rw (e, read_message) (rw f refl)

  take_plaintext-ok :
      (continue : Conn Bytes → Option (Result Failure Packet × Conn Bytes)) (k : Conn Bytes)
      (p : Packet) (plaintext rest random : Bytes) (s : Session)
      → Carried p plaintext
      → take_plaintext c l buffer_write continue k (ok (plaintext, rest), s, random)
        ≡ some (ok p, record k { session = s; reader = rest; random = random })
  unfolding take_plaintext take_packet after_read
  take_plaintext-ok continue k p plaintext rest random s carried =
      rw (carried.unmarshalled, take_plaintext) (rw (carried.no_rekey, carried.no_ack) refl)

  send-written :
      (a : Conn Bytes) (p : Packet) (plaintext text frame : Bytes) (s : Session)
      → Carried p plaintext
      → encrypt c a.session plaintext ≡ ok (text, s)
      → write_frame buffer_write text a.transport ≡ ok (a.transport ++ frame)
      → send c l buffer_write a p
        ≡ (ok tt, record a { session = s; transport = a.transport ++ frame })
  unfolding send written
  send-written a p plaintext text frame s carried e f =
      rw (carried.within_limit, carried.marshalled)
        (ap (written c l buffer_write a)
          (write_message-ok a.session s plaintext text a.transport e f))

  receive-read :
      (b : Conn Bytes) (p : Packet) (plaintext text frame rest : Bytes) (s : Session) (now : ℕ)
      → Carried p plaintext
      → read_frame (frame ++ rest) ≡ ok (text, rest)
      → decrypt c b.session text now b.random ≡ (ok plaintext, s, b.random)
      → receive c l buffer_write now (record b { reader = frame ++ rest })
        ≡ some (ok p, record b { session = s; reader = rest })
  unfolding receive_loop
  receive-read b p plaintext text frame rest s now carried e f =
      ap (λ (fuel : ℕ). receive_loop c l buffer_write fuel now b') one_more
      ∙ ap (take_plaintext c l buffer_write continue b') (
          read_message-ok b.session s (frame ++ rest) text rest plaintext b.random b.random now e f)
      ∙ take_plaintext-ok continue b' p plaintext rest b.random s carried
    where
      b' : Conn Bytes
      b' = record b { reader = frame ++ rest }

      continue : Conn Bytes → Option (Result Failure Packet × Conn Bytes)
      continue = receive_loop c l buffer_write (length (frame ++ rest)) now

      one_more : length (frame ++ rest) + 1 ≡ suc (length (frame ++ rest))
      one_more = omega arith

  -- What one end of a connection sends, the other receives as it was sent, leaving what follows it
  -- in the stream: the transport grows by one frame, and the sessions stay linked.
  pub receive-send :
      (chain key : Bytes) (a b : Conn Bytes) (p : Packet) (plaintext rest : Bytes) (now : ℕ)
      → Ends chain key a b
      → Carried p plaintext
      → (frame : Bytes) × (sent got : Session) × (send c l buffer_write a p
          ≡ (ok tt, record a { session = sent; transport = a.transport ++ frame }))
        × (receive c l buffer_write now (record b { reader = frame ++ rest })
            ≡ some (ok p, record b { session = got; reader = rest }))
        × Linked c laws chain key sent got
        × (got.ratchet.receive_count ≡ sent.ratchet.send_count)
  receive-send chain key a b p plaintext rest now ends carried =
      let (text, sent, got, e, f, linked, same) =
        decrypt-encrypt c laws chain key a.session b.session plaintext b.random now ends.linked
          ends.first ends.level ends.near in
      let size : length text ≤ length plaintext + 313 =
        encrypt-length c laws chain key a.session b.session sent plaintext text ends.linked
          ends.first e in
      let (frame, wrote, reads) =
        read_frame-write_frame text a.transport rest (omega (arith, carried.small)) in
      (
        frame,
        sent,
        got,
        send-written a p plaintext text frame sent carried e wrote,
        receive-read b p plaintext text frame rest got now carried reads f,
        linked,
        same,
      )
