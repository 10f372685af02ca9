-- ===== src/Chat/Conn/Swallowed.antt =====
-- Receive: it ends on whatever the peer sends, and the packets that turn the ratchet stay inside.
use cmd_chat.Prelude.{
  Bool-cases, Option-cases, length, >>=-eq-ok, ok-injective, Result-cases, Result, bytes_beq,
  unequal, nat_eq, bytes_eq, Bytes, codes, ok, err, ℕ, zero, suc, ◌+◌, ◌<◌, ◌≡◌, refl, ap, subst,
  ◌≢◌, inl, inr, Option, none, some, arith,
}
use cmd_chat.E2ee.Wire.{Error, read_frame}
use cmd_chat.E2ee.Wire.Frames.{read_frame-shorter}
use cmd_chat.E2ee.Crypto.{Crypto}
use cmd_chat.E2ee.Session.{Session, read_message, write_message, decrypt}
use cmd_chat.Chat.{Packet, packet, too_long}
use cmd_chat.Chat.Conn.{
  Conn, Failure, Libraries, send, written, receive, receive_loop, take_plaintext, take_packet,
  answer, after_read,
}

-- Neither `rekey` nor `rekey_ack`.
abbrev pub IsSurfaced : Packet → Type 0
IsSurfaced p = (p.kind ≢ codes "rekey") × (p.kind ≢ codes "rekey_ack")

module _ (c : Crypto) (l : Libraries) {W : Type 0} (write : Bytes → W → Result Error W) where
  abbrev pub IsSettled : Option (Result Failure Packet × Conn W) → Type 0
  IsSettled none = ⊥
  IsSettled (some (err e, k)) = Unit
  IsSettled (some (ok p, k)) = IsSurfaced p

  err_ok {ℓ} : {E : Type 0} {A : Type ℓ} {e : E} {a : A} → ◌≡◌ {A = Result E A} (err e) (ok a) → ⊥
  err_ok h = cc

  read_message-shorter :
      (s : Session) (stream random plaintext rest : Bytes) (now : ℕ)
      → (read_message c s stream now random).0 ≡ ok (plaintext, rest)
      → length rest < length stream
  unfolding read_message
  read_message-shorter s stream random plaintext rest now came =
      elim (Result-cases (read_frame stream)) [
        | inl (e, q) ↦ absurd (err_ok (rw (q, read_message) at came))
        | inr ((text, left), q) ↦
            let (_, e, f) =
              >>=-eq-ok (decrypt c s text now random).0 _ (rw (q, read_message) at came) in
            subst (λ r. length r < length stream) (ap (λ (t : Bytes × Bytes). t.1) (ok-injective f))
              (read_frame-shorter stream q)
      ]

  written-reader :
      (k : Conn W) (r : Result Error W × Session) → (written c l write k r).1.reader ≡ k.reader
  unfolding written
  written-reader k (err e, s) = refl
  written-reader k (ok w, s) = refl

  send-reader : (k : Conn W) (p : Packet) → (send c l write k p).1.reader ≡ k.reader
  unfolding send
  send-reader k p = elim (Bool-cases (too_long p)) [
    | inl e ↦ rw e refl
    | inr e ↦ elim (Option-cases (l.marshal p)) [
      | inl q ↦ rw (e, q) refl
      | inr (plaintext, q) ↦
          rw (e, q) (written-reader k (write_message c write k.session plaintext k.transport))
    ]
  ]

  -- Every turn ends if the next does, wherever less is left to be read.
  module _ (continue : Conn W → Option (Result Failure Packet × Conn W)) (n : ℕ)
      (next : (k : Conn W) → length k.reader < n → IsSettled (continue k)) where
    answer-IsSettled :
        (sent : Result Failure (Unit {0}) × Conn W)
        → length sent.1.reader < n
        → IsSettled (answer c l write continue sent)
    unfolding answer
    answer-IsSettled (err e, k) h = tt
    answer-IsSettled (ok u, k) h = next k h

    take_packet-IsSettled :
        (k : Conn W) (p : Packet)
        → length k.reader < n
        → IsSettled (take_packet c l write continue k p)
    unfolding take_packet
    take_packet-IsSettled k p h = elim (Bool-cases (bytes_beq p.kind (codes "rekey"))) [
      | inl e ↦ rw e (
          answer-IsSettled (send c l write k (packet (codes "rekey_ack")))
            (rw (send-reader k (packet (codes "rekey_ack"))) h))
      | inr e ↦ elim (Bool-cases (bytes_beq p.kind (codes "rekey_ack"))) [
        | inl f ↦ rw (e, f) (next k h)
        | inr f ↦ rw (e, f) (unequal p.kind (codes "rekey") e, unequal p.kind (codes "rekey_ack") f)
      ]
    ]

    take_plaintext-IsSettled :
        (k : Conn W) (m : Result Error (Bytes × Bytes) × Session × Bytes)
        → ((plaintext rest : Bytes) → m.0 ≡ ok (plaintext, rest) → length rest < n)
        → IsSettled (take_plaintext c l write continue k m)
    unfolding take_plaintext after_read
    take_plaintext-IsSettled k (err e, s, random) h = tt
    take_plaintext-IsSettled k (ok (plaintext, rest), s, random) h =
        elim (Option-cases (l.unmarshal plaintext)) [
          | inl q ↦ rw (q, IsSettled) tt
          | inr (p, q) ↦
              rw (q, IsSettled)
                (take_packet-IsSettled (after_read c l write k s rest random) p
                  (h plaintext rest refl))
        ]

  receive_loop-IsSettled :
      (fuel now : ℕ) (k : Conn W)
      → length k.reader < fuel
      → IsSettled (receive_loop c l write fuel now k)
  unfolding receive_loop
  receive_loop-IsSettled zero now k h = absurd (omega arith)
  receive_loop-IsSettled (suc fuel) now k h =
      take_plaintext-IsSettled (receive_loop c l write fuel now) (length k.reader)
        (λ k' less. receive_loop-IsSettled fuel now k' (omega arith)) k
        (read_message c k.session k.reader now k.random)
        (λ plaintext rest came.
          read_message-shorter k.session k.reader k.random plaintext rest now came)

  -- Whatever the peer sends, Receive comes to an end, and a packet that it gives is neither a
  -- `rekey` nor a `rekey_ack`.
  pub receive-IsSettled : (now : ℕ) (k : Conn W) → IsSettled (receive c l write now k)
  receive-IsSettled now k = receive_loop-IsSettled (length k.reader + 1) now k (omega arith)
