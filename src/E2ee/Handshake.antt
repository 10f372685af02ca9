-- ===== src/E2ee/Handshake.antt =====
-- The CMDC2 handshake of internal/e2ee/handshake.go and newSession of session.go. Each flight is a
-- function of the message that it answers; `initiate` and `respond` run them over the frames that
-- the peer sends and a writer. What was written before an error is dropped: the caller closes the
-- connection. The randomness of crypto/mlkem is an argument of its own.
pub mod Schedule
pub mod Versions
pub mod Binding
pub mod Outcome
pub mod Sessions
pub mod Messages
pub mod Agreement
pub mod Meeting
use cmd_chat.Prelude.{
  ltb, ◌==◌, if◌then◌else◌, length, take, drop, ◌>>=◌, ◌>>◌, refuse_if, or_fail, Result, nat_eq,
  bytes_eq, Bytes, ok, err, ℕ, ◌+◌, ◌-◌, ◌/◌, ◌%◌, ◌^◌, ap, not, Option, none, some, List, [], ◌∷◌,
  ◌++◌,
}
use cmd_chat.E2ee.Wire.{
  Error, Reader, reader, take_bytes, read_u8, read_u16, read_lp, done, append_u16, append_u32,
  read_full, write_frame, read_frame, malformed, local_fault, downgrade, legacy_peer,
  no_common_version, peer_closed_handshake, eof, unexpected_eof,
}
use cmd_chat.E2ee.Crypto.{Crypto}
use cmd_chat.E2ee.Session.{Session, encrypt, decrypt}
use cmd_chat.E2ee.Auth.{
  Config, PeerInfo, versions_of, validate, seal_auth, open_auth, text_of, version_1,
  supported_versions,
}
use Schedule.{
  HandshakeKeys, Established, hash_transcript, derive_handshake_keys, hybrid_secret, new_session,
  role_initiator, role_responder, label,
}
use Versions.{contains_version, select_version, append_versions, read_versions}

abbrev pub encapsulation_key_size : ℕ
encapsulation_key_size = 1184

abbrev pub ciphertext_size : ℕ
ciphertext_size = 1088

abbrev pub m2_header_len : ℕ
m2_header_len = 1 + 2 + 32 + ciphertext_size + 32

-- What the initiator holds once M1 is made.
pub record Offer : Type 0 where
  pub ephemeral : Bytes
  pub decapsulation : Bytes
  pub offered : List ℕ
  pub m1 : Bytes
  pub th1 : Bytes
  pub random : Bytes

-- The fields of M2, and of M1, that the other side reads.
pub record Answer : Type 0 where
  pub chosen : ℕ
  pub peer_ephemeral : Bytes
  pub kem_ciphertext : Bytes
  pub c2 : Bytes

pub record Hello : Type 0 where
  pub count : ℕ
  pub offered : List ℕ
  pub peer_ephemeral : Bytes
  pub peer_encapsulation_key : Bytes

-- M3 and what the initiator's session is made of.
pub record Reply : Type 0 where
  pub m3 : Bytes
  pub prk : Bytes
  pub th4 : Bytes
  pub peer : PeerInfo
  pub remote : Bytes

-- What the responder holds once M2 is made.
pub record Answered : Type 0 where
  pub chosen : ℕ
  pub ephemeral : Bytes
  pub keys : HandshakeKeys
  pub m2 : Bytes
  pub th3 : Bytes
  pub random : Bytes

unfoldable pub parse_m2 : Bytes → Result Error Answer
parse_m2 m2 =
    let (kind, r1) = read_u8 (reader m2) in
    let (chosen, r2) = read_u16 r1 in
    let (peer_ephemeral, r3) = take_bytes r2 32 in
    let (kem_ciphertext, r4) = take_bytes r3 ciphertext_size in
    let (_, r5) = take_bytes r4 32 in
    let (c2, r6) = read_lp r5 in
    do
      refuse_if (ltb (length m2) m2_header_len) malformed
      refuse_if (not (kind == 2)) malformed
      done r6
      ok (record {
        chosen = chosen;
        peer_ephemeral = text_of peer_ephemeral;
        kem_ciphertext = text_of kem_ciphertext;
        c2 = text_of c2;
      })

unfoldable pub parse_m1 : Bytes → Result Error Hello
parse_m1 m1 =
    let (kind, r1) = read_u8 (reader m1) in
    let (count, r2) = read_u8 r1 in
    let (offered, r3) = read_versions count r2 in
    let (peer_ephemeral, r4) = take_bytes r3 32 in
    let (peer_encapsulation_key, r5) = take_bytes r4 encapsulation_key_size in
    let (_, r6) = take_bytes r5 32 in
    do
      refuse_if (not (kind == 1)) malformed
      done r6
      ok (record {
        count = count;
        offered = offered;
        peer_ephemeral = text_of peer_ephemeral;
        peer_encapsulation_key = text_of peer_encapsulation_key;
      })

unfoldable pub parse_m3 : Bytes → Result Error Bytes
parse_m3 m3 =
    let (kind, r1) = read_u8 (reader m3) in
    let (c3, r2) = read_lp r1 in do refuse_if (not (kind == 3)) malformed; done r2; ok (text_of c3)

module _ (c : Crypto) where
  -- The first flight of `Initiate`; `dk` is what mlkem.GenerateKey768 gave.
  unfoldable pub make_offer : Config → Option Bytes → Bytes → Result Error Offer
  make_offer cfg dk random = do
    validate c cfg
    (ephemeral, random) ← or_fail (c.generate random) local_fault
    decapsulation ← or_fail dk local_fault
    (nonce, random) ← read_full 32 random
    let offered = versions_of cfg
    let m1 =
        append_versions (1 ∷ length offered % 256 ∷ []) offered
        ++ (c.public_key ephemeral ++ (c.encapsulation_key decapsulation ++ nonce))
    ok (record {
      ephemeral = ephemeral;
      decapsulation = decapsulation;
      offered = offered;
      m1 = m1;
      th1 = hash_transcript c (hash_transcript c (label "transcript") cfg.channel_binding) m1;
      random = random;
    })

  -- The version checks of `Initiate`.
  unfoldable pub check_chosen : List ℕ → ℕ → Result Error (Unit {0})
  check_chosen offered chosen = do
    refuse_if (not (contains_version offered chosen)) downgrade
    refuse_if (not (contains_version supported_versions chosen))
        (if chosen == version_1 then legacy_peer else no_common_version)
    ok tt

  -- The two shared secrets of `Initiate` and their combination.
  unfoldable pub initiator_secret : Offer → Answer → Result Error Bytes
  initiator_secret o a = do
    refuse_if (not (c.is_public_key a.peer_ephemeral)) malformed
    classical ← or_fail (c.ecdh o.ephemeral a.peer_ephemeral) malformed
    quantum ← or_fail (c.decapsulate o.decapsulation a.kem_ciphertext) malformed
    ok (hybrid_secret quantum classical)

  -- From M2 to M3.
  unfoldable pub take_answer : Config → Offer → Bytes → Result Error Reply
  take_answer cfg o m2 = do
    a ← parse_m2 m2
    check_chosen o.offered a.chosen
    shared ← initiator_secret o a
    let th2 = hash_transcript c o.th1 (take m2_header_len m2)
    keys ← derive_handshake_keys c shared th2
    peer ←
        open_auth c cfg a.c2 keys.resp_key keys.resp_mac th2 (label "responder signature")
          (label "responder confirm")
    let th3 = hash_transcript c th2 a.c2
    c3 ←
        seal_auth c cfg keys.init_key keys.init_mac th3 (label "initiator signature")
          (label "initiator confirm")
    ok (record {
      m3 = append_u32 (3 ∷ []) (length c3 % 2 ^ 32) ++ c3;
      prk = keys.prk;
      th4 = hash_transcript c th3 c3;
      peer = record peer { version = a.chosen };
      remote = a.peer_ephemeral;
    })

  -- The version that `Respond` chooses.
  unfoldable pub choose : Config → Hello → Result Error ℕ
  choose cfg h = do
    refuse_if (h.count == 0) no_common_version
    or_fail (select_version (versions_of cfg) h.offered)
        (if contains_version h.offered version_1 then legacy_peer else no_common_version)

  -- From M1 to M2; `entropy` is what crypto/mlkem encapsulates with.
  unfoldable pub make_answer : Config → Bytes → Bytes → Bytes → Result Error Answered
  make_answer cfg m1 entropy random = do
    h ← parse_m1 m1
    chosen ← choose cfg h
    refuse_if (not (c.is_public_key h.peer_ephemeral)) malformed
    (ephemeral, random) ← or_fail (c.generate random) local_fault
    classical ← or_fail (c.ecdh ephemeral h.peer_ephemeral) malformed
    refuse_if (not (c.is_encapsulation_key h.peer_encapsulation_key)) malformed
    let (quantum, kem_ciphertext) = c.encapsulate h.peer_encapsulation_key entropy
    (nonce, random) ← read_full 32 random
    let th1 = hash_transcript c (hash_transcript c (label "transcript") cfg.channel_binding) m1
    let m2_header =
        append_u16 (2 ∷ []) chosen ++ (c.public_key ephemeral ++ (kem_ciphertext ++ nonce))
    let th2 = hash_transcript c th1 m2_header
    keys ← derive_handshake_keys c (hybrid_secret quantum classical) th2
    c2 ←
        seal_auth c cfg keys.resp_key keys.resp_mac th2 (label "responder signature")
          (label "responder confirm")
    ok (record {
      chosen = chosen;
      ephemeral = ephemeral;
      keys = keys;
      m2 = append_u32 m2_header (length c2 % 2 ^ 32) ++ c2;
      th3 = hash_transcript c th2 c2;
      random = random;
    })

  -- From M3 to the peer and the last transcript hash.
  unfoldable pub take_finish : Config → Answered → Bytes → Result Error (PeerInfo × Bytes)
  take_finish cfg a m3 = do
    c3 ← parse_m3 m3
    peer ←
        open_auth c cfg c3 a.keys.init_key a.keys.init_mac a.th3 (label "initiator signature")
          (label "initiator confirm")
    ok (record peer { version = a.chosen }, hash_transcript c a.th3 c3)

  -- The first frame of the peer: a connection that closes here has an error of its own.
  unfoldable pub read_answer : Bytes → Result Error (Bytes × Bytes)
  read_answer stream = elim (read_frame stream) [
    | err eof ↦ err peer_closed_handshake
    | err unexpected_eof ↦ err peer_closed_handshake
    | err e ↦ err e
    | ok r ↦ ok r
  ]

  -- `Initiate`: the peer's bytes, a writer, the clock; the session, the writer and what is left
  -- unread.
  module _ {W : Type 0} (write : Bytes → W → Result Error W) where
    unfoldable pub initiate :
        Config → Option Bytes → Bytes → ℕ → Bytes → W → Result Error (Established × W × Bytes)
    initiate cfg dk random now stream w = do
      o ← make_offer cfg dk random
      w ← write_frame write o.m1 w
      (m2, stream) ← read_answer stream
      reply ← take_answer cfg o m2
      w ← write_frame write reply.m3 w
      e ←
          new_session c reply.prk reply.th4 reply.peer role_initiator (some reply.remote) none
            o.random now
      (primer, s) ← encrypt c e.session []
      w ← write_frame write primer w
      ok (record e { session = s }, w, stream)

    unfoldable pub respond :
        Config → Bytes → Bytes → ℕ → Bytes → W → Result Error (Established × W × Bytes)
    respond cfg entropy random now stream w = do
      validate c cfg
      (m1, stream) ← read_frame stream
      a ← make_answer cfg m1 entropy random
      w ← write_frame write a.m2 w
      (m3, stream) ← read_frame stream
      (peer, th4) ← take_finish cfg a m3
      e ← new_session c a.keys.prk th4 peer role_responder none (some a.ephemeral) a.random now
      (text, stream) ← read_frame stream
      let (result, s, _) = decrypt c e.session text now a.random
      primer ← result
      refuse_if (not (length primer == 0)) malformed
      ok (record e { session = s }, w, stream)
