-- ===== src/E2ee/Handshake/Binding.antt =====
-- What a proof of identity in the handshake of internal/e2ee/handshake.go belongs to: the connection
-- with its channel binding, the flights that were sent and read on it, and the fresh keys.
use cmd_chat.Prelude.{
  length, take, Result, nat_eq, bytes_eq, Bytes, put_u32, ok, ℕ, ◌%◌, ◌^◌, ◌≡◌, Option, some, [],
  ◌∷◌, ◌++◌,
}
use cmd_chat.E2ee.Wire.{Error, append_u16, append_u32, read_full, write_frame, read_frame}
use cmd_chat.E2ee.Crypto.{Crypto}
use cmd_chat.E2ee.Auth.{Config, PeerInfo, versions_of}
use cmd_chat.E2ee.Auth.Proof.{Proven}
use cmd_chat.E2ee.Handshake.Schedule.{HandshakeKeys, label}
use cmd_chat.E2ee.Handshake.Versions.{append_versions, select_version, Offers}
use cmd_chat.E2ee.Handshake.{
  Offer, Answer, Answered, Hello, m2_header_len, parse_m1, parse_m2, parse_m3,
}

module _ (c : Crypto) where
  -- A transcript hash and the next part of the transcript, with its length before it.
  abbrev pub hashed : Bytes → Bytes → Bytes
  hashed prev part = c.sha256 (prev ++ (put_u32 (length part % 2 ^ 32) ++ part))

  -- The keys that a shared secret and a transcript hash give, each under a label of its own.
  pub record IsDerived (shared transcript : Bytes) (keys : HandshakeKeys) : Type 0 where
    pub extracted : keys.prk ≡ c.hkdf_extract transcript shared
    pub resp_key : c.hkdf_expand keys.prk (label "hs responder key") 32 ≡ some keys.resp_key
    pub init_key : c.hkdf_expand keys.prk (label "hs initiator key") 32 ≡ some keys.init_key
    pub resp_mac : c.hkdf_expand keys.prk (label "hs responder mac") 32 ≡ some keys.resp_mac
    pub init_mac : c.hkdf_expand keys.prk (label "hs initiator mac") 32 ≡ some keys.init_mac

  -- The transcript up to M1 starts with the channel binding.
  abbrev pub first_hash : Config → Bytes → Bytes
  first_hash cfg m1 = hashed (hashed (label "transcript") cfg.channel_binding) m1

  -- M1 has a fresh key, the encapsulation key and a fresh nonce.
  pub record Prepared (cfg : Config) (dk : Option Bytes) (random : Bytes) (o : Offer) : Type 0 where
    pub later : Bytes
    pub nonce : Bytes
    pub generated : c.generate random ≡ some (o.ephemeral, later)
    pub decapsulates : dk ≡ some o.decapsulation
    pub drawn : read_full 32 later ≡ ok (nonce, o.random)
    pub versions : o.offered ≡ versions_of cfg
    pub message :
        o.m1
        ≡ append_versions (1 ∷ length (versions_of cfg) % 256 ∷ []) (versions_of cfg)
          ++ (c.public_key o.ephemeral ++ (c.encapsulation_key o.decapsulation ++ nonce))
    pub hash : o.th1 ≡ first_hash cfg o.m1

  -- The header of M2, which is in the transcript.
  abbrev pub m2_header : ℕ → Bytes → Bytes → Bytes → Bytes
  m2_header chosen ephemeral kem_ciphertext nonce =
      append_u16 (2 ∷ []) chosen ++ (c.public_key ephemeral ++ (kem_ciphertext ++ nonce))

  -- M2 answers M1 with a fresh key, a ciphertext for M1's encapsulation key and a fresh nonce; the
  -- keys come from both shared secrets and the transcript up to M2's header.
  pub record Prompted (cfg : Config) (m1 entropy random : Bytes) (a : Answered) : Type 0 where
    pub hello : Hello
    pub parsed : parse_m1 m1 ≡ ok hello
    pub selected : select_version (versions_of cfg) hello.offered ≡ some a.chosen
    pub later : Bytes
    pub nonce : Bytes
    pub classical : Bytes
    pub c2 : Bytes
    pub generated : c.generate random ≡ some (a.ephemeral, later)
    pub drawn : read_full 32 later ≡ ok (nonce, a.random)
    pub agreed : c.ecdh a.ephemeral hello.peer_ephemeral ≡ some classical
    pub kem : Bytes × Bytes
    pub encapsulated : c.encapsulate hello.peer_encapsulation_key entropy ≡ kem
    pub keyed :
        IsDerived
          (kem.0 ++ classical)
          (hashed (first_hash cfg m1) (m2_header a.chosen a.ephemeral kem.1 nonce))
          a.keys
    pub message :
        a.m2 ≡ append_u32 (m2_header a.chosen a.ephemeral kem.1 nonce) (length c2 % 2 ^ 32) ++ c2
    pub hash :
        a.th3 ≡ hashed (hashed (first_hash cfg m1) (m2_header a.chosen a.ephemeral kem.1 nonce)) c2

  module _ {W : Type 0} (write : Bytes → W → Result Error W) where
    -- The responder's proof in the second flight of this connection: it is under the keys that both
    -- shared secrets and the transcript give, and it signs that transcript, which the channel binding,
    -- the M1 that was written and the header of the M2 that was read make up.
    pub record ResponderProven (cfg : Config) (dk : Option Bytes) (random stream : Bytes) (w : W)
        (peer : PeerInfo) : Type 0 where
      pub offer : Offer
      pub prepared : Prepared cfg dk random offer
      pub sent : (w' : W) × (write_frame write offer.m1 w ≡ ok w')
      pub m2 : Bytes
      pub unread : Bytes
      pub received : read_frame stream ≡ ok (m2, unread)
      pub answer : Answer
      pub parsed : parse_m2 m2 ≡ ok answer
      pub classical : Bytes
      pub quantum : Bytes
      pub agreed : c.ecdh offer.ephemeral answer.peer_ephemeral ≡ some classical
      pub decapsulated : c.decapsulate offer.decapsulation answer.kem_ciphertext ≡ some quantum
      pub keys : HandshakeKeys
      pub keyed :
          IsDerived
            (quantum ++ classical)
            (hashed (first_hash cfg offer.m1) (take m2_header_len m2))
            keys
      pub base : PeerInfo
      pub agrees : peer ≡ record base { version = answer.chosen }
      pub offered : Offers (versions_of cfg) answer.chosen
      pub proven :
          Proven c cfg answer.c2 keys.resp_key keys.resp_mac
            (hashed (first_hash cfg offer.m1) (take m2_header_len m2))
            (label "responder signature")
            (label "responder confirm")
            base

    -- The initiator's proof in the third flight of this connection: it is under the keys that both
    -- shared secrets and the transcript give, and it signs the transcript up to the responder's own
    -- proof.
    pub record InitiatorProven (cfg : Config) (entropy random stream : Bytes) (w : W)
        (peer : PeerInfo) : Type 0 where
      pub m1 : Bytes
      pub after_m1 : Bytes
      pub received : read_frame stream ≡ ok (m1, after_m1)
      pub answered : Answered
      pub prompted : Prompted cfg m1 entropy random answered
      pub sent : (w' : W) × (write_frame write answered.m2 w ≡ ok w')
      pub m3 : Bytes
      pub unread : Bytes
      pub finished : read_frame after_m1 ≡ ok (m3, unread)
      pub c3 : Bytes
      pub parsed : parse_m3 m3 ≡ ok c3
      pub base : PeerInfo
      pub agrees : peer ≡ record base { version = answered.chosen }
      pub offered : Offers (versions_of cfg) answered.chosen
      pub proven :
          Proven c cfg c3 answered.keys.init_key answered.keys.init_mac answered.th3
            (label "initiator signature")
            (label "initiator confirm")
            base
