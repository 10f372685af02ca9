-- ===== src/E2ee/Handshake/Schedule.antt =====
-- The key schedule of the handshake: hashTranscript of internal/e2ee/primitives.go,
-- deriveHandshakeKeys and hybridSecret of handshake.go, newSession of session.go, and labels.go.
use Prim.Native.String.{String}
use cmd_chat.Prelude.{
  length, ◌>>=◌, or_fail, Result, nat_eq, bytes_eq, Bytes, codes, put_u32, ok, ℕ, ◌%◌, ◌^◌, false,
  Option, ◌++◌,
}
use cmd_chat.E2ee.Wire.{Error, local_fault}
use cmd_chat.E2ee.Crypto.{Crypto}
use cmd_chat.E2ee.Session.{Session}
use cmd_chat.E2ee.Ratchet.{Ratchet, key_size, new_ratchet_initiator, new_ratchet_responder}
use cmd_chat.E2ee.Auth.{PeerInfo}

-- The labels share the protocol's name and version.
abbrev pub label : String → Bytes
label s = codes "CMD-CHAT-E2EE v2 " ++ codes s

unfoldable pub hash_transcript : Crypto → Bytes → Bytes → Bytes
hash_transcript c prev next = c.sha256 (prev ++ (put_u32 (length next % 2 ^ 32) ++ next))

unfoldable pub hybrid_secret : Bytes → Bytes → Bytes
hybrid_secret quantum classical = quantum ++ classical

pub record HandshakeKeys : Type 0 where
  pub prk : Bytes
  pub resp_key : Bytes
  pub init_key : Bytes
  pub resp_mac : Bytes
  pub init_mac : Bytes

-- `hkdfExpandLabel` to a key.
unfoldable pub expand_key : Crypto → Bytes → Bytes → Result Error Bytes
expand_key c prk info = or_fail (c.hkdf_expand prk info key_size) local_fault

unfoldable pub derive_handshake_keys : Crypto → Bytes → Bytes → Result Error HandshakeKeys
derive_handshake_keys c shared th2 = do
  let prk = c.hkdf_extract th2 shared
  resp_key ← expand_key c prk (label "hs responder key")
  init_key ← expand_key c prk (label "hs initiator key")
  resp_mac ← expand_key c prk (label "hs responder mac")
  init_mac ← expand_key c prk (label "hs initiator mac")
  ok (record {
    prk = prk;
    resp_key = resp_key;
    init_key = init_key;
    resp_mac = resp_mac;
    init_mac = init_mac;
  })

pub data Role : Type 0 where
  role_initiator role_responder : Role

-- A session with the peer and the role, which the records of Session leave out.
pub record Established : Type 0 where
  pub session : Session
  pub peer : PeerInfo
  pub role : Role

-- The ratchet that a role starts with; a missing key is an error.
unfoldable pub start_ratchet :
    Crypto → Bytes → Role → Option Bytes → Option Bytes → Bytes → Result Error Ratchet
start_ratchet c root role_initiator peer_ephemeral own_ephemeral random = do
  peer ← or_fail peer_ephemeral local_fault
  (new_ratchet_initiator c root peer random).0
start_ratchet c root role_responder peer_ephemeral own_ephemeral random = do
  own ← or_fail own_ephemeral local_fault
  ok (new_ratchet_responder root own)

unfoldable pub new_session :
    Crypto
    → Bytes
    → Bytes
    → PeerInfo
    → Role
    → Option Bytes
    → Option Bytes
    → Bytes
    → ℕ
    → Result Error Established
new_session c prk th4 peer role peer_ephemeral own_ephemeral random now = do
  root ← expand_key c prk (label "root key" ++ th4)
  associated ← expand_key c prk (label "associated data" ++ th4)
  ratchet ← start_ratchet c root role peer_ephemeral own_ephemeral random
  ok (record {
    session = record {
      ratchet = ratchet;
      closed = false;
      associated = associated;
      sent_since_step = 0;
      last_step = now;
      steps = 0;
    };
    peer = peer;
    role = role;
  })
