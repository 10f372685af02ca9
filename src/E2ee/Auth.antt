-- ===== src/E2ee/Auth.antt =====
-- The authenticated payloads of the handshake: authPayload, sealAuth and openAuth of
-- internal/e2ee/handshake.go, with the labels of labels.go and the contexts of primitives.go.
pub mod Payload
pub mod Proof
use cmd_chat.Prelude.{
  ltb, ◌==◌, if◌then◌else◌, is_some, length, take, replicate, ◌>>=◌, ◌>>◌, refuse_if, or_fail,
  Result, eq, bytes_beq, nat_eq, bytes_eq, Bytes, ok, err, ℕ, zero, ◌+◌, ◌-◌, ◌/◌, Bool, not, ◌&&◌,
  ◌||◌, Option, none, some, List, [], ◌∷◌, ◌++◌,
}
use cmd_chat.E2ee.Wire.{
  Error, reader, take_bytes, read_lp, done, length_prefix, authentication_failed, untrusted_key,
  local_fault, no_channel_binding, no_common_version,
}
use cmd_chat.E2ee.Crypto.{Crypto}
use cmd_chat.E2ee.Session.{aead_key}
use cmd_chat.E2ee.Identity.{public_key_size, derive_id, usable_identity_key}

abbrev pub signature_size : ℕ
signature_size = 64

abbrev pub max_nickname_bytes : ℕ
max_nickname_bytes = 256

abbrev pub max_id_bytes : ℕ
max_id_bytes = 64

-- `Sign` may be nil.
pub record Credentials : Type 0 where
  pub id : Bytes
  pub public_key : Bytes
  pub sign : Option (Bytes → Bytes)
  pub nickname : Bytes

-- `Trust` may be nil; otherwise it answers for an identity and its key. No expected peer, no
-- versions: the empty list.
pub record Config : Type 0 where
  pub credentials : Credentials
  pub channel_binding : Bytes
  pub trust : Option (Bytes → Bytes → Bool)
  pub expect_peer_id : Bytes
  pub versions : List ℕ

pub record PeerInfo : Type 0 where
  pub id : Bytes
  pub public_key : Bytes
  pub nickname : Bytes
  pub version : ℕ

pub record AuthPayload : Type 0 where
  pub identity_pub : Bytes
  pub id : Bytes
  pub signature : Bytes
  pub mac : Bytes
  pub nickname : Bytes

abbrev pub version_1 : ℕ
version_1 = 1

abbrev pub supported_versions : List ℕ
supported_versions = 2 ∷ []

-- `Config.versions`.
unfoldable pub versions_of : Config → List ℕ
versions_of cfg = if ltb 0 (length cfg.versions) then cfg.versions else supported_versions

module _ (c : Crypto) where
  -- `Credentials.valid`.
  unfoldable pub credentials_valid : Credentials → Result Error (Unit {0})
  credentials_valid k = do
    refuse_if (not (length k.public_key == public_key_size) || not (is_some k.sign)) local_fault
    refuse_if (not (usable_identity_key k.public_key)) local_fault
    refuse_if (not (bytes_beq k.id (derive_id c k.public_key))) local_fault
    ok tt

  -- `Config.validate`.
  unfoldable pub validate : Config → Result Error (Unit {0})
  validate cfg = do
    credentials_valid cfg.credentials
    refuse_if (length cfg.channel_binding == 0) no_channel_binding
    refuse_if (not (is_some cfg.trust)) local_fault
    refuse_if (length (versions_of cfg) == 0) no_common_version
    ok tt

unfoldable pub encode_auth_payload : AuthPayload → Bytes
encode_auth_payload p =
    length_prefix (length_prefix p.identity_pub p.id ++ (p.signature ++ p.mac)) p.nickname

-- A nil slice is an empty text.
abbrev pub text_of : Option Bytes → Bytes
text_of none = []
text_of (some b) = b

unfoldable pub decode_auth_payload : Bytes → Result Error AuthPayload
decode_auth_payload b =
    let (identity_pub, r1) = take_bytes (reader b) public_key_size in
    let (id, r2) = read_lp r1 in
    let (signature, r3) = take_bytes r2 signature_size in
    let (mac, r4) = take_bytes r3 32 in
    let (nickname, r5) = read_lp r4 in
    do
      done r5
      ok (record {
        identity_pub = text_of identity_pub;
        id = text_of id;
        signature = text_of signature;
        mac = text_of mac;
        nickname = text_of nickname;
      })

-- `context`.
unfoldable pub context : Bytes → Bytes → Bytes → Bytes → Bytes
context label transcript identity_pub id =
    length_prefix (label ++ ((0 ∷ []) ++ (transcript ++ identity_pub))) id

abbrev pub zero_nonce : Bytes
zero_nonce = replicate 12 0

module _ (c : Crypto) where
  unfoldable pub seal_auth : Config → Bytes → Bytes → Bytes → Bytes → Bytes → Result Error Bytes
  seal_auth cfg key mac_key transcript sig_label mac_label = do
    let k = cfg.credentials
    sign ← or_fail k.sign local_fault
    let payload : AuthPayload = record {
      identity_pub = k.public_key;
      id = k.id;
      signature = sign (context sig_label transcript k.public_key k.id);
      mac = c.hmac mac_key (context mac_label transcript k.public_key k.id);
      nickname = k.nickname;
    }
    refuse_if (not (length payload.signature == signature_size)) local_fault
    key ← aead_key key
    ok (c.seal key zero_nonce (encode_auth_payload payload) transcript)

  -- The checks on a payload once it is decrypted, in the source's order.
  unfoldable pub check_payload :
      Config → AuthPayload → Bytes → Bytes → Bytes → Bytes → Result Error PeerInfo
  check_payload cfg p mac_key transcript sig_label mac_label = do
    refuse_if
        (length p.id == 0
          || ltb max_id_bytes (length p.id)
          || ltb max_nickname_bytes (length p.nickname))
        authentication_failed
    refuse_if (not (usable_identity_key p.identity_pub)) authentication_failed
    refuse_if (not (bytes_beq (derive_id c p.identity_pub) p.id)) authentication_failed
    refuse_if
        (not
          (c.verify p.identity_pub (context sig_label transcript p.identity_pub p.id) p.signature))
        authentication_failed
    refuse_if
        (not (bytes_beq (c.hmac mac_key (context mac_label transcript p.identity_pub p.id)) p.mac))
        authentication_failed
    refuse_if (not (length cfg.expect_peer_id == 0) && not (bytes_beq cfg.expect_peer_id p.id))
        authentication_failed
    authorize ← or_fail cfg.trust local_fault
    refuse_if (not (authorize p.id p.identity_pub)) untrusted_key
    ok (record { id = p.id; public_key = p.identity_pub; nickname = p.nickname; version = 0 })

  -- What follows the decryption.
  unfoldable pub check_plaintext :
      Config → Bytes → Bytes → Bytes → Bytes → Bytes → Result Error PeerInfo
  check_plaintext cfg plaintext mac_key transcript sig_label mac_label =
      elim (decode_auth_payload plaintext) [
        | err _ ↦ err authentication_failed
        | ok payload ↦ check_payload cfg payload mac_key transcript sig_label mac_label
      ]

  unfoldable pub open_auth :
      Config → Bytes → Bytes → Bytes → Bytes → Bytes → Bytes → Result Error PeerInfo
  open_auth cfg ciphertext key mac_key transcript sig_label mac_label = do
    key ← aead_key key
    plaintext ← or_fail (c.unseal key zero_nonce ciphertext transcript) authentication_failed
    check_plaintext cfg plaintext mac_key transcript sig_label mac_label
