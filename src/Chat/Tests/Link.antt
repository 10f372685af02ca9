-- ===== src/Chat/Tests/Link.antt =====
-- A guest and a host of the stand-in libraries, from the TLS handshake on.
use cmd_chat.Prelude.{
  leb, if◌then◌else◌, length, replicate, ◌>>=◌, Result, nat_eq, bytes_eq, Bytes, codes, put_u16,
  put_u32, u16_of, u32_of, encode_to_string, ok, err, ℕ, ◌-◌, ◌≡◌, refl, true, none, some, [], ◌∷◌,
  ◌++◌, map,
}
use cmd_chat.E2ee.Header.{encode}
use cmd_chat.E2ee.Padding.{pad}
use cmd_chat.E2ee.Ratchet.{
  new_ratchet_initiator, new_ratchet_responder, dh_root, kdf_root_key, next, message_keys,
}
use cmd_chat.E2ee.Session.{encrypt, aead_key, additional_data}
use cmd_chat.E2ee.Wire.{
  Error, append_u32, read_frame, read_full, write_frame, take_bytes, read_u8, read_u16, read_u32,
  read_lp, done, append_u16, length_prefix,
}
use cmd_chat.E2ee.Wire.Frames.{buffer_write}
use cmd_chat.E2ee.Crypto.Toy.{crypto, sign}
use cmd_chat.E2ee.Identity.{
  blocked, derive_id, usable_identity_key, small_order_keys, decode_hex, hex_digit,
}
use cmd_chat.E2ee.Auth.{
  versions_of, Config, seal_auth, open_auth, context, validate, credentials_valid,
  encode_auth_payload, check_plaintext, decode_auth_payload, check_payload,
}
use cmd_chat.E2ee.Handshake.Schedule.{
  hash_transcript, derive_handshake_keys, expand_key, hybrid_secret, new_session, start_ratchet,
}
use cmd_chat.E2ee.Handshake.Versions.{
  select_version, contains_version, append_versions, read_versions,
}
use cmd_chat.E2ee.Handshake.{
  Offer, Answered, make_offer, make_answer, initiate, parse_m1, take_answer, parse_m2, check_chosen,
  initiator_secret, choose, read_answer,
}
use cmd_chat.Profile.{clean_nickname, clean_runes, clean_rune}
use cmd_chat.Profile.Runes.{first_rune, rune_bytes, is_control, is_space}
use cmd_chat.Trust.{Store, Files}
use cmd_chat.Chat.Conn.{Conn, credentials, new_conn}
use cmd_chat.Chat.Link.{
  TlsState, tls_channel_binding, Policy, other, recorder_authorize, Identity, fingerprint_mismatch,
  trim_ascii, equal_fold, config_for, recorded, linked, check_certificate, or_explain, client_conn,
}
use cmd_chat.Chat.Link.Guest.{IsVerified, client_conn-IsVerified}
use cmd_chat.Chat.Tests.{libraries}

abbrev files : Files
files = record {
  base64 = λ b. 43 ∷ b;
  write_file = λ path peers. true;
  read_file = λ path. none;
  unmarshal = λ text. none;
  unmarshal_legacy = λ text. none;
}

abbrev nobody : Store
nobody = record { peers = []; path = [] }

-- Anyone is trusted here.
abbrev open_policy : Policy
open_policy = other (λ id key. true)

unfoldable person : ℕ → Identity
unfolding crypto derive_id
person n = record {
  id = derive_id crypto (replicate 32 n);
  public_key = replicate 32 n;
  sign = sign (replicate 32 n);
}

abbrev state : TlsState
state = record {
  handshake_complete = true;
  version = 0x0304;
  peer_certificates = (1 ∷ 2 ∷ []) ∷ [];
  export_keying_material = λ name size. some (replicate size 4);
}

abbrev config : ℕ → Bytes → Config
config n expect =
    config_for crypto libraries files buffer_write (person n) (codes "someone") (replicate 32 4)
      open_policy expect 7

abbrev host_id : Bytes
host_id = (person 12).id

-- What the host answers to the guest's first message.
guest_offer : Result Error Offer
guest_offer = make_offer crypto (config 9 host_id) (some (5 ∷ [])) (replicate 40 7)

host_answer : Result Error Answered
unfolding guest_offer
host_answer = do o ← guest_offer; make_answer crypto (config 12 []) o.m1 (3 ∷ []) (replicate 40 8)

abbrev framed : Result Error Answered → Bytes
framed (ok a) = append_u32 [] (length a.m2) ++ a.m2
framed (err e) = []

guest_stream : Bytes
unfolding host_answer
guest_stream = framed host_answer

-- The fingerprint in capitals, with a blank before it.
abbrev fingerprint : Bytes
fingerprint =
    32 ∷ map (λ b. if leb 97 b then b - 32 else b) (encode_to_string (crypto.sha256 (1 ∷ 2 ∷ [])))

connected :
    (k : Conn Bytes) × (p : Policy) × (client_conn crypto libraries files buffer_write
        (person 9)
        (codes "someone")
        fingerprint
        host_id
        open_policy
        (some state)
        (some (5 ∷ []))
        (replicate 40 7)
        []
        7
        guest_stream
        []
      ≡ ok (k, p))
unfolding guest_stream client_conn check_certificate trim_ascii equal_fold encode_to_string
    tls_channel_binding config_for recorder_authorize recorded linked or_explain credentials
    new_conn person clean_nickname clean_runes clean_rune first_rune rune_bytes is_control is_space
    initiate crypto sign make_offer take_answer parse_m2 make_answer choose parse_m1 check_chosen
    initiator_secret read_answer validate credentials_valid versions_of seal_auth
    encode_auth_payload open_auth check_plaintext decode_auth_payload check_payload context
    hash_transcript derive_handshake_keys expand_key hybrid_secret new_session start_ratchet
    contains_version select_version append_versions read_versions derive_id usable_identity_key
    blocked small_order_keys decode_hex hex_digit read_full read_frame write_frame take_bytes
    read_u8 read_u16 read_u32 read_lp done append_u16 append_u32 length_prefix encrypt aead_key
    additional_data new_ratchet_initiator new_ratchet_responder dh_root kdf_root_key next
    message_keys pad encode put_u16 u16_of put_u32 u32_of
connected = (_, _, refl)

client_conn-IsVerified_example :
    (s : TlsState) × (some state ≡ some s)
    × IsVerified crypto libraries files buffer_write
        (person 9)
        (codes "someone")
        fingerprint
        host_id
        open_policy
        7
        (some (5 ∷ []))
        (replicate 40 7)
        guest_stream
        []
        s
        connected.0
client_conn-IsVerified_example =
    client_conn-IsVerified crypto libraries files buffer_write (person 9) (codes "someone")
      fingerprint host_id open_policy connected.1 (some state) (some (5 ∷ [])) (replicate 40 7) [] 7
      guest_stream [] connected.0 connected.2

other_certificate :
    check_certificate crypto libraries files buffer_write (codes "ab") state
    ≡ err fingerprint_mismatch
unfolding check_certificate trim_ascii equal_fold encode_to_string crypto
other_certificate = refl
