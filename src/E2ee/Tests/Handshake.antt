-- ===== src/E2ee/Tests/Handshake.antt =====
-- The handshake at concrete inputs: a guest and a host of the stand-in libraries.
use cmd_chat.Prelude.{
  length, replicate, ◌>>=◌, Result, nat_eq, bytes_eq, Bytes, codes, put_u16, put_u32, u16_of,
  u32_of, ok, err, ℕ, ◌≡◌, refl, inl, true, some, [], ◌∷◌, ◌++◌, arith,
}
use cmd_chat.E2ee.Ratchet.Skipped.{find, forget, remember}
use cmd_chat.E2ee.Header.{encode, decode_header}
use cmd_chat.E2ee.Padding.{pad, unpad}
use cmd_chat.Prelude.Map.{lookup}
use cmd_chat.E2ee.Ratchet.{
  skip_loop, new_ratchet_initiator, new_ratchet_responder, dh_root, kdf_root_key, next,
  message_keys, receive, turn, step, step_receive, step_send, skip_to, receive_here, is_new_chain,
}
use cmd_chat.E2ee.Session.{
  encrypt, decrypt, aead_key, additional_data, parse_record, settle, open_record, adopt,
}
use cmd_chat.E2ee.Wire.{
  Error, append_u32, read_frame, read_full, write_frame, take_bytes, read_u8, read_u16, read_u32,
  read_lp, done, append_u16, length_prefix,
}
use cmd_chat.E2ee.Wire.Frames.{buffer_write}
use cmd_chat.E2ee.Crypto.Toy.{crypto, laws, sign, length-sign, verify-sign}
use cmd_chat.E2ee.Identity.{
  blocked, derive_id, usable_identity_key, small_order_keys, decode_hex, hex_digit,
}
use cmd_chat.E2ee.Auth.{
  versions_of, Credentials, Config, seal_auth, open_auth, context, validate, credentials_valid,
  encode_auth_payload, check_plaintext, decode_auth_payload, check_payload,
}
use cmd_chat.E2ee.Auth.Proof.{Honest, Welcomes, open_auth-seal_auth}
use cmd_chat.E2ee.Handshake.Schedule.{
  Established, role_initiator, role_responder, hash_transcript, derive_handshake_keys, expand_key,
  hybrid_secret, new_session, start_ratchet,
}
use cmd_chat.E2ee.Handshake.Versions.{
  select_version, contains_version, append_versions, read_versions,
}
use cmd_chat.E2ee.Handshake.Binding.{ResponderProven, InitiatorProven}
use cmd_chat.E2ee.Handshake.Sessions.{initiate_sound, respond_sound}
use cmd_chat.E2ee.Handshake.{
  Offer, Answered, make_offer, make_answer, initiate, respond, Hello, parse_m1, take_answer,
  parse_m2, check_chosen, initiator_secret, parse_m3, choose, take_finish, read_answer,
}

-- Credentials that the stand-in accepts.
unfoldable pub someone : ℕ → Credentials
unfolding crypto derive_id
someone n = record {
  id = derive_id crypto (replicate 32 n);
  public_key = replicate 32 n;
  sign = some (sign (replicate 32 n));
  nickname = codes "someone";
}

unfoldable pub config_of : ℕ → Config
config_of n = record {
  credentials = someone n;
  channel_binding = 1 ∷ 2 ∷ [];
  trust = some (λ id key. true);
  expect_peer_id = [];
  versions = [];
}

unfoldable pub frame_of : Bytes → Bytes
unfolding append_u32
frame_of b = append_u32 [] (length b) ++ b

-- The messages of a run between two people.
guest_offer : Result Error Offer
unfolding make_offer config_of
guest_offer = make_offer crypto (config_of 9) (some (5 ∷ [])) (replicate 40 7)

host_answer : Result Error Answered
unfolding guest_offer
host_answer = do o ← guest_offer; make_answer crypto (config_of 12) o.m1 (3 ∷ []) (replicate 40 8)

-- What the guest has got to read, and what it writes.
abbrev to_guest : Result Error Bytes
to_guest = do a ← host_answer; ok (frame_of a.m2)

abbrev guest_run : Bytes → Result Error (Established × Bytes × Bytes)
guest_run stream =
    initiate crypto buffer_write (config_of 9) (some (5 ∷ [])) (replicate 40 7) 7 stream []

abbrev host_run : Bytes → Result Error (Established × Bytes × Bytes)
host_run stream = respond crypto buffer_write (config_of 12) (3 ∷ []) (replicate 40 8) 7 stream []

abbrev value {ℓ} : {A : Type ℓ} → Result Error A → A → A
value (ok a) d = a
value (err _) d = d

-- The bytes of a whole run.
guest_stream : Bytes
unfolding host_answer
guest_stream = value to_guest []

-- Both sides of a run, each reading what the other wrote.
sessions :
    (guest : Established) × (out rest : Bytes) × (guest_run guest_stream ≡ ok (guest, out, rest))
    × ((host : Established) × (out' rest' : Bytes) × (host_run out ≡ ok (host, out', rest')))
unfolding guest_stream initiate config_of someone crypto sign make_offer take_answer parse_m2
    check_chosen initiator_secret parse_m1 parse_m3 choose make_answer take_finish read_answer
    validate credentials_valid versions_of seal_auth encode_auth_payload open_auth check_plaintext
    decode_auth_payload check_payload context hash_transcript derive_handshake_keys expand_key
    hybrid_secret new_session start_ratchet contains_version select_version append_versions
    read_versions derive_id usable_identity_key blocked small_order_keys decode_hex hex_digit
    read_full read_frame write_frame take_bytes read_u8 read_u16 read_u32 read_lp done append_u16
    append_u32 length_prefix encrypt decrypt aead_key additional_data parse_record settle
    open_record adopt new_ratchet_initiator new_ratchet_responder dh_root kdf_root_key next
    message_keys receive turn step step_receive step_send skip_to receive_here is_new_chain pad
    unpad encode decode_header find forget remember respond lookup skip_loop put_u16 u16_of frame_of
    put_u32 u32_of
sessions = (_, _, _, refl, (_, _, _, refl))

abbrev guest_session : Established
guest_session = sessions.0

abbrev host_session : Established
host_session = sessions.4.0

initiate_sound_example :
    ResponderProven crypto buffer_write
      (config_of 9)
      (some (5 ∷ []))
      (replicate 40 7)
      guest_stream
      []
      guest_session.peer
    × (guest_session.peer.version ≡ 2)
    × (guest_session.role ≡ role_initiator)
initiate_sound_example =
    initiate_sound crypto buffer_write (config_of 9) (some (5 ∷ [])) (replicate 40 7) guest_stream 7
      [] sessions.3

respond_sound_example :
    InitiatorProven crypto buffer_write
      (config_of 12)
      (3 ∷ [])
      (replicate 40 8)
      sessions.1
      []
      host_session.peer
    × ((h : Hello) × (m1 s : Bytes) × (read_frame sessions.1 ≡ ok (m1, s))
        × (parse_m1 m1 ≡ ok h)
        × (select_version (versions_of (config_of 12)) h.offered ≡ some host_session.peer.version))
    × (host_session.role ≡ role_responder)
respond_sound_example =
    respond_sound crypto buffer_write (config_of 12) (3 ∷ []) (replicate 40 8) sessions.1 7 []
      sessions.4.3

honest : Honest crypto laws (someone 9)
unfolding someone usable_identity_key blocked small_order_keys
honest = record {
  sign = sign (replicate 32 9);
  signs = refl;
  verifies = verify-sign (replicate 32 9);
  signature_length = length-sign (replicate 32 9);
  key_length = refl;
  usable = refl;
  derived = refl;
  short_nickname = omega arith;
}

welcomes : Welcomes crypto laws (config_of 12) (someone 9)
unfolding config_of
welcomes = record { authorize = λ id key. true; trust = refl; trusted = refl; expected = inl refl }

open_auth-seal_auth_example :
    (box : Bytes) × (seal_auth crypto
        (config_of 9)
        (replicate 32 4)
        (replicate 32 5)
        (1 ∷ [])
        (codes "s")
        (codes "c")
      ≡ ok box)
    × (open_auth crypto
          (config_of 12)
          box
          (replicate 32 4)
          (replicate 32 5)
          (1 ∷ [])
          (codes "s")
          (codes "c")
        ≡ ok (record {
          id = (config_of 9).credentials.id;
          public_key = (config_of 9).credentials.public_key;
          nickname = (config_of 9).credentials.nickname;
          version = 0;
        }))
unfolding config_of
open_auth-seal_auth_example =
    open_auth-seal_auth crypto laws (config_of 9) (config_of 12) (replicate 32 4) (replicate 32 5)
      (1 ∷ []) (codes "s") (codes "c") honest welcomes refl
