-- ===== src/E2ee/Auth/Payload.antt =====
-- The payload on the wire: authPayload.encode and decodeAuthPayload of internal/e2ee/handshake.go.
use cmd_chat.Prelude.{
  length, length-append, nat_eq, bytes_eq, Bytes, put_u32, ok, ◌+◌, ◌%◌, ◌^◌, ◌<◌, ◌≡◌, refl, [],
  ◌++◌, arith,
}
use mathlib.Core.List.{append_assoc, append-nil}
use cmd_chat.E2ee.Wire.{done, length_prefix}
use cmd_chat.E2ee.Wire.Cursor.{take_bytes-append, read_lp-append}
use cmd_chat.E2ee.Auth.{AuthPayload, encode_auth_payload, decode_auth_payload}

-- A payload whose fields have their places' sizes.
pub record Fits (p : AuthPayload) : Type 0 where
  pub key_length : length p.identity_pub ≡ 32
  pub signature_length : length p.signature ≡ 64
  pub mac_length : length p.mac ≡ 32
  pub id_word : length p.id < 2 ^ 32
  pub nickname_word : length p.nickname < 2 ^ 32

abbrev lp : Bytes → Bytes → Bytes
lp b rest = put_u32 (length b) ++ (b ++ rest)

encode_lem :
    (p : AuthPayload)
    → Fits p
    → encode_auth_payload p ≡ p.identity_pub ++ lp p.id (p.signature ++ (p.mac ++ lp p.nickname []))
unfolding encode_auth_payload length_prefix
encode_lem p f =
    let id_word : length p.id % 2 ^ 32 ≡ length p.id = omega (arith, f.id_word) in
    let nickname_word : length p.nickname % 2 ^ 32 ≡ length p.nickname =
      omega (arith, f.nickname_word) in
    rw (id_word, nickname_word) (simp (append_assoc, append-nil))

pub length-encode_auth_payload :
    (p : AuthPayload)
    → length (encode_auth_payload p)
      ≡ length p.identity_pub
        + length p.id
        + length p.signature
        + length p.mac
        + length p.nickname
        + 8
unfolding encode_auth_payload length_prefix put_u32
length-encode_auth_payload p = omega (
  arith,
  length-append
      ((p.identity_pub ++ (put_u32 (length p.id % 2 ^ 32) ++ p.id)) ++ (p.signature ++ p.mac))
      (put_u32 (length p.nickname % 2 ^ 32) ++ p.nickname),
  length-append (p.identity_pub ++ (put_u32 (length p.id % 2 ^ 32) ++ p.id)) (p.signature ++ p.mac),
  length-append p.identity_pub (put_u32 (length p.id % 2 ^ 32) ++ p.id),
  length-append p.signature p.mac,
)

-- A payload whose fields have the sizes of their places is decoded to itself.
pub decode_auth_payload-encode_auth_payload :
    (p : AuthPayload) → Fits p → decode_auth_payload (encode_auth_payload p) ≡ ok p
unfolding decode_auth_payload done
decode_auth_payload-encode_auth_payload p f = rw (encode_lem p f) (
    let e4 = lp p.nickname [] in
    let e3 = p.mac ++ e4 in
    let e2 = p.signature ++ e3 in
    let e1 = lp p.id e2 in
    rw
      (
        take_bytes-append 32 p.identity_pub e1 f.key_length,
        read_lp-append p.id e2 f.id_word,
        take_bytes-append 64 p.signature e3 f.signature_length,
        take_bytes-append 32 p.mac e4 f.mac_length,
        read_lp-append p.nickname [] f.nickname_word,
      )
      refl)
