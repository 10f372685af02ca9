-- ===== src/Phonebook/Handle.antt =====
-- internal/phonebook/handle.go: the blinded row key and the sealed entry of the directory. The
-- libraries are a record beside the one of internal/e2ee; wiping is left out.
pub mod Sealing
use cmd_chat.Prelude.{
  ltb, ◌==◌, if◌then◌else◌, length, take, drop, ◌>>=◌, ◌>>◌, refuse_if, or_fail, Result, eq,
  bytes_beq, nat_eq, bytes_eq, Bytes, codes, ok, err, ℕ, zero, ◌+◌, ◌-◌, ◌/◌, ap, not, Option, List,
  [], ◌∷◌, ◌++◌,
}
use cmd_chat.E2ee.Crypto.{Crypto}
use cmd_chat.Phonebook.{Candidate, valid_id}

pub data Error : Type 0 where
  invalid_id no_identity no_candidates sealed_too_large : Error
  -- What `open` refuses an entry for.
  not_base64 truncated oversized unopened not_a_record names_other : Error
  -- What the directory answers, and what `do` makes of it.
  not_found offline not_registered handle_claimed outdated mismatch : Error
  unreachable malformed_response : Error
  api_error : (status : ℕ) (code message : Bytes) → Error
  local_fault : Error

pub record Entry : Type 0 where
  pub id : Bytes
  pub fingerprint : Bytes
  pub protocol_version : ℕ
  pub client_version : Bytes
  pub candidates : List Candidate

-- XChaCha20-Poly1305 of key, nonce, text and associated data; base64; JSON at `entry`; the public
-- half of the key that a seed makes, and its signature; `strings.ToLower`.
pub record Libraries : Type 0 where
  pub seal_x : Bytes → Bytes → Bytes → Bytes → Bytes
  pub open_x : Bytes → Bytes → Bytes → Bytes → Option Bytes
  pub base64 : Bytes → Bytes
  pub base64_decode : Bytes → Option Bytes
  pub marshal_entry : Entry → Option Bytes
  pub unmarshal_entry : Bytes → Option Entry
  pub public_of : Bytes → Bytes
  pub sign : Bytes → Bytes → Bytes
  pub to_lower : Bytes → Bytes

abbrev pub label_handle : Bytes
label_handle = codes "cmd-chat phonebook v2 handle"

abbrev pub label_entry_key : Bytes
label_entry_key = codes "cmd-chat phonebook v2 entry key"

abbrev pub label_write_key : Bytes
label_write_key = codes "cmd-chat phonebook v2 write key"

abbrev pub label_sealed_ad : Bytes
label_sealed_ad = codes "cmd-chat phonebook v2 entry"

abbrev pub handle_bytes : ℕ
handle_bytes = 16

abbrev pub handle_length : ℕ
handle_length = 26

abbrev pub max_sealed_bytes : ℕ
max_sealed_bytes = 2048

abbrev pub nonce_size_x : ℕ
nonce_size_x = 24

unfoldable pub associated_data : Bytes → Bytes
associated_data handle = label_sealed_ad ++ (0 ∷ handle)

-- What a host publishes; a version of zero or below is 1.
pub record Announcement : Type 0 where
  pub fingerprint : Bytes
  pub candidates : List Candidate
  pub protocol_version : ℕ

unfoldable pub announced_version : ℕ → ℕ
announced_version v = if v == 0 then 1 else v

module _ (c : Crypto) (l : Libraries) where
  unfoldable pub derive : Bytes → Bytes → ℕ → Result Error Bytes
  derive ikm label out = or_fail (c.hkdf ikm [] label out) local_fault

  unfoldable pub handle_of : Bytes → Result Error Bytes
  handle_of id = do
    refuse_if (not (valid_id id)) invalid_id
    raw ← derive id label_handle handle_bytes
    ok (c.base32 raw)

  unfoldable pub entry_key : Bytes → Result Error Bytes
  entry_key id = derive id label_entry_key 32

  -- The seed of the write key, from the private key of the identity.
  unfoldable pub write_key : Bytes → Result Error Bytes
  write_key private_key = do
    refuse_if (not (length private_key == 64)) no_identity
    derive (take 32 private_key) label_write_key 32

  unfoldable pub seal : Bytes → Bytes → Entry → Bytes → Result Error Bytes
  seal id handle e random = do
    plaintext ← or_fail (l.marshal_entry e) local_fault
    key ← entry_key id
    refuse_if (ltb (length random) nonce_size_x) local_fault
    let nonce = take nonce_size_x random
    let sealed = nonce ++ l.seal_x key nonce plaintext (associated_data handle)
    refuse_if (ltb max_sealed_bytes (length sealed)) sealed_too_large
    ok (l.base64 sealed)

  unfoldable pub open_entry : Bytes → Bytes → Bytes → Result Error Entry
  open_entry id handle encoded = do
    raw ← or_fail (l.base64_decode encoded) not_base64
    refuse_if (ltb (length raw) (nonce_size_x + 16)) truncated
    refuse_if (ltb max_sealed_bytes (length raw)) oversized
    key ← entry_key id
    plaintext ←
        or_fail
          (l.open_x key (take nonce_size_x raw) (drop nonce_size_x raw) (associated_data handle))
          unopened
    e ← or_fail (l.unmarshal_entry plaintext) not_a_record
    refuse_if (not (bytes_beq e.id id)) names_other
    ok e

  unfoldable pub seal_announcement :
      Bytes → Announcement → Bytes → Bytes → Result Error (Bytes × Bytes)
  seal_announcement id a client_version random = do
    refuse_if (not (valid_id id)) invalid_id
    handle ← handle_of id
    sealed ←
        seal id handle
          (record {
            id = id;
            fingerprint = l.to_lower a.fingerprint;
            protocol_version = announced_version a.protocol_version;
            client_version = client_version;
            candidates = a.candidates;
          })
          random
    ok (handle, sealed)
