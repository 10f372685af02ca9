-- ===== src/Identity.antt =====
-- The identity of the local user and its file: internal/identity/identity.go and
-- internal/identity/store.go. The libraries, the environment and the operating system are a record;
-- an unusable configuration directory is `has_path` being false. wipe is left out.
pub mod Sealing
pub mod Keeping
mod Tests
use cmd_chat.Prelude.{
  ltb, ◌==◌, if◌then◌else◌, length, take, drop, ◌>>=◌, ◌>>◌, refuse_if, or_fail, Result, eq,
  bytes_beq, nat_eq, bytes_eq, Bytes, codes, ok, err, ℕ, suc, ◌+◌, ◌-◌, ◌/◌, ap, Bool, true, false,
  not, ◌&&◌, ◌||◌, Option, none, some, [], ◌++◌,
}
use cmd_chat.E2ee.Crypto.{Crypto}
use cmd_chat.E2ee.Identity.{derive_id}

-- Keys as Go has them: the private key is the seed and then the public key.
pub record Identity : Type 0 where
  pub private_key : Bytes
  pub public_key : Bytes
  pub id : Bytes

pub data Error : Type 0 where
  inconsistent no_path missing unreadable not_json : Error
  bad_public_key bad_private_key bad_sealed bad_salt bad_seed : Error
  passphrase_unset truncated wrong_passphrase dpapi_failed unsupported : Error
  cannot_read_back no_randomness write_failed library_fault : Error
  -- ed25519.NewKeyFromSeed panics for a seed of another size than 32.
  panicked : Error
  -- What LoadOrCreate makes of an error of Load.
  could_not_open : Error → Error

-- `storedIdentity`; a missing field is empty.
pub record Stored : Type 0 where
  pub version : ℕ
  pub id : Bytes
  pub public_key : Bytes
  pub protection : Bytes
  pub private_key : Bytes
  pub sealed : Bytes
  pub salt : Bytes

abbrev pub protection_none : Bytes
protection_none = codes "none"

abbrev pub protection_dpapi : Bytes
protection_dpapi = codes "dpapi"

abbrev pub protection_passphrase : Bytes
protection_passphrase = codes "passphrase"

abbrev pub store_version : ℕ
store_version = 2

abbrev pub salt_len : ℕ
salt_len = 32

abbrev pub nonce_size_x : ℕ
nonce_size_x = 24

abbrev pub seal_label : Bytes
seal_label = codes "cmd-chat identity v2"

-- The passphrase of the environment, trimmed; scrypt of it and a salt; XChaCha20-Poly1305 of key,
-- nonce, text and associated data; DPAPI; whether a write of the file succeeds; the private key of a
-- seed; and `ed25519.GenerateKey`, with what is left of the randomness.
pub record Machine : Type 0 where
  pub has_path : Bool
  pub passphrase : Bytes
  pub scrypt : Bytes → Bytes → Option Bytes
  pub seal_x : Bytes → Bytes → Bytes → Bytes → Bytes
  pub open_x : Bytes → Bytes → Bytes → Bytes → Option Bytes
  pub base64 : Bytes → Bytes
  pub base64_decode : Bytes → Option Bytes
  pub marshal : Stored → Bytes
  pub unmarshal : Bytes → Option Stored
  pub dpapi_available : Bool
  pub dpapi_protect : Bytes → Option Bytes
  pub dpapi_unprotect : Bytes → Option Bytes
  pub can_write : Bool
  pub new_key_from_seed : Bytes → Bytes
  pub generate_key : Bytes → Option (Bytes × Bytes)

-- The identity file.
pub data File : Type 0 where
  absent locked : File
  holding : (content : Bytes) → File

unfoldable pub valid : Crypto → Identity → Bool
valid c i =
    length i.private_key == 64
    && length i.public_key == 32
    && bytes_beq (drop 32 i.private_key) i.public_key
    && bytes_beq i.id (derive_id c i.public_key)

-- `PrivateKey.Seed()`
abbrev pub seed_of : Identity → Bytes
seed_of i = take 32 i.private_key

-- `errors.Is(err, os.ErrNotExist)`
unfoldable pub is_missing : Error → Bool
is_missing missing = true
is_missing _ = false

module _ (c : Crypto) (m : Machine) where
  unfoldable pub preferred_protection : Bytes
  preferred_protection =
      if not (length m.passphrase == 0)
      then protection_passphrase
      else if m.dpapi_available
      then protection_dpapi
      else protection_none

  unfoldable pub derive_passphrase_key : Bytes → Result Error Bytes
  derive_passphrase_key salt = do
    refuse_if (length m.passphrase == 0) passphrase_unset
    or_fail (m.scrypt m.passphrase salt) library_fault

  unfoldable pub seal_passphrase : Bytes → Bytes → Result Error (Bytes × Bytes)
  seal_passphrase seed random = do
    refuse_if (ltb (length random) salt_len) no_randomness
    let salt = take salt_len random
    let random = drop salt_len random
    key ← derive_passphrase_key salt
    refuse_if (ltb (length random) nonce_size_x) no_randomness
    let nonce = take nonce_size_x random
    ok (nonce ++ m.seal_x key nonce seed seal_label, salt)

  unfoldable pub open_passphrase : Bytes → Bytes → Result Error Bytes
  open_passphrase sealed salt = do
    key ← derive_passphrase_key salt
    refuse_if (ltb (length sealed) nonce_size_x) truncated
    or_fail (m.open_x key (take nonce_size_x sealed) (drop nonce_size_x sealed) seal_label)
        wrong_passphrase

  -- The part of a stored identity that the protection does not change.
  unfoldable pub stored_under : Bytes → Identity → Stored
  stored_under protection i = record {
    version = store_version;
    id = i.id;
    public_key = m.base64 i.public_key;
    protection = protection;
    private_key = [];
    sealed = [];
    salt = [];
  }

  unfoldable pub in_the_clear : Identity → Stored
  in_the_clear i = record (stored_under protection_none i) { private_key = m.base64 i.private_key }

  -- What `Save` is about to write.
  unfoldable pub protected : Identity → Bytes → Result Error Stored
  protected i random =
      if bytes_beq preferred_protection protection_passphrase
      then (do
        (sealed, salt) ← seal_passphrase (seed_of i) random
        ok (record (stored_under protection_passphrase i) {
          sealed = m.base64 sealed;
          salt = m.base64 salt;
        }))
      else if bytes_beq preferred_protection protection_dpapi
      then elim (m.dpapi_protect (seed_of i)) [
        | none ↦ ok (in_the_clear i)
        | some sealed ↦ ok (record (stored_under protection_dpapi i) { sealed = m.base64 sealed })
      ]
      else ok (in_the_clear i)

  -- `verifySeal`
  unfoldable pub verify_seal : Stored → Identity → Result Error (Unit {0})
  verify_seal s want =
      if length s.protection == 0 || bytes_beq s.protection protection_none
      then (do
        raw ← or_fail (m.base64_decode s.private_key) cannot_read_back
        refuse_if (not (bytes_beq raw want.private_key)) cannot_read_back)
      else if bytes_beq s.protection protection_passphrase
      then (do
        sealed ← or_fail (m.base64_decode s.sealed) cannot_read_back
        salt ← or_fail (m.base64_decode s.salt) cannot_read_back
        seed ← open_passphrase sealed salt
        refuse_if (not (bytes_beq seed (seed_of want))) cannot_read_back)
      else if bytes_beq s.protection protection_dpapi
      then (do
        sealed ← or_fail (m.base64_decode s.sealed) cannot_read_back
        seed ← or_fail (m.dpapi_unprotect sealed) dpapi_failed
        refuse_if (not (bytes_beq seed (seed_of want))) cannot_read_back)
      else err unsupported

  -- `Save` up to the rename.
  unfoldable pub to_write : Identity → Bytes → Result Error Bytes
  to_write i random = do
    refuse_if (not (valid c i)) inconsistent
    refuse_if (not m.has_path) no_path
    s ← protected i random
    verify_seal s i
    refuse_if (not m.can_write) write_failed
    ok (m.marshal s)

  -- `Save`: the file is replaced as a whole or not at all.
  unfoldable pub save : Identity → Bytes → File → Result Error (Unit {0}) × File
  save i random file = elim (to_write i random) [
    | err e ↦ (err e, file)
    | ok content ↦ (ok tt, holding content)
  ]

  unfoldable pub new_key : Bytes → Result Error Bytes
  new_key seed = do refuse_if (not (length seed == 32)) panicked; ok (m.new_key_from_seed seed)

  -- The switch of `Load`.
  unfoldable pub unsealed : Stored → Result Error Bytes
  unsealed s =
      if length s.protection == 0 || bytes_beq s.protection protection_none
      then (do
        raw ← or_fail (m.base64_decode s.private_key) bad_private_key
        refuse_if (not (length raw == 64)) bad_private_key
        ok raw)
      else if bytes_beq s.protection protection_passphrase
      then (do
        sealed ← or_fail (m.base64_decode s.sealed) bad_sealed
        salt ← or_fail (m.base64_decode s.salt) bad_salt
        refuse_if (not (length salt == salt_len)) bad_salt
        seed ← open_passphrase sealed salt
        new_key seed)
      else if bytes_beq s.protection protection_dpapi
      then (do
        sealed ← or_fail (m.base64_decode s.sealed) bad_sealed
        seed ← or_fail (m.dpapi_unprotect sealed) dpapi_failed
        refuse_if (not (length seed == 32)) bad_seed
        new_key seed)
      else err unsupported

  unfoldable pub read_file : File → Result Error Bytes
  read_file absent = err missing
  read_file locked = err unreadable
  read_file (holding content) = ok content

  unfoldable pub read_stored : File → Result Error Stored
  read_stored file = do
    refuse_if (not m.has_path) no_path
    content ← read_file file
    or_fail (m.unmarshal content) not_json

  unfoldable pub identity_of : Stored → Result Error Identity
  identity_of s = do
    public ← or_fail (m.base64_decode s.public_key) bad_public_key
    refuse_if (not (length public == 32)) bad_public_key
    private ← unsealed s
    let i : Identity = record {
      private_key = private;
      public_key = public;
      id = if length s.id == 0 then derive_id c public else s.id;
    }
    refuse_if (not (valid c i)) inconsistent
    ok i

  -- The file of an older version or under another protection is written again, if that works.
  unfoldable pub upgraded : Stored → Identity → Bytes → File → File
  upgraded s i random file =
      if ltb s.version store_version || not (bytes_beq s.protection preferred_protection)
      then (save i random file).1
      else file

  unfoldable pub load : Bytes → File → Result Error Identity × File
  load random file = elim (read_stored file) [
    | err e ↦ (err e, file)
    | ok s ↦ elim (identity_of s) [
      | err e ↦ (err e, file)
      | ok i ↦ (ok i, upgraded s i random file)
    ]
  ]

  unfoldable pub stored_protection : File → Result Error Bytes
  stored_protection file = do
    s ← read_stored file
    ok (if length s.protection == 0 then protection_none else s.protection)

  unfoldable pub generate : Bytes → Result Error (Identity × Bytes)
  generate random = do
    (private, rest) ← or_fail (m.generate_key random) library_fault
    let public = drop 32 private
    ok (record { private_key = private; public_key = public; id = derive_id c public }, rest)

  unfoldable pub created : Bytes → File → Result Error Identity × File
  created random file = elim (generate random) [
    | err e ↦ (err e, file)
    | ok (fresh, rest) ↦ let (result, file') = save fresh rest file in (result >> ok fresh, file')
  ]

  -- A new identity is made only when there is no file.
  unfoldable pub load_or_create : Bytes → File → Result Error Identity × File
  load_or_create random file =
      let (result, file') = load random file in
      elim result [
        | ok i ↦ (if valid c i then ok i else err inconsistent, file')
        | err e ↦ if is_missing e then created random file' else (err (could_not_open e), file')
      ]
