-- ===== src/E2ee/Crypto.antt =====
-- The libraries that internal/e2ee calls (crypto/*, golang.org/x/crypto), as a record of functions
-- over byte strings, and what their documentation promises of them. The source of randomness is
-- the list of the bytes that it will yield.
pub mod Toy
use cmd_chat.Prelude.{
  length, take, nat_eq, bytes_eq, Bytes, ℕ, ◌+◌, ◌-◌, ◌*◌, ◌/◌, ◌≤◌, ◌≡◌, ap, Bool, true, Option,
  some,
}

pub record Crypto : Type 0 where
  -- X25519: a fresh private key and what is left of the randomness; the public key's bytes; whether
  -- `NewPublicKey` takes a byte string; the shared secret, refused for a low-order point.
  pub generate : Bytes → Option (Bytes × Bytes)
  pub public_key : Bytes → Bytes
  pub is_public_key : Bytes → Bool
  pub ecdh : Bytes → Bytes → Option Bytes
  -- HKDF-SHA-256 of secret, salt and info, read to a length; its two halves; HMAC of key and data.
  pub hkdf : Bytes → Bytes → Bytes → ℕ → Option Bytes
  pub hkdf_extract : Bytes → Bytes → Bytes
  pub hkdf_expand : Bytes → Bytes → ℕ → Option Bytes
  pub hmac : Bytes → Bytes → Bytes
  pub sha256 : Bytes → Bytes
  -- ChaCha20-Poly1305 under key and nonce, with the associated data last.
  pub seal : Bytes → Bytes → Bytes → Bytes → Bytes
  pub unseal : Bytes → Bytes → Bytes → Bytes → Option Bytes
  -- `ed25519.Verify` of key, message and signature; base32 without padding.
  pub verify : Bytes → Bytes → Bytes → Bool
  pub base32 : Bytes → Bytes
  -- ML-KEM-768: whether an encapsulation key is well-formed; the secret and the ciphertext made for
  -- it with given randomness; the public key of a decapsulation key, and the secret it recovers.
  pub is_encapsulation_key : Bytes → Bool
  pub encapsulate : Bytes → Bytes → Bytes × Bytes
  pub encapsulation_key : Bytes → Bytes
  pub decapsulate : Bytes → Bytes → Option Bytes

pub record CryptoLaws (c : Crypto) : Type 0 where
  pub ecdh_comm : (a b : Bytes) → c.ecdh a (c.public_key b) ≡ c.ecdh b (c.public_key a)
  pub public_key-accepted : (k : Bytes) → c.is_public_key (c.public_key k) ≡ true
  pub length-public_key : (k : Bytes) → length (c.public_key k) ≡ 32
  pub length-hkdf :
      (secret salt info : Bytes) (n : ℕ) {out : Bytes}
      → c.hkdf secret salt info n ≡ some out
      → length out ≡ n
  pub hkdf-total :
      (secret salt info : Bytes) (n : ℕ)
      → n ≤ 255 * 32
      → (out : Bytes) × (c.hkdf secret salt info n ≡ some out)
  pub length-seal : (k n p ad : Bytes) → length (c.seal k n p ad) ≡ length p + 16
  pub unseal-seal : (k n p ad : Bytes) → c.unseal k n (c.seal k n p ad) ad ≡ some p
  pub length-hmac : (key text : Bytes) → length (c.hmac key text) ≡ 32
  pub length-sha256 : (text : Bytes) → length (c.sha256 text) ≡ 32
  pub length-base32 : (b : Bytes) → length (c.base32 b) ≡ (8 * length b + 4) / 5

-- HKDF-Expand and ML-KEM-768.
pub record KemLaws (c : Crypto) : Type 0 where
  pub hkdf_expand-total :
      (prk info : Bytes) (n : ℕ)
      → n ≤ 255 * 32
      → (out : Bytes) × (c.hkdf_expand prk info n ≡ some out) × (length out ≡ n)
  pub encapsulation_key-accepted :
      (d : Bytes) → c.is_encapsulation_key (c.encapsulation_key d) ≡ true
  pub length-encapsulation_key : (d : Bytes) → length (c.encapsulation_key d) ≡ 1184
  pub length-ciphertext : (k entropy : Bytes) → length (c.encapsulate k entropy).1 ≡ 1088
  pub decapsulate-encapsulate :
      (d entropy : Bytes)
      → c.decapsulate d (c.encapsulate (c.encapsulation_key d) entropy).1
        ≡ some (c.encapsulate (c.encapsulation_key d) entropy).0
