-- ===== src/E2ee/Crypto/Toy.antt =====
-- A stand-in for the libraries that keeps their promises, for examples.
use cmd_chat.Prelude.{
  ◌==◌, if◌then◌else◌, length, take, drop, replicate, length-append, take-append, drop-append,
  length-replicate, bytes_beq, bytes_beq_iff, nat_eq, bytes_eq, Bytes, ℕ, ◌+◌, ◌-◌, ◌*◌, ◌/◌, ◌%◌,
  ◌≡◌, refl, ap, true, Option, none, some, [], ◌∷◌, ◌++◌, arith,
}
use cmd_chat.E2ee.Crypto.{Crypto, CryptoLaws, KemLaws}

first : Bytes → ℕ
first [] = 0
first (b ∷ r) = b

total : Bytes → ℕ
total [] = 0
total (b ∷ r) = b + 3 * total r

abbrev pub stretch : ℕ → ℕ → Bytes
stretch n b = replicate n (b % 256)

public_key : Bytes → Bytes
unfolding first
public_key k = first k % 256 ∷ replicate 31 0

ecdh : Bytes → Bytes → Option Bytes
unfolding first
ecdh k p = some (stretch 32 (first k % 256 + first p + 1))

generate : Bytes → Option (Bytes × Bytes)
generate [] = none
generate (b ∷ r) = some (b ∷ [], r)

hkdf : Bytes → Bytes → Bytes → ℕ → Option Bytes
unfolding total
hkdf secret salt info n = some (stretch n (total secret + 5 * total salt + 7 * total info))

seal : Bytes → Bytes → Bytes → Bytes → Bytes
seal k n p ad = p ++ replicate 16 (total k + total n + total ad)

unseal : Bytes → Bytes → Bytes → Bytes → Option Bytes
unseal k n ct ad =
    let p = take (length ct - 16) ct in
    if bytes_beq (drop (length ct - 16) ct) (replicate 16 (total k + total n + total ad))
    then some p
    else none

-- A signature of a message for a public key.
unfoldable pub sign : Bytes → Bytes → Bytes
unfolding total
sign key message = stretch 64 (total key + total message)

pub length-sign : (key message : Bytes) → length (sign key message) ≡ 64
unfolding sign
length-sign key message = refl

unfoldable pub crypto : Crypto
unfolding public_key ecdh generate hkdf seal unseal total first sign
crypto = record {
  generate = generate;
  public_key = public_key;
  is_public_key = λ p. length p == 32;
  ecdh = ecdh;
  hkdf = hkdf;
  hkdf_extract = λ salt ikm. stretch 32 (total salt + 3 * total ikm);
  hkdf_expand = λ prk info n. some (stretch n (total prk + 5 * total info));
  hmac = λ key text. stretch 32 (7 * total key + total text);
  sha256 = λ text. stretch 32 (total text);
  seal = seal;
  unseal = unseal;
  verify = λ key message signature. bytes_beq signature (sign key message);
  base32 = λ b. stretch ((8 * length b + 4) / 5) (total b);
  is_encapsulation_key = λ k. length k == 1184;
  encapsulate = λ k r. (stretch 32 (first k + first r), stretch 1088 (first r));
  encapsulation_key = λ d. stretch 1184 (total d);
  decapsulate = λ d ct. some (stretch 32 (total d + first ct));
}

unseal-seal : (k n p ad : Bytes) → unseal k n (seal k n p ad) ad ≡ some p
unfolding unseal seal
unseal-seal k n p ad =
    let tag : Bytes = replicate 16 (total k + total n + total ad) in
    let e : length (p ++ tag) - 16 ≡ length p = omega (arith, length-append p tag) in
    rw (e, take-append (length p) p tag refl, drop-append (length p) p tag refl)
      (rw ((bytes_beq_iff tag tag).1 refl) refl)

hkdf-length :
    (secret salt info : Bytes) (n : ℕ) {out : Bytes}
    → hkdf secret salt info n ≡ some out
    → length out ≡ n
unfolding hkdf
hkdf-length secret salt info n h =
    let k = (total secret + 5 * total salt + 7 * total info) % 256 in
    ground (arith, length-replicate {A = ℕ} n k)

length_seal : (p : Bytes) (t : ℕ) → length (p ++ replicate 16 t) ≡ length p + 16
length_seal p t = length-append p (replicate 16 t)

pub laws : CryptoLaws crypto
unfolding crypto
laws = record {
  ecdh_comm = λ a b. ap (λ (t : ℕ). some (stretch 32 t)) (omega arith);
  public_key-accepted = λ k. refl;
  length-public_key = λ k. refl;
  length-hkdf = hkdf-length;
  hkdf-total = λ secret salt info n h. (_, refl);
  length-seal = λ k n p ad. length_seal p _;
  unseal-seal = unseal-seal;
  length-hmac = λ key text. refl;
  length-sha256 = λ text. refl;
  length-base32 = λ b. length-replicate {A = ℕ} ((8 * length b + 4) / 5) _;
}

pub verify-sign : (key message : Bytes) → crypto.verify key message (sign key message) ≡ true
unfolding crypto
verify-sign key message = (bytes_beq_iff (sign key message) (sign key message)).1 refl

pub kem_laws : KemLaws crypto
unfolding crypto first
kem_laws = record {
  hkdf_expand-total = λ prk info n h. (_, refl, length-replicate {A = ℕ} n _);
  encapsulation_key-accepted = λ d. refl;
  length-encapsulation_key = λ d. refl;
  length-ciphertext = λ k entropy. refl;
  decapsulate-encapsulate = λ d entropy. ap (λ (t : ℕ). some (replicate 32 t)) (omega arith);
}
