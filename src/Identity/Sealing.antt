-- ===== src/Identity/Sealing.antt =====
-- What Save writes, once verifySeal has passed it, opens to the identity.
use cmd_chat.Prelude.{
  ltb, ◌==◌, if◌then◌else◌, ltb_false→le, ==_iff, Bool-cases, Option-cases, length, take, drop,
  length-take, ◌>>◌, refuse_if, or_fail, >>=-eq-ok, refuse_if-eq-ok, or_fail-eq-ok, ok-injective,
  bytes_beq, bytes_beq_iff, nat_eq, bytes_eq, Bytes, ok, ◌≡◌, refl, sym, ap, subst, ◌∙◌, inl, inr,
  Bool, true, false, not, ◌&&◌, some, arith,
}
use cmd_chat.E2ee.Crypto.{Crypto}
use cmd_chat.E2ee.Identity.{derive_id}
use cmd_chat.Identity.{
  Identity, Stored, protection_dpapi, protection_passphrase, salt_len, nonce_size_x, Machine, valid,
  seed_of, preferred_protection, seal_passphrase, open_passphrase, derive_passphrase_key,
  stored_under, in_the_clear, protected, verify_seal, new_key, unsealed, identity_of, inconsistent,
  cannot_read_back, dpapi_failed, no_randomness,
}

-- What base64 and JSON promise.
pub record MachineLaws (m : Machine) : Type 0 where
  pub base64_decode-base64 : (b : Bytes) → m.base64_decode (m.base64 b) ≡ some b
  pub unmarshal-marshal : (s : Stored) → m.unmarshal (m.marshal s) ≡ some s

-- The private key is the one that its seed makes, as it is for a generated key.
abbrev pub IsGenuine : Machine → Identity → Type 0
IsGenuine m i = m.new_key_from_seed (seed_of i) ≡ i.private_key

let_through : {E : Type 0} (t : Bool) (e : E) → refuse_if t e ≡ ok tt → t ≡ false
let_through true e h = cc
let_through false e h = refl

pub negated : (b : Bool) → not b ≡ false → b ≡ true
negated true h = refl
negated false h = cc

both : (a b : Bool) → (a && b) ≡ true → (a ≡ true) × (b ≡ true)
both true b h = (refl, h)
both false b h = cc

if_same {ℓ} : {A : Type ℓ} (b : Bool) (a : A) → (if b then a else a) ≡ a
if_same true a = refl
if_same false a = refl

module _ (c : Crypto) (m : Machine) where
  -- What `valid` tests.
  pub record IsValid (i : Identity) : Type 0 where
    pub private_size : length i.private_key ≡ 64
    pub public_size : length i.public_key ≡ 32
    pub derived : i.id ≡ derive_id c i.public_key

  pub valid-IsValid : (i : Identity) → valid c i ≡ true → IsValid i
  unfolding valid
  valid-IsValid i h =
      let (h, d) = both _ (bytes_beq i.id (derive_id c i.public_key)) h in
      let (h, _) = both _ (bytes_beq (drop 32 i.private_key) i.public_key) h in
      let (a, b) = both (length i.private_key == 64) (length i.public_key == 32) h in
      record {
        private_size = (==_iff (length i.private_key) 64).0 a;
        public_size = (==_iff (length i.public_key) 32).0 b;
        derived = (bytes_beq_iff i.id (derive_id c i.public_key)).0 d;
      }

  seed_size : (i : Identity) → IsValid i → length (seed_of i) ≡ 32
  seed_size i v = length-take 32 i.private_key ∙ omega (arith, v.private_size)

  -- A stored identity that opens to the private key, beside the public parts.
  pub record IsKept (s : Stored) (i : Identity) : Type 0 where
    pub same_id : s.id ≡ i.id
    pub same_public : s.public_key ≡ m.base64 i.public_key
    pub opened : unsealed c m s ≡ ok i.private_key

  new_key-seed :
      (i : Identity) → IsValid i → IsGenuine m i → new_key c m (seed_of i) ≡ ok i.private_key
  unfolding new_key
  new_key-seed i v g = rw (seed_size i v, g) refl

  in_the_clear-IsKept : (i : Identity) → MachineLaws m → IsValid i → IsKept (in_the_clear c m i) i
  unfolding in_the_clear stored_under unsealed
  in_the_clear-IsKept i laws v = record {
    same_id = refl;
    same_public = refl;
    opened = rw (laws.base64_decode-base64 i.private_key, v.private_size) refl;
  }

  passphrase-IsKept :
      (i : Identity) (box salt : Bytes)
      → MachineLaws m
      → IsValid i
      → IsGenuine m i
      → length salt ≡ 32
      → verify_seal c m
          (record (stored_under c m protection_passphrase i) {
            sealed = m.base64 box;
            salt = m.base64 salt;
          })
          i
        ≡ ok tt
      → IsKept
          (record (stored_under c m protection_passphrase i) {
            sealed = m.base64 box;
            salt = m.base64 salt;
          })
          i
  unfolding verify_seal stored_under unsealed
  passphrase-IsKept i box salt laws v g size h =
      let (seed, e, h) =
        >>=-eq-ok (open_passphrase c m box salt) _
          (rw (laws.base64_decode-base64 box, laws.base64_decode-base64 salt) at h) in
      let same : seed ≡ seed_of i =
        (bytes_beq_iff seed (seed_of i)).0 (negated _ (let_through _ cannot_read_back h)) in
      record {
        same_id = refl;
        same_public = refl;
        opened =
            rw (laws.base64_decode-base64 box, laws.base64_decode-base64 salt, size, e, same)
              (new_key-seed i v g);
      }

  dpapi-IsKept :
      (i : Identity) (box : Bytes)
      → MachineLaws m
      → IsValid i
      → IsGenuine m i
      → verify_seal c m (record (stored_under c m protection_dpapi i) { sealed = m.base64 box }) i
        ≡ ok tt
      → IsKept (record (stored_under c m protection_dpapi i) { sealed = m.base64 box }) i
  unfolding verify_seal stored_under unsealed
  dpapi-IsKept i box laws v g h =
      let (seed, e, h) =
        >>=-eq-ok (or_fail (m.dpapi_unprotect box) dpapi_failed) _
          (rw (laws.base64_decode-base64 box) at h) in
      let same : seed ≡ seed_of i =
        (bytes_beq_iff seed (seed_of i)).0 (negated _ (let_through _ cannot_read_back h)) in
      record {
        same_id = refl;
        same_public = refl;
        opened =
            rw
              (
                laws.base64_decode-base64 box,
                or_fail-eq-ok (m.dpapi_unprotect box) dpapi_failed e,
                same,
                seed_size i v,
              )
              (new_key-seed i v g);
      }

  seal_passphrase-salt :
      (seed random : Bytes) {box salt : Bytes}
      → seal_passphrase c m seed random ≡ ok (box, salt)
      → length salt ≡ 32
  unfolding seal_passphrase
  seal_passphrase-salt seed random h =
      let (enough, h) = refuse_if-eq-ok (ltb (length random) salt_len) no_randomness _ h in
      let (key, _, h) = >>=-eq-ok (derive_passphrase_key c m (take salt_len random)) _ h in
      let (_, h) =
        refuse_if-eq-ok (ltb (length (drop salt_len random)) nonce_size_x) no_randomness _ h in
      sym (ap (λ (p : Bytes × Bytes). length p.1) (ok-injective h))
      ∙ (length-take 32 random ∙ omega (arith, ltb_false→le (length random) 32 enough))

  pub protected-IsKept :
      (i : Identity) (random : Bytes) {s : Stored}
      → MachineLaws m
      → IsValid i
      → IsGenuine m i
      → protected c m i random ≡ ok s
      → verify_seal c m s i ≡ ok tt
      → IsKept s i
  unfolding protected
  protected-IsKept i random {s} laws v g h sealed =
      elim (Bool-cases (bytes_beq (preferred_protection c m) protection_passphrase)) [
        | inl a ↦
            let (pair, e, h) = >>=-eq-ok (seal_passphrase c m (seed_of i) random) _ (rw a at h) in
            let is : _ ≡ s = ok-injective h in
            subst (λ t. IsKept t i) is
              (passphrase-IsKept i pair.0 pair.1 laws v g
                (seal_passphrase-salt (seed_of i) random e)
                (subst (λ t. verify_seal c m t i ≡ ok tt) (sym is) sealed))
        | inr a ↦ elim (Bool-cases (bytes_beq (preferred_protection c m) protection_dpapi)) [
          | inl b ↦ elim (Option-cases (m.dpapi_protect (seed_of i))) [
            | inl none_is ↦
                subst (λ t. IsKept t i) (ok-injective (rw (a, b, none_is) at h))
                  (in_the_clear-IsKept i laws v)
            | inr (box, e) ↦
                let is : _ ≡ s = ok-injective (rw (a, b, e) at h) in
                subst (λ t. IsKept t i) is
                  (dpapi-IsKept i box laws v g
                    (subst (λ t. verify_seal c m t i ≡ ok tt) (sym is) sealed))
          ]
          | inr b ↦
              subst (λ t. IsKept t i) (ok-injective (rw (a, b) at h)) (in_the_clear-IsKept i laws v)
        ]
      ]

  pub identity_of-kept :
      (s : Stored) (i : Identity)
      → MachineLaws m
      → valid c i ≡ true
      → IsKept s i
      → identity_of c m s ≡ ok i
  unfolding identity_of
  identity_of-kept s i laws ok_i k =
      let v = valid-IsValid i ok_i in
      simp
        (
          k.same_public,
          laws.base64_decode-base64 i.public_key,
          v.public_size,
          k.opened,
          k.same_id,
          sym v.derived,
          if_same (length i.id == 0) i.id,
        )
        (ap (λ (b : Bool). refuse_if (not b) inconsistent >> ok i) ok_i)
