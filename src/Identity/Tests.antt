-- ===== src/Identity/Tests.antt =====
-- The identity file at concrete inputs, over stand-ins for the libraries.
use cmd_chat.Prelude.{
  length, take, drop, replicate, take-append, drop-append, Result, nat_eq, bytes_eq, Bytes, codes,
  ok, err, ◌-◌, ◌≡◌, refl, true, false, Option, none, some, [], ◌∷◌, ◌++◌,
}
use cmd_chat.E2ee.Crypto.Toy.{crypto}
use cmd_chat.E2ee.Identity.{derive_id}
use cmd_chat.Identity.{
  Identity, Error, Stored, Machine, File, holding, absent, valid, save, load, load_or_create,
  protected, verify_seal, to_write, preferred_protection, seal_passphrase, open_passphrase,
  derive_passphrase_key, stored_under, unsealed, new_key, read_file, read_stored, identity_of,
  upgraded, generate, created, is_missing, protection_passphrase, stored_protection, in_the_clear,
  inconsistent, panicked,
}
use cmd_chat.Identity.Sealing.{MachineLaws}
use cmd_chat.Identity.Keeping.{load_or_create_again}

-- JSON that puts its length before each field.
unfoldable put : Bytes → Bytes → Bytes
put field rest = length field ∷ (field ++ rest)

unfoldable field : Bytes → Bytes × Bytes
field [] = ([], [])
field (n ∷ s) = (take n s, drop n s)

abbrev marshal : Stored → Bytes
marshal s =
    s.version
    ∷ put s.id
        (put s.public_key (put s.protection (put s.private_key (put s.sealed (put s.salt [])))))

abbrev unmarshal : Bytes → Option Stored
unmarshal [] = none
unmarshal (v ∷ s) =
    let id = field s in
    let public_key = field id.1 in
    let protection = field public_key.1 in
    let private_key = field protection.1 in
    let sealed = field private_key.1 in
    let salt = field sealed.1 in
    some (record {
      version = v;
      id = id.0;
      public_key = public_key.0;
      protection = protection.0;
      private_key = private_key.0;
      sealed = sealed.0;
      salt = salt.0;
    })

field-put : (f rest : Bytes) → field (put f rest) ≡ (f, rest)
unfolding field put
field-put f rest = rw (take-append (length f) f rest refl, drop-append (length f) f rest refl) refl

unmarshal-marshal : (s : Stored) → unmarshal (marshal s) ≡ some s
unmarshal-marshal s = simp (
  field-put s.id _,
  field-put s.public_key _,
  field-put s.protection _,
  field-put s.private_key _,
  field-put s.sealed _,
  field-put s.salt [],
)

abbrev machine : Bytes → Machine
machine passphrase = record {
  has_path = true;
  passphrase = passphrase;
  scrypt = λ p s. some s;
  seal_x = λ k n p ad. p ++ replicate 16 0;
  open_x = λ k n p ad. some (take (length p - 16) p);
  base64 = λ b. b;
  base64_decode = some;
  marshal = marshal;
  unmarshal = unmarshal;
  dpapi_available = false;
  dpapi_protect = λ s. none;
  dpapi_unprotect = λ s. none;
  can_write = true;
  new_key_from_seed = λ s. s ++ s;
  generate_key = λ r. some (replicate 64 7, r);
}

laws : (p : Bytes) → MachineLaws (machine p)
laws p = record { base64_decode-base64 = λ b. refl; unmarshal-marshal = unmarshal-marshal }

abbrev alice : Identity
alice = record {
  private_key = replicate 64 7;
  public_key = replicate 32 7;
  id = derive_id crypto (replicate 32 7);
}

alice_checks : valid crypto alice ≡ true
unfolding crypto valid derive_id
alice_checks = refl

-- The file that is made under a passphrase.
abbrev first_run : Result Error Identity × File
first_run = load_or_create crypto (machine (codes "x")) (replicate 99 5) absent

first_made : first_run.0 ≡ ok alice
unfolding crypto valid derive_id load_or_create load read_stored read_file created generate save
    to_write protected preferred_protection seal_passphrase derive_passphrase_key stored_under
    verify_seal open_passphrase is_missing
first_made = refl

stored_sealed : stored_protection crypto (machine []) first_run.1 ≡ ok protection_passphrase
unfolding crypto valid derive_id load_or_create load read_stored read_file created generate save
    to_write protected preferred_protection seal_passphrase derive_passphrase_key stored_under
    verify_seal open_passphrase is_missing stored_protection put field
stored_sealed = refl

load_or_create_again_example :
    (load_or_create crypto (machine (codes "x")) [] first_run.1).0 ≡ ok alice
load_or_create_again_example =
    load_or_create_again crypto (machine (codes "x")) alice (replicate 99 5) [] absent
      (laws (codes "x")) refl first_made

-- A key whose public half is not the one of its seed: it loads from an unprotected file, which is
-- then written again under the passphrase, and after that it loads no more.
abbrev mixed : Identity
mixed = record {
  private_key = replicate 32 1 ++ replicate 32 7;
  public_key = replicate 32 7;
  id = derive_id crypto (replicate 32 7);
}

abbrev mixed_loaded : Result Error Identity × File
mixed_loaded =
    load crypto (machine (codes "x")) (replicate 99 5)
      (holding (marshal (in_the_clear crypto (machine []) mixed)))

mixed_loads : mixed_loaded.0 ≡ ok mixed
unfolding crypto valid derive_id load read_stored read_file in_the_clear stored_under identity_of
    unsealed put field
mixed_loads = refl

mixed_lost : (load crypto (machine (codes "x")) [] mixed_loaded.1).0 ≡ err inconsistent
unfolding crypto valid derive_id load read_stored read_file in_the_clear stored_under identity_of
    unsealed put field upgraded save to_write protected preferred_protection seal_passphrase
    derive_passphrase_key verify_seal open_passphrase new_key
mixed_lost = refl

-- A seed of another size under a passphrase is not refused as it is under DPAPI.
short_seed : new_key crypto (machine []) (replicate 31 1) ≡ err panicked
unfolding new_key
short_seed = refl
