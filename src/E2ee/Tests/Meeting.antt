-- ===== src/E2ee/Tests/Meeting.antt =====
-- The handshake between two honest people, over the stand-in libraries.
use cmd_chat.Prelude.{
  replicate, Result, nat_eq, bytes_eq, ok, err, ℕ, ◌≡◌, refl, inl, true, some, [], ◌∷◌, arith,
}
use cmd_chat.E2ee.Crypto.Toy.{crypto, laws, kem_laws, sign, length-sign, verify-sign}
use cmd_chat.E2ee.Wire.{Error, read_full}
use cmd_chat.E2ee.Identity.{
  blocked, derive_id, usable_identity_key, small_order_keys, decode_hex, hex_digit,
}
use cmd_chat.E2ee.Ratchet.Turning.{CanStep}
use cmd_chat.E2ee.Auth.{versions_of, validate, credentials_valid}
use cmd_chat.E2ee.Auth.Proof.{Honest, Welcomes}
use cmd_chat.E2ee.Handshake.Schedule.{hash_transcript}
use cmd_chat.E2ee.Handshake.Versions.{select_version, contains_version, append_versions}
use cmd_chat.E2ee.Handshake.Agreement.{Compatible, Draws}
use cmd_chat.E2ee.Handshake.Meeting.{Met, meet}
use cmd_chat.E2ee.Handshake.{Offer, make_offer}
use cmd_chat.E2ee.Tests.Handshake.{someone, config_of}

abbrev taken : Result Error Offer → Offer
taken (ok o) = o
taken (err e) = record {
  ephemeral = [];
  decapsulation = [];
  offered = [];
  m1 = [];
  th1 = [];
  random = [];
}

unfoldable offer : Offer
unfolding make_offer config_of someone crypto sign validate credentials_valid versions_of derive_id
    usable_identity_key blocked small_order_keys decode_hex hex_digit read_full append_versions
    hash_transcript
offer = taken (make_offer crypto (config_of 9) (some (5 ∷ [])) (replicate 40 7))

offered : make_offer crypto (config_of 9) (some (5 ∷ [])) (replicate 40 7) ≡ ok offer
unfolding offer make_offer config_of someone crypto sign validate credentials_valid versions_of
    derive_id usable_identity_key blocked small_order_keys decode_hex hex_digit read_full
    append_versions hash_transcript
offered = refl

honest : (n : ℕ) → usable_identity_key (replicate 32 n) ≡ true → Honest crypto laws (someone n)
unfolding someone
honest n h = record {
  sign = sign (replicate 32 n);
  signs = refl;
  verifies = verify-sign (replicate 32 n);
  signature_length = length-sign (replicate 32 n);
  key_length = refl;
  usable = h;
  derived = refl;
  short_nickname = omega arith;
}

welcomes : (n k : ℕ) → Welcomes crypto laws (config_of n) (someone k)
unfolding config_of
welcomes n k = record {
  authorize = λ id key. true;
  trust = refl;
  trusted = refl;
  expected = inl refl;
}

compatible : Compatible crypto laws (config_of 9) (config_of 12)
unfolding config_of someone usable_identity_key blocked small_order_keys decode_hex hex_digit
    versions_of select_version contains_version validate credentials_valid derive_id crypto sign
compatible = record {
  binding = refl;
  few = omega arith;
  words = (omega arith, tt);
  chosen = refl;
  honest_alice = honest 9 refl;
  honest_bob = honest 12 refl;
  alice_welcomes = welcomes 9 12;
  bob_welcomes = welcomes 12 9;
  valid = refl;
}

draws : Draws crypto (replicate 40 8) (crypto.public_key offer.ephemeral) (replicate 7 8)
unfolding crypto offer read_full
draws = record {
  ephemeral = 8 ∷ [];
  after = replicate 39 8;
  nonce = replicate 32 8;
  secret = replicate 32 16;
  drawn = refl;
  read = refl;
  shared = refl;
}

step : CanStep crypto laws (crypto.public_key draws.ephemeral) offer.random (replicate 6 7)
unfolding crypto offer draws
step = record { fresh = 7 ∷ []; secret = replicate 32 16; drawn = refl; shared = refl }

answering : CanStep crypto laws (crypto.public_key step.fresh) (replicate 7 8) (replicate 6 8)
unfolding crypto step
answering = record { fresh = 8 ∷ []; secret = replicate 32 16; drawn = refl; shared = refl }

meet_example :
    Met crypto laws kem_laws
      (config_of 9)
      (config_of 12)
      (some (5 ∷ []))
      (replicate 40 7)
      (3 ∷ [])
      (replicate 40 8)
      7
      8
meet_example =
    meet crypto laws kem_laws (config_of 9) (config_of 12) (some (5 ∷ [])) (replicate 40 7) (3 ∷ [])
      (replicate 40 8) (replicate 7 8) (replicate 6 7) (replicate 6 8) offer 7 8 compatible offered
      draws step answering
