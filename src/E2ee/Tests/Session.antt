-- ===== src/E2ee/Tests/Session.antt =====
-- Sessions at concrete inputs.
use cmd_chat.Prelude.{
  replicate, nat_eq, bytes_eq, Bytes, codes, ok, err, ◌≡◌, refl, false, [], ◌∷◌, arith,
}
use cmd_chat.E2ee.Wire.{malformed}
use cmd_chat.E2ee.Crypto.Toy.{crypto, laws}
use cmd_chat.E2ee.Ratchet.Skipped.Bounds.{IsValid, empty-IsValid}
use cmd_chat.E2ee.Session.{Session, encrypt, decrypt, parse_record}
use cmd_chat.E2ee.Session.Failures.{decrypt-IsValid}
use cmd_chat.E2ee.Session.Roundtrip.{Linked, decrypt-encrypt}
use cmd_chat.E2ee.Tests.Ratchet.{seed, peer, following, following-Follows, sending, sending-Sends}

abbrev pub alice : Session
alice = record {
  ratchet = sending;
  closed = false;
  associated = 1 ∷ 2 ∷ [];
  sent_since_step = 0;
  last_step = 0;
  steps = 1;
}

abbrev pub bob : Session
bob = record alice { ratchet = following }

pub linked : Linked crypto laws seed peer alice bob
linked = record {
  sends = sending-Sends;
  follows = following-Follows;
  tag = refl;
  open_here = refl;
  open_there = refl;
  previous = omega arith;
}

decrypt-encrypt_example :
    (text : Bytes) × (a' b' : Session) × (encrypt crypto alice (codes "hi") ≡ ok (text, a'))
    × (decrypt crypto bob text 7 [] ≡ (ok (codes "hi"), b', []))
    × Linked crypto laws seed peer a' b'
    × (b'.ratchet.receive_count ≡ a'.ratchet.send_count)
decrypt-encrypt_example =
    decrypt-encrypt crypto laws seed peer alice bob (codes "hi") [] 7 linked (omega arith)
      (omega arith) (omega arith)

too_short : (decrypt crypto bob (2 ∷ 9 ∷ []) 7 []).0 ≡ err malformed
unfolding decrypt parse_record
too_short = refl

decrypt-IsValid_example : IsValid (decrypt crypto bob (replicate 80 2) 7 []).1.ratchet.store
decrypt-IsValid_example = decrypt-IsValid crypto bob (replicate 80 2) [] 7 empty-IsValid
