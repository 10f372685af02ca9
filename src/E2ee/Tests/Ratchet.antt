-- ===== src/E2ee/Tests/Ratchet.antt =====
-- The ratchet at concrete inputs, over the stand-in for the libraries.
use cmd_chat.Prelude.{
  replicate, All, nat_eq, bytes_eq, Bytes, ok, err, ℕ, ◌+◌, ◌^◌, ◌<◌, ◌≡◌, refl, none, some, [],
  ◌∷◌, arith,
}
use cmd_chat.E2ee.Wire.{local_fault}
use cmd_chat.E2ee.Crypto.Toy.{crypto, laws}
use cmd_chat.E2ee.Header.{Header}
use cmd_chat.E2ee.Ratchet.Skipped.{empty, find, skipped_key_eq}
use cmd_chat.E2ee.Ratchet.Skipped.Bounds.{find-empty, Distinct}
use cmd_chat.E2ee.Ratchet.Skipping.{chain_at, key_at}
use cmd_chat.E2ee.Ratchet.Delivery.{at, Follows}
use cmd_chat.E2ee.Ratchet.Replay.{IsOurs, arrivals, indices, arrivals_once}
use cmd_chat.E2ee.Ratchet.Agreement.{Sends}
use cmd_chat.E2ee.Ratchet.Turning.{CanStep, receive_turns}
use cmd_chat.E2ee.Ratchet.Unstarted.{receive_in_order, keys_from, receive_unstarted}
use cmd_chat.E2ee.Ratchet.{
  Ratchet, new_ratchet_initiator, new_ratchet_responder, receive, skip_to, is_new_chain, dh_root,
  kdf_root_key,
}

-- The chain that starts at `seed` under the key of a peer.
abbrev pub seed : Bytes
seed = 5 ∷ []

abbrev pub peer : Bytes
peer = 9 ∷ replicate 31 0

abbrev pub following : Ratchet
following = record {
  root_key = 1 ∷ [];
  send_key = 4 ∷ [];
  receive_key = some peer;
  send_chain = none;
  receive_chain = some seed;
  send_count = 0;
  receive_count = 0;
  previous_sent = 0;
  store = empty;
  steps = 1;
}

holds_nothing :
    (n : ℕ) (k : Bytes) → find (at peer n) empty ≡ some k → (k ≡ key_at crypto seed n) × (n < 0)
holds_nothing n k e = absurd (nothing (find-empty (at peer n)) e)
  where
    nothing : find (at peer n) empty ≡ none → find (at peer n) empty ≡ some k → ⊥
    nothing f g = cc

pub following-Follows : Follows crypto seed peer following
unfolding chain_at
following-Follows = record { key = refl; here = refl; holds = holds_nothing }

abbrev header : ℕ → Header
header n = record { version = 2; ratchet_pub = peer; pn = 0; n = n }

header-IsOurs : (n : ℕ) → n + 1 < 2 ^ 32 → IsOurs crypto seed peer (header n)
unfolding crypto
header-IsOurs n h = record { point = refl; same = refl; usable = h }

-- Records 2, 0, 2 again and 1: the replay is not in the log.
arrivals_once_example :
    let log =
      arrivals crypto seed peer following (header 2 ∷ header 0 ∷ header 2 ∷ header 1 ∷ []) [] in
    Distinct (indices crypto seed peer log) × All (λ t. t.1 ≡ key_at crypto seed t.0) log
arrivals_once_example =
    arrivals_once crypto seed peer (header 2 ∷ header 0 ∷ header 2 ∷ header 1 ∷ []) following []
      following-Follows
      (
        header-IsOurs 2 (omega arith),
        (
          header-IsOurs 0 (omega arith),
          (header-IsOurs 2 (omega arith), (header-IsOurs 1 (omega arith), tt)),
        ),
      )

-- An initiator with the ephemeral key 3 of the responder, and the randomness 8.
abbrev ephemeral : Bytes
ephemeral = 3 ∷ []

initiator : Ratchet
unfolding new_ratchet_initiator crypto dh_root kdf_root_key
initiator = elim (new_ratchet_initiator crypto (1 ∷ []) (crypto.public_key ephemeral) (8 ∷ [])).0 [
  | ok r ↦ r
  | err _ ↦ following
]

made :
    (new_ratchet_initiator crypto (1 ∷ []) (crypto.public_key ephemeral) (8 ∷ [])).0 ≡ ok initiator
unfolding initiator
made = refl

initiator-CanStep : CanStep crypto laws (crypto.public_key initiator.send_key) (6 ∷ []) []
unfolding initiator
initiator-CanStep = record { fresh = 6 ∷ []; secret = replicate 32 15; drawn = refl; shared = refl }

-- The first three records under the responder's handshake key.
receive_unstarted_example :
    receive_in_order crypto (crypto.public_key ephemeral) 3 0 initiator []
    ≡ ok (keys_from crypto (crypto.public_key ephemeral) 3 [])
unfolding crypto
receive_unstarted_example =
    receive_unstarted crypto (crypto.public_key ephemeral) (1 ∷ []) (8 ∷ []) [] 3 made refl
      (omega arith)

abbrev pub sending : Ratchet
sending = record following { send_key = 9 ∷ []; send_chain = some seed }

pub sending-Sends : Sends crypto seed peer sending
unfolding chain_at crypto
sending-Sends = record { key = refl; here = refl; word = omega arith }

-- The sixth record of the initiator arrives first.
receive_turns_example :
    (b : Ratchet) × (receive crypto
        (new_ratchet_responder (1 ∷ []) ephemeral)
        (record { version = 2; ratchet_pub = 8 ∷ replicate 31 0; pn = 0; n = 5 })
        (6 ∷ [])
      ≡ (ok (key_at crypto (replicate 32 141) 5, none, b), []))
    × Follows crypto (replicate 32 141) (8 ∷ replicate 31 0) b
    × (b.receive_count ≡ 6)
unfolding initiator new_ratchet_responder dh_root kdf_root_key is_new_chain skip_to crypto
receive_turns_example =
    receive_turns crypto laws (new_ratchet_responder (1 ∷ []) ephemeral)
      (new_ratchet_responder (1 ∷ []) ephemeral) initiator
      (record { version = 2; ratchet_pub = 8 ∷ replicate 31 0; pn = 0; n = 5 }) (replicate 32 141)
      (6 ∷ []) [] local_fault refl refl initiator-CanStep refl (omega arith) refl (find-empty _)
      refl (λ n. find-empty _)
