-- ===== src/E2ee/Ratchet/Agreement.antt =====
-- The two sides of a session derive the same keys.
use cmd_chat.Prelude.{
  Option-cases, Result-cases, nat_eq, bytes_eq, Bytes, ok, ℕ, suc, ◌+◌, ◌^◌, ◌<◌, ◌≡◌, refl, sym,
  ap, inl, inr, none, some, arith,
}
use cmd_chat.E2ee.Wire.{Error, malformed, local_fault}
use cmd_chat.E2ee.Crypto.{Crypto, CryptoLaws}
use cmd_chat.E2ee.Header.{Header}
use cmd_chat.E2ee.Ratchet.Skipped.{empty}
use cmd_chat.E2ee.Ratchet.Skipping.{chain_at, key_at}
use cmd_chat.E2ee.Ratchet.{
  Ratchet, dh_root, new_ratchet_initiator, next, step_send, step_receive, version_2,
}

module _ (c : Crypto) where
  -- The ratchet is sending on the chain that starts at `chain` under its key `pub_key`.
  pub record Sends (chain pub_key : Bytes) (r : Ratchet) : Type 0 where
    pub key : c.public_key r.send_key ≡ pub_key
    pub here : r.send_chain ≡ some (chain_at c chain r.send_count)
    pub word : r.send_count < 2 ^ 32

  -- Until a chain has run to 2^32 - 1 records, `next` names the next index of the chain under the
  -- sender's ratchet key, gives the message key of that index, and moves on by one.
  pub next-Sends :
      (chain pub_key : Bytes) (r : Ratchet)
      → Sends chain pub_key r
      → r.send_count + 1 < 2 ^ 32
      → (h : Header) × (r' : Ratchet) × (next c r ≡ ok (h, key_at c chain r.send_count, r'))
        × (h.ratchet_pub ≡ pub_key)
        × (h.n ≡ r.send_count)
        × (h.version ≡ version_2)
        × (h.pn ≡ r.previous_sent)
        × Sends chain pub_key r'
        × (r'.send_count ≡ r.send_count + 1)
        × (r'.previous_sent ≡ r.previous_sent)
  unfolding next chain_at
  next-Sends chain pub_key r s small = (
    record {
      version = version_2;
      ratchet_pub = c.public_key r.send_key;
      pn = r.previous_sent;
      n = r.send_count;
    },
    record r {
      send_chain = some (chain_at c chain (suc r.send_count));
      send_count = r.send_count + 1;
    },
    ground (arith, s.here),
    s.key,
    refl,
    refl,
    refl,
    record { key = s.key; here = ap (λ (i : ℕ). some (chain_at c chain i)) one; word = small },
    refl,
    refl,
  )
    where
      one : suc r.send_count ≡ r.send_count + 1
      one = omega arith

  dh_root_comm :
      (laws : CryptoLaws c) (f g : Error) (root a b : Bytes) {x : Bytes × Bytes}
      → dh_root c f root a (c.public_key b) ≡ ok x
      → dh_root c g root b (c.public_key a) ≡ ok x
  unfolding dh_root
  dh_root_comm laws f g root a b h = ground (arith, laws.ecdh_comm a b)

  -- What a side derives when it starts a sending chain: the root key and the chain come from its new
  -- key and the peer's, and the counter is at 0.
  abbrev pub Started : Error → Bytes → Bytes → Ratchet → Type 0
  Started refused root peer b =
      (chain : Bytes) × (dh_root c refused root b.send_key peer ≡ ok (b.root_key, chain))
      × (b.send_chain ≡ some chain)

  pub new_ratchet_initiator-Started :
      (root peer random : Bytes) (b : Ratchet)
      → (new_ratchet_initiator c root peer random).0 ≡ ok b
      → Started local_fault root peer b
        × (b.receive_key ≡ some peer)
        × (b.receive_chain ≡ none)
        × (b.store ≡ empty)
        × (b.send_count ≡ 0)
        × (b.receive_count ≡ 0)
        × (b.previous_sent ≡ 0)
  unfolding new_ratchet_initiator
  new_ratchet_initiator-Started root peer random b h = elim (Option-cases (c.generate random)) [
    | inl e ↦ ground arith
    | inr ((send_key, left), e) ↦ elim (Result-cases (dh_root c local_fault root send_key peer)) [
      | inl (x, f) ↦ ground arith
      | inr ((new_root, chain), f) ↦ (
        (chain, ground arith, ground arith),
        ground arith,
        ground arith,
        ground arith,
        ground arith,
        ground arith,
        ground arith,
      )
    ]
  ]

  pub step_send-Started :
      (r b : Ratchet) (peer random : Bytes)
      → (step_send c r peer random).0 ≡ ok b
      → Started malformed r.root_key peer b
        × (b.receive_key ≡ r.receive_key)
        × (b.receive_chain ≡ r.receive_chain)
        × (b.store ≡ r.store)
        × (b.send_count ≡ r.send_count)
        × (b.receive_count ≡ r.receive_count)
  unfolding step_send
  step_send-Started r b peer random h = elim (Option-cases (c.generate random)) [
    | inl e ↦ ground arith
    | inr ((send_key, left), e) ↦
        elim (Result-cases (dh_root c malformed r.root_key send_key peer)) [
          | inl (x, f) ↦ ground arith
          | inr ((new_root, chain), f) ↦ (
            (chain, ground arith, ground arith),
            ground arith,
            ground arith,
            ground arith,
            ground arith,
            ground arith,
          )
        ]
  ]

  -- A ratchet step at one end and the step that it causes at the other lead to the same root key, and
  -- the sending chain of the one is the receiving chain of the other.
  pub step_receive-Started :
      (laws : CryptoLaws c) (a b : Ratchet) (root : Bytes) (refused : Error)
      → a.root_key ≡ root
      → Started refused root (c.public_key a.send_key) b
      → (a' : Ratchet) × (step_receive c a (c.public_key b.send_key) ≡ ok a')
        × (a'.root_key ≡ b.root_key)
        × (a'.receive_chain ≡ b.send_chain)
        × (a'.receive_key ≡ some (c.public_key b.send_key))
        × (a'.receive_count ≡ 0)
        × (a'.store ≡ a.store)
  unfolding step_receive
  step_receive-Started laws a b root refused e (chain, d, s) = (
    record a {
      previous_sent = a.send_count;
      send_count = 0;
      receive_count = 0;
      receive_key = some (c.public_key b.send_key);
      root_key = b.root_key;
      receive_chain = some chain;
    },
    ground (arith, dh_root_comm laws refused malformed root b.send_key a.send_key d),
    refl,
    sym s,
    refl,
    refl,
    refl,
  )
