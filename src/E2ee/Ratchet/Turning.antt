-- ===== src/E2ee/Ratchet/Turning.antt =====
-- A record under a new ratchet key: the receiver turns its ratchet onto the sender's chain.
use cmd_chat.Prelude.{
  take, drop, nat_eq, bytes_eq, Bytes, ok, ℕ, ◌+◌, ◌%◌, ◌^◌, ◌≤◌, ◌≡◌, refl, sym, ap, subst, ◌∙◌,
  true, Option, none, some, arith,
}
use cmd_chat.E2ee.Wire.{Error, local_fault}
use cmd_chat.E2ee.Crypto.{Crypto, CryptoLaws}
use cmd_chat.E2ee.Header.{Header}
use cmd_chat.E2ee.Ratchet.Skipped.{empty, find}
use cmd_chat.E2ee.Ratchet.Skipped.Bounds.{find-empty}
use cmd_chat.E2ee.Ratchet.Skipping.{chain_at, key_at}
use cmd_chat.E2ee.Ratchet.Delivery.{
  at, Follows, after_receiving, after_receiving-Follows, receive_here_ahead,
}
use cmd_chat.E2ee.Ratchet.Agreement.{
  Sends, next-Sends, step_receive-Started, step_send-Started, new_ratchet_initiator-Started,
}
use cmd_chat.E2ee.Ratchet.{
  Ratchet, max_skip, version_2, key_size, label_ratchet_root, kdf_root_key, dh_root,
  new_ratchet_initiator, new_ratchet_responder, next, step_send, step, skip_to, is_new_chain, turn,
  receive,
}

chain_at_start : (c : Crypto) (chain : Bytes) → some chain ≡ some (chain_at c chain 0)
unfolding chain_at
chain_at_start c chain = refl

not_found {ℓ} : {A : Type ℓ} {o : Option A} {a : A} → o ≡ none → o ≡ some a → ⊥
not_found e f = cc

module _ (c : Crypto) (laws : CryptoLaws c) where
  kdf_root_key_total : (root dh : Bytes) → (x : Bytes × Bytes) × (kdf_root_key c root dh ≡ ok x)
  unfolding kdf_root_key
  kdf_root_key_total root dh =
      let (out, e) = laws.hkdf-total dh root label_ratchet_root 64 (omega arith) in
      ((take key_size out, drop key_size out), rw e)

  -- The randomness holds a key, and the exchange of that key with the peer's is not refused.
  pub record CanStep (peer random left : Bytes) : Type 0 where
    pub fresh : Bytes
    pub secret : Bytes
    pub drawn : c.generate random ≡ some (fresh, left)
    pub shared : c.ecdh fresh peer ≡ some secret

  step_send_total :
      (r : Ratchet) (peer random left : Bytes)
      → CanStep peer random left
      → (b : Ratchet) × (step_send c r peer random ≡ (ok b, left))
  unfolding step_send dh_root
  step_send_total r peer random left can =
      let ((new_root, chain), e) = kdf_root_key_total r.root_key can.secret in
      (
        record r {
          root_key = new_root;
          send_chain = some chain;
          send_key = can.fresh;
          steps = (r.steps + 1) % 2 ^ 64;
        },
        ground (arith, can.drawn, can.shared, e),
      )

  pub new_ratchet_initiator-total :
      (root peer random left : Bytes) (can : CanStep peer random left)
      → (a : Ratchet) × ((new_ratchet_initiator c root peer random).0 ≡ ok a)
        × (a.send_key ≡ can.fresh)
  unfolding new_ratchet_initiator dh_root
  new_ratchet_initiator-total root peer random left can =
      let ((new_root, chain), e) = kdf_root_key_total root can.secret in
      (
        record {
          root_key = new_root;
          send_key = can.fresh;
          receive_key = some peer;
          send_chain = some chain;
          receive_chain = none;
          send_count = 0;
          receive_count = 0;
          previous_sent = 0;
          store = empty;
          steps = 0;
        },
        ground (arith, can.drawn, can.shared, e),
        refl,
      )

  -- The whole step lands on the chain that the sender started against this ratchet's key.
  step_turns :
      (a sender : Ratchet) (chain random left : Bytes) (refused : Error)
      → dh_root c refused a.root_key sender.send_key (c.public_key a.send_key)
        ≡ ok (sender.root_key, chain)
      → sender.send_chain ≡ some chain
      → CanStep (c.public_key sender.send_key) random left
      → (b : Ratchet) × (step c a (c.public_key sender.send_key) random ≡ (ok b, left))
        × (b.receive_key ≡ some (c.public_key sender.send_key))
        × (b.receive_chain ≡ some chain)
        × (b.receive_count ≡ 0)
        × (b.store ≡ a.store)
  unfolding step
  step_turns a sender chain random left refused d s can =
      let (a', e, root, rc, key, count, store) =
        step_receive-Started c laws a sender a.root_key refused refl (chain, d, s) in
      let (b, f) = step_send_total a' (c.public_key sender.send_key) random left can in
      let (_, key', rc', store', _, count') =
        step_send-Started c a' b (c.public_key sender.send_key) random (ap (λ t. t.0) f) in
      (b, rw (e, step) f, key' ∙ key, rc' ∙ rc ∙ s, count' ∙ count, store' ∙ store)

  -- A record at an index up to 1000 of the chain that a sender has started against this ratchet's key,
  -- under a ratchet key that is new here and of which nothing is stored: if the chain that is left can
  -- be finished, the record is accepted with the key that the sender used, and the ratchet follows the
  -- sender's chain behind it.
  pub receive_turns :
      (r r1 sender : Ratchet) (h : Header) (chain random left : Bytes) (refused : Error)
      → dh_root c refused r1.root_key sender.send_key (c.public_key r1.send_key)
        ≡ ok (sender.root_key, chain)
      → sender.send_chain ≡ some chain
      → CanStep (c.public_key sender.send_key) random left
      → h.ratchet_pub ≡ c.public_key sender.send_key
      → h.n ≤ max_skip
      → is_new_chain c r h.ratchet_pub ≡ true
      → find (at h.ratchet_pub h.n) r.store ≡ none
      → skip_to c h.pn r ≡ ok r1
      → ((n : ℕ) → find (at (c.public_key sender.send_key) n) r1.store ≡ none)
      → (b : Ratchet) × (receive c r h random ≡ (ok (key_at c chain h.n, none, b), left))
        × Follows c chain (c.public_key sender.send_key) b
        × (b.receive_count ≡ h.n + 1)
  unfolding receive turn
  receive_turns r r1 sender h chain random left refused d s can same near new missing skipped
        clean =
      let peer = c.public_key sender.send_key in
      let (b, e, key, rc, count, store) = step_turns r1 sender chain random left refused d s can in
      let start : some chain ≡ some (chain_at c chain 0) = chain_at_start c chain in
      let f : Follows c chain peer b = record {
        key = key;
        here = rc ∙ start ∙ ap (λ (i : ℕ). some (chain_at c chain i)) (sym count);
        holds = λ n k g. absurd (not_found (ap (find (at peer n)) store ∙ clean n) g);
      } in
      let got = receive_here_ahead c chain peer b h.n f (omega arith) (omega arith) (omega arith) in
      (
        after_receiving c chain peer b h.n,
        ground (arith, laws.public_key-accepted sender.send_key, e, got),
        after_receiving-Follows c chain peer b h.n f (omega arith),
        omega arith,
      )

  -- The first record of a session: the initiator sets its ratchet up against the responder's handshake
  -- key and sends; the responder, from the same root key, accepts that record with the key that it was
  -- sent under, and follows the initiator's chain from then on.
  pub first_record :
      (root ephemeral random random' left : Bytes) (a : Ratchet)
      → (new_ratchet_initiator c root (c.public_key ephemeral) random).0 ≡ ok a
      → CanStep (c.public_key a.send_key) random' left
      → (h : Header) × (a' b : Ratchet) × (mk chain : Bytes) × (next c a ≡ ok (h, mk, a'))
        × (receive c (new_ratchet_responder root ephemeral) h random' ≡ (ok (mk, none, b), left))
        × Sends c chain (c.public_key a.send_key) a'
        × Follows c chain (c.public_key a.send_key) b
        × (b.receive_count ≡ a'.send_count)
        × (h.version ≡ version_2)
        × (h.ratchet_pub ≡ c.public_key a.send_key)
        × (h.pn ≡ 0)
        × (h.n ≡ 0)
        × (a'.previous_sent ≡ 0)
  unfolding new_ratchet_responder skip_to is_new_chain
  first_record root ephemeral random random' left a ia can =
      let ((chain, d, s), key, rc, store, count, _, previous) =
        new_ratchet_initiator-Started c root (c.public_key ephemeral) random a ia in
      let sends : Sends c chain (c.public_key a.send_key) a = record {
        key = refl;
        here = s ∙ chain_at_start c chain ∙ ap (λ (i : ℕ). some (chain_at c chain i)) (sym count);
        word = omega (arith, count);
      } in
      let (h, a', e, same, index, version, pn, sends', one, kept) =
        next-Sends c chain (c.public_key a.send_key) a sends (omega (arith, count)) in
      let r = new_ratchet_responder root ephemeral in
      let (b, got, follows, heard) =
        receive_turns r r a h chain random' left local_fault d s
          (subst (λ p. CanStep p random' left) refl can) same (omega (arith, index, count)) refl
          (find-empty _) refl (λ n. find-empty _) in
      (
        h,
        a',
        b,
        key_at c chain a.send_count,
        chain,
        e,
        subst (λ (i : ℕ). receive c r h random' ≡ (ok (key_at c chain i, none, b), left)) index got,
        sends',
        follows,
        omega (arith, heard, index, one),
        version,
        same,
        pn ∙ previous,
        index ∙ count,
        kept ∙ previous,
      )
