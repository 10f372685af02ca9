-- ===== src/E2ee/Ratchet/Unstarted.antt =====
-- An initiator as newRatchetInitiator of internal/e2ee/ratchet.go makes it: it knows the peer's key
-- and has no receiving chain.
use cmd_chat.Prelude.{
  Option-cases, ◌>>=◌, >>=-eq-ok, ok-injective, Result, bytes_beq_iff, nat_eq, bytes_eq, Bytes, ok,
  ℕ, zero, suc, ◌+◌, ◌%◌, ◌^◌, ◌<◌, ◌≡◌, refl, subst, inl, inr, true, false, none, some, List, [],
  ◌∷◌, arith,
}
use cmd_chat.Prelude.Map.{lookup}
use cmd_chat.E2ee.Wire.{Error, local_fault}
use cmd_chat.E2ee.Crypto.{Crypto}
use cmd_chat.E2ee.Ratchet.Skipped.{empty, find}
use cmd_chat.E2ee.Ratchet.{
  Ratchet, message_key_of, next_chain_of, chain_bytes, dh_root, new_ratchet_initiator, skip_loop,
  skip_to, is_new_chain, receive_here, receive,
}

module _ (c : Crypto) (remote : Bytes) where
  -- Records under one key are received from an index on, one after the other.
  abbrev pub receive_in_order : (count n : ℕ) → Ratchet → Bytes → Result Error (List Bytes)
  receive_in_order zero n r random = ok []
  receive_in_order (suc count) n r random =
      let (received, random') =
        receive c r (record { version = 2; ratchet_pub = remote; pn = 0; n = n }) random in
      do (key, _, r') ← received; keys ← receive_in_order count (n + 1) r' random'; ok (key ∷ keys)

  -- The message keys of a chain.
  abbrev pub keys_from : ℕ → Bytes → List Bytes
  keys_from zero chain = []
  keys_from (suc count) chain = message_key_of c chain ∷ keys_from count (next_chain_of c chain)

  -- The ratchet is at an index of a chain of the peer's key, and nothing was skipped.
  record IsAt (n : ℕ) (chain : Bytes) (r : Ratchet) : Type 0 where
    key : r.receive_key ≡ some remote
    here : chain_bytes r.receive_chain ≡ chain
    count : r.receive_count ≡ n
    store : r.store ≡ empty

  skip_to-here : (n : ℕ) (r : Ratchet) → r.receive_count ≡ n → skip_to c n r ≡ ok r
  unfolding skip_to skip_loop
  skip_to-here n r e = ground arith

  not_new : (r : Ratchet) → r.receive_key ≡ some remote → is_new_chain c r remote ≡ false
  unfolding is_new_chain
  not_new r e = rw (e, is_new_chain) (ground (arith, bytes_beq_iff remote remote))

  receive_here-next :
      (n : ℕ) (chain : Bytes) (r : Ratchet)
      → IsAt n chain r
      → receive_here c r n
        ≡ ok (
          message_key_of c chain,
          record r {
            receive_chain = some (next_chain_of c chain);
            receive_count = (n + 1) % 2 ^ 32;
          },
        )
  unfolding receive_here
  receive_here-next n chain r a = ground (arith, skip_to-here n r a.count, a.count, a.here)

  -- One record: the key of the chain, and the ratchet behind it.
  received-IsAt :
      (n : ℕ) (chain : Bytes) (r : Ratchet) (random : Bytes)
      → c.is_public_key remote ≡ true
      → IsAt n chain r
      → receive c r (record { version = 2; ratchet_pub = remote; pn = 0; n = n }) random ≡ (
        ok (
          message_key_of c chain,
          none,
          record r {
            receive_chain = some (next_chain_of c chain);
            receive_count = (n + 1) % 2 ^ 32;
          },
        ),
        random,
      )
  unfolding receive find lookup
  received-IsAt n chain r random valid a =
      ground (arith, receive_here-next n chain r a, a.store, not_new r a.key)

  received_in_order :
      (count n : ℕ) (chain : Bytes) (r : Ratchet) (random : Bytes)
      → c.is_public_key remote ≡ true
      → n + count < 2 ^ 32
      → IsAt n chain r
      → receive_in_order count n r random ≡ ok (keys_from count chain)
  received_in_order zero n chain r random valid small a = refl
  received_in_order (suc count) n chain r random valid small a =
      let r' : Ratchet = record r {
        receive_chain = some (next_chain_of c chain);
        receive_count = (n + 1) % 2 ^ 32;
      } in
      let behind : IsAt (n + 1) (next_chain_of c chain) r' = record {
        key = a.key;
        here = refl;
        count = omega (arith, small);
        store = a.store;
      } in
      rw
        (
          received-IsAt n chain r random valid a,
          received_in_order count (n + 1) (next_chain_of c chain) r' random valid
              (omega (arith, small)) behind,
        )
        refl

  made-IsAt :
      (root random : Bytes) {r : Ratchet}
      → (new_ratchet_initiator c root remote random).0 ≡ ok r
      → IsAt 0 [] r
  unfolding new_ratchet_initiator
  made-IsAt root random {r} h = elim (Option-cases (c.generate random)) [
    | inl e ↦ absurd (cc (rw (e, new_ratchet_initiator) at h))
    | inr ((send_key, later), e) ↦
        let (t, _, made) =
          >>=-eq-ok (dh_root c local_fault root send_key remote) _
            (rw (e, new_ratchet_initiator) at h) in
        subst (IsAt 0 []) (ok-injective made)
          (record { key = refl; here = refl; count = refl; store = refl })
  ]

  -- An initiator that has received nothing takes records under the very key that it was made with, as
  -- many as there are from the first on, and the message keys that it gives them are those of the
  -- chain that starts at the empty key: they are the same for every root key and all randomness, so
  -- no secret goes into them.
  pub receive_unstarted :
      (root random random' : Bytes) (count : ℕ) {r : Ratchet}
      → (new_ratchet_initiator c root remote random).0 ≡ ok r
      → c.is_public_key remote ≡ true
      → count < 2 ^ 32
      → receive_in_order count 0 r random' ≡ ok (keys_from count [])
  receive_unstarted root random random' count {r} made valid small =
      received_in_order count 0 [] r random' valid (omega (arith, small))
        (made-IsAt root random made)
