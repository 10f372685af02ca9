-- ===== src/E2ee/Ratchet/Skipping.antt =====
-- skipTo: what the loop leaves, in terms of the chain as a sequence of keys.
use cmd_chat.Prelude.{
  lt→ltb, Bytes, ok, err, ℕ, zero, suc, ◌+◌, ◌-◌, ◌^◌, ◌≤◌, ◌<◌, ◌≡◌, refl, ap, ◌∙◌, some, arith,
}
use cmd_chat.E2ee.Wire.{skip_too_large}
use cmd_chat.E2ee.Crypto.{Crypto}
use cmd_chat.E2ee.Ratchet.Skipped.{Store, remember, skipped_key_eq}
use cmd_chat.E2ee.Ratchet.{
  Ratchet, max_skip, message_key_of, next_chain_of, skip_one, skip_loop, skip_to,
}

module _ (c : Crypto) where
  -- The chain key and the message key at an index of the chain that starts at a key.
  unfoldable pub chain_at : Bytes → ℕ → Bytes
  chain_at chain zero = chain
  chain_at chain (suc i) = next_chain_of c (chain_at chain i)

  abbrev pub key_at : Bytes → ℕ → Bytes
  key_at chain i = message_key_of c (chain_at chain i)

  pub chain_at-next :
      (chain : Bytes) (i : ℕ) → chain_at (next_chain_of c chain) i ≡ chain_at chain (suc i)
  unfolding chain_at
  chain_at-next chain zero = refl
  chain_at-next chain (suc i) = ap (next_chain_of c) (chain_at-next chain i)

  pub chain_at-add :
      (chain : Bytes) (i j : ℕ) → chain_at (chain_at chain i) j ≡ chain_at chain (i + j)
  unfolding chain_at
  chain_at-add chain i zero = ap (chain_at chain) (omega arith)
  chain_at-add chain i (suc j) =
      ap (next_chain_of c) (chain_at-add chain i j) ∙ ap (chain_at chain) shift
    where
      shift : suc (i + j) ≡ i + suc j
      shift = omega arith

  -- The store after the keys of `f` indices from `n` on have been put away.
  unfoldable pub put_away : Bytes → Bytes → ℕ → ℕ → Store → Store
  put_away pub_key chain zero n s = s
  put_away pub_key chain (suc f) n s =
      put_away pub_key (next_chain_of c chain) f (suc n)
        (remember (record { ratchet_pub = pub_key; n = n }) (message_key_of c chain) s)

  skip_one_lem :
      (pub_key chain : Bytes) (r : Ratchet)
      → r.receive_count + 1 < 2 ^ 32
      → skip_one c pub_key chain r ≡ record r {
        receive_chain = some (next_chain_of c chain);
        store =
            remember
              (record { ratchet_pub = pub_key; n = r.receive_count })
              (message_key_of c chain)
              r.store;
        receive_count = suc r.receive_count;
      }
  unfolding skip_one
  skip_one_lem pub_key chain r h = ground arith

  -- The loop runs to its target: it moves the chain there and puts away every key that it passes.
  pub skip_loop_lem :
      (f target : ℕ) (pub_key chain : Bytes) (r : Ratchet)
      → r.receive_count + f ≡ target
      → target < 2 ^ 32
      → r.receive_chain ≡ some chain
      → skip_loop c f target pub_key chain r ≡ record r {
        receive_chain = some (chain_at chain f);
        store = put_away pub_key chain f r.receive_count r.store;
        receive_count = target;
      }
  unfolding skip_loop put_away chain_at
  skip_loop_lem zero target pub_key chain r e h s = ground arith
  skip_loop_lem (suc f) target pub_key chain r e h s =
      let r1 : Ratchet = record r {
        receive_chain = some (next_chain_of c chain);
        store =
            remember (record { ratchet_pub = pub_key; n = r.receive_count })
              (message_key_of c chain) r.store;
        receive_count = suc r.receive_count;
      } in
      let ih = skip_loop_lem f target pub_key (next_chain_of c chain) r1 (omega arith) h refl in
      rw (lt→ltb r.receive_count target (omega arith)) (
        ap (skip_loop c f target pub_key (next_chain_of c chain))
          (skip_one_lem pub_key chain r (omega arith))
        ∙ ih
        ∙ ap
            (λ k. record r1 {
              receive_chain = some k;
              store = put_away pub_key (next_chain_of c chain) f (suc r.receive_count) r1.store;
              receive_count = target;
            })
            (chain_at-next chain f))

  -- Skipping to an index of the current chain that is not behind and not more than 1000 ahead.
  pub skip_to_lem :
      (target : ℕ) (pub_key chain : Bytes) (r : Ratchet)
      → r.receive_chain ≡ some chain
      → r.receive_key ≡ some pub_key
      → r.receive_count ≤ target
      → target - r.receive_count ≤ max_skip
      → target < 2 ^ 32
      → skip_to c target r
        ≡ ok (record r {
          receive_chain = some (chain_at chain (target - r.receive_count));
          store = put_away pub_key chain (target - r.receive_count) r.receive_count r.store;
          receive_count = target;
        })
  unfolding skip_to
  skip_to_lem target pub_key chain r s k h gap w =
      let f = target - r.receive_count in
      ground (arith, skip_loop_lem f target pub_key chain r (omega arith) w s)

  -- A gap of more than 1000 is refused, and nothing is derived.
  pub skip_to_far :
      (target : ℕ) (chain : Bytes) (r : Ratchet)
      → r.receive_chain ≡ some chain
      → r.receive_count + max_skip < target
      → skip_to c target r ≡ err skip_too_large
  unfolding skip_to
  skip_to_far target chain r s h = ground arith
