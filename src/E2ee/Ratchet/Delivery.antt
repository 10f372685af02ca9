-- ===== src/E2ee/Ratchet/Delivery.antt =====
-- One chain under every order of delivery: `receive` gives a record the key that its index has in
-- the chain, once.
use cmd_chat.Prelude.{
  ltb, ltb→lt, ltb_false→le, Bool-cases, Option-cases, tests, ◌>>=◌, >>=-eq-ok, ok-injective,
  eq_refl, bytes_beq_iff, Bytes, ok, err, ℕ, zero, suc, ◌+◌, ◌-◌, ◌^◌, ◌≤◌, ◌<◌, ◌≡◌, refl, sym, ap,
  subst, ◌∙◌, inl, inr, true, Option, none, some, arith,
}
use cmd_chat.E2ee.Wire.{stale_message, skip_too_large}
use cmd_chat.E2ee.Crypto.{Crypto}
use cmd_chat.E2ee.Header.{Header}
use cmd_chat.E2ee.Ratchet.Skipped.{Store, SkippedKey, remember, find, forget, skipped_key_eq}
use cmd_chat.E2ee.Ratchet.Skipped.Bounds.{find-forget}
use cmd_chat.E2ee.Ratchet.Skipped.Sound.{remember_sound}
use cmd_chat.E2ee.Ratchet.Skipping.{
  chain_at, key_at, chain_at-add, put_away, skip_to_lem, skip_to_far,
}
use cmd_chat.E2ee.Ratchet.{
  Ratchet, max_skip, message_key_of, next_chain_of, is_new_chain, receive_here, receive,
}

abbrev pub at : Bytes → ℕ → SkippedKey
at pub_key n = record { ratchet_pub = pub_key; n = n }

-- The ratchet as `Decrypt` commits it: a stored key that was used is deleted.
abbrev pub commit : Option SkippedKey → Ratchet → Ratchet
commit none r = r
commit (some k) r = record r { store = forget k r.store }

module _ (c : Crypto) (chain : Bytes) (pub_key : Bytes) where
  -- The keys that the store holds for this chain are the chain's own, below a bound.
  abbrev pub Holds : ℕ → Store → Type 0
  Holds bound s =
      (n : ℕ) (k : Bytes) → find (at pub_key n) s ≡ some k → (k ≡ key_at c chain n) × (n < bound)

  -- The ratchet is receiving on the chain that starts at `chain` under the peer key `pub_key`.
  pub record Follows (r : Ratchet) : Type 0 where
    pub key : r.receive_key ≡ some pub_key
    pub here : r.receive_chain ≡ some (chain_at c chain r.receive_count)
    pub holds : Holds r.receive_count r.store

  Holds-mono : (m n : ℕ) (s : Store) → m ≤ n → Holds m s → Holds n s
  Holds-mono m n s le h = λ i k e. ((h i k e).0, omega (arith, (h i k e).1))

  remember-Holds :
      (n : ℕ) (here : Bytes) (s : Store)
      → here ≡ chain_at c chain n
      → Holds n s
      → Holds (suc n) (remember (at pub_key n) (message_key_of c here) s)
  remember-Holds n here s e h i k f =
      elim (remember_sound (at pub_key n) (at pub_key i) (message_key_of c here) s k f) [
        | inl (same, v) ↦
            let j : n ≡ i = ap (λ t. t.n) same in
            (sym v ∙ ap (message_key_of c) (e ∙ ap (chain_at c chain) j), omega arith)
        | inr old ↦ ((h i k old).0, omega (arith, (h i k old).1))
      ]

  put_away-Holds :
      (f n m : ℕ) (here : Bytes) (s : Store)
      → n + f ≡ m
      → here ≡ chain_at c chain n
      → Holds n s
      → Holds m (put_away c pub_key here f n s)
  unfolding put_away chain_at
  put_away-Holds zero n m here s e g h = Holds-mono n m s (omega arith) h
  put_away-Holds (suc f) n m here s e g h =
      put_away-Holds f (suc n) m (next_chain_of c here) _ (omega arith) (ap (next_chain_of c) g)
        (remember-Holds n here s g h)

  -- The ratchet after the record at index `n`, not behind, has been received.
  abbrev pub after_receiving : Ratchet → ℕ → Ratchet
  after_receiving r n = record r {
    receive_chain = some (chain_at c chain (suc n));
    store =
        put_away c pub_key (chain_at c chain r.receive_count) (n - r.receive_count) r.receive_count
          r.store;
    receive_count = suc n;
  }

  pub after_receiving-Follows :
      (r : Ratchet) (n : ℕ) → Follows r → r.receive_count ≤ n → Follows (after_receiving r n)
  after_receiving-Follows r n f le = record {
    key = f.key;
    here = refl;
    holds = Holds-mono n (suc n) _ (omega arith) (
        put_away-Holds (n - r.receive_count) r.receive_count n _ r.store (omega arith) refl
          f.holds);
  }

  -- A record at most 1000 ahead gets the key of its index, and the keys before it are put away.
  pub receive_here_ahead :
      (r : Ratchet) (n : ℕ)
      → Follows r
      → r.receive_count ≤ n
      → n - r.receive_count ≤ max_skip
      → n + 1 < 2 ^ 32
      → receive_here c r n ≡ ok (key_at c chain n, after_receiving r n)
  unfolding receive_here chain_at
  receive_here_ahead r n f le gap small =
      let skipped =
        skip_to_lem c n pub_key (chain_at c chain r.receive_count) r f.here f.key le gap
          (omega arith) in
      let reach : r.receive_count + (n - r.receive_count) ≡ n = omega arith in
      let there =
        chain_at-add c chain r.receive_count (n - r.receive_count) ∙ ap (chain_at c chain) reach in
      ground (arith, skipped, there)

  pub receive_held :
      (r : Ratchet) (h : Header) (random k : Bytes)
      → c.is_public_key h.ratchet_pub ≡ true
      → h.ratchet_pub ≡ pub_key
      → find (at pub_key h.n) r.store ≡ some k
      → receive c r h random ≡ (ok (k, some (at pub_key h.n), r), random)
  unfolding receive
  receive_held r h random k p q e = ground arith

  pub receive_not_held :
      (r : Ratchet) (h : Header) (random : Bytes)
      → c.is_public_key h.ratchet_pub ≡ true
      → h.ratchet_pub ≡ pub_key
      → r.receive_key ≡ some pub_key
      → find (at pub_key h.n) r.store ≡ none
      → receive c r h random
        ≡ (do (message_key, r'') ← receive_here c r h.n; ok (message_key, none, r''), random)
  unfolding receive is_new_chain
  receive_not_held r h random p q k e = ground (arith, bytes_beq_iff pub_key h.ratchet_pub)

  pub receive_here_behind :
      (r : Ratchet) (n : ℕ) → n < r.receive_count → receive_here c r n ≡ err stale_message
  unfolding receive_here
  receive_here_behind r n h = ground arith

  pub receive_here_far :
      (r : Ratchet) (n : ℕ)
      → Follows r
      → r.receive_count + max_skip < n
      → receive_here c r n ≡ err skip_too_large
  unfolding receive_here
  receive_here_far r n f h =
      ground (arith, skip_to_far c n (chain_at c chain r.receive_count) r f.here)

  -- What `receive` says of an accepted record of this chain.
  abbrev pub Accepted : ℕ → Bytes → Ratchet → Type 0
  Accepted n message_key r =
      (message_key ≡ key_at c chain n)
      × Follows r
      × (find (at pub_key n) r.store ≡ none)
      × (n < r.receive_count)

  receive_held-Accepted :
      (r : Ratchet) (n : ℕ) (k : Bytes)
      → Follows r
      → find (at pub_key n) r.store ≡ some k
      → Accepted n k (commit (some (at pub_key n)) r)
  receive_held-Accepted r n k f e = (
    (f.holds n k e).0,
    record {
      key = f.key;
      here = f.here;
      holds =
          λ i w g. f.holds i w (ground (arith, find-forget (at pub_key n) (at pub_key i) r.store));
    },
    ground (arith, find-forget (at pub_key n) (at pub_key n) r.store, eq_refl (at pub_key n)),
    (f.holds n k e).1,
  )

  pub not_held : (r : Ratchet) (n : ℕ) → Holds n r.store → find (at pub_key n) r.store ≡ none
  not_held r n h = elim (Option-cases (find (at pub_key n) r.store)) [
    | inl e ↦ e
    | inr (k, e) ↦ absurd (omega (arith, (h n k e).1))
  ]

  after_receiving-Accepted :
      (r : Ratchet) (n : ℕ)
      → Follows r
      → r.receive_count ≤ n
      → Accepted n (key_at c chain n) (after_receiving r n)
  after_receiving-Accepted r n f le = (
    refl,
    after_receiving-Follows r n f le,
    not_held (after_receiving r n) n (
        put_away-Holds (n - r.receive_count) r.receive_count n _ r.store (omega arith) refl
          f.holds),
    omega arith,
  )

  -- What is accepted on the running chain was at most 1000 ahead.
  pub receive_here_sound :
      (r r' : Ratchet) (n : ℕ) (mk : Bytes)
      → Follows r
      → n + 1 < 2 ^ 32
      → receive_here c r n ≡ ok (mk, r')
      → (r.receive_count ≤ n) × (mk ≡ key_at c chain n) × (r' ≡ after_receiving r n)
  receive_here_sound r r' n mk f small e = elim (Bool-cases (ltb n r.receive_count)) [
    | inl behind ↦ cc (receive_here_behind r n (ltb→lt n r.receive_count behind))
    | inr level ↦ elim (Bool-cases (ltb (r.receive_count + max_skip) n)) [
      | inl far ↦ cc (receive_here_far r n f (ltb→lt _ n far))
      | inr near ↦
          let le = ltb_false→le n r.receive_count level in
          let same =
            ok-injective (sym e ∙ receive_here_ahead r n f le (omega (tests, near)) small) in
          (le, ap (λ t. t.0) same, ap (λ t. t.1) same)
    ]
  ]

  -- Every record of the chain that is accepted, early, late or in order, gets the key that its index
  -- has in the sender's chain; the key is then gone, and the ratchet still follows the chain.
  pub receive-Accepted :
      (r r' : Ratchet) (h : Header) (random mk : Bytes) (from : Option SkippedKey)
      → Follows r
      → c.is_public_key h.ratchet_pub ≡ true
      → h.ratchet_pub ≡ pub_key
      → h.n + 1 < 2 ^ 32
      → (receive c r h random).0 ≡ ok (mk, from, r')
      → Accepted h.n mk (commit from r')
  receive-Accepted r r' h random mk from f p q small e =
      elim (Option-cases (find (at pub_key h.n) r.store)) [
        | inr (k, held) ↦
            let same =
              ok-injective (sym (ap (λ t. t.0) (receive_held r h random k p q held)) ∙ e) in
            subst (λ t. Accepted h.n t.0 (commit t.1 t.2)) same
              (receive_held-Accepted r h.n k f held)
        | inl missing ↦
            let steps = ap (λ t. t.0) (receive_not_held r h random p q f.key missing) in
            let ((k, r''), got, same) = >>=-eq-ok (receive_here c r h.n) _ (sym steps ∙ e) in
            let (le, key, next) = receive_here_sound r r'' h.n k f small got in
            subst (λ t. Accepted h.n t.0 (commit t.1 t.2)) (ok-injective same)
              (subst (λ t. Accepted h.n t r'') (sym key)
                (subst (Accepted h.n (key_at c chain h.n)) (sym next)
                  (after_receiving-Accepted r h.n f le)))
      ]
