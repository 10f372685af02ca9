-- ===== src/E2ee/Ratchet/Replay.antt =====
-- A record is accepted once: replays on a running chain, and whole histories of arrivals.
use cmd_chat.Prelude.{
  Option-cases, All, ◌>>=◌, >>=-eq-ok, ok-injective, Result-cases, Result, nat_eq, bytes_eq, Bytes,
  ok, err, ℕ, zero, suc, ◌+◌, ◌-◌, ◌^◌, ◌<◌, ◌≡◌, refl, sym, ap, subst, ◌∙◌, ◌≢◌, inl, inr, true,
  false, Option, none, List, [], ◌∷◌, ◌++◌, map, arith,
}
use cmd_chat.E2ee.Wire.{Error, stale_message}
use cmd_chat.E2ee.Crypto.{Crypto}
use cmd_chat.E2ee.Header.{Header}
use cmd_chat.E2ee.Ratchet.Skipped.{Store, SkippedKey, remember, find, skipped_key_eq}
use cmd_chat.E2ee.Ratchet.Skipped.Bounds.{has, Distinct, find-forget}
use cmd_chat.E2ee.Ratchet.Skipped.Sound.{remember_sound}
use cmd_chat.E2ee.Ratchet.Skipping.{key_at, put_away}
use cmd_chat.E2ee.Ratchet.Delivery.{
  at, commit, Follows, receive-Accepted, receive_not_held, receive_held, receive_here_behind,
  receive_here_sound,
}
use cmd_chat.E2ee.Ratchet.{Ratchet, message_key_of, next_chain_of, receive_here, receive}

module _ (c : Crypto) (chain : Bytes) (pub_key : Bytes) where
  -- The index is behind the chain, and its key is no longer held.
  abbrev pub IsSpent : ℕ → Ratchet → Type 0
  IsSpent n r = (find (at pub_key n) r.store ≡ none) × (n < r.receive_count)

  -- A header of this chain, with an index that a sender can use.
  pub record IsOurs (h : Header) : Type 0 where
    pub point : c.is_public_key h.ratchet_pub ≡ true
    pub same : h.ratchet_pub ≡ pub_key
    pub usable : h.n + 1 < 2 ^ 32

  -- A record whose index is spent is refused as stale.
  pub receive_spent :
      (r : Ratchet) (h : Header) (random : Bytes)
      → Follows c chain pub_key r
      → IsOurs h
      → IsSpent h.n r
      → (receive c r h random).0 ≡ err stale_message
  receive_spent r h random f o (gone, lt) =
      ap (λ t. t.0) (receive_not_held c chain pub_key r h random o.point o.same f.key gone)
      ∙ ap (λ m. m >>= λ t. ok (t.0, none, t.1)) (receive_here_behind c chain pub_key r h.n lt)

  put_away_spent :
      (f start n : ℕ) (here : Bytes) (s : Store)
      → n < start
      → find (at pub_key n) s ≡ none
      → find (at pub_key n) (put_away c pub_key here f start s) ≡ none
  unfolding put_away
  put_away_spent zero start n here s lt e = e
  put_away_spent (suc f) start n here s lt e =
      put_away_spent f (suc start) n (next_chain_of c here) _ (omega arith) kept
    where
      kept : find (at pub_key n) (remember (at pub_key start) (message_key_of c here) s) ≡ none
      kept =
          elim (Option-cases
            (find (at pub_key n) (remember (at pub_key start) (message_key_of c here) s))) [
              | inl g ↦ g
              | inr (w, g) ↦
                  elim (remember_sound (at pub_key start) (at pub_key n) (message_key_of c here) s w
                    g) [ inl (same, _) ↦ absurd (omega (arith, ap (λ t. t.n) same)) | inr old ↦ cc ]
            ]

  -- What is spent stays spent, whatever else is accepted.
  pub receive-IsSpent :
      (r r' : Ratchet) (h : Header) (random mk : Bytes) (from : Option SkippedKey) (n : ℕ)
      → Follows c chain pub_key r
      → IsOurs h
      → IsSpent n r
      → (receive c r h random).0 ≡ ok (mk, from, r')
      → IsSpent n (commit from r')
  receive-IsSpent r r' h random mk from n f o (gone, lt) e =
      elim (Option-cases (find (at pub_key h.n) r.store)) [
        | inr (k, held) ↦
            let same = ok-injective (
              sym (ap (λ t. t.0) (receive_held c chain pub_key r h random k o.point o.same held))
              ∙ e) in
            subst (λ t. IsSpent n (commit t.1 t.2)) same
              (ground (arith, find-forget (at pub_key h.n) (at pub_key n) r.store), lt)
        | inl missing ↦
            let steps =
              ap (λ t. t.0)
                (receive_not_held c chain pub_key r h random o.point o.same f.key missing) in
            let ((k, r''), got, same) = >>=-eq-ok (receive_here c r h.n) _ (sym steps ∙ e) in
            let (le, key, next) = receive_here_sound c chain pub_key r r'' h.n k f o.usable got in
            subst (λ t. IsSpent n (commit t.1 t.2)) (ok-injective same)
              (subst (IsSpent n) (sym next) (
                put_away_spent (h.n - r.receive_count) r.receive_count n _ r.store lt gone,
                omega arith,
              ))
      ]

  -- One arrival: the ratchet as the session commits it, and the log of index and key.
  abbrev pub arrive :
      Result Error (Bytes × Option SkippedKey × Ratchet) → ℕ → Ratchet → Ratchet × List (ℕ × Bytes)
  arrive (ok (mk, from, r')) n r = (commit from r', (n, mk) ∷ [])
  arrive (err e) n r = (r, [])

  -- A history of arrivals of records of this chain, in any order and with any repetitions: the index
  -- and the key of each record that is accepted.
  unfoldable pub arrivals : Ratchet → List Header → Bytes → List (ℕ × Bytes)
  arrivals r [] random = []
  arrivals r (h ∷ hs) random =
      let (r', log) = arrive (receive c r h random).0 h.n r in
      log ++ arrivals r' hs (receive c r h random).1

  abbrev pub indices : List (ℕ × Bytes) → List ℕ
  indices = map (λ t. t.0)

  -- What is accepted was not spent.
  not_spent_index :
      (r r' : Ratchet) (h : Header) (random mk : Bytes) (from : Option SkippedKey) (n : ℕ)
      → Follows c chain pub_key r
      → IsOurs h
      → IsSpent n r
      → (receive c r h random).0 ≡ ok (mk, from, r')
      → h.n ≢ n
  not_spent_index r r' h random mk from n f o s e same =
      cc (receive_spent r h random f o (subst (λ k. IsSpent k r) (sym same) s))

  -- A spent index does not turn up in what follows.
  arrivals_spent :
      (hs : List Header) (r : Ratchet) (random : Bytes) (n : ℕ)
      → Follows c chain pub_key r
      → All IsOurs hs
      → IsSpent n r
      → has n (indices (arrivals r hs random)) ≡ false
  unfolding arrivals
  arrivals_spent [] r random n f o s = refl
  arrivals_spent (h ∷ hs) r random n f o s = elim (Result-cases (receive c r h random).0) [
    | inl (e, refused) ↦ rw (refused, arrive) (arrivals_spent hs r _ n f o.1 s)
    | inr ((mk, from, r'), got) ↦
        let (key, f', gone, behind) =
          receive-Accepted c chain pub_key r r' h random mk from f o.0.point o.0.same o.0.usable
            got in
        let rest =
          arrivals_spent hs (commit from r') (receive c r h random).1 n f' o.1
            (receive-IsSpent r r' h random mk from n f o.0 s got) in
        rw (got, arrive) (ground (arith, rest, not_spent_index r r' h random mk from n f o.0 s got))
  ]

  -- Over any history no index is accepted twice, and each accepted record gets the key of its index.
  pub arrivals_once :
      (hs : List Header) (r : Ratchet) (random : Bytes)
      → Follows c chain pub_key r
      → All IsOurs hs
      → Distinct (indices (arrivals r hs random))
        × All (λ t. t.1 ≡ key_at c chain t.0) (arrivals r hs random)
  unfolding arrivals
  arrivals_once [] r random f o = (tt, tt)
  arrivals_once (h ∷ hs) r random f o = elim (Result-cases (receive c r h random).0) [
    | inl (e, refused) ↦ rw (refused, arrive) (arrivals_once hs r _ f o.1)
    | inr ((mk, from, r'), got) ↦
        let (key, f', gone, behind) =
          receive-Accepted c chain pub_key r r' h random mk from f o.0.point o.0.same o.0.usable
            got in
        let rest = arrivals_once hs (commit from r') (receive c r h random).1 f' o.1 in
        let fresh =
          arrivals_spent hs (commit from r') (receive c r h random).1 h.n f' o.1 (gone, behind) in
        rw (got, arrive) ((fresh, rest.0), (key, rest.1))
  ]
