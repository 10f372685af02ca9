-- ===== src/E2ee/Ratchet/Keeps.antt =====
-- `receive` keeps the store of skipped keys valid.
use cmd_chat.Prelude.{
  ltb, Bool-cases, Option-cases, >>=-eq-ok, refuse_if-eq-ok, ok-injective, Result-cases, nat_eq,
  bytes_eq, Bytes, ok, ℕ, zero, suc, ◌-◌, ◌≡◌, refl, sym, subst, ◌∙◌, ◌⊎◌, inl, inr, Option, arith,
}
use cmd_chat.E2ee.Crypto.{Crypto}
use cmd_chat.E2ee.Header.{Header}
use cmd_chat.E2ee.Ratchet.Skipped.{SkippedKey, find}
use cmd_chat.E2ee.Ratchet.Skipped.Bounds.{IsValid, remember-IsValid}
use cmd_chat.E2ee.Ratchet.Agreement.{step_send-Started}
use cmd_chat.E2ee.Ratchet.{
  Ratchet, next_chain_of, chain_bytes, skip_one, skip_loop, skip_to, step_receive, step_send, step,
  turn, is_new_chain, receive_here, receive,
}

module _ (c : Crypto) where
  skip_loop-IsValid :
      (f target : ℕ) (pub_key chain : Bytes) (r : Ratchet)
      → IsValid r.store
      → IsValid (skip_loop c f target pub_key chain r).store
  unfolding skip_loop skip_one
  skip_loop-IsValid zero target pub_key chain r v = v
  skip_loop-IsValid (suc f) target pub_key chain r v =
      elim (Bool-cases (ltb r.receive_count target)) [
        | inl more ↦ rw more (
            skip_loop-IsValid f target pub_key (next_chain_of c chain) (skip_one c pub_key chain r)
              (remember-IsValid _ _ r.store v))
        | inr done ↦ rw done v
      ]

  skip_to_cases :
      (target : ℕ) (r r' : Ratchet)
      → skip_to c target r ≡ ok r'
      → (r ≡ r')
        ⊎ ((chain : Bytes) × (skip_loop c
                (target - r.receive_count)
                target
                (chain_bytes r.receive_key)
                chain
                r
              ≡ r'))
  unfolding skip_to
  skip_to_cases target r r' h = elim (Option-cases r.receive_chain) [
    | inl e ↦ inl (ground arith)
    | inr (chain, e) ↦ elim (Bool-cases (ltb target r.receive_count)) [
      | inl behind ↦ inl (ground arith)
      | inr ahead ↦ inr (chain, ground arith)
    ]
  ]

  skip_to-IsValid :
      (target : ℕ) (r r' : Ratchet)
      → IsValid r.store
      → skip_to c target r ≡ ok r'
      → IsValid r'.store
  skip_to-IsValid target r r' v h = elim (skip_to_cases target r r' h) [
    | inl same ↦ subst (λ t. IsValid t.store) same v
    | inr (chain, e) ↦
        subst (λ t. IsValid t.store) e
          (skip_loop-IsValid (target - r.receive_count) target (chain_bytes r.receive_key) chain r
            v)
  ]

  step_receive-store :
      (r r' : Ratchet) (peer : Bytes) → step_receive c r peer ≡ ok r' → r'.store ≡ r.store
  unfolding step_receive
  step_receive-store r r' peer h = ground arith

  step-store :
      (r r' : Ratchet) (peer random : Bytes) → (step c r peer random).0 ≡ ok r' → r'.store ≡ r.store
  unfolding step
  step-store r r' peer random h = elim (Result-cases (step_receive c r peer)) [
    | inl (e, f) ↦ ground arith
    | inr (m, f) ↦
        let sent : (step_send c m peer random).0 ≡ ok r' = ground arith in
        let (_, _, _, kept, _, _) = step_send-Started c m r' peer random sent in
        kept ∙ step_receive-store r m peer f
  ]

  turn-IsValid :
      (r r' : Ratchet) (h : Header) (random : Bytes)
      → IsValid r.store
      → (turn c r h random).0 ≡ ok r'
      → IsValid r'.store
  unfolding turn
  turn-IsValid r r' h random v e = elim (Result-cases (skip_to c h.pn r)) [
    | inl (x, f) ↦ ground arith
    | inr (m, f) ↦
        let stepped : (step c m h.ratchet_pub random).0 ≡ ok r' = ground arith in
        subst IsValid (sym (step-store m r' h.ratchet_pub random stepped))
          (skip_to-IsValid h.pn r m v f)
  ]

  receive_here-IsValid :
      (r r' : Ratchet) (n : ℕ) (mk : Bytes)
      → IsValid r.store
      → receive_here c r n ≡ ok (mk, r')
      → IsValid r'.store
  unfolding receive_here
  receive_here-IsValid r r' n mk v e =
      let (_, e') = refuse_if-eq-ok (ltb n r.receive_count) _ _ e in
      let (m, f, g) = >>=-eq-ok (skip_to c n r) _ e' in
      subst (λ t. IsValid t.1.store) (ok-injective g) (skip_to-IsValid n r m v f)

  receive_parts :
      (r r' : Ratchet) (h : Header) (random mk : Bytes) (from : Option SkippedKey)
      → (receive c r h random).0 ≡ ok (mk, from, r')
      → (r ≡ r')
        ⊎ ((m : Ratchet) × ((r ≡ m) ⊎ ((turn c r h random).0 ≡ ok m))
            × (receive_here c m h.n ≡ ok (mk, r')))
  unfolding receive
  receive_parts r r' h random mk from e = elim (Bool-cases (c.is_public_key h.ratchet_pub)) [
    | inr bad ↦ ground arith
    | inl good ↦
        elim (Option-cases (find (record { ratchet_pub = h.ratchet_pub; n = h.n }) r.store)) [
          | inr (k, f) ↦ inl (ground arith)
          | inl f ↦ elim (Bool-cases (is_new_chain c r h.ratchet_pub)) [
            | inr old ↦ inr (r, inl refl, ground arith)
            | inl new ↦ elim (Result-cases (turn c r h random).0) [
              | inl (x, g) ↦ ground arith
              | inr (m, g) ↦ inr (m, inr g, ground arith)
            ]
          ]
        ]
  ]

  -- An accepted record leaves a valid store.
  pub receive-IsValid :
      (r : Ratchet) (h : Header) (random mk : Bytes) (from : Option SkippedKey) (r' : Ratchet)
      → IsValid r.store
      → (receive c r h random).0 ≡ ok (mk, from, r')
      → IsValid r'.store
  receive-IsValid r h random mk from r' v e = elim (receive_parts r r' h random mk from e) [
    | inl same ↦ subst (λ t. IsValid t.store) same v
    | inr (m, before, here) ↦
        let w : IsValid m.store = elim before [
          | inl same ↦ subst (λ t. IsValid t.store) same v
          | inr turned ↦ turn-IsValid r m h random v turned
        ] in
        receive_here-IsValid m r' h.n mk w here
  ]
