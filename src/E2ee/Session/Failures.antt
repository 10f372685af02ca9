-- ===== src/E2ee/Session/Failures.antt =====
-- What any record, refused or accepted, keeps of the session's store of skipped keys.
use cmd_chat.Prelude.{
  take, drop, Result-cases, Result, nat_eq, bytes_eq, Bytes, ok, err, ℕ, ◌≡◌, refl, inl, inr,
  Option, none, some, arith,
}
use cmd_chat.E2ee.Wire.{Error}
use cmd_chat.E2ee.Crypto.{Crypto}
use cmd_chat.E2ee.Header.{header_size}
use cmd_chat.E2ee.Ratchet.Skipped.{SkippedKey, skipped_key_eq}
use cmd_chat.E2ee.Ratchet.Skipped.Bounds.{IsValid, forget-IsValid}
use cmd_chat.E2ee.Ratchet.{Ratchet, receive}
use cmd_chat.E2ee.Ratchet.Keeps.{receive-IsValid}
use cmd_chat.E2ee.Session.{Session, decrypt, settle, adopt, parse_record, open_record}

module _ (c : Crypto) where
  adopt-IsValid :
      (s : Session) (r : Ratchet) (from : Option SkippedKey) (now : ℕ)
      → IsValid r.store
      → IsValid (adopt c s r from now).ratchet.store
  unfolding adopt
  adopt-IsValid s r none now v = ground arith
  adopt-IsValid s r (some k) now v = ground (arith, forget-IsValid k r.store v)

  settle-IsValid :
      (s : Session) (text : Bytes) (now : ℕ)
      (outcome : Result Error (Bytes × Option SkippedKey × Ratchet))
      → IsValid s.ratchet.store
      → ((mk : Bytes) (from : Option SkippedKey) (r : Ratchet)
          → outcome ≡ ok (mk, from, r)
          → IsValid r.store)
      → IsValid (settle c s text now outcome).1.ratchet.store
  unfolding settle
  settle-IsValid s text now (err e) v f = v
  settle-IsValid s text now (ok (mk, from, r)) v f =
      elim (Result-cases (open_record c s mk (take header_size text) (drop header_size text))) [
        | inl (e, h) ↦ rw (h, settle) v
        | inr (p, h) ↦ rw (h, settle) (adopt-IsValid s r from now (f mk from r refl))
      ]

  -- Whatever arrives, the store of skipped keys stays bounded and consistent.
  pub decrypt-IsValid :
      (s : Session) (text random : Bytes) (now : ℕ)
      → IsValid s.ratchet.store
      → IsValid (decrypt c s text now random).1.ratchet.store
  unfolding decrypt
  decrypt-IsValid s text random now v = elim (Result-cases (parse_record c s text)) [
    | inl (e, h) ↦ rw (h, decrypt) v
    | inr (h, p) ↦
        rw (p, decrypt)
          (settle-IsValid s text now (receive c s.ratchet h random).0 v
            (λ mk from r e. receive-IsValid c s.ratchet h random mk from r v e))
  ]
