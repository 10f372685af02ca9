-- ===== src/E2ee/Session/Opening.antt =====
-- The first record of a session: the two ends that newSession of internal/e2ee/session.go sets up are
-- linked behind it.
use cmd_chat.Prelude.{
  length, take, drop, length-append, take-append, drop-append, nat_eq, bytes_eq, Bytes, ok, ℕ, ◌+◌,
  ◌≤◌, ◌≡◌, refl, sym, ap, ◌∙◌, false, none, ◌++◌, arith,
}
use cmd_chat.E2ee.Crypto.{Crypto, CryptoLaws}
use cmd_chat.E2ee.Padding.{pad, length-pad}
use cmd_chat.E2ee.Header.{Header, Fits, header_size, encode, length-encode}
use cmd_chat.E2ee.Ratchet.{Ratchet, new_ratchet_initiator, new_ratchet_responder, receive}
use cmd_chat.E2ee.Ratchet.Turning.{CanStep, first_record}
use cmd_chat.E2ee.Session.{
  Session, tag_size, encrypt, decrypt, settle, adopt, parse_record, open_record, additional_data,
}
use cmd_chat.E2ee.Session.Roundtrip.{
  Linked, message_keys_total, open_record-seal, parse_record-append,
}

-- A session as newSession makes it.
abbrev pub opened_with : Ratchet → Bytes → ℕ → Session
opened_with r associated now = record {
  ratchet = r;
  closed = false;
  associated = associated;
  sent_since_step = 0;
  last_step = now;
  steps = 0;
}

adopt-kept :
    (c : Crypto) (s : Session) (r : Ratchet) (now : ℕ)
    → ((adopt c s r none now).ratchet ≡ r)
      × ((adopt c s r none now).associated ≡ s.associated)
      × ((adopt c s r none now).closed ≡ s.closed)
unfolding adopt
adopt-kept c s r now = ground arith

module _ (c : Crypto) (laws : CryptoLaws c) where
  decrypt_turns :
      (s : Session) (text random left p mk : Bytes) (now : ℕ) (h : Header) (r : Ratchet)
      → parse_record c s text ≡ ok h
      → receive c s.ratchet h random ≡ (ok (mk, none, r), left)
      → open_record c s mk (take header_size text) (drop header_size text) ≡ ok p
      → decrypt c s text now random ≡ (ok p, adopt c s r none now, left)
  unfolding decrypt settle
  decrypt_turns s text random left p mk now h r e f o = ground arith

  -- The initiator encrypts the first record of its session, the responder decrypts it, and behind it
  -- the two are linked.
  pub first-Linked :
      (root ephemeral random random' left associated p : Bytes) (a : Ratchet) (now now' later : ℕ)
      → (new_ratchet_initiator c root (c.public_key ephemeral) random).0 ≡ ok a
      → CanStep c laws (c.public_key a.send_key) random' left
      → (text chain : Bytes) × (sa sb : Session) × (encrypt c (opened_with a associated now) p
          ≡ ok (text, sa))
        × (decrypt c
              (opened_with (new_ratchet_responder root ephemeral) associated now')
              text
              later
              random'
            ≡ (ok p, sb, left))
        × Linked c laws chain (c.public_key a.send_key) sa sb
        × (sb.ratchet.receive_count ≡ sa.ratchet.send_count)
        × (length text ≤ length p + 313)
  unfolding encrypt additional_data
  first-Linked root ephemeral random random' left associated p a now now' later ia can =
      let (h, a', b, mk, chain, e, got, sends, follows, level, version, same, pn, index, previous) =
        first_record c laws root ephemeral random random' left a ia can in
      let sa0 = opened_with a associated now in
      let sb0 = opened_with (new_ratchet_responder root ephemeral) associated now' in
      let (key, nonce, k, l) = message_keys_total c laws mk in
      let body = c.seal key nonce (pad p) (additional_data sa0 (encode h)) in
      let fits : Fits h = record {
        key_length = ap length same ∙ laws.length-public_key a.send_key;
        pn_word = omega (arith, pn);
        n_word = omega (arith, index);
      } in
      let size : tag_size ≤ length body =
        omega (arith, laws.length-seal key nonce (pad p) (additional_data sa0 (encode h))) in
      let parsed = parse_record-append c laws sb0 h body refl fits version size in
      let opened : open_record c sb0 mk (take header_size (encode h ++ body))
            (drop header_size (encode h ++ body))
          ≡ ok p =
        rw
          (
            take-append header_size (encode h) body (length-encode h fits),
            drop-append header_size (encode h) body (length-encode h fits),
          )
          (open_record-seal c laws sb0 mk key nonce (encode h) p k l) in
      let (ratchet_is, tag_is, closed_is) = adopt-kept c sb0 b later in
      (
        encode h ++ body,
        chain,
        record sa0 { ratchet = a'; sent_since_step = 1 },
        adopt c sb0 b none later,
        ground (arith, e, k, l),
        decrypt_turns sb0 (encode h ++ body) random' left p mk later h b parsed got opened,
        record {
          sends = sends;
          follows = rw ratchet_is follows;
          tag = sym tag_is;
          open_here = refl;
          open_there = closed_is;
          previous = omega (arith, previous);
        },
        ap (λ (r : Ratchet). r.receive_count) ratchet_is ∙ level,
        omega (
          arith,
          length-append (encode h) body,
          length-encode h fits,
          laws.length-seal key nonce (pad p) (additional_data sa0 (encode h)),
          length-pad p,
        ),
      )
