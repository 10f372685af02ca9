-- ===== src/E2ee/Session/Roundtrip.antt =====
-- A record that one side encrypts is decrypted by the side that follows its chain.
use cmd_chat.Prelude.{
  length, take, drop, length-append, take-append, drop-append, length-take, ◌>>=◌, ok-injective,
  nat_eq, bytes_eq, Bytes, ok, ℕ, ◌+◌, ◌^◌, ◌≤◌, ◌<◌, ◌≡◌, refl, sym, ap, ◌∙◌, true, false, none,
  [], ◌++◌, arith,
}
use cmd_chat.E2ee.Crypto.{Crypto, CryptoLaws}
use cmd_chat.E2ee.Padding.{pad, unpad-pad, length-pad}
use cmd_chat.E2ee.Header.{Header, Fits, header_size, encode, length-encode, decode_header-encode}
use cmd_chat.E2ee.Ratchet.Skipped.{find}
use cmd_chat.E2ee.Ratchet.Skipping.{key_at}
use cmd_chat.E2ee.Ratchet.Delivery.{
  at, Follows, after_receiving, after_receiving-Follows, receive_here_ahead, receive_not_held,
  not_held,
}
use cmd_chat.E2ee.Ratchet.Agreement.{Sends, next-Sends}
use cmd_chat.E2ee.Ratchet.{
  Ratchet, max_skip, version_2, key_size, label_message_keys, message_keys, receive, receive_here,
}
use cmd_chat.E2ee.Session.{
  Session, tag_size, encrypt, decrypt, settle, adopt, parse_record, open_record, aead_key,
  additional_data,
}

module _ (c : Crypto) (laws : CryptoLaws c) where
  -- The AEAD key and nonce of a message key exist, and the key has the length that `aead` wants.
  pub message_keys_total :
      (mk : Bytes)
      → (key nonce : Bytes) × (message_keys c mk ≡ ok (key, nonce)) × (aead_key key ≡ ok key)
  unfolding message_keys aead_key
  message_keys_total mk =
      let (out, e) = laws.hkdf-total mk [] label_message_keys 44 (omega arith) in
      let size : length out ≡ 44 = laws.length-hkdf mk [] label_message_keys 44 e in
      (take key_size out, drop key_size out, rw e, ground (arith, length-take 32 out))

  pub open_record-seal :
      (s : Session) (mk key nonce header_bytes p : Bytes)
      → message_keys c mk ≡ ok (key, nonce)
      → aead_key key ≡ ok key
      → open_record c s mk header_bytes (c.seal key nonce (pad p) (additional_data s header_bytes))
        ≡ ok p
  unfolding open_record
  open_record-seal s mk key nonce header_bytes p e f =
      ground
        (arith, laws.unseal-seal key nonce (pad p) (additional_data s header_bytes), unpad-pad p)

  pub parse_record-append :
      (s : Session) (h : Header) (body : Bytes)
      → s.closed ≡ false
      → Fits h
      → h.version ≡ version_2
      → tag_size ≤ length body
      → parse_record c s (encode h ++ body) ≡ ok h
  unfolding parse_record
  parse_record-append s h body o fits v size = ground (
    arith,
    length-encode h fits,
    length-append (encode h) body,
    take-append 41 (encode h) body (length-encode h fits),
    decode_header-encode h fits,
  )

  pub accepted_key :
      (r : Ratchet) (h : Header) {pub_key : Bytes}
      → h.ratchet_pub ≡ pub_key
      → c.public_key r.send_key ≡ pub_key
      → c.is_public_key h.ratchet_pub ≡ true
  accepted_key r h e f = ap c.is_public_key (e ∙ sym f) ∙ laws.public_key-accepted r.send_key

  received :
      (chain pub_key : Bytes) (r : Ratchet) (h : Header) (n : ℕ) (random : Bytes)
      → Follows c chain pub_key r
      → h.ratchet_pub ≡ pub_key
      → h.n ≡ n
      → c.is_public_key h.ratchet_pub ≡ true
      → r.receive_count ≤ n
      → n ≤ r.receive_count + max_skip
      → n + 1 < 2 ^ 32
      → receive c r h random
        ≡ (ok (key_at c chain n, none, after_receiving c chain pub_key r n), random)
  received chain pub_key r h n random f same index p level near small =
      let missing : find (at pub_key h.n) r.store ≡ none =
        not_held c chain pub_key r h.n
          (λ i k g. ((f.holds i k g).0, omega (arith, (f.holds i k g).1, index))) in
      let here : receive_here c r h.n ≡ ok (key_at c chain n, after_receiving c chain pub_key r n) =
        ap (receive_here c r) index
        ∙ receive_here_ahead c chain pub_key r n f level (omega arith) small in
      receive_not_held c chain pub_key r h random p same f.key missing
      ∙ ap (λ m. (m >>= λ t. ok (t.0, none, t.1), random)) here

  pub same_data :
      (a b : Session) (header_bytes : Bytes)
      → a.associated ≡ b.associated
      → additional_data a header_bytes ≡ additional_data b header_bytes
  unfolding additional_data
  same_data a b header_bytes e = ap (λ t. t ++ header_bytes) e

  decrypt_steps :
      (s : Session) (text random left p mk : Bytes) (now : ℕ) (h : Header) (r : Ratchet)
      → parse_record c s text ≡ ok h
      → receive c s.ratchet h random ≡ (ok (mk, none, r), left)
      → r.steps ≡ s.ratchet.steps
      → open_record c s mk (take header_size text) (drop header_size text) ≡ ok p
      → decrypt c s text now random ≡ (ok p, record s { ratchet = r }, left)
  unfolding decrypt settle adopt
  decrypt_steps s text random left p mk now h r e f same o = ground arith

  -- The sender at one end of a chain and the receiver at the other.
  pub record Linked (chain pub_key : Bytes) (a b : Session) : Type 0 where
    pub sends : Sends c chain pub_key a.ratchet
    pub follows : Follows c chain pub_key b.ratchet
    pub tag : a.associated ≡ b.associated
    pub open_here : a.closed ≡ false
    pub open_there : b.closed ≡ false
    pub previous : a.ratchet.previous_sent < 2 ^ 32

  -- What a linked sender encrypts the linked receiver decrypts, also when up to 1000 records before it
  -- are still on their way; the two ends stay linked.
  pub decrypt-encrypt :
      (chain pub_key : Bytes) (a b : Session) (p random : Bytes) (now : ℕ)
      → Linked chain pub_key a b
      → a.ratchet.send_count + 1 < 2 ^ 32
      → b.ratchet.receive_count ≤ a.ratchet.send_count
      → a.ratchet.send_count ≤ b.ratchet.receive_count + max_skip
      → (text : Bytes) × (a' b' : Session) × (encrypt c a p ≡ ok (text, a'))
        × (decrypt c b text now random ≡ (ok p, b', random))
        × Linked chain pub_key a' b'
        × (b'.ratchet.receive_count ≡ a'.ratchet.send_count)
  unfolding encrypt
  decrypt-encrypt chain pub_key a b p random now link small level near =
      let n = a.ratchet.send_count in
      let (h, r, e, same, index, version, pn, sends, one, kept) =
        next-Sends c chain pub_key a.ratchet link.sends small in
      let (key, nonce, k, l) = message_keys_total (key_at c chain n) in
      let body = c.seal key nonce (pad p) (additional_data a (encode h)) in
      let fits : Fits h = record {
        key_length =
            ap length (same ∙ sym link.sends.key) ∙ laws.length-public_key a.ratchet.send_key;
        pn_word = omega (arith, link.previous, pn);
        n_word = omega (arith, index);
      } in
      let size : tag_size ≤ length body =
        omega (arith, laws.length-seal key nonce (pad p) (additional_data a (encode h))) in
      let parsed = parse_record-append b h body link.open_there fits version size in
      let got =
        received chain pub_key b.ratchet h n random link.follows same index
          (accepted_key a.ratchet h same link.sends.key) level near small in
      let opened = open_record-seal b (key_at c chain n) key nonce (encode h) p k l in
      let cut : body ≡ c.seal key nonce (pad p) (additional_data b (encode h)) =
        ap (c.seal key nonce (pad p)) (same_data a b (encode h) link.tag) in
      let opened' : open_record c b (key_at c chain n) (take header_size (encode h ++ body))
            (drop header_size (encode h ++ body))
          ≡ ok p =
        rw
          (
            take-append header_size (encode h) body (length-encode h fits),
            drop-append header_size (encode h) body (length-encode h fits),
          )
          (ap (open_record c b (key_at c chain n) (encode h)) cut ∙ opened) in
      (
        encode h ++ body,
        record a { ratchet = r; sent_since_step = a.sent_since_step + 1 },
        record b { ratchet = after_receiving c chain pub_key b.ratchet n },
        ground (arith, link.open_here, e, k, l),
        decrypt_steps b (encode h ++ body) random random p (key_at c chain n) now h _ parsed got
            refl opened',
        record {
          sends = sends;
          follows = after_receiving-Follows c chain pub_key b.ratchet n link.follows level;
          tag = link.tag;
          open_here = link.open_here;
          open_there = link.open_there;
          previous = omega (arith, kept, link.previous);
        },
        omega (arith, one),
      )

  -- A record is at most 313 bytes longer than its text.
  pub encrypt-length :
      (chain pub_key : Bytes) (a b a' : Session) (p text : Bytes)
      → Linked chain pub_key a b
      → a.ratchet.send_count + 1 < 2 ^ 32
      → encrypt c a p ≡ ok (text, a')
      → length text ≤ length p + 313
  unfolding encrypt
  encrypt-length chain pub_key a b a' p text link small came =
      let n = a.ratchet.send_count in
      let (h, r, e, same, index, version, pn, sends, one, kept) =
        next-Sends c chain pub_key a.ratchet link.sends small in
      let (key, nonce, k, l) = message_keys_total (key_at c chain n) in
      let body = c.seal key nonce (pad p) (additional_data a (encode h)) in
      let fits : Fits h = record {
        key_length =
            ap length (same ∙ sym link.sends.key) ∙ laws.length-public_key a.ratchet.send_key;
        pn_word = omega (arith, link.previous, pn);
        n_word = omega (arith, index);
      } in
      let made : encrypt c a p
          ≡ ok (
            encode h ++ body,
            record a { ratchet = r; sent_since_step = a.sent_since_step + 1 },
          ) =
        ground (arith, link.open_here, e, k, l) in
      let record_is : encode h ++ body ≡ text =
        ap (λ (t : Bytes × Session). t.0) (ok-injective (sym made ∙ came)) in
      omega (
        arith,
        ap length record_is,
        length-append (encode h) body,
        length-encode h fits,
        laws.length-seal key nonce (pad p) (additional_data a (encode h)),
        length-pad p,
      )
