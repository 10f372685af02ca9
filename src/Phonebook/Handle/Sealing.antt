-- ===== src/Phonebook/Handle/Sealing.antt =====
-- Sealed entries: what is sealed for an ID opens under it, and only an entry of that ID does.
use cmd_chat.Prelude.{
  ltb, ltb_false→le, le→ltb_false, length, take, drop, length-append, take-append, drop-append,
  length-take, or_fail, >>=-eq-ok, refuse_if-eq-ok, or_fail-eq-ok, ok-injective, bytes_beq,
  bytes_beq_iff, nat_eq, bytes_eq, Bytes, ok, ◌+◌, ◌≤◌, ◌≡◌, refl, sym, ap, subst, ◌∙◌, not, some,
  ◌++◌, arith,
}
use cmd_chat.E2ee.Crypto.{Crypto}
use cmd_chat.Phonebook.Handle.{
  Entry, Libraries, max_sealed_bytes, nonce_size_x, associated_data, entry_key, seal, open_entry,
  local_fault, sealed_too_large, not_base64, truncated, oversized, unopened, not_a_record,
  names_other,
}

-- What the libraries promise.
pub record LibraryLaws (l : Libraries) : Type 0 where
  pub open_x-seal_x : (k n p ad : Bytes) → l.open_x k n (l.seal_x k n p ad) ad ≡ some p
  pub length-seal_x : (k n p ad : Bytes) → length (l.seal_x k n p ad) ≡ length p + 16
  pub base64_decode-base64 : (b : Bytes) → l.base64_decode (l.base64 b) ≡ some b

-- JSON carries an entry.
abbrev pub IsCarried : Libraries → Entry → Type 0
IsCarried l e = (p : Bytes) → l.marshal_entry e ≡ some p → l.unmarshal_entry p ≡ some e

module _ (c : Crypto) (l : Libraries) where
  -- How an entry was opened.
  pub record IsOpened (id handle encoded : Bytes) (e : Entry) : Type 0 where
    pub raw : Bytes
    pub key : Bytes
    pub plaintext : Bytes
    pub decoded : l.base64_decode encoded ≡ some raw
    pub bounded : (nonce_size_x + 16 ≤ length raw) × (length raw ≤ max_sealed_bytes)
    pub keyed : entry_key c l id ≡ ok key
    pub opened :
        l.open_x key (take nonce_size_x raw) (drop nonce_size_x raw) (associated_data handle)
        ≡ some plaintext
    pub parsed : l.unmarshal_entry plaintext ≡ some e
    pub named : e.id ≡ id

  pub open_entry_sound :
      (id handle encoded : Bytes) {e : Entry}
      → open_entry c l id handle encoded ≡ ok e
      → IsOpened id handle encoded e
  unfolding open_entry
  open_entry_sound id handle encoded {e} h =
      let (raw, e1, h1) = >>=-eq-ok (or_fail (l.base64_decode encoded) not_base64) _ h in
      let (long, h2) = refuse_if-eq-ok (ltb (length raw) (nonce_size_x + 16)) truncated _ h1 in
      let (short, h3) = refuse_if-eq-ok (ltb max_sealed_bytes (length raw)) oversized _ h2 in
      let (key, e4, h4) = >>=-eq-ok (entry_key c l id) _ h3 in
      let (plaintext, e5, h5) =
        >>=-eq-ok
          (or_fail
            (l.open_x key (take nonce_size_x raw) (drop nonce_size_x raw) (associated_data handle))
            unopened)
          _ h4 in
      let (found, e6, h6) = >>=-eq-ok (or_fail (l.unmarshal_entry plaintext) not_a_record) _ h5 in
      let (same, h7) = refuse_if-eq-ok (not (bytes_beq found.id id)) names_other _ h6 in
      let found_is : found ≡ e = ok-injective h7 in
      record {
        raw = raw;
        key = key;
        plaintext = plaintext;
        decoded = or_fail-eq-ok (l.base64_decode encoded) not_base64 e1;
        bounded =
            (ltb_false→le (length raw) 40 long, ltb_false→le max_sealed_bytes (length raw) short);
        keyed = e4;
        opened =
            or_fail-eq-ok
              (l.open_x key (take nonce_size_x raw) (drop nonce_size_x raw)
                (associated_data handle))
              unopened e5;
        parsed = or_fail-eq-ok (l.unmarshal_entry plaintext) not_a_record e6 ∙ ap some found_is;
        named =
            ap (λ (x : Entry). x.id) (sym found_is) ∙ (bytes_beq_iff found.id id).0 (ground arith);
      }

  opens :
      (id handle nonce plaintext key : Bytes) (e : Entry)
      → LibraryLaws l
      → IsCarried l e
      → length nonce ≡ nonce_size_x
      → entry_key c l id ≡ ok key
      → l.marshal_entry e ≡ some plaintext
      → length (nonce ++ l.seal_x key nonce plaintext (associated_data handle)) ≤ max_sealed_bytes
      → e.id ≡ id
      → open_entry c l id handle
          (l.base64 (nonce ++ l.seal_x key nonce plaintext (associated_data handle)))
        ≡ ok e
  unfolding open_entry
  opens id handle nonce plaintext key e laws carried size keyed made small named =
      rw
        (
          laws.base64_decode-base64 (nonce ++ box),
          le→ltb_false (length (nonce ++ box)) 40 (
              omega (
                arith,
                length-append nonce box,
                size,
                laws.length-seal_x key nonce plaintext (associated_data handle),
              )),
          le→ltb_false max_sealed_bytes (length (nonce ++ box)) small,
          keyed,
          take-append nonce_size_x nonce box size,
          drop-append nonce_size_x nonce box size,
          laws.open_x-seal_x key nonce plaintext (associated_data handle),
          carried plaintext made,
          (bytes_beq_iff e.id id).1 named,
        )
        refl
    where
      box : Bytes
      box = l.seal_x key nonce plaintext (associated_data handle)

  -- What is sealed under an ID for a row opens under that ID for that row.
  pub open_entry-seal :
      (id handle random : Bytes) (e : Entry) {encoded : Bytes}
      → LibraryLaws l
      → IsCarried l e
      → e.id ≡ id
      → seal c l id handle e random ≡ ok encoded
      → open_entry c l id handle encoded ≡ ok e
  unfolding seal
  open_entry-seal id handle random e {encoded} laws carried named h =
      let (plaintext, e1, h1) = >>=-eq-ok (or_fail (l.marshal_entry e) local_fault) _ h in
      let (key, e2, h2) = >>=-eq-ok (entry_key c l id) _ h1 in
      let (enough, h3) = refuse_if-eq-ok (ltb (length random) nonce_size_x) local_fault _ h2 in
      let nonce = take nonce_size_x random in
      let box = l.seal_x key nonce plaintext (associated_data handle) in
      let (small, h4) =
        refuse_if-eq-ok (ltb max_sealed_bytes (length (nonce ++ box))) sealed_too_large _ h3 in
      subst (λ text. open_entry c l id handle text ≡ ok e) (ok-injective h4)
        (opens id handle nonce plaintext key e laws carried
          (length-take 24 random ∙ omega (arith, ltb_false→le (length random) 24 enough)) e2
          (or_fail-eq-ok (l.marshal_entry e) local_fault e1)
          (ltb_false→le max_sealed_bytes (length (nonce ++ box)) small) named)
