-- ===== src/E2ee/Auth/Proof.antt =====
-- openAuth of internal/e2ee/handshake.go: what an accepted payload proves, and that an honest one
-- is accepted.
use cmd_chat.Prelude.{
  ltb, ◌==◌, Option-cases, length, take, length-take, length-eq-zero, or_fail, >>=-eq-ok,
  ok-injective, Result-cases, bytes_beq, bytes_beq_iff, nat_eq, bytes_eq, Bytes, ok, ◌≤◌, ◌≡◌, refl,
  sym, ap, ◌⊎◌, inl, inr, Bool, true, false, not, ◌&&◌, ◌||◌, some, [], arith,
}
use cmd_chat.E2ee.Wire.{authentication_failed}
use cmd_chat.E2ee.Crypto.{Crypto, CryptoLaws}
use cmd_chat.E2ee.Session.{aead_key}
use cmd_chat.E2ee.Identity.{derive_id, usable_identity_key}
use cmd_chat.E2ee.Auth.Payload.{
  Fits, decode_auth_payload-encode_auth_payload, length-encode_auth_payload,
}
use cmd_chat.E2ee.Ratchet.{key_size}
use cmd_chat.E2ee.Auth.{
  AuthPayload, PeerInfo, Config, Credentials, encode_auth_payload, decode_auth_payload, context,
  zero_nonce, seal_auth, check_payload, check_plaintext, open_auth, max_id_bytes,
  max_nickname_bytes,
}

module _ (c : Crypto) where
  -- What a peer has shown: its text came under the key, and holds for the identity that the key
  -- derives a signature of the transcript and a confirmation under the MAC key.
  pub record Proven (cfg : Config) (ciphertext key mac_key transcript sig_label mac_label : Bytes)
      (peer : PeerInfo) : Type 0 where
    pub plaintext : Bytes
    pub payload : AuthPayload
    pub opened : c.unseal key zero_nonce ciphertext transcript ≡ some plaintext
    pub decoded : decode_auth_payload plaintext ≡ ok payload
    pub names : (peer.id ≡ payload.id) × (peer.public_key ≡ payload.identity_pub)
    pub bound : (length peer.id ≤ max_id_bytes) × (length peer.nickname ≤ max_nickname_bytes)
    pub usable : usable_identity_key peer.public_key ≡ true
    pub derived : derive_id c peer.public_key ≡ peer.id
    pub signed :
        c.verify peer.public_key
          (context sig_label transcript peer.public_key peer.id)
          payload.signature
        ≡ true
    pub confirmed :
        payload.mac ≡ c.hmac mac_key (context mac_label transcript peer.public_key peer.id)
    pub expected : (cfg.expect_peer_id ≡ []) ⊎ (cfg.expect_peer_id ≡ peer.id)
    pub trusted :
        (authorize : Bytes → Bytes → Bool) × (cfg.trust ≡ some authorize)
        × (authorize peer.id peer.public_key ≡ true)

  -- What the checks of a payload establish.
  check_payload_sound :
      (cfg : Config) (p : AuthPayload) (mac_key transcript sig_label mac_label : Bytes)
      {peer : PeerInfo}
      → check_payload c cfg p mac_key transcript sig_label mac_label ≡ ok peer
      → (plaintext ciphertext key : Bytes)
      → c.unseal key zero_nonce ciphertext transcript ≡ some plaintext
      → decode_auth_payload plaintext ≡ ok p
      → Proven cfg ciphertext key mac_key transcript sig_label mac_label peer
  unfolding check_payload
  check_payload_sound cfg p mac_key transcript sig_label mac_label {peer} h plaintext ct key u d =
      elim (Option-cases cfg.trust) [
        | inl none_here ↦ absurd (ground arith)
        | inr (authorize, trust) ↦
            let e : peer ≡ record {
              id = p.id;
              public_key = p.identity_pub;
              nickname = p.nickname;
              version = 0;
            } =
              ground arith in
            rw e (record {
              plaintext = plaintext;
              payload = p;
              opened = u;
              decoded = d;
              names = (refl, refl);
              bound = ground arith;
              usable = ground arith;
              derived = ground (arith, bytes_beq_iff (derive_id c p.identity_pub) p.id);
              signed = ground arith;
              confirmed = ground (
                arith,
                bytes_beq_iff (c.hmac mac_key (context mac_label transcript p.identity_pub p.id))
                    p.mac,
              );
              expected =
                  ground (
                    arith,
                    length-eq-zero cfg.expect_peer_id,
                    bytes_beq_iff cfg.expect_peer_id p.id,
                  );
              trusted = (authorize, trust, ground arith);
            })
      ]

  -- A peer that openAuth accepts is proven.
  pub open_auth_sound :
      (cfg : Config) (ciphertext key mac_key transcript sig_label mac_label : Bytes)
      {peer : PeerInfo}
      → open_auth c cfg ciphertext key mac_key transcript sig_label mac_label ≡ ok peer
      → Proven cfg ciphertext key mac_key transcript sig_label mac_label peer
  unfolding open_auth check_payload aead_key check_plaintext
  open_auth_sound cfg ct key mac_key transcript sig_label mac_label {peer} h =
      let (key', ek, h1) = >>=-eq-ok (aead_key key) _ h in
      let (plaintext, eo, h2) =
        >>=-eq-ok (or_fail (c.unseal key' zero_nonce ct transcript) authentication_failed) _ h1 in
      elim (Result-cases (decode_auth_payload plaintext)) [
        | inl (e, d) ↦ absurd (ground arith)
        | inr (p, d) ↦
            check_payload_sound cfg p mac_key transcript sig_label mac_label (ground arith)
              plaintext ct key (ground arith) d
      ]

module _ (c : Crypto) (laws : CryptoLaws c) where
  -- The credentials of one who can prove them.
  pub record Honest (k : Credentials) : Type 0 where
    pub sign : Bytes → Bytes
    pub signs : k.sign ≡ some sign
    pub verifies : (m : Bytes) → c.verify k.public_key m (sign m) ≡ true
    pub signature_length : (m : Bytes) → length (sign m) ≡ 64
    pub key_length : length k.public_key ≡ 32
    pub usable : usable_identity_key k.public_key ≡ true
    pub derived : k.id ≡ derive_id c k.public_key
    pub short_nickname : length k.nickname ≤ max_nickname_bytes

  -- Whether a configuration would take a peer.
  pub record Welcomes (cfg : Config) (k : Credentials) : Type 0 where
    pub authorize : Bytes → Bytes → Bool
    pub trust : cfg.trust ≡ some authorize
    pub trusted : authorize k.id k.public_key ≡ true
    pub expected : (cfg.expect_peer_id ≡ []) ⊎ (cfg.expect_peer_id ≡ k.id)

  -- A derived ID has 19 bytes.
  pub length-derive_id : (public : Bytes) → length (derive_id c public) ≡ 19
  unfolding derive_id
  length-derive_id public = omega (
    arith,
    length-take 10 (c.sha256 public),
    laws.length-sha256 public,
    laws.length-base32 (take 10 (c.sha256 public)),
  )

  check_payload_honest :
      (cfg : Config) (k : Credentials) (honest : Honest k) (w : Welcomes cfg k)
      (mac_key transcript sig_label mac_label : Bytes)
      → check_payload c cfg
          (record {
            identity_pub = k.public_key;
            id = k.id;
            signature = honest.sign (context sig_label transcript k.public_key k.id);
            mac = c.hmac mac_key (context mac_label transcript k.public_key k.id);
            nickname = k.nickname;
          })
          mac_key
          transcript
          sig_label
          mac_label
        ≡ ok (record { id = k.id; public_key = k.public_key; nickname = k.nickname; version = 0 })
  unfolding check_payload
  check_payload_honest cfg k honest w mac_key transcript sl ml =
      let size : length k.id ≡ 19 = rw honest.derived (length-derive_id k.public_key) in
      let mac = c.hmac mac_key (context ml transcript k.public_key k.id) in
      let b1 : (length k.id == 0
            || ltb max_id_bytes (length k.id)
            || ltb max_nickname_bytes (length k.nickname))
          ≡ false =
        ground (arith, size, honest.short_nickname) in
      let b3 : bytes_beq (derive_id c k.public_key) k.id ≡ true =
        (bytes_beq_iff (derive_id c k.public_key) k.id).1 (sym honest.derived) in
      let b5 : bytes_beq mac mac ≡ true = (bytes_beq_iff mac mac).1 refl in
      let b6 : (not (length cfg.expect_peer_id == 0) && not (bytes_beq cfg.expect_peer_id k.id))
          ≡ false =
        ground (arith, w.expected, bytes_beq_iff cfg.expect_peer_id k.id) in
      rw
        (
          b1,
          honest.usable,
          b3,
          honest.verifies (context sl transcript k.public_key k.id),
          b5,
          b6,
          w.trust,
          w.trusted,
        )
        refl

  -- What honest credentials seal under a key, one who welcomes them opens under that key, and gets
  -- their identity from it.
  pub open_auth-seal_auth :
      (alice bob : Config) (key mac_key transcript sig_label mac_label : Bytes)
      → Honest alice.credentials
      → Welcomes bob alice.credentials
      → length key ≡ 32
      → (box : Bytes) × (seal_auth c alice key mac_key transcript sig_label mac_label ≡ ok box)
        × (open_auth c bob box key mac_key transcript sig_label mac_label
            ≡ ok (record {
              id = alice.credentials.id;
              public_key = alice.credentials.public_key;
              nickname = alice.credentials.nickname;
              version = 0;
            }))
  unfolding seal_auth open_auth aead_key check_plaintext
  open_auth-seal_auth alice bob key mac_key transcript sl ml honest w n =
      let who = alice.credentials in
      let p : AuthPayload = record {
        identity_pub = who.public_key;
        id = who.id;
        signature = honest.sign (context sl transcript who.public_key who.id);
        mac = c.hmac mac_key (context ml transcript who.public_key who.id);
        nickname = who.nickname;
      } in
      let size : length who.id ≡ 19 = rw honest.derived (length-derive_id who.public_key) in
      let fits : Fits p = record {
        key_length = honest.key_length;
        signature_length = honest.signature_length (context sl transcript who.public_key who.id);
        mac_length = laws.length-hmac mac_key (context ml transcript who.public_key who.id);
        id_word = omega (arith, size);
        nickname_word = omega (arith, honest.short_nickname);
      } in
      let n' : (length key == key_size) ≡ true = ground (arith, n) in
      (
        c.seal key zero_nonce (encode_auth_payload p) transcript,
        rw (honest.signs, honest.signature_length (context sl transcript who.public_key who.id), n')
            refl,
        rw (n', laws.unseal-seal key zero_nonce (encode_auth_payload p) transcript)
            (rw (decode_auth_payload-encode_auth_payload p fits, check_plaintext)
              (check_payload_honest bob who honest w mac_key transcript sl ml)),
      )

  -- What honest credentials seal is short.
  pub seal_auth-length :
      (alice : Config) (key mac_key transcript sig_label mac_label : Bytes) {box : Bytes}
      → Honest alice.credentials
      → length key ≡ 32
      → seal_auth c alice key mac_key transcript sig_label mac_label ≡ ok box
      → length box ≤ 500
  unfolding seal_auth aead_key
  seal_auth-length alice key mac_key transcript sl ml honest n h =
      let who = alice.credentials in
      let p : AuthPayload = record {
        identity_pub = who.public_key;
        id = who.id;
        signature = honest.sign (context sl transcript who.public_key who.id);
        mac = c.hmac mac_key (context ml transcript who.public_key who.id);
        nickname = who.nickname;
      } in
      let n' : (length key == key_size) ≡ true = ground (arith, n) in
      let made : c.seal key zero_nonce (encode_auth_payload p) transcript ≡ _ = ok-injective (
        rw (honest.signs, honest.signature_length (context sl transcript who.public_key who.id), n')
          at h) in
      omega (
        arith,
        ap length made,
        laws.length-seal key zero_nonce (encode_auth_payload p) transcript,
        length-encode_auth_payload p,
        honest.key_length,
        honest.signature_length (context sl transcript who.public_key who.id),
        laws.length-hmac mac_key (context ml transcript who.public_key who.id),
        ap length honest.derived,
        length-derive_id who.public_key,
        honest.short_nickname,
      )
