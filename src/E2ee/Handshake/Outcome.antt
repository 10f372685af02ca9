-- ===== src/E2ee/Handshake/Outcome.antt =====
-- What a session that Initiate or Respond of internal/e2ee/handshake.go returns rests on.
use cmd_chat.Prelude.{
  take, or_fail, >>=-eq-ok, refuse_if-eq-ok, or_fail-eq-ok, ok-injective, nat_eq, bytes_eq, Bytes,
  ok, ℕ, ◌<◌, ◌≡◌, refl, sym, ap, subst, not, Option, some, List, ◌++◌, arith,
}
use cmd_chat.E2ee.Wire.{read_full, read_frame, malformed, local_fault}
use cmd_chat.E2ee.Crypto.{Crypto}
use cmd_chat.E2ee.Auth.{Config, PeerInfo, versions_of, validate, seal_auth, open_auth}
use cmd_chat.E2ee.Auth.Proof.{Proven, open_auth_sound}
use cmd_chat.E2ee.Handshake.Schedule.{
  HandshakeKeys, Established, hash_transcript, derive_handshake_keys, new_session, label, Role,
  expand_key, start_ratchet, hybrid_secret,
}
use cmd_chat.E2ee.Handshake.Versions.{
  contains_version, contains_version_lem, Offers, select_version,
}
use cmd_chat.E2ee.Handshake.{
  Offer, Answer, Reply, Answered, Hello, m2_header_len, parse_m2, make_offer, check_chosen,
  initiator_secret, take_answer, choose, take_finish, parse_m3, read_answer,
}
use cmd_chat.E2ee.Handshake.Binding.{Prepared, IsDerived, hashed}

check_chosen_sound :
    (c : Crypto) (offered : List ℕ) (chosen : ℕ)
    → check_chosen c offered chosen ≡ ok tt
    → Offers offered chosen × (chosen ≡ 2)
unfolding check_chosen contains_version
check_chosen_sound c offered chosen h = ground (arith, contains_version_lem offered chosen)

module _ (c : Crypto) where
  pub initiator_secret_sound :
      (o : Offer) (a : Answer) {shared : Bytes}
      → initiator_secret c o a ≡ ok shared
      → (classical quantum : Bytes) × (c.ecdh o.ephemeral a.peer_ephemeral ≡ some classical)
        × (c.decapsulate o.decapsulation a.kem_ciphertext ≡ some quantum)
        × (shared ≡ quantum ++ classical)
  unfolding initiator_secret hybrid_secret
  initiator_secret_sound o a {shared} h =
      let (_, h1) = refuse_if-eq-ok (not (c.is_public_key a.peer_ephemeral)) malformed _ h in
      let (classical, e2, h2) =
        >>=-eq-ok (or_fail (c.ecdh o.ephemeral a.peer_ephemeral) malformed) _ h1 in
      let (quantum, e3, h3) =
        >>=-eq-ok (or_fail (c.decapsulate o.decapsulation a.kem_ciphertext) malformed) _ h2 in
      (
        classical,
        quantum,
        or_fail-eq-ok (c.ecdh o.ephemeral a.peer_ephemeral) malformed e2,
        or_fail-eq-ok (c.decapsulate o.decapsulation a.kem_ciphertext) malformed e3,
        sym (ok-injective h3),
      )

  expand_key-hkdf_expand :
      (prk info : Bytes) {key : Bytes}
      → expand_key c prk info ≡ ok key
      → c.hkdf_expand prk info 32 ≡ some key
  unfolding expand_key
  expand_key-hkdf_expand prk info h = or_fail-eq-ok (c.hkdf_expand prk info 32) local_fault h

  pub derive_handshake_keys-IsDerived :
      (shared th2 : Bytes) {keys : HandshakeKeys}
      → derive_handshake_keys c shared th2 ≡ ok keys
      → IsDerived c shared th2 keys
  unfolding derive_handshake_keys
  derive_handshake_keys-IsDerived shared th2 {keys} h =
      let prk = c.hkdf_extract th2 shared in
      let (k1, e1, h1) = >>=-eq-ok (expand_key c prk (label "hs responder key")) _ h in
      let (k2, e2, h2) = >>=-eq-ok (expand_key c prk (label "hs initiator key")) _ h1 in
      let (k3, e3, h3) = >>=-eq-ok (expand_key c prk (label "hs responder mac")) _ h2 in
      let (k4, e4, h4) = >>=-eq-ok (expand_key c prk (label "hs initiator mac")) _ h3 in
      subst (IsDerived c shared th2) (ok-injective h4) (record {
        extracted = refl;
        resp_key = expand_key-hkdf_expand prk (label "hs responder key") e1;
        init_key = expand_key-hkdf_expand prk (label "hs initiator key") e2;
        resp_mac = expand_key-hkdf_expand prk (label "hs responder mac") e3;
        init_mac = expand_key-hkdf_expand prk (label "hs initiator mac") e4;
      })

  pub take_answer_sound :
      (cfg : Config) (o : Offer) (m2 : Bytes) {r : Reply}
      → take_answer c cfg o m2 ≡ ok r
      → (a : Answer) × (shared : Bytes) × (keys : HandshakeKeys) × (p : PeerInfo) × (parse_m2 m2
          ≡ ok a)
        × (initiator_secret c o a ≡ ok shared)
        × IsDerived c shared (hashed c o.th1 (take m2_header_len m2)) keys
        × (r.peer ≡ record p { version = a.chosen })
        × Offers o.offered a.chosen
        × (a.chosen ≡ 2)
        × Proven c cfg a.c2 keys.resp_key keys.resp_mac
            (hashed c o.th1 (take m2_header_len m2))
            (label "responder signature")
            (label "responder confirm")
            p
  unfolding take_answer hash_transcript
  take_answer_sound cfg o m2 {r} h =
      let (a, ea, h1) = >>=-eq-ok (parse_m2 m2) _ h in
      let (_, ev, h2) = >>=-eq-ok (check_chosen c o.offered a.chosen) _ h1 in
      let (shared, es, h3) = >>=-eq-ok (initiator_secret c o a) _ h2 in
      let th2 = hash_transcript c o.th1 (take m2_header_len m2) in
      let (keys, ek, h4) = >>=-eq-ok (derive_handshake_keys c shared th2) _ h3 in
      let (p, ep, h5) =
        >>=-eq-ok
          (open_auth c cfg a.c2 keys.resp_key keys.resp_mac th2 (label "responder signature")
            (label "responder confirm"))
          _ h4 in
      let th3 = hash_transcript c th2 a.c2 in
      let (c3, ec, h6) =
        >>=-eq-ok
          (seal_auth c cfg keys.init_key keys.init_mac th3 (label "initiator signature")
            (label "initiator confirm"))
          _ h5 in
      let (offers, two) = check_chosen_sound c o.offered a.chosen ev in
      (
        a,
        shared,
        keys,
        p,
        ea,
        es,
        derive_handshake_keys-IsDerived shared th2 ek,
        sym (ap (λ (q : Reply). q.peer) (ok-injective h6)),
        offers,
        two,
        open_auth_sound c cfg a.c2 keys.resp_key keys.resp_mac th2 (label "responder signature")
            (label "responder confirm") ep,
      )

  pub make_offer_sound :
      (cfg : Config) (dk : Option Bytes) (random : Bytes) {o : Offer}
      → make_offer c cfg dk random ≡ ok o
      → Prepared c cfg dk random o
  unfolding make_offer hash_transcript
  make_offer_sound cfg dk random {o} h =
      let (_, e1, h1) = >>=-eq-ok (validate c cfg) _ h in
      let ((ephemeral, random1), e2, h2) =
        >>=-eq-ok (or_fail (c.generate random) local_fault) _ h1 in
      let (d, e3, h3) = >>=-eq-ok (or_fail dk local_fault) _ h2 in
      let ((nonce, random2), e4, h4) = >>=-eq-ok (read_full 32 random1) _ h3 in
      subst (Prepared c cfg dk random) (ok-injective h4) (record {
        later = random1;
        nonce = nonce;
        generated = or_fail-eq-ok (c.generate random) local_fault e2;
        decapsulates = or_fail-eq-ok dk local_fault e3;
        drawn = e4;
        versions = refl;
        message = refl;
        hash = refl;
      })

  pub read_answer_sound :
      (stream : Bytes) {r : Bytes × Bytes} → read_answer c stream ≡ ok r → read_frame stream ≡ ok r
  unfolding read_answer
  read_answer_sound stream h = ground arith

  pub new_session_sound :
      (prk th4 : Bytes) (peer : PeerInfo) (role : Role) (remote own : Option Bytes) (random : Bytes)
      (now : ℕ) {e : Established}
      → new_session c prk th4 peer role remote own random now ≡ ok e
      → (e.peer ≡ peer) × (e.role ≡ role)
  unfolding new_session
  new_session_sound prk th4 peer role remote own random now {e} h =
      let (root, e1, h1) = >>=-eq-ok (expand_key c prk (label "root key" ++ th4)) _ h in
      let (tag, e2, h2) = >>=-eq-ok (expand_key c prk (label "associated data" ++ th4)) _ h1 in
      let (r, e3, h3) = >>=-eq-ok (start_ratchet c root role remote own random) _ h2 in
      let k = sym (ok-injective h3) in
      (ap (λ (q : Established). q.peer) k, ap (λ (q : Established). q.role) k)

  pub take_finish_sound :
      (cfg : Config) (a : Answered) (m3 : Bytes) {peer : PeerInfo} {th4 : Bytes}
      → take_finish c cfg a m3 ≡ ok (peer, th4)
      → (c3 : Bytes) × (p : PeerInfo) × (parse_m3 m3 ≡ ok c3)
        × (peer ≡ record p { version = a.chosen })
        × Proven c cfg c3 a.keys.init_key a.keys.init_mac a.th3
            (label "initiator signature")
            (label "initiator confirm")
            p
  unfolding take_finish
  take_finish_sound cfg a m3 {peer} {th4} h =
      let (c3, e1, h1) = >>=-eq-ok (parse_m3 m3) _ h in
      let (p, e2, h2) =
        >>=-eq-ok
          (open_auth c cfg c3 a.keys.init_key a.keys.init_mac a.th3 (label "initiator signature")
            (label "initiator confirm"))
          _ h1 in
      (
        c3,
        p,
        e1,
        sym (ap (λ (q : PeerInfo × Bytes). q.0) (ok-injective h2)),
        open_auth_sound c cfg c3 a.keys.init_key a.keys.init_mac a.th3 (label "initiator signature")
            (label "initiator confirm") e2,
      )

  pub choose_sound :
      (cfg : Config) (h : Hello) {v : ℕ}
      → choose c cfg h ≡ ok v
      → (select_version (versions_of cfg) h.offered ≡ some v) × (0 < h.count)
  unfolding choose
  choose_sound cfg h e = ground arith
