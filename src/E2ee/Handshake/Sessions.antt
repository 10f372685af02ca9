-- ===== src/E2ee/Handshake/Sessions.antt =====
-- Initiate and Respond of internal/e2ee/handshake.go as wholes: no session without a proven peer.
use cmd_chat.Prelude.{
  ◌==◌, length, take, or_fail, >>=-eq-ok, refuse_if-eq-ok, or_fail-eq-ok, ok-injective, Result,
  nat_eq, bytes_eq, Bytes, ok, ℕ, ◌≡◌, refl, sym, ap, subst, ◌∙◌, not, Option, none, some, [],
}
use cmd_chat.E2ee.Wire.{Error, write_frame, read_frame, malformed, read_full, local_fault}
use cmd_chat.E2ee.Crypto.{Crypto}
use cmd_chat.E2ee.Session.{encrypt, decrypt}
use cmd_chat.E2ee.Auth.{Config, PeerInfo, versions_of, validate, seal_auth}
use cmd_chat.E2ee.Handshake.Schedule.{
  Established, new_session, role_initiator, role_responder, label, derive_handshake_keys,
  hybrid_secret, hash_transcript,
}
use cmd_chat.E2ee.Handshake.Versions.{select_version, select_version_sound, Offers, Offers-append}
use cmd_chat.E2ee.Handshake.Outcome.{
  derive_handshake_keys-IsDerived, initiator_secret_sound, read_answer_sound, take_answer_sound,
  make_offer_sound, new_session_sound, take_finish_sound, choose_sound,
}
use cmd_chat.E2ee.Handshake.{
  Answered, Hello, parse_m1, make_offer, take_answer, choose, make_answer, take_finish, read_answer,
  m2_header_len, initiate, respond,
}
use cmd_chat.E2ee.Auth.Proof.{Proven}
use cmd_chat.E2ee.Handshake.Binding.{
  IsDerived, hashed, first_hash, ResponderProven, InitiatorProven, Prompted,
}

module _ (c : Crypto) {W : Type 0} (write : Bytes → W → Result Error W) where
  -- When the initiator gets a session, it offered version 2 and the session has it, and the peer
  -- has proven its identity in this very handshake: under the keys of both shared secrets, with the
  -- responder's labels, over the transcript of the channel binding, the M1 that was written and the
  -- header of the M2 that was read.
  pub initiate_sound :
      (cfg : Config) (dk : Option Bytes) (random stream : Bytes) (now : ℕ) (w : W) {e : Established}
      {w' : W} {rest : Bytes}
      → initiate c write cfg dk random now stream w ≡ ok (e, w', rest)
      → ResponderProven c write cfg dk random stream w e.peer
        × (e.peer.version ≡ 2)
        × (e.role ≡ role_initiator)
  unfolding initiate
  initiate_sound cfg dk random stream now w {e} {w'} {rest} h =
      let (o, e1, h1) = >>=-eq-ok (make_offer c cfg dk random) _ h in
      let (w1, e2, h2) = >>=-eq-ok (write_frame write o.m1 w) _ h1 in
      let ((m2, s2), e3, h3) = >>=-eq-ok (read_answer c stream) _ h2 in
      let (r, e4, h4) = >>=-eq-ok (take_answer c cfg o m2) _ h3 in
      let (w2, e5, h5) = >>=-eq-ok (write_frame write r.m3 w1) _ h4 in
      let (est, e6, h6) =
        >>=-eq-ok
          (new_session c r.prk r.th4 r.peer role_initiator (some r.remote) none o.random now) _
          h5 in
      let ((primer, s), e7, h7) = >>=-eq-ok (encrypt c est.session []) _ h6 in
      let (w3, e8, h8) = >>=-eq-ok (write_frame write primer w2) _ h7 in
      let (same_peer, same_role) =
        new_session_sound c r.prk r.th4 r.peer role_initiator (some r.remote) none o.random now
          e6 in
      let ready = make_offer_sound c cfg dk random e1 in
      let (a, shared, keys, p, parsed, es, ek, agrees, offers, two, proven) =
        take_answer_sound c cfg o m2 e4 in
      let (classical, quantum, agreed, decapsulated, both) = initiator_secret_sound c o a es in
      let k : e ≡ record est { session = s } =
        sym (ap (λ (q : Established × W × Bytes). q.0) (ok-injective h8)) in
      let peer : e.peer ≡ record p { version = a.chosen } =
        ap (λ (q : Established). q.peer) k ∙ (same_peer ∙ agrees) in
      (
        record {
          offer = o;
          prepared = ready;
          sent = (w1, e2);
          m2 = m2;
          unread = s2;
          received = read_answer_sound c stream e3;
          answer = a;
          parsed = parsed;
          classical = classical;
          quantum = quantum;
          agreed = agreed;
          decapsulated = decapsulated;
          keys = keys;
          keyed =
              subst
                (λ z. IsDerived c z (hashed c (first_hash c cfg o.m1) (take m2_header_len m2)) keys)
                both
                (subst (λ z. IsDerived c shared (hashed c z (take m2_header_len m2)) keys)
                  ready.hash ek);
          base = p;
          agrees = peer;
          offered = subst (λ l. Offers l a.chosen) ready.versions offers;
          proven =
              subst
                (λ z.
                  Proven c cfg a.c2 keys.resp_key keys.resp_mac (hashed c z (take m2_header_len m2))
                    (label "responder signature") (label "responder confirm") p)
                ready.hash proven;
        },
        ap (λ (q : PeerInfo). q.version) peer ∙ two,
        ap (λ (q : Established). q.role) k ∙ same_role,
      )

  make_answer_sound :
      (cfg : Config) (m1 entropy random : Bytes) {a : Answered}
      → make_answer c cfg m1 entropy random ≡ ok a
      → Prompted c cfg m1 entropy random a
  unfolding make_answer hybrid_secret hash_transcript
  make_answer_sound cfg m1 entropy random {a} h =
      let (hello, e1, h1) = >>=-eq-ok (parse_m1 m1) _ h in
      let (chosen, e2, h2) = >>=-eq-ok (choose c cfg hello) _ h1 in
      let (_, h3) = refuse_if-eq-ok (not (c.is_public_key hello.peer_ephemeral)) malformed _ h2 in
      let ((ephemeral, random1), e4, h4) =
        >>=-eq-ok (or_fail (c.generate random) local_fault) _ h3 in
      let (classical, e5, h5) =
        >>=-eq-ok (or_fail (c.ecdh ephemeral hello.peer_ephemeral) malformed) _ h4 in
      let (_, h6) =
        refuse_if-eq-ok (not (c.is_encapsulation_key hello.peer_encapsulation_key)) malformed _
          h5 in
      let ((nonce, random2), e7, h7) = >>=-eq-ok (read_full 32 random1) _ h6 in
      let (keys, e8, h8) =
        >>=-eq-ok
          (derive_handshake_keys c
            (hybrid_secret (c.encapsulate hello.peer_encapsulation_key entropy).0 classical) _)
          _ h7 in
      let (c2, e9, h9) =
        >>=-eq-ok
          (seal_auth c cfg keys.resp_key keys.resp_mac _ (label "responder signature")
            (label "responder confirm"))
          _ h8 in
      let (selected, _) = choose_sound c cfg hello e2 in
      subst (Prompted c cfg m1 entropy random) (ok-injective h9) (record {
        hello = hello;
        parsed = e1;
        selected = selected;
        later = random1;
        nonce = nonce;
        classical = classical;
        c2 = c2;
        generated = or_fail-eq-ok (c.generate random) local_fault e4;
        drawn = e7;
        agreed = or_fail-eq-ok (c.ecdh ephemeral hello.peer_ephemeral) malformed e5;
        kem = c.encapsulate hello.peer_encapsulation_key entropy;
        encapsulated = refl;
        keyed = derive_handshake_keys-IsDerived c _ _ e8;
        message = refl;
        hash = refl;
      })

  -- When the responder gets a session, its version is the first of its own list that the initiator
  -- offered, and the peer has proven its identity in this very handshake: under the keys of both
  -- shared secrets, with the initiator's labels, over the transcript of the channel binding, the M1
  -- that was read, the header of the M2 that was written and the responder's own sealed proof in it.
  pub respond_sound :
      (cfg : Config) (entropy random stream : Bytes) (now : ℕ) (w : W) {e : Established} {w' : W}
      {rest : Bytes}
      → respond c write cfg entropy random now stream w ≡ ok (e, w', rest)
      → InitiatorProven c write cfg entropy random stream w e.peer
        × ((h : Hello) × (m1 s : Bytes) × (read_frame stream ≡ ok (m1, s))
            × (parse_m1 m1 ≡ ok h)
            × (select_version (versions_of cfg) h.offered ≡ some e.peer.version))
        × (e.role ≡ role_responder)
  unfolding respond
  respond_sound cfg entropy random stream now w {e} {w'} {rest} h =
      let (_, e0, h0) = >>=-eq-ok (validate c cfg) _ h in
      let ((m1, s1), e1, h1) = >>=-eq-ok (read_frame stream) _ h0 in
      let (a, e2, h2) = >>=-eq-ok (make_answer c cfg m1 entropy random) _ h1 in
      let (w1, e3, h3) = >>=-eq-ok (write_frame write a.m2 w) _ h2 in
      let ((m3, s2), e4, h4) = >>=-eq-ok (read_frame s1) _ h3 in
      let ((p, th4), e5, h5) = >>=-eq-ok (take_finish c cfg a m3) _ h4 in
      let (est, e6, h6) =
        >>=-eq-ok
          (new_session c a.keys.prk th4 p role_responder none (some a.ephemeral) a.random now) _
          h5 in
      let ((text, s3), e7, h7) = >>=-eq-ok (read_frame s2) _ h6 in
      let outcome = decrypt c est.session text now a.random in
      let (primer, e8, h8) = >>=-eq-ok outcome.0 _ h7 in
      let (_, h9) = refuse_if-eq-ok (not (length primer == 0)) malformed _ h8 in
      let (same_peer, same_role) =
        new_session_sound c a.keys.prk th4 p role_responder none (some a.ephemeral) a.random now
          e6 in
      let ready = make_answer_sound cfg m1 entropy random e2 in
      let (before, after, ours, _, _) =
        select_version_sound (versions_of cfg) ready.hello.offered ready.selected in
      let k : e ≡ record est { session = outcome.1 } =
        sym (ap (λ (q : Established × W × Bytes). q.0) (ok-injective h9)) in
      let (c3, base, parsed, agrees, proven) = take_finish_sound c cfg a m3 e5 in
      let peer : e.peer ≡ record base { version = a.chosen } =
        ap (λ (q : Established). q.peer) k ∙ (same_peer ∙ agrees) in
      let version : a.chosen ≡ e.peer.version = sym (ap (λ (q : PeerInfo). q.version) peer) in
      (
        record {
          m1 = m1;
          after_m1 = s1;
          received = e1;
          answered = a;
          prompted = ready;
          sent = (w1, e3);
          m3 = m3;
          unread = s2;
          finished = e4;
          c3 = c3;
          parsed = parsed;
          base = base;
          agrees = peer;
          offered = rw ours (Offers-append before after a.chosen);
          proven = proven;
        },
        (ready.hello, m1, s1, e1, ready.parsed, ready.selected ∙ ap some version),
        ap (λ (q : Established). q.role) k ∙ same_role,
      )
