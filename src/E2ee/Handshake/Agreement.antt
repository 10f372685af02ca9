-- ===== src/E2ee/Handshake/Agreement.antt =====
-- Two honest sides of the handshake of internal/e2ee/handshake.go agree.
use cmd_chat.Prelude.{
  ◌==◌, length, take, All, or_fail, >>=-eq-ok, ok-injective, nat_eq, bytes_eq, Bytes, ok, ℕ, ◌^◌,
  ◌≤◌, ◌<◌, ◌≡◌, refl, sym, ap, subst, ◌∙◌, true, false, Option, some, List, [], ◌∷◌, arith,
}
use cmd_chat.E2ee.Wire.{read_full, local_fault}
use cmd_chat.E2ee.Wire.Frames.{read_full_sound}
use cmd_chat.E2ee.Crypto.{Crypto, CryptoLaws, KemLaws}
use cmd_chat.E2ee.Auth.{Config, PeerInfo, versions_of, validate, seal_auth, open_auth}
use cmd_chat.E2ee.Auth.Proof.{Honest, Welcomes, open_auth-seal_auth, seal_auth-length}
use cmd_chat.E2ee.Handshake.Schedule.{
  HandshakeKeys, hash_transcript, derive_handshake_keys, expand_key, hybrid_secret, label,
}
use cmd_chat.E2ee.Handshake.Versions.{
  contains_version, contains_version_lem, select_version, select_version_sound, Offers,
}
use cmd_chat.E2ee.Handshake.Messages.{
  m1_of, m2_of, m2_header_of, m3_of, parse_m1-m1_of, parse_m2-m2_of, parse_m3-m3_of, take-m2_of,
  length-m1_of, length-m2_header_of, length-m2_of, length-m3_of,
}
use cmd_chat.E2ee.Handshake.{
  Offer, Reply, Answered, Hello, parse_m1, parse_m2, parse_m3, make_offer, check_chosen,
  initiator_secret, take_answer, choose, make_answer, take_finish,
}

-- What a peer is known as once it has proven its identity.
abbrev pub known : Config → ℕ → PeerInfo
known cfg version = record {
  id = cfg.credentials.id;
  public_key = cfg.credentials.public_key;
  nickname = cfg.credentials.nickname;
  version = version;
}

offered_some : (l : List ℕ) (v : ℕ) → Offers l v → 0 < length l
offered_some [] v h = absurd h
offered_some (x ∷ l) v h = omega arith

-- Two configurations that fit together: the same channel, version 2 as the responder's choice, and
-- honest owners who welcome each other.
pub record Compatible (c : Crypto) (laws : CryptoLaws c) (alice bob : Config) : Type 0 where
  pub binding : alice.channel_binding ≡ bob.channel_binding
  pub few : length (versions_of alice) < 256
  pub words : All (λ v. v < 2 ^ 16) (versions_of alice)
  pub chosen : select_version (versions_of bob) (versions_of alice) ≡ some 2
  pub honest_alice : Honest c laws alice.credentials
  pub honest_bob : Honest c laws bob.credentials
  pub alice_welcomes : Welcomes c laws alice bob.credentials
  pub bob_welcomes : Welcomes c laws bob alice.credentials
  pub valid : validate c bob ≡ ok tt

-- What the responder draws from its randomness, with an exchange that X25519 does not refuse.
pub record Draws (c : Crypto) (random peer left : Bytes) : Type 0 where
  pub ephemeral : Bytes
  pub after : Bytes
  pub nonce : Bytes
  pub secret : Bytes
  pub drawn : c.generate random ≡ some (ephemeral, after)
  pub read : read_full 32 after ≡ ok (nonce, left)
  pub shared : c.ecdh ephemeral peer ≡ some secret

module _ (c : Crypto) (laws : CryptoLaws c) (kem : KemLaws c) where
  record IsMade (cfg : Config) (o : Offer) : Type 0 where
    pub nonce : Bytes
    pub nonce_size : length nonce ≡ 32
    pub offered : o.offered ≡ versions_of cfg
    pub message :
        o.m1
        ≡ m1_of
            (versions_of cfg)
            (c.public_key o.ephemeral)
            (c.encapsulation_key o.decapsulation)
            nonce
    pub transcript :
        o.th1 ≡ hash_transcript c (hash_transcript c (label "transcript") cfg.channel_binding) o.m1

  make_offer-IsMade :
      (cfg : Config) (dk : Option Bytes) (random : Bytes) {o : Offer}
      → make_offer c cfg dk random ≡ ok o
      → IsMade cfg o
  unfolding make_offer
  make_offer-IsMade cfg dk random {o} h =
      let (_, e1, h1) = >>=-eq-ok (validate c cfg) _ h in
      let ((ephemeral, r1), e2, h2) = >>=-eq-ok (or_fail (c.generate random) local_fault) _ h1 in
      let (decapsulation, e3, h3) = >>=-eq-ok (or_fail dk local_fault) _ h2 in
      let ((nonce, r2), e4, h4) = >>=-eq-ok (read_full 32 r1) _ h3 in
      let is : _ ≡ o = ok-injective h4 in
      subst (IsMade cfg) is (record {
        nonce = nonce;
        nonce_size = (read_full_sound 32 r1 e4).1;
        offered = refl;
        message = refl;
        transcript = refl;
      })

  keys_total :
      (shared th2 : Bytes)
      → (k : HandshakeKeys) × (derive_handshake_keys c shared th2 ≡ ok k)
        × (length k.resp_key ≡ 32)
        × (length k.init_key ≡ 32)
  unfolding derive_handshake_keys expand_key
  keys_total shared th2 =
      let prk = c.hkdf_extract th2 shared in
      let (a, ea, na) = kem.hkdf_expand-total prk (label "hs responder key") 32 (omega arith) in
      let (b, eb, nb) = kem.hkdf_expand-total prk (label "hs initiator key") 32 (omega arith) in
      let (d, ed, nd) = kem.hkdf_expand-total prk (label "hs responder mac") 32 (omega arith) in
      let (e, ee, ne) = kem.hkdf_expand-total prk (label "hs initiator mac") 32 (omega arith) in
      (
        record { prk = prk; resp_key = a; init_key = b; resp_mac = d; init_mac = e },
        rw (ea, eb, ed, ee) refl,
        na,
        nb,
      )

  -- What the two sides hold once M1, M2 and M3 have been passed on.
  pub record Agreed (alice bob : Config) (o : Offer) (a : Answered) (r : Reply) : Type 0 where
    pub answered : take_answer c alice o a.m2 ≡ ok r
    pub finished : take_finish c bob a r.m3 ≡ ok (known alice 2, r.th4)
    pub same_secret : r.prk ≡ a.keys.prk
    pub peer : r.peer ≡ known bob 2
    pub remote : r.remote ≡ c.public_key a.ephemeral
    pub sizes : (length o.m1 ≤ 2000) × (length a.m2 ≤ 2000) × (length r.m3 ≤ 2000)

  abbrev th1_of : Config → Bytes → Bytes
  th1_of cfg m1 = hash_transcript c (hash_transcript c (label "transcript") cfg.channel_binding) m1

  answer_lem :
      (bob : Config) (m1 entropy random left : Bytes) (hello : Hello)
      (d : Draws c random hello.peer_ephemeral left) (keys : HandshakeKeys) (c2 th1 : Bytes)
      → th1_of bob m1 ≡ th1
      → let pair = c.encapsulate hello.peer_encapsulation_key entropy in
        let header = m2_header_of 2 (c.public_key d.ephemeral) pair.1 d.nonce in
        let th2 = hash_transcript c th1 header in
        parse_m1 m1 ≡ ok hello
        → choose c bob hello ≡ ok 2
        → c.is_public_key hello.peer_ephemeral ≡ true
        → c.is_encapsulation_key hello.peer_encapsulation_key ≡ true
        → derive_handshake_keys c (hybrid_secret pair.0 d.secret) th2 ≡ ok keys
        → seal_auth c bob keys.resp_key keys.resp_mac th2
            (label "responder signature")
            (label "responder confirm")
          ≡ ok c2
        → make_answer c bob m1 entropy random
          ≡ ok (record {
            chosen = 2;
            ephemeral = d.ephemeral;
            keys = keys;
            m2 = m2_of header c2;
            th3 = hash_transcript c th2 c2;
            random = left;
          })
  unfolding make_answer
  answer_lem bob m1 entropy random left hello d keys c2 th1 begun parsed chose curve key derived
        sealed =
      rw (parsed, chose, begun, curve, d.drawn, d.shared, key, d.read, derived, sealed) refl

  check_chosen_lem :
      (offered : List ℕ) → contains_version offered 2 ≡ true → check_chosen c offered 2 ≡ ok tt
  unfolding check_chosen contains_version
  check_chosen_lem offered h = rw h refl

  choose_lem :
      (bob : Config) (hello : Hello)
      → hello.count ≡ length hello.offered
      → select_version (versions_of bob) hello.offered ≡ some 2
      → choose c bob hello ≡ ok 2
  unfolding choose
  choose_lem bob hello n h =
      let (before, rest, _, offers, _) = select_version_sound (versions_of bob) hello.offered h in
      let some_there : (hello.count == 0) ≡ false =
        ground (arith, n, offered_some hello.offered 2 offers) in
      rw (some_there, h) refl

  reply_lem :
      (alice : Config) (o : Offer) (header ephemeral ciphertext nonce secret quantum c2 c3 : Bytes)
      (keys : HandshakeKeys) (peer : PeerInfo)
      → let th2 = hash_transcript c o.th1 header in
        let th3 = hash_transcript c th2 c2 in
        parse_m2 (m2_of header c2)
          ≡ ok (record {
            chosen = 2;
            peer_ephemeral = ephemeral;
            kem_ciphertext = ciphertext;
            c2 = c2;
          })
        → take 1155 (m2_of header c2) ≡ header
        → contains_version o.offered 2 ≡ true
        → c.is_public_key ephemeral ≡ true
        → c.ecdh o.ephemeral ephemeral ≡ some secret
        → c.decapsulate o.decapsulation ciphertext ≡ some quantum
        → derive_handshake_keys c (hybrid_secret quantum secret) th2 ≡ ok keys
        → open_auth c alice c2 keys.resp_key keys.resp_mac th2
            (label "responder signature")
            (label "responder confirm")
          ≡ ok peer
        → seal_auth c alice keys.init_key keys.init_mac th3
            (label "initiator signature")
            (label "initiator confirm")
          ≡ ok c3
        → take_answer c alice o (m2_of header c2)
          ≡ ok (record {
            m3 = m3_of c3;
            prk = keys.prk;
            th4 = hash_transcript c th3 c3;
            peer = record peer { version = 2 };
            remote = ephemeral;
          })
  unfolding take_answer initiator_secret
  reply_lem alice o header ephemeral ciphertext nonce secret quantum c2 c3 keys peer parsed cut
        offered curve shared kept derived opened sealed =
      rw
        (
          parsed,
          cut,
          check_chosen_lem o.offered offered,
          curve,
          shared,
          kept,
          derived,
          opened,
          sealed,
        )
        refl

  finish_lem :
      (bob : Config) (a : Answered) (c3 : Bytes) (peer : PeerInfo)
      → parse_m3 (m3_of c3) ≡ ok c3
      → open_auth c bob c3 a.keys.init_key a.keys.init_mac a.th3
          (label "initiator signature")
          (label "initiator confirm")
        ≡ ok peer
      → take_finish c bob a (m3_of c3)
        ≡ ok (record peer { version = a.chosen }, hash_transcript c a.th3 c3)
  unfolding take_finish
  finish_lem bob a c3 peer parsed opened = rw (parsed, opened) refl

  -- Whatever the offer of the initiator, the responder can answer it, the initiator takes the answer
  -- and the responder takes the reply, and the two have one secret, one transcript and each other's names.
  pub agree :
      (alice bob : Config) (dk : Option Bytes) (random entropy random' left : Bytes) (o : Offer)
      → Compatible c laws alice bob
      → make_offer c alice dk random ≡ ok o
      → (d : Draws c random' (c.public_key o.ephemeral) left)
      → (a : Answered) × (r : Reply) × (make_answer c bob o.m1 entropy random' ≡ ok a)
        × (a.random ≡ left)
        × (a.ephemeral ≡ d.ephemeral)
        × Agreed alice bob o a r
  agree alice bob dk random entropy random' left o fit offered d =
      let made = make_offer-IsMade alice dk random offered in
      let vs = versions_of alice in
      let ek = c.encapsulation_key o.decapsulation in
      let pair = c.encapsulate ek entropy in
      let header = m2_header_of 2 (c.public_key d.ephemeral) pair.1 d.nonce in
      let th2 = hash_transcript c o.th1 header in
      let hello : Hello = record {
        count = length vs;
        offered = vs;
        peer_ephemeral = c.public_key o.ephemeral;
        peer_encapsulation_key = ek;
      } in
      let nonce_size = (read_full_sound 32 d.after d.read).1 in
      let parsed1 : parse_m1 o.m1 ≡ ok hello =
        ap parse_m1 made.message
        ∙ parse_m1-m1_of vs (c.public_key o.ephemeral) ek made.nonce fit.few fit.words
            (laws.length-public_key o.ephemeral) (kem.length-encapsulation_key o.decapsulation)
            made.nonce_size in
      let (keys, derived, size1, size2) = keys_total (hybrid_secret pair.0 d.secret) th2 in
      let (c2, sealed2, opened2) =
        open_auth-seal_auth c laws bob alice keys.resp_key keys.resp_mac th2
          (label "responder signature") (label "responder confirm") fit.honest_bob
          fit.alice_welcomes size1 in
      let th3 = hash_transcript c th2 c2 in
      let (c3, sealed3, opened3) =
        open_auth-seal_auth c laws alice bob keys.init_key keys.init_mac th3
          (label "initiator signature") (label "initiator confirm") fit.honest_alice
          fit.bob_welcomes size2 in
      let begun : th1_of bob o.m1 ≡ o.th1 = sym (
        made.transcript
        ∙ ap (λ (b : Bytes). hash_transcript c (hash_transcript c (label "transcript") b) o.m1)
            fit.binding) in
      let answer =
        answer_lem bob o.m1 entropy random' left hello d keys c2 o.th1 begun parsed1
          (choose_lem bob hello refl fit.chosen) (laws.public_key-accepted o.ephemeral)
          (kem.encapsulation_key-accepted o.decapsulation) derived sealed2 in
      let short2 =
        seal_auth-length c laws bob keys.resp_key keys.resp_mac th2 (label "responder signature")
          (label "responder confirm") fit.honest_bob size1 sealed2 in
      let short3 =
        seal_auth-length c laws alice keys.init_key keys.init_mac th3 (label "initiator signature")
          (label "initiator confirm") fit.honest_alice size2 sealed3 in
      let sizes_of_header = length-m2_header_of 2 (c.public_key d.ephemeral) pair.1 d.nonce in
      let header_size : length header ≡ 1155 = omega (
        arith,
        sizes_of_header,
        laws.length-public_key d.ephemeral,
        kem.length-ciphertext ek entropy,
        nonce_size,
      ) in
      let (_, _, _, offers, _) = select_version_sound (versions_of bob) vs fit.chosen in
      let offered_2 : contains_version o.offered 2 ≡ true =
        ap (λ (l : List ℕ). contains_version l 2) made.offered
        ∙ (contains_version_lem vs 2).1 offers in
      let reply =
        reply_lem alice o header (c.public_key d.ephemeral) pair.1 d.nonce d.secret pair.0 c2 c3
          keys (known bob 0)
          (parse_m2-m2_of 2 (c.public_key d.ephemeral) pair.1 d.nonce c2 (omega arith)
            (laws.length-public_key d.ephemeral) (kem.length-ciphertext ek entropy) nonce_size
            (omega (arith, short2)))
          (take-m2_of header c2 header_size) offered_2 (laws.public_key-accepted d.ephemeral)
          (laws.ecdh_comm o.ephemeral d.ephemeral ∙ d.shared)
          (kem.decapsulate-encapsulate o.decapsulation entropy) derived opened2 sealed3 in
      (
        _,
        _,
        answer,
        refl,
        refl,
        record {
          answered = reply;
          finished =
              finish_lem bob _ c3 (known alice 0) (parse_m3-m3_of c3 (omega (arith, short3)))
                opened3;
          same_secret = refl;
          peer = refl;
          remote = refl;
          sizes = (
            omega (
              arith,
              ap length made.message,
              length-m1_of vs (c.public_key o.ephemeral) ek made.nonce,
              fit.few,
              laws.length-public_key o.ephemeral,
              kem.length-encapsulation_key o.decapsulation,
              made.nonce_size,
            ),
            omega (arith, length-m2_of header c2, header_size, short2),
            omega (arith, length-m3_of c3, short3),
          );
        },
      )
