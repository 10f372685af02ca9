-- ===== src/E2ee/Handshake/Meeting.antt =====
-- Initiate and Respond of internal/e2ee/handshake.go against each other.
use cmd_chat.Prelude.{
  length, nat_eq, bytes_eq, Bytes, ok, ℕ, ◌≤◌, ◌≡◌, refl, sym, ap, subst, ◌∙◌, Option, none, some,
  [], ◌++◌, arith,
}
use mathlib.Core.List.{append-nil, append_assoc}
use cmd_chat.E2ee.Wire.{max_frame_size}
use cmd_chat.E2ee.Wire.Frames.{buffer_write, framed, write_frame-framed, read_frame-framed}
use cmd_chat.E2ee.Crypto.{Crypto, CryptoLaws, KemLaws}
use cmd_chat.E2ee.Ratchet.{new_ratchet_responder}
use cmd_chat.E2ee.Ratchet.Turning.{CanStep, new_ratchet_initiator-total}
use cmd_chat.E2ee.Session.{Session, encrypt, decrypt}
use cmd_chat.E2ee.Session.Roundtrip.{Linked}
use cmd_chat.E2ee.Session.Opening.{opened_with, first-Linked}
use cmd_chat.E2ee.Auth.{Config, PeerInfo, validate}
use cmd_chat.E2ee.Handshake.Schedule.{
  Established, role_initiator, role_responder, new_session, start_ratchet, expand_key, label,
}
use cmd_chat.E2ee.Handshake.Agreement.{Compatible, Draws, Agreed, agree, known}
use cmd_chat.E2ee.Handshake.{
  Offer, Answered, Reply, make_offer, make_answer, read_answer, initiate, respond,
}

module _ (c : Crypto) (laws : CryptoLaws c) (kem : KemLaws c) where
  -- The two ends of a session that one secret and one transcript lead to, with the first record of it.
  record Begun (prk th4 ephemeral random random' left : Bytes) (alice bob : PeerInfo) (now now' : ℕ)
      : Type 0 where
    pub ours : Session
    pub theirs : Session
    pub text : Bytes
    pub ours_behind : Session
    pub theirs_behind : Session
    pub chain : Bytes
    pub key : Bytes
    pub initiated :
        new_session c prk th4 bob role_initiator (some (c.public_key ephemeral)) none random now
        ≡ ok (record { session = ours; peer = bob; role = role_initiator })
    pub responded :
        new_session c prk th4 alice role_responder none (some ephemeral) random' now'
        ≡ ok (record { session = theirs; peer = alice; role = role_responder })
    pub sent : encrypt c ours [] ≡ ok (text, ours_behind)
    pub received : decrypt c theirs text now' random' ≡ (ok [], theirs_behind, left)
    pub linked : Linked c laws chain key ours_behind theirs_behind
    pub level : theirs_behind.ratchet.receive_count ≡ ours_behind.ratchet.send_count
    pub short : length text ≤ 313

  begin :
      (prk th4 ephemeral random random' left' left : Bytes) (alice bob : PeerInfo) (now now' : ℕ)
      (step : CanStep c laws (c.public_key ephemeral) random left')
      → CanStep c laws (c.public_key step.fresh) random' left
      → Begun prk th4 ephemeral random random' left alice bob now now'
  unfolding new_session start_ratchet expand_key
  begin prk th4 ephemeral random random' left' left alice bob now now' step step' =
      let (root, e1, _) = kem.hkdf_expand-total prk (label "root key" ++ th4) 32 (omega arith) in
      let (associated, e2, _) =
        kem.hkdf_expand-total prk (label "associated data" ++ th4) 32 (omega arith) in
      let (a, e3, fresh) =
        new_ratchet_initiator-total c laws root (c.public_key ephemeral) random left' step in
      let can =
        subst (λ (k : Bytes). CanStep c laws (c.public_key k) random' left) (sym fresh) step' in
      let (text, chain, sa, sb, sent, received, linked, level, short) =
        first-Linked c laws root ephemeral random random' left associated [] a now now' now' e3
          can in
      record {
        ours = opened_with a associated now;
        theirs = opened_with (new_ratchet_responder root ephemeral) associated now';
        text = text;
        ours_behind = sa;
        theirs_behind = sb;
        chain = chain;
        key = c.public_key a.send_key;
        initiated = rw (e1, e2, e3) refl;
        responded = rw (e1, e2) refl;
        sent = sent;
        received = received;
        linked = linked;
        level = level;
        short = short;
      }

  -- What two runs against each other come to.
  pub record Met (alice bob : Config) (dk : Option Bytes) (random entropy random' : Bytes)
      (now now' : ℕ) : Type 0 where
    pub to_bob : Bytes
    pub to_alice : Bytes
    pub hers : Established
    pub his : Established
    pub initiated : initiate c buffer_write alice dk random now to_alice [] ≡ ok (hers, to_bob, [])
    pub responded :
        respond c buffer_write bob entropy random' now' to_bob [] ≡ ok (his, to_alice, [])
    pub bob_known : hers.peer ≡ known bob 2
    pub alice_known : his.peer ≡ known alice 2
    pub chain : Bytes
    pub key : Bytes
    pub linked : Linked c laws chain key hers.session his.session
    pub level : his.session.ratchet.receive_count ≡ hers.session.ratchet.send_count

  read_answer-framed :
      (m rest : Bytes) → length m ≤ max_frame_size → read_answer c (framed m ++ rest) ≡ ok (m, rest)
  unfolding read_answer
  read_answer-framed m rest h = rw (read_answer, read_frame-framed m rest h) refl

  run_initiator :
      (alice bob : Config) (dk : Option Bytes) (random : Bytes) (now : ℕ) (o : Offer) (a : Answered)
      (r : Reply) (text : Bytes) (e : Established) (s : Session)
      → make_offer c alice dk random ≡ ok o
      → Agreed c laws kem alice bob o a r
      → new_session c r.prk r.th4 r.peer role_initiator (some r.remote) none o.random now ≡ ok e
      → encrypt c e.session [] ≡ ok (text, s)
      → length text ≤ 313
      → initiate c buffer_write alice dk random now (framed a.m2 ++ []) []
        ≡ ok (record e { session = s }, ((([] ++ framed o.m1) ++ framed r.m3) ++ framed text), [])
  unfolding initiate
  run_initiator alice bob dk random now o a r text e s offered agreed begun sent short =
      rw
        (
          offered,
          write_frame-framed o.m1 [] (omega (arith, agreed.sizes)),
          read_answer-framed a.m2 [] (omega (arith, agreed.sizes)),
          agreed.answered,
          write_frame-framed r.m3 (framed o.m1) (omega (arith, agreed.sizes)),
          begun,
          sent,
          write_frame-framed text (framed o.m1 ++ framed r.m3) (omega (arith, short)),
        )
        refl

  run_responder :
      (alice bob : Config) (entropy random' left : Bytes) (now' : ℕ) (o : Offer) (a : Answered)
      (r : Reply) (text : Bytes) (e : Established) (s : Session)
      → validate c bob ≡ ok tt
      → make_answer c bob o.m1 entropy random' ≡ ok a
      → Agreed c laws kem alice bob o a r
      → new_session c a.keys.prk r.th4
          (known alice 2)
          role_responder
          none
          (some a.ephemeral)
          a.random
          now'
        ≡ ok e
      → decrypt c e.session text now' a.random ≡ (ok [], s, left)
      → length text ≤ 313
      → respond c buffer_write bob entropy random' now'
          (framed o.m1 ++ (framed r.m3 ++ (framed text ++ [])))
          []
        ≡ ok (record e { session = s }, ([] ++ framed a.m2), [])
  unfolding respond
  run_responder alice bob entropy random' left now' o a r text e s fit answered agreed begun
        received short =
      rw
        (
          fit,
          read_frame-framed o.m1 (framed r.m3 ++ (framed text ++ [])) (omega (arith, agreed.sizes)),
          answered,
          write_frame-framed a.m2 [] (omega (arith, agreed.sizes)),
          read_frame-framed r.m3 (framed text ++ []) (omega (arith, agreed.sizes)),
          agreed.finished,
          begun,
          read_frame-framed text [] (omega (arith, short)),
          received,
        )
        refl

  -- Two honest sides with matching configurations, whose randomness holds what they need, end the
  -- handshake each with a session for the other: the initiator has proven itself to the responder and
  -- the responder to the initiator, both have version 2, and the sessions are linked.
  pub meet :
      (alice bob : Config) (dk : Option Bytes) (random entropy random' left left' left'' : Bytes)
      (o : Offer) (now now' : ℕ)
      → Compatible c laws alice bob
      → make_offer c alice dk random ≡ ok o
      → (d : Draws c random' (c.public_key o.ephemeral) left)
      → (step : CanStep c laws (c.public_key d.ephemeral) o.random left')
      → CanStep c laws (c.public_key step.fresh) left left''
      → Met alice bob dk random entropy random' now now'
  meet alice bob dk random entropy random' left left' left'' o now now' fit offered d step step' =
      let (a, r, answered, rest, same, agreed) =
        agree c laws kem alice bob dk random entropy random' left o fit offered d in
      let b =
        begin r.prk r.th4 d.ephemeral o.random left left' left'' (known alice 2) (known bob 2) now
          now' step step' in
      let hers : Established = record {
        session = b.ours;
        peer = known bob 2;
        role = role_initiator;
      } in
      let his : Established = record {
        session = b.theirs;
        peer = known alice 2;
        role = role_responder;
      } in
      let hers_begun : new_session c r.prk r.th4 r.peer role_initiator (some r.remote) none o.random
            now
          ≡ ok hers =
        simp (agreed.peer, agreed.remote, same) b.initiated in
      let his_begun : new_session c a.keys.prk r.th4 (known alice 2) role_responder none
            (some a.ephemeral) a.random now'
          ≡ ok his =
        simp (sym agreed.same_secret, rest, same) b.responded in
      let received : decrypt c b.theirs b.text now' a.random ≡ (ok [], b.theirs_behind, left'') =
        simp rest b.received in
      record {
        to_bob = (([] ++ framed o.m1) ++ framed r.m3) ++ framed b.text;
        to_alice = framed a.m2 ++ [];
        hers = record hers { session = b.ours_behind };
        his = record his { session = b.theirs_behind };
        initiated =
            run_initiator alice bob dk random now o a r b.text hers b.ours_behind offered agreed
              hers_begun b.sent b.short;
        responded =
            ap (λ (s : Bytes). respond c buffer_write bob entropy random' now' s [])
              (append_assoc (framed o.m1) (framed r.m3) (framed b.text)
                ∙ ap (λ (t : Bytes). framed o.m1 ++ (framed r.m3 ++ t))
                    (sym (append-nil (framed b.text))))
            ∙ run_responder alice bob entropy random' left'' now' o a r b.text his b.theirs_behind
                fit.valid answered agreed his_begun received b.short
            ∙ ap (λ (s : Bytes). ok (record his { session = b.theirs_behind }, s, []))
                (sym (append-nil (framed a.m2)));
        bob_known = refl;
        alice_known = refl;
        chain = b.chain;
        key = b.key;
        linked = b.linked;
        level = b.level;
      }
