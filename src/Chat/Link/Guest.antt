-- ===== src/Chat/Link/Guest.antt =====
-- What a guest's connection has been checked for.
use cmd_chat.Prelude.{
  ltb, ◌==◌, ltb_false→le, length, refuse_if, or_fail, >>=-eq-ok, refuse_if-eq-ok, or_fail-eq-ok,
  ok-injective, Result, nat_eq, bytes_eq, Bytes, encode_to_string, ok, err, ℕ, ◌≤◌, ◌≡◌, refl, sym,
  ap, subst, ◌∙◌, ◌⊎◌, inl, inr, Bool, true, false, not, ◌&&◌, Option, some, List, [], ◌∷◌, arith,
}
use cmd_chat.E2ee.Wire.{Error, local_fault}
use cmd_chat.E2ee.Crypto.{Crypto}
use cmd_chat.E2ee.Auth.{PeerInfo}
use cmd_chat.E2ee.Handshake.{initiate}
use cmd_chat.E2ee.Handshake.Schedule.{Established}
use cmd_chat.E2ee.Handshake.Binding.{ResponderProven}
use cmd_chat.E2ee.Handshake.Sessions.{initiate_sound}
use cmd_chat.Trust.{Files}
use cmd_chat.Chat.Conn.{Conn, Libraries, new_conn}
use cmd_chat.Chat.Link.{
  TlsState, version_tls_13, tls_channel_binding, channel_binding_label, channel_binding_length,
  Policy, Identity, LinkFailure, tls_failed, handshake_failed, fingerprint_mismatch, trim_ascii,
  equal_fold, config_for, linked, recorded, check_certificate, explain, or_explain, client_conn,
}

pinned :
    (t : Bytes) (m : Bool)
    → refuse_if (not (length t == 0) && not m) fingerprint_mismatch ≡ ok tt
    → (t ≡ []) ⊎ (m ≡ true)
pinned [] m h = inl refl
pinned (b ∷ t) true h = inr refl
pinned (b ∷ t) false h = absurd (ground arith)

module _ (c : Crypto) (l : Libraries) (files : Files) {W : Type 0}
    (write : Bytes → W → Result Error W) where
  -- The certificate is there, and is the pinned one if there is one.
  pub record IsPinned (fingerprint : Bytes) (state : TlsState) : Type 0 where
    pub raw : Bytes
    pub more : List Bytes
    pub presented : state.peer_certificates ≡ raw ∷ more
    pub matches :
        (trim_ascii fingerprint ≡ [])
        ⊎ (equal_fold (encode_to_string (c.sha256 raw)) (trim_ascii fingerprint) ≡ true)

  -- The TLS session is of version 1.3 at least, and the binding is its exporter value.
  pub record IsBound (state : TlsState) (binding : Bytes) : Type 0 where
    pub recent : version_tls_13 ≤ state.version
    pub finished : state.handshake_complete ≡ true
    pub exported :
        state.export_keying_material channel_binding_label channel_binding_length ≡ some binding
    pub size : length binding ≡ channel_binding_length

  tls_channel_binding_sound :
      (state : TlsState) {binding : Bytes}
      → tls_channel_binding state ≡ ok binding
      → IsBound state binding
  unfolding tls_channel_binding
  tls_channel_binding_sound state {binding} h =
      let (complete, h1) = refuse_if-eq-ok (not state.handshake_complete) local_fault _ h in
      let (new, h2) = refuse_if-eq-ok (ltb state.version version_tls_13) local_fault _ h1 in
      let (b, e, h3) = >>=-eq-ok (or_fail exported local_fault) _ h2 in
      let (long, h4) =
        refuse_if-eq-ok (not (length b == channel_binding_length)) local_fault _ h3 in
      let same : b ≡ binding = ok-injective h4 in
      record {
        recent = ltb_false→le state.version version_tls_13 new;
        finished = ground (arith, complete);
        exported = or_fail-eq-ok exported local_fault e ∙ ap some same;
        size = ap length (sym same) ∙ ground (arith, long);
      }
    where
      exported : Option Bytes
      exported = state.export_keying_material channel_binding_label channel_binding_length

  check_certificate_sound :
      (fingerprint : Bytes) (state : TlsState)
      → check_certificate c l files write fingerprint state ≡ ok tt
      → IsPinned fingerprint state
  unfolding check_certificate
  check_certificate_sound fingerprint state h = by_certificates state.peer_certificates refl
    where
      by_certificates :
          (certificates : List Bytes)
          → state.peer_certificates ≡ certificates
          → IsPinned fingerprint state
      by_certificates [] e = absurd (cc (rw (e, check_certificate) at h))
      by_certificates (raw ∷ more) e = record {
        raw = raw;
        more = more;
        presented = e;
        matches =
            pinned (trim_ascii fingerprint)
              (equal_fold (encode_to_string (c.sha256 raw)) (trim_ascii fingerprint))
              (rw (e, check_certificate) at h);
      }

  or_explain-eq-ok {ℓ} :
      {A : Type ℓ} (f : Error → LinkFailure) (r : Result Error A) {a : A}
      → or_explain c l files write f r ≡ ok a
      → r ≡ ok a
  unfolding or_explain
  or_explain-eq-ok f (ok b) h = ap ok (ok-injective h)
  or_explain-eq-ok f (err e) h = cc h

  -- What a guest's connection stands on.
  pub record IsVerified (ident : Identity) (name fingerprint host_id : Bytes) (policy : Policy)
      (now : ℕ) (dk : Option Bytes) (random stream : Bytes) (w : W) (state : TlsState) (k : Conn W)
      : Type 0 where
    pub binding : Bytes
    pub certificate : IsPinned fingerprint state
    pub bound : IsBound state binding
    pub authenticated :
        ResponderProven c write
          (config_for c l files write ident name binding policy host_id now)
          dk
          random
          stream
          w
          k.info
    pub named : (host_id ≡ []) ⊎ (host_id ≡ k.info.id)
    pub shown : k.peer.id ≡ k.info.id

  verified :
      (ident : Identity) (name fingerprint host_id binding : Bytes) (dk : Option Bytes)
      (random stream : Bytes) (w w' : W) (rest random_later key : Bytes) (policy : Policy) (now : ℕ)
      (state : TlsState) (e : Established) (first : Bool)
      → IsPinned fingerprint state
      → IsBound state binding
      → ResponderProven c write
          (config_for c l files write ident name binding policy host_id now)
          dk
          random
          stream
          w
          e.peer
      → IsVerified ident name fingerprint host_id policy now dk random stream w state
          (new_conn l w' rest random_later e.session e.peer key first)
  unfolding new_conn config_for
  verified ident name fingerprint host_id binding dk random stream w w' rest random_later key policy
        now state e first pinned bound a =
      record {
        binding = binding;
        certificate = pinned;
        bound = bound;
        authenticated = a;
        named =
            subst (λ id. (host_id ≡ []) ⊎ (host_id ≡ id))
              (sym (ap (λ (p : PeerInfo). p.id) a.agrees)) a.proven.expected;
        shown = refl;
      }

  -- A guest has a connection only over TLS 1.3 with a certificate that matches the fingerprint, if
  -- it has one, to a host that has proven its identity over a handshake transcript that starts with
  -- that TLS session's exporter value, and has the ID that was expected, if one was.
  pub client_conn-IsVerified :
      (ident : Identity) (name fingerprint host_id : Bytes) (policy policy' : Policy)
      (tls : Option TlsState) (dk : Option Bytes) (random random_later : Bytes) (now : ℕ)
      (stream : Bytes) (w : W) (k : Conn W)
      → client_conn c l files write ident name fingerprint host_id policy tls dk random random_later
          now stream w
        ≡ ok (k, policy')
      → (state : TlsState) × (tls ≡ some state)
        × IsVerified ident name fingerprint host_id policy now dk random stream w state k
  unfolding client_conn linked new_conn config_for
  client_conn-IsVerified ident name fingerprint host_id policy policy' tls dk random random_later
        now stream w k h =
      let (state, e1, h1) = >>=-eq-ok (or_fail tls tls_failed) _ h in
      let (_, e2, h2) = >>=-eq-ok (check_certificate c l files write fingerprint state) _ h1 in
      let (binding, e3, h3) =
        >>=-eq-ok (or_explain c l files write handshake_failed (tls_channel_binding state)) _ h2 in
      let ((e, w', rest), e4, h4) =
        >>=-eq-ok
          (or_explain c l files write (explain c l files write) (
            initiate c write (config_for c l files write ident name binding policy host_id now) dk
              random now stream w))
          _ h3 in
      let (proof, _, _) =
        initiate_sound c write (config_for c l files write ident name binding policy host_id now) dk
          random stream now w (or_explain-eq-ok (explain c l files write) _ e4) in
      let conn_is : new_conn l w' rest random_later e.session e.peer ident.public_key _ ≡ k =
        ap (λ (t : Conn W × Policy). t.0) (ok-injective h4) in
      (
        state,
        or_fail-eq-ok tls tls_failed e1,
        subst (IsVerified ident name fingerprint host_id policy now dk random stream w state)
            conn_is
            (verified ident name fingerprint host_id binding dk random stream w w' rest random_later
              ident.public_key policy now state e (recorded c l files write policy e now).first
              (check_certificate_sound fingerprint state e2)
              (tls_channel_binding_sound state
                (or_explain-eq-ok handshake_failed (tls_channel_binding state) e3))
              proof),
      )
