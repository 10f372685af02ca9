-- ===== src/Chat/Link.antt =====
-- How a Conn comes about: Accept, Dial and clientConn of internal/chat/chat.go, with the trust
-- recorder, and TLSChannelBinding of internal/e2ee/binding.go. crypto/tls is a parameter: what the
-- TLS handshake came to.
pub mod Guest
use cmd_chat.Prelude.{
  ltb, leb, ◌==◌, if◌then◌else◌, is_some, length, ◌>>=◌, ◌>>◌, refuse_if, or_fail, Result, eq,
  bytes_beq, nat_eq, bytes_eq, Eq, Bytes, codes, encode_to_string, ok, err, ℕ, ◌+◌, ◌-◌, ◌/◌, ap,
  Bool, true, false, not, ◌&&◌, ◌||◌, Option, some, List, [], ◌∷◌, map,
}
use cmd_chat.E2ee.Wire.{Error, local_fault, legacy_peer, peer_closed_handshake, no_common_version}
use cmd_chat.E2ee.Crypto.{Crypto}
use cmd_chat.E2ee.Auth.{Config, PeerInfo}
use cmd_chat.E2ee.Handshake.{initiate, respond}
use cmd_chat.E2ee.Handshake.Schedule.{Established}
use cmd_chat.Trust
use cmd_chat.Trust.{Store, Files, known, authorize}
use cmd_chat.Chat.Conn.{Conn, Libraries, credentials, new_conn}

-- `tls.ConnectionState`, as far as it is read.
pub record TlsState : Type 0 where
  pub handshake_complete : Bool
  pub version : ℕ
  pub peer_certificates : List Bytes
  pub export_keying_material : Bytes → ℕ → Option Bytes

abbrev pub version_tls_13 : ℕ
version_tls_13 = 0x0304

abbrev pub channel_binding_label : Bytes
channel_binding_label = codes "EXPORTER-CMD-Chat-CMDC2-channel-binding"

abbrev pub channel_binding_length : ℕ
channel_binding_length = 32

unfoldable pub tls_channel_binding : TlsState → Result Error Bytes
tls_channel_binding state = do
  refuse_if (not state.handshake_complete) local_fault
  refuse_if (ltb state.version version_tls_13) local_fault
  binding ←
      or_fail (state.export_keying_material channel_binding_label channel_binding_length)
        local_fault
  refuse_if (not (length binding == channel_binding_length)) local_fault
  ok binding

-- A trust policy: the store, or another one.
pub data Policy : Type 0 where
  stored : Store → Policy
  other : (Bytes → Bytes → Bool) → Policy

-- `trustRecorder`
pub record Recorder : Type 0 where
  pub inner : Policy
  pub first : Bool

abbrev pub recorder : Policy → Recorder
recorder inner = record { inner = inner; first = false }

abbrev pub is_ok {ℓ} : {E : Type 0} {A : Type ℓ} → Result E A → Bool
is_ok (ok a) = true
is_ok (err e) = false

module _ (files : Files) (now : ℕ) where
  -- `trustRecorder.Authorize`: whether the peer is new is asked before the policy runs.
  unfoldable pub recorder_authorize : Recorder → Bytes → Bytes → Bool × Recorder
  recorder_authorize r id public_key = elim r.inner [
    | stored s ↦
        let (result, s') = authorize files s id public_key now in
        (
          is_ok result,
          record { inner = stored s'; first = if is_some (known s id) then r.first else true },
        )
    | other allowed ↦ (allowed id public_key, r)
  ]

-- The local user: `identity.Identity`, as far as it is read.
pub record Identity : Type 0 where
  pub id : Bytes
  pub public_key : Bytes
  pub sign : Bytes → Bytes

pub data LinkFailure : Type 0 where
  tls_failed no_certificate fingerprint_mismatch : LinkFailure
  handshake_failed identity_failed : Error → LinkFailure

-- `strings.TrimSpace`, on the ASCII bytes that a fingerprint has, and `strings.EqualFold`, on a
-- text of hexadecimal digits, which fold with nothing but their other case.
abbrev ascii_space : ℕ → Bool
ascii_space b = (leb 9 b && leb b 13) || b == 32

abbrev pub trim_front : Bytes → Bytes
trim_front [] = []
trim_front (b ∷ s) = let rest = trim_front s in if ascii_space b then rest else b ∷ s

abbrev pub trim_back : Bytes → Bytes
trim_back [] = []
trim_back (b ∷ s) =
    let rest = trim_back s in if length rest == 0 && ascii_space b then [] else b ∷ rest

unfoldable pub trim_ascii : Bytes → Bytes
trim_ascii s = trim_back (trim_front s)

abbrev lower : ℕ → ℕ
lower b = if leb 65 b && leb b 90 then b + 32 else b

unfoldable pub equal_fold : Bytes → Bytes → Bool
equal_fold a b = bytes_beq (map lower a) (map lower b)

module _ (c : Crypto) (l : Libraries) (files : Files) {W : Type 0}
    (write : Bytes → W → Result Error W) where
  -- `e2ee.Config` as both sides fill it in.
  unfoldable pub config_for : Identity → Bytes → Bytes → Policy → Bytes → ℕ → Config
  config_for ident nickname binding policy expect now = record {
    credentials = credentials l ident.id ident.public_key ident.sign nickname;
    channel_binding = binding;
    trust = some (λ id key. (recorder_authorize files now (recorder policy) id key).0);
    expect_peer_id = expect;
    versions = [];
  }

  -- The policy after the handshake, which asks it once, about the peer.
  unfoldable pub recorded : Policy → Established → ℕ → Recorder
  recorded policy e now =
      (recorder_authorize files now (recorder policy) e.peer.id e.peer.public_key).1

  unfoldable pub linked : Identity → Policy → Bytes → ℕ → Established × W × Bytes → Conn W × Policy
  linked ident policy random now (e, transport, reader) =
      let r = recorded policy e now in
      (new_conn l transport reader random e.session e.peer ident.public_key r.first, r.inner)

  -- `Accept`, once the TLS handshake is over; `entropy` and `random` feed the libraries.
  unfoldable pub accept :
      Identity
      → Bytes
      → Policy
      → TlsState
      → Bytes
      → Bytes
      → Bytes
      → ℕ
      → Bytes
      → W
      → Result Error (Conn W × Policy)
  accept ident name policy state entropy random random_later now stream w = do
    binding ← tls_channel_binding state
    e ← respond c write (config_for ident name binding policy [] now) entropy random now stream w
    ok (linked ident policy random_later now e)

  -- The certificate check of clientConn.
  unfoldable pub check_certificate : Bytes → TlsState → Result LinkFailure (Unit {0})
  check_certificate expected state = elim state.peer_certificates [
    | [] ↦ err no_certificate
    | raw ∷ _ ↦
        let expected = trim_ascii expected in
        let actual = encode_to_string (c.sha256 raw) in
        refuse_if (not (length expected == 0) && not (equal_fold actual expected))
          fingerprint_mismatch
  ]

  -- Errors about versions are passed on, the others are failures to authenticate.
  unfoldable pub explain : Error → LinkFailure
  explain legacy_peer = handshake_failed legacy_peer
  explain peer_closed_handshake = handshake_failed peer_closed_handshake
  explain no_common_version = handshake_failed no_common_version
  explain e = identity_failed e

  unfoldable pub or_explain {ℓ} :
      {A : Type ℓ} → (Error → LinkFailure) → Result Error A → Result LinkFailure A
  or_explain f (ok a) = ok a
  or_explain f (err e) = err (f e)

  -- `clientConn`; a TLS handshake that failed has no state.
  unfoldable pub client_conn :
      Identity
      → Bytes
      → Bytes
      → Bytes
      → Policy
      → Option TlsState
      → Option Bytes
      → Bytes
      → Bytes
      → ℕ
      → Bytes
      → W
      → Result LinkFailure (Conn W × Policy)
  client_conn ident name fingerprint host_id policy tls dk random random_later now stream w = do
    state ← or_fail tls tls_failed
    check_certificate fingerprint state
    binding ← or_explain handshake_failed (tls_channel_binding state)
    e ←
        or_explain explain (
          initiate c write (config_for ident name binding policy host_id now) dk random now stream
            w)
    ok (linked ident policy random_later now e)
