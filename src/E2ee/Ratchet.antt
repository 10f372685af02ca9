-- ===== src/E2ee/Ratchet.antt =====
-- The Double Ratchet of internal/e2ee/ratchet.go. A nil chain or key is `none`. Where the source
-- returns an error, what it has already written to the state is left out: the only caller of
-- `receive` (Session.Decrypt) works on a clone and drops it then. `Wipe` has no trace in the model:
-- it overwrites buffers that nothing reads again.
pub mod Skipped
pub mod Skipping
pub mod Delivery
pub mod Replay
pub mod Agreement
pub mod Turning
pub mod Unstarted
pub mod Keeps
use cmd_chat.Prelude.{
  ltb, ◌==◌, if◌then◌else◌, take, drop, ◌>>=◌, ◌>>◌, refuse_if, or_fail, Result, eq, bytes_beq,
  nat_eq, bytes_eq, Bytes, codes, ok, err, ℕ, zero, suc, ◌+◌, ◌-◌, ◌*◌, ◌/◌, ◌%◌, ◌^◌, Bool, true,
  false, not, Option, none, some, [], ◌∷◌,
}
use cmd_chat.E2ee.Wire.{Error, malformed, skip_too_large, stale_message, local_fault}
use cmd_chat.E2ee.Crypto.{Crypto}
use cmd_chat.E2ee.Header.{Header}
use Skipped.{Store, SkippedKey, empty, remember, forget, find}

abbrev pub max_skip : ℕ
max_skip = 1000

abbrev pub key_size : ℕ
key_size = 32

abbrev pub nonce_size : ℕ
nonce_size = 12

abbrev pub version_2 : ℕ
version_2 = 2

abbrev pub label_ratchet_root : Bytes
label_ratchet_root = codes "CMD-CHAT-E2EE v2 ratchet root"

abbrev pub label_message_keys : Bytes
label_message_keys = codes "CMD-CHAT-E2EE v2 message keys"

-- The counters are uint32, `steps` is uint64. `skipped` and `order` are the record `store`.
pub record Ratchet : Type 0 where
  pub root_key : Bytes
  pub send_key : Bytes
  pub receive_key : Option Bytes
  pub send_chain : Option Bytes
  pub receive_chain : Option Bytes
  pub send_count : ℕ
  pub receive_count : ℕ
  pub previous_sent : ℕ
  pub store : Store
  pub steps : ℕ

-- `kdfChainKey`: the message key and the next chain key.
abbrev pub message_key_of : Crypto → Bytes → Bytes
message_key_of c chain = c.hmac chain (0x01 ∷ [])

abbrev pub next_chain_of : Crypto → Bytes → Bytes
next_chain_of c chain = c.hmac chain (0x02 ∷ [])

-- A nil chain is an empty HMAC key.
abbrev pub chain_bytes : Option Bytes → Bytes
chain_bytes none = []
chain_bytes (some b) = b

module _ (c : Crypto) where
  -- `kdfRootKey`: the new root key and the new chain key.
  unfoldable pub kdf_root_key : Bytes → Bytes → Result Error (Bytes × Bytes)
  kdf_root_key root dh = do
    out ← or_fail (c.hkdf dh root label_ratchet_root (2 * key_size)) local_fault
    ok (take key_size out, drop key_size out)

  -- A Diffie-Hellman exchange and `kdfRootKey` of its secret, which the source writes out three
  -- times; a refused exchange is the error that the caller names.
  unfoldable pub dh_root : Error → Bytes → Bytes → Bytes → Result Error (Bytes × Bytes)
  dh_root refused root private peer = do
    shared ← or_fail (c.ecdh private peer) refused
    kdf_root_key root shared

  -- `messageKeys`: the AEAD key and nonce of one record.
  unfoldable pub message_keys : Bytes → Result Error (Bytes × Bytes)
  message_keys message_key = do
    out ← or_fail (c.hkdf message_key [] label_message_keys (key_size + nonce_size)) local_fault
    ok (take key_size out, drop key_size out)

  unfoldable pub new_ratchet_initiator : Bytes → Bytes → Bytes → Result Error Ratchet × Bytes
  new_ratchet_initiator root peer random = elim (c.generate random) [
    | none ↦ (err local_fault, random)
    | some (send_key, random') ↦ (
      do
        (new_root, chain) ← dh_root local_fault root send_key peer
        ok (record {
          root_key = new_root;
          send_key = send_key;
          receive_key = some peer;
          send_chain = some chain;
          receive_chain = none;
          send_count = 0;
          receive_count = 0;
          previous_sent = 0;
          store = empty;
          steps = 0;
        }),
      random',
    )
  ]

  -- `next`: the header and the message key of the next record, and the ratchet behind it.
  unfoldable pub next : Ratchet → Result Error (Header × Bytes × Ratchet)
  next r = do
    chain ← or_fail r.send_chain local_fault
    refuse_if (r.send_count == 2 ^ 32 - 1) local_fault
    ok (
      record {
        version = version_2;
        ratchet_pub = c.public_key r.send_key;
        pn = r.previous_sent;
        n = r.send_count;
      },
      message_key_of c chain,
      record r {
        send_chain = some (next_chain_of c chain);
        send_count = (r.send_count + 1) % 2 ^ 32;
      },
    )

  -- The second half of `step`, from the new key pair on; `r` has the new root and receiving chain.
  unfoldable pub step_send : Ratchet → Bytes → Bytes → Result Error Ratchet × Bytes
  step_send r peer random = elim (c.generate random) [
    | none ↦ (err local_fault, random)
    | some (send_key, random') ↦ (
      do
        (new_root, chain) ← dh_root malformed r.root_key send_key peer
        ok (record r {
          root_key = new_root;
          send_chain = some chain;
          send_key = send_key;
          steps = (r.steps + 1) % 2 ^ 64;
        }),
      random',
    )
  ]

  -- The first half of `step`: the counters, the new root key and the receiving chain.
  unfoldable pub step_receive : Ratchet → Bytes → Result Error Ratchet
  step_receive r peer = do
    (new_root, chain) ← dh_root malformed r.root_key r.send_key peer
    ok (record r {
      previous_sent = r.send_count;
      send_count = 0;
      receive_count = 0;
      receive_key = some peer;
      root_key = new_root;
      receive_chain = some chain;
    })

  unfoldable pub step : Ratchet → Bytes → Bytes → Result Error Ratchet × Bytes
  step r peer random = elim (step_receive r peer) [
    | err e ↦ (err e, random)
    | ok r' ↦ step_send r' peer random
  ]

  -- One round of the loop of `skipTo`.
  unfoldable pub skip_one : Bytes → Bytes → Ratchet → Ratchet
  skip_one pub_key chain r = record r {
    receive_chain = some (next_chain_of c chain);
    store =
        remember (record { ratchet_pub = pub_key; n = r.receive_count }) (message_key_of c chain)
          r.store;
    receive_count = (r.receive_count + 1) % 2 ^ 32;
  }

  -- The loop of `skipTo`; the fuel is the distance to the target.
  unfoldable pub skip_loop : ℕ → ℕ → Bytes → Bytes → Ratchet → Ratchet
  skip_loop zero target pub_key chain r = r
  skip_loop (suc fuel) target pub_key chain r =
      let rest = skip_loop fuel target pub_key (next_chain_of c chain) (skip_one pub_key chain r) in
      if ltb r.receive_count target then rest else r

  unfoldable pub skip_to : ℕ → Ratchet → Result Error Ratchet
  skip_to target r = elim r.receive_chain [
    | none ↦ ok r
    | some chain ↦
        if ltb target r.receive_count
        then ok r
        else if ltb max_skip (target - r.receive_count)
        then err skip_too_large
        else ok (skip_loop (target - r.receive_count) target (chain_bytes r.receive_key) chain r)
  ]

  -- The end of `receive`: the key at index `n` of the current receiving chain.
  unfoldable pub receive_here : Ratchet → ℕ → Result Error (Bytes × Ratchet)
  receive_here r n = do
    refuse_if (ltb n r.receive_count) stale_message
    r' ← skip_to n r
    let chain = chain_bytes r'.receive_chain
    ok (
      message_key_of c chain,
      record r' {
        receive_chain = some (next_chain_of c chain);
        receive_count = (r'.receive_count + 1) % 2 ^ 32;
      },
    )

  -- `newChain`.
  unfoldable pub is_new_chain : Ratchet → Bytes → Bool
  is_new_chain r peer = elim r.receive_key [ none ↦ true | some k ↦ not (bytes_beq k peer) ]

  -- A new peer key: finish the chain that is left, and turn the ratchet.
  unfoldable pub turn : Ratchet → Header → Bytes → Result Error Ratchet × Bytes
  turn r h random = elim (skip_to h.pn r) [
    | err e ↦ (err e, random)
    | ok r' ↦ step r' h.ratchet_pub random
  ]

  -- `receive`: the message key, the stored key that it was, if any, and the ratchet behind it.
  unfoldable pub receive :
      Ratchet → Header → Bytes → Result Error (Bytes × Option SkippedKey × Ratchet) × Bytes
  receive r h random =
      let key : SkippedKey = record { ratchet_pub = h.ratchet_pub; n = h.n } in
      if not (c.is_public_key h.ratchet_pub)
      then (err malformed, random)
      else elim (find key r.store) [
        | some message_key ↦ (ok (message_key, some key, r), random)
        | none ↦
            let (turned, random') =
              if is_new_chain r h.ratchet_pub then turn r h random else (ok r, random) in
            (
              do r' ← turned; (message_key, r'') ← receive_here r' h.n; ok (message_key, none, r''),
              random',
            )
      ]

-- `canSend`.
unfoldable pub can_send : Ratchet → Bool
can_send r = elim r.send_chain [ none ↦ false | some _ ↦ true ]

unfoldable pub new_ratchet_responder : Bytes → Bytes → Ratchet
new_ratchet_responder root ephemeral = record {
  root_key = root;
  send_key = ephemeral;
  receive_key = none;
  send_chain = none;
  receive_chain = none;
  send_count = 0;
  receive_count = 0;
  previous_sent = 0;
  store = empty;
  steps = 0;
}

-- `destroy` drops every secret but the private key.
unfoldable pub destroy : Ratchet → Ratchet
destroy r = record r { root_key = []; send_chain = none; receive_chain = none; store = empty }
