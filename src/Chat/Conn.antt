-- ===== src/Chat/Conn.antt =====
-- Conn of internal/chat/chat.go: packets over a session of internal/e2ee. The writer is a parameter;
-- what the peer will have sent is a list of bytes. The locks and the deadlines are not modelled, and
-- one reading of the clock serves a whole call.
pub mod Swallowed
pub mod Delivery
use cmd_chat.Prelude.{
  if◌then◌else◌, length, take, Result, eq, bytes_beq, nat_eq, bytes_eq, Bytes, codes, ok, err, ℕ,
  zero, suc, ◌+◌, ◌-◌, ◌/◌, ap, Bool, true, false, not, ◌||◌, Option, none, some, [],
}
use cmd_chat.E2ee.Wire.{unread, Error}
use cmd_chat.E2ee.Crypto.{Crypto}
use cmd_chat.E2ee.Session.{
  Session, write_message, read_message, session_can_send, needs_rekey, close,
}
use cmd_chat.E2ee.Identity.{safety_number}
use cmd_chat.E2ee.Auth.{PeerInfo, Credentials}
use cmd_chat.Profile.{clean_nickname}
use cmd_chat.Chat.{Packet, packet, Peer, too_long}

pub data Failure : Type 0 where
  message_too_long not_marshalled undecodable : Failure
  e2ee : Error → Failure

-- encoding/json at `Packet`, and the table of graphic runes that CleanNickname reads.
pub record Libraries : Type 0 where
  pub marshal : Packet → Option Bytes
  pub unmarshal : Bytes → Option Packet
  pub is_graphic : ℕ → Bool

-- `transport` and `reader` are the writer and what is still to be read; `stop` is whether the
-- channel is closed.
pub record Conn (W : Type 0) : Type 0 where
  pub transport : W
  pub reader : Bytes
  pub random : Bytes
  pub session : Session
  pub info : PeerInfo
  pub peer : Peer
  pub local_key : Bytes
  pub first_contact : Bool
  pub stop : Bool

-- `credentials`, for an identity that is its ID, its public key and its signature.
unfoldable pub credentials : Libraries → Bytes → Bytes → (Bytes → Bytes) → Bytes → Credentials
credentials l id public_key sign nickname = record {
  id = id;
  public_key = public_key;
  sign = some sign;
  nickname = clean_nickname l.is_graphic nickname;
}

unfoldable pub new_conn :
    {W : Type 0} → Libraries → W → Bytes → Bytes → Session → PeerInfo → Bytes → Bool → Conn W
new_conn l transport reader random session info local_key first_contact = record {
  transport = transport;
  reader = reader;
  random = random;
  session = session;
  info = info;
  peer = record {
    id = info.id;
    name = clean_nickname l.is_graphic info.nickname;
    first_contact = false;
    safety_number = [];
  };
  local_key = local_key;
  first_contact = first_contact;
  stop = false;
}

module _ (c : Crypto) (l : Libraries) {W : Type 0} (write : Bytes → W → Result Error W) where
  unfoldable pub conn_safety_number : Conn W → Bytes
  conn_safety_number k = safety_number c k.local_key k.info.public_key

  -- What `WriteMessage` leaves: the writer where it failed is as it was.
  unfoldable pub written : Conn W → Result Error W × Session → Result Failure (Unit {0}) × Conn W
  written k (err e, s) = (err (e2ee e), record k { session = s })
  written k (ok w, s) = (ok tt, record k { session = s; transport = w })

  unfoldable pub send : Conn W → Packet → Result Failure (Unit {0}) × Conn W
  send k p = if too_long p then (err message_too_long, k) else elim (l.marshal p) [
    | none ↦ (err not_marshalled, k)
    | some plaintext ↦ written k (write_message c write k.session plaintext k.transport)
  ]

  -- The connection after one record was read.
  unfoldable pub after_read : Conn W → Session → Bytes → Bytes → Conn W
  after_read k s reader random = record k { session = s; reader = reader; random = random }

  -- What `Receive` does with a packet; `continue` is its next turn.
  unfoldable pub answer :
      (Conn W → Option (Result Failure Packet × Conn W))
      → Result Failure (Unit {0}) × Conn W
      → Option (Result Failure Packet × Conn W)
  answer continue (err e, k) = some (err e, k)
  answer continue (ok _, k) = continue k

  unfoldable pub take_packet :
      (Conn W → Option (Result Failure Packet × Conn W))
      → Conn W
      → Packet
      → Option (Result Failure Packet × Conn W)
  take_packet continue k p =
      if bytes_beq p.kind (codes "rekey")
      then answer continue (send k (packet (codes "rekey_ack")))
      else if bytes_beq p.kind (codes "rekey_ack")
      then continue k
      else some (ok p, k)

  unfoldable pub take_plaintext :
      (Conn W → Option (Result Failure Packet × Conn W))
      → Conn W
      → Result Error (Bytes × Bytes) × Session × Bytes
      → Option (Result Failure Packet × Conn W)
  take_plaintext continue k (err e, s, random) =
      some (err (e2ee e), after_read k s (unread k.reader) random)
  take_plaintext continue k (ok (plaintext, reader), s, random) = elim (l.unmarshal plaintext) [
    | none ↦ some (err undecodable, after_read k s reader random)
    | some p ↦ take_packet continue (after_read k s reader random) p
  ]

  -- The loop of `Receive`; `none` when the fuel has run out.
  unfoldable pub receive_loop : ℕ → ℕ → Conn W → Option (Result Failure Packet × Conn W)
  receive_loop zero now k = none
  receive_loop (suc fuel) now k =
      take_plaintext (receive_loop fuel now) k (read_message c k.session k.reader now k.random)

  -- A frame takes four bytes or more of what the peer sends.
  abbrev pub receive : ℕ → Conn W → Option (Result Failure Packet × Conn W)
  receive now k = receive_loop (length k.reader + 1) now k

  unfoldable pub rekey : Conn W → Result Failure (Unit {0}) × Conn W
  rekey k = send k (packet (codes "rekey"))

  unfoldable pub rename : Conn W → Bytes → Result Failure (Unit {0}) × Conn W
  rename k name =
      send k (record (packet (codes "nick")) { name = clean_nickname l.is_graphic name })

  -- One turn of the loop of keepRatchetTurning, on a tick of its timer.
  unfoldable pub tick : ℕ → Conn W → Result Failure (Unit {0}) × Conn W
  tick now k =
      if not (session_can_send k.session) || not (needs_rekey k.session now)
      then (ok tt, k)
      else rekey k

  -- `Close`: once. Closing the transport is the caller's.
  unfoldable pub close_conn : Conn W → Conn W
  close_conn k = if k.stop then k else record k { stop = true; session = close k.session }
