-- ===== src/Relay/Session.antt =====
-- internal/relay/relay.go: joining a session of the relay and waiting for the peer. The dial and
-- JSON are parameters. Times are in milliseconds.
pub mod Pairing
use cmd_chat.Prelude.{
  ◌==◌, if◌then◌else◌, length, take, drop, Result, eq, bytes_beq, nat_eq, bytes_eq, Bytes, codes,
  ok, err, ℕ, zero, suc, ◌+◌, ◌-◌, ◌/◌, min, Bool, true, false, ◌&&◌, ◌||◌, Option, none, some,
  List, [], ◌∷◌, ◌++◌,
}
use cmd_chat.Phonebook.Directory.{itoa, join_lines, has_prefix}
use cmd_chat.Relay.WebSocket
use cmd_chat.Relay.WebSocket.{Writer}
use cmd_chat.Relay.WebSocket.Stream.{Stream, next_control}

abbrev pub signing_prefix : Bytes
signing_prefix = codes "cmd-chat-relay/v1"

abbrev pub pair_timeout : ℕ
pair_timeout = 20_000

-- The errors that callers branch on, and the others.
pub data Error : Type 0 where
  no_host session_busy wait_timeout : Error
  -- An answer to the upgrade that is no upgrade, with its body.
  http_error : (body : Bytes) → Error
  dial_failed : Error
  control_failed : WebSocket.Error → Error
  refused : (message code : Bytes) → Error
  -- Never met: the model's own.
  out_of_fuel : Error

unfoldable pub trim_slashes : Bytes → Bytes
trim_slashes [] = []
trim_slashes (b ∷ s) =
    let rest = trim_slashes s in if length rest == 0 && b == 47 then [] else b ∷ rest

unfoldable pub websocket_url : Bytes → Bytes → Bytes
websocket_url base_url session =
    let trimmed = trim_slashes base_url in
    let there =
      if has_prefix trimmed (codes "https://")
      then codes "wss://" ++ drop 8 trimmed
      else if has_prefix trimmed (codes "http://")
      then codes "ws://" ++ drop 7 trimmed
      else trimmed in
    there ++ (codes "/relay/" ++ session)

-- The identity, as far as it is read: base64 of the public key, and its signature.
pub record Signer : Type 0 where
  pub id : Bytes
  pub public_key : Bytes
  pub sign : Bytes → Bytes
  pub base64 : Bytes → Bytes

pub record Headers : Type 0 where
  pub role : Bytes
  pub id : Bytes
  pub public_key : Bytes
  pub issued_at : Bytes
  pub signature : Bytes

unfoldable pub auth_headers : Signer → Bytes → Bytes → ℕ → Headers
auth_headers k role session issued_at =
    let message = join_lines (signing_prefix ∷ role ∷ session ∷ k.id ∷ itoa issued_at ∷ []) in
    record {
      role = role;
      id = k.id;
      public_key = k.base64 k.public_key;
      issued_at = itoa issued_at;
      signature = k.base64 (k.sign message);
    }

-- `control`
pub record Control : Type 0 where
  pub kind : Bytes
  pub peer : Bytes
  pub code : Bytes
  pub message : Bytes

-- `strings.Contains`
unfoldable pub contains : Bytes → Bytes → Bool
contains text [] = true
contains [] (b ∷ part) = false
contains (a ∷ text) (b ∷ part) =
    let later = contains text (b ∷ part) in has_prefix (a ∷ text) (b ∷ part) || later

unfoldable pub translate_dial_error : Error → Error
translate_dial_error (http_error body) =
    if contains body (codes "\"no_host\"")
    then no_host
    else if contains body (codes "\"session_busy\"")
    then session_busy
    else http_error body
translate_dial_error e = e

-- Whether the bytes have come to an end.
unfoldable pub has_ended : WebSocket.Error → Bool
has_ended WebSocket.eof = true
has_ended WebSocket.unexpected_eof = true
has_ended _ = false

pub record Session : Type 0 where
  pub conn : Stream
  pub peer_id : Bytes

-- `decodeControl`; whether the time is up before a turn; and whether the relay's bytes end in
-- silence, which the read deadline cuts off, instead of with the connection.
pub record Surroundings : Type 0 where
  pub decode_control : Bytes → Option Control
  pub is_late : ℕ → Bool
  pub falls_silent : Bool

module _ {W : Type 0} (writer : Writer W) (around : Surroundings) where
  -- What awaitPeer does with a control message; `again` is its next turn.
  unfoldable pub on_control :
      Result Error (Session × W) → Option Control → Stream → W → Result Error (Session × W)
  on_control again none s w = again
  on_control again (some msg) s w =
      if bytes_beq msg.kind (codes "paired")
      then ok (record { conn = s; peer_id = msg.peer }, w)
      else if bytes_beq msg.kind (codes "error")
      then err (refused msg.message msg.code)
      else again

  -- The loop of `awaitPeer`, with the number of the turn.
  unfoldable pub await_loop : ℕ → ℕ → Stream → W → Result Error (Session × W)
  await_loop zero turn s w = err out_of_fuel
  await_loop (suc fuel) turn s w =
      if around.is_late turn then err wait_timeout else elim (next_control writer s w) [
        | err e ↦
            if around.falls_silent && has_ended e then err wait_timeout else err (control_failed e)
        | ok t ↦ on_control (await_loop fuel (turn + 1) t.1 t.2) (around.decode_control t.0) t.1 t.2
      ]

  -- Every turn takes a waiting message or some bytes.
  unfoldable pub await_peer : Stream → W → Result Error (Session × W)
  await_peer s w = await_loop (length s.control + length s.incoming + 1) 0 s w

  -- `Listen` and `Dial`: `dialled` is what dialWebSocket gave for the URL and the headers.
  unfoldable pub joined : Result Error (Stream × W) → Result Error (Session × W)
  joined (err e) = err (translate_dial_error e)
  joined (ok (s, w)) = await_peer s w

  unfoldable pub listen :
      (Bytes → Headers → Result Error (Stream × W))
      → Bytes
      → Signer
      → ℕ
      → Result Error (Session × W)
  listen dial_web_socket base_url k now =
      joined
        (dial_web_socket (websocket_url base_url k.id) (auth_headers k (codes "host") k.id now))

  unfoldable pub dial :
      (Bytes → Headers → Result Error (Stream × W))
      → Bytes
      → Bytes
      → Signer
      → ℕ
      → Result Error (Session × W)
  dial dial_web_socket base_url host k now =
      joined
        (dial_web_socket (websocket_url base_url host) (auth_headers k (codes "guest") host now))
