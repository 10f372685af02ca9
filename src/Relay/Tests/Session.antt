-- ===== src/Relay/Tests/Session.antt =====
-- Joining a relay session at concrete inputs.
use cmd_chat.Prelude.{
  ◌==◌, if◌then◌else◌, replicate, nat_eq, bytes_eq, Bytes, codes, ok, ◌≡◌, refl, true, false,
  Option, none, some, [], ◌∷◌, ◌++◌, arith,
}
use cmd_chat.Phonebook.Directory.{itoa, join_lines, digits_before, has_prefix}
use cmd_chat.Relay.WebSocket.{Writer, op_binary, op_text}
use cmd_chat.Relay.WebSocket.Messages.{encode}
use cmd_chat.Relay.WebSocket.Stream.{messages}
use cmd_chat.Relay.Session.{
  Control, Surroundings, Signer, await_peer, websocket_url, trim_slashes, auth_headers,
  translate_dial_error, contains, http_error, no_host,
}
use cmd_chat.Relay.Session.Pairing.{turns, await_peer-paired}

abbrev quiet_writer : Writer Bytes
quiet_writer = record { write = λ b w. some (w ++ b); mask = λ w. some (replicate 4 0, w) }

-- The first byte tells a pairing from a wait; other texts are no control messages.
abbrev decode : Bytes → Option Control
decode [] = none
decode (b ∷ peer) =
    if b == 1
    then some (record { kind = codes "paired"; peer = peer; code = []; message = [] })
    else if b == 2
    then some (record { kind = codes "waiting"; peer = []; code = []; message = [] })
    else none

abbrev around : Surroundings
around = record { decode_control = decode; is_late = λ i. false; falls_silent = true }

-- A wait, a text that is no message, bytes of the peer, the pairing, more bytes.
await_peer-paired_example :
    await_peer quiet_writer around
      (record {
        incoming =
            turns (([], 2 ∷ []) ∷ ((7 ∷ 8 ∷ []) ∷ [], 9 ∷ []) ∷ []) (
              messages op_binary
                ((5 ∷ []) ∷ [])
                (encode op_text [] (1 ∷ codes "cc-B") ++ (3 ∷ [])));
        pending = [];
        control = [];
      })
      []
    ≡ ok (
      record {
        conn = record { incoming = 3 ∷ []; pending = 7 ∷ 8 ∷ 5 ∷ []; control = [] };
        peer_id = codes "cc-B";
      },
      [],
    )
await_peer-paired_example =
    await_peer-paired quiet_writer around (([], 2 ∷ []) ∷ ((7 ∷ 8 ∷ []) ∷ [], 9 ∷ []) ∷ [])
      ((5 ∷ []) ∷ []) (1 ∷ codes "cc-B") (3 ∷ []) [] []
      (record { kind = codes "paired"; peer = codes "cc-B"; code = []; message = [] }) (λ i. refl)
      (((tt, omega arith), (((omega arith, tt), omega arith), tt))) ((refl, refl), (tt, tt))
      (omega arith, tt) (omega arith) refl refl

address :
    websocket_url (codes "https://relay.example/") (codes "cc-B")
    ≡ codes "wss://relay.example/relay/cc-B"
unfolding websocket_url trim_slashes has_prefix
address = refl

absent : translate_dial_error (http_error (codes "{\"error\":\"no_host\"}")) ≡ no_host
unfolding translate_dial_error contains has_prefix
absent = refl

abbrev signer : Signer
signer = record { id = codes "cc-A"; public_key = 1 ∷ []; sign = λ m. m; base64 = λ b. b }

signed :
    (auth_headers signer (codes "host") (codes "cc-A") 12).signature
    ≡ codes "cmd-chat-relay/v1\nhost\ncc-A\ncc-A\n12"
unfolding auth_headers join_lines itoa digits_before
signed = refl
