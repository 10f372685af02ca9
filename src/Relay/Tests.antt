-- ===== src/Relay/Tests.antt =====
-- The relay's connection at concrete inputs.
mod Session
use cmd_chat.Prelude.{
  length, replicate, ◌>>=◌, ◌>>◌, nat_eq, bytes_eq, Bytes, ok, zero, ◌+◌, ◌-◌, ◌≡◌, refl, ap, some,
  List, [], ◌∷◌, ◌++◌, arith,
}
use cmd_chat.Relay.WebSocket.{
  Writer, read_frame, write_frame, write, next_frame, op_text, client_header, apply_mask, op_binary,
}
use cmd_chat.Relay.WebSocket.Frames.{server_frame, next_frame-server_frame}
use cmd_chat.Relay.WebSocket.Messages.{
  Event, fragment, ping, pong, encode, answer, read_frame_message,
}
use cmd_chat.Relay.WebSocket.Limits.{Settled, read_frame-Settled}
use cmd_chat.Relay.WebSocket.Stream.{read, next_control, messages, post, next_control_binaries}
use cmd_chat.Relay.WebSocket.Masking.{read_masked}
use cmd_chat.Relay.WebSocket.Reception.{Received, network, write-Received}

-- A writer that keeps what it is given, with a mask of zeros.
abbrev keeper : Writer Bytes
keeper = record { write = λ b w. some (w ++ b); mask = λ w. some (replicate 4 0, w) }

abbrev events : List Event
events = fragment (1 ∷ 2 ∷ []) ∷ ping (9 ∷ []) ∷ pong [] ∷ fragment (3 ∷ []) ∷ []

read_frame_message_example :
    read_frame keeper (encode op_text events (4 ∷ []) ++ (7 ∷ [])) []
    ≡ (answer keeper events [] >>= λ w'. ok ((op_text, 1 ∷ 2 ∷ 3 ∷ 4 ∷ []), 7 ∷ [], w'))
read_frame_message_example =
    read_frame_message keeper op_text events (4 ∷ []) (7 ∷ []) [] (omega arith) (omega arith)
      (omega arith, (omega arith, (omega arith, (omega arith, tt)))) (omega arith)

-- The pong goes out masked.
answered : answer keeper events [] ≡ ok (138 ∷ 129 ∷ 0 ∷ 0 ∷ 0 ∷ 0 ∷ 9 ∷ [])
unfolding write_frame client_header apply_mask
answered = refl

read_frame-Settled_example : Settled keeper 3 (read_frame keeper (1 ∷ 255 ∷ 3 ∷ []) [])
read_frame-Settled_example = read_frame-Settled keeper (1 ∷ 255 ∷ 3 ∷ []) []

-- A masking key that depends on what was sent.
abbrev key : Bytes → Bytes
key s = length s ∷ 7 ∷ 255 ∷ 0 ∷ []

write-Received_example :
    Received key (1 ∷ 2 ∷ 3 ∷ []) (9 ∷ []) (write (network key) (1 ∷ 2 ∷ 3 ∷ []) (9 ∷ []))
write-Received_example = write-Received key (1 ∷ 2 ∷ 3 ∷ []) (9 ∷ []) (λ s. refl)

sent_masked :
    write_frame (network key) op_binary (1 ∷ 2 ∷ 3 ∷ []) []
    ≡ ok (130 ∷ 131 ∷ 0 ∷ 7 ∷ 255 ∷ 0 ∷ 1 ∷ 5 ∷ 252 ∷ [])
unfolding write_frame client_header apply_mask
sent_masked = refl
