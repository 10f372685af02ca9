-- ===== src/Relay/WebSocket/Stream.antt =====
-- wsConn of internal/relay/websocket.go as a stream: Read, and nextControl for the relay's own
-- messages. The deadline of nextControl is not modelled.
use cmd_chat.Prelude.{
  ltb, ◌==◌, if◌then◌else◌, length, take, drop, length-append, All, ◌>>=◌, Result, nat_eq, bytes_eq,
  Bytes, ok, err, ℕ, zero, suc, ◌+◌, ◌≤◌, ◌<◌, ◌≡◌, refl, List, [], ◌∷◌, ◌++◌, arith,
}
use mathlib.Core.List.{append_assoc, append-nil}
use cmd_chat.Relay.WebSocket.{
  Error, out_of_fuel, Writer, op_text, op_binary, op_close, max_frame_bytes, read_frame,
}
use cmd_chat.Relay.WebSocket.Messages.{encode, read_frame_message, length-encode}

-- The channel of control messages has room for eight.
abbrev pub control_backlog : ℕ
control_backlog = 8

-- The bytes that the server will still send are part of the state.
pub record Stream : Type 0 where
  pub incoming : Bytes
  pub pending : Bytes
  pub control : List Bytes

-- `c.control <- payload`, dropped when the channel is full.
unfoldable pub post : Bytes → List Bytes → List Bytes
post payload control =
    if ltb (length control) control_backlog then control ++ (payload ∷ []) else control

-- Messages in one frame each, all of an opcode, with what follows them.
abbrev pub messages : ℕ → List Bytes → Bytes → Bytes
messages op [] rest = rest
messages op (m ∷ ms) rest = encode op [] m ++ messages op ms rest

abbrev pub IsMessage : Bytes → Type 0
IsMessage m = length m ≤ max_frame_bytes

abbrev pub concat : List Bytes → Bytes
concat [] = []
concat (m ∷ ms) = m ++ concat ms

module _ {W : Type 0} (writer : Writer W) where
  pub length-messages :
      (op : ℕ) (ms : List Bytes) (rest : Bytes)
      → length ms + length rest ≤ length (messages op ms rest)
  length-messages op [] rest = omega arith
  length-messages op (m ∷ ms) rest = omega (
    arith,
    length-messages op ms rest,
    length-encode writer op [] m,
    length-append (encode op [] m) (messages op ms rest),
  )

  -- The loop of `Read`; the fuel bounds the messages.
  unfoldable pub fill : ℕ → Stream → W → Result Error (Stream × W)
  fill zero s w = err out_of_fuel
  fill (suc fuel) s w =
      if ltb 0 (length s.pending)
      then ok (s, w)
      else (read_frame writer s.incoming w >>= λ ((op, payload), incoming, w').
          if op == op_text
          then fill fuel (record s { incoming = incoming; control = post payload s.control }) w'
          else fill fuel (record s { incoming = incoming; pending = payload }) w')

  -- `Read` into a buffer of `n` bytes.
  unfoldable pub read : ℕ → Stream → W → Result Error (Bytes × Stream × W)
  read n s w = do
    (s, w) ← fill (length s.incoming + 2) s w
    ok (take n s.pending, record s { pending = drop n s.pending }, w)

  -- The loop of `nextControl`.
  unfoldable pub control_loop : ℕ → Stream → W → Result Error (Bytes × Stream × W)
  control_loop zero s w = err out_of_fuel
  control_loop (suc fuel) s w = read_frame writer s.incoming w >>= λ ((op, payload), incoming, w').
      if op == op_text
      then ok (payload, record s { incoming = incoming }, w')
      else control_loop fuel (record s { incoming = incoming; pending = s.pending ++ payload }) w'

  unfoldable pub next_control : Stream → W → Result Error (Bytes × Stream × W)
  next_control s w = elim s.control [
    | message ∷ rest ↦ ok (message, record s { control = rest }, w)
    | [] ↦ control_loop (length s.incoming + 1) s w
  ]

  single :
      (op : ℕ) (m rest : Bytes) (w : W)
      → 0 < op
      → op < op_close
      → IsMessage m
      → read_frame writer (encode op [] m ++ rest) w ≡ ok ((op, m), rest, w)
  single op m rest w p c i = read_frame_message writer op [] m rest w p c tt i

  control_loop_binaries :
      (fuel : ℕ) (ms : List Bytes) (t rest pending : Bytes) (control : List Bytes) (w : W)
      → length ms < fuel
      → All IsMessage ms
      → IsMessage t
      → control_loop fuel
          (record {
            incoming = messages op_binary ms (encode op_text [] t ++ rest);
            pending = pending;
            control = control;
          })
          w
        ≡ ok (t, record { incoming = rest; pending = pending ++ concat ms; control = control }, w)
  unfolding control_loop
  control_loop_binaries zero ms t rest pending control w f a i = absurd (omega arith)
  control_loop_binaries (suc fuel) [] t rest pending control w f a i =
      rw (single op_text t rest w (omega arith) (omega arith) i, append-nil pending) refl
  control_loop_binaries (suc fuel) (m ∷ ms) t rest pending control w f a i =
      rw
        (
          single op_binary m (messages op_binary ms (encode op_text [] t ++ rest)) w (omega arith)
              (omega arith) a.0,
          ← append_assoc pending m (concat ms),
        )
        (control_loop_binaries fuel ms t rest (pending ++ m) control w (omega (arith, f)) a.1 i)

  -- With no control message waiting, nextControl gives the next text message, and the binary
  -- messages before it are pending behind what was pending, in order and whole.
  pub next_control_binaries :
      (ms : List Bytes) (t rest pending : Bytes) (w : W)
      → All IsMessage ms
      → IsMessage t
      → next_control
          (record {
            incoming = messages op_binary ms (encode op_text [] t ++ rest);
            pending = pending;
            control = [];
          })
          w
        ≡ ok (t, record { incoming = rest; pending = pending ++ concat ms; control = [] }, w)
  unfolding next_control
  next_control_binaries ms t rest pending w a i =
      control_loop_binaries (length (messages op_binary ms (encode op_text [] t ++ rest)) + 1) ms t
        rest pending [] w
        (omega (arith, length-messages op_binary ms (encode op_text [] t ++ rest))) a i
