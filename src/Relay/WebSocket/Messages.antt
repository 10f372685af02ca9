-- ===== src/Relay/WebSocket/Messages.antt =====
-- Messages: readFrame of internal/relay/websocket.go puts fragments together, answers pings between
-- them, and gives up nothing but its own limit.
use cmd_chat.Prelude.{
  ◌==◌, if◌then◌else◌, le→ltb_false, length, length-append, All, ◌>>=◌, Result-cases, Result,
  nat_eq, bytes_eq, Bytes, ok, ℕ, zero, suc, ◌+◌, ◌≤◌, ◌<◌, ◌≡◌, refl, ap, ◌∙◌, ◌⊎◌, inl, inr, Bool,
  true, false, List, [], ◌∷◌, ◌++◌, arith,
}
use mathlib.Core.List.{append_assoc}
use cmd_chat.Relay.WebSocket.{
  Error, Assembly, Writer, nothing_yet, op_continuation, op_ping, op_pong, op_close,
  max_frame_bytes, join, on_frame, read_loop, read_frame, write_frame,
}
use cmd_chat.Relay.WebSocket.Frames.{server_frame, next_frame-server_frame}

-- What a server may send before the last fragment of a message.
pub data Event : Type 0 where
  fragment ping pong : Bytes → Event

abbrev frame : Bool → ℕ → Bytes → Bytes
frame fin op payload = server_frame (record { fin = fin; op = op; payload = payload })

-- The bytes of a message of an opcode; only its first frame of data has the opcode.
abbrev pub encode : ℕ → List Event → Bytes → Bytes
encode op [] last = frame true op last
encode op (fragment b ∷ es) last = frame false op b ++ encode op_continuation es last
encode op (ping b ∷ es) last = frame true op_ping b ++ encode op es last
encode op (pong b ∷ es) last = frame true op_pong b ++ encode op es last

-- The text of a message.
abbrev pub joined : List Event → Bytes → Bytes
joined [] last = last
joined (fragment b ∷ es) last = b ++ joined es last
joined (ping _ ∷ es) last = joined es last
joined (pong _ ∷ es) last = joined es last

abbrev pub Small : Event → Type 0
Small (fragment b) = length b ≤ max_frame_bytes
Small (ping b) = length b ≤ max_frame_bytes
Small (pong b) = length b ≤ max_frame_bytes

-- The opcode that the next frame of data has to have.
abbrev pub Awaits : Assembly → ℕ → Type 0
Awaits a op =
    ((a.fragmented ≡ true) × (op ≡ op_continuation))
    ⊎ ((a.fragmented ≡ false) × (0 < op) × (op < op_close))

-- What there is once a frame of data has joined it.
abbrev extend : Assembly → ℕ → Bytes → Assembly
extend a op b = record {
  assembled = a.assembled ++ b;
  first_opcode = if a.fragmented then a.first_opcode else op;
  fragmented = true;
}

join-Awaits :
    (a : Assembly) (fin : Bool) (op : ℕ) (b : Bytes)
    → Awaits a op
    → length (a.assembled ++ b) ≤ max_frame_bytes
    → join a (record { fin = fin; op = op; payload = b }) ≡ ok (extend a op b)
unfolding join
join-Awaits a fin op b (inl (started, same)) n =
    rw (same, started)
      (rw (le→ltb_false max_frame_bytes (length (a.assembled ++ b)) n) (ground arith))
join-Awaits a fin op b (inr (fresh, some_op, _)) n =
    let not_zero : (op == op_continuation) ≡ false = ground arith in
    rw (not_zero, fresh) (rw (le→ltb_false max_frame_bytes (length (a.assembled ++ b)) n) refl)

op-lt-close : (a : Assembly) (op : ℕ) → Awaits a op → op < op_close
op-lt-close a op (inl (_, e)) = omega arith
op-lt-close a op (inr (_, _, l)) = l

module _ {W : Type 0} (writer : Writer W) where
  -- The pongs that are owed, in order.
  abbrev pub answer : List Event → W → Result Error W
  answer [] w = ok w
  answer (fragment _ ∷ es) w = answer es w
  answer (ping b ∷ es) w = write_frame writer op_pong b w >>= λ w'. answer es w'
  answer (pong _ ∷ es) w = answer es w

  -- A frame of data, one that is no control frame, joins the message.
  on_frame_of_data :
      (again : Assembly → W → Result Error ((ℕ × Bytes) × Bytes × W)) (stream : Bytes)
      (a : Assembly) (fin : Bool) (op : ℕ) (b : Bytes) (w : W)
      → Awaits a op
      → length (a.assembled ++ b) ≤ max_frame_bytes
      → on_frame writer again stream a (record { fin = fin; op = op; payload = b }) w ≡ (
          if fin
          then ok (((extend a op b).first_opcode, a.assembled ++ b), stream, w)
          else again (extend a op b) w)
  unfolding on_frame
  on_frame_of_data again stream a fin op b w o n =
      let small = op-lt-close a op o in
      let no_ping : (op == op_ping) ≡ false = ground arith in
      let no_pong : (op == op_pong) ≡ false = ground arith in
      let no_close : (op == op_close) ≡ false = ground arith in
      rw (no_ping, no_pong, no_close, join-Awaits a fin op b o n) refl

  -- The message is joined to what there is.
  read_events :
      (fuel : ℕ) (a : Assembly) (op : ℕ) (es : List Event) (last rest : Bytes) (w : W)
      → Awaits a op
      → length es < fuel
      → All Small es
      → length (a.assembled ++ joined es last) ≤ max_frame_bytes
      → read_loop writer fuel a (encode op es last ++ rest) w ≡ (
          answer es w >>= λ w'.
          ok (
            (if a.fragmented then a.first_opcode else op, a.assembled ++ joined es last),
            rest,
            w',
          ))
  unfolding read_loop on_frame
  read_events zero a op es last rest w o n s l = absurd (omega arith)
  read_events (suc fuel) a op [] last rest w o n s l =
      let size : length last ≤ max_frame_bytes = omega (arith, l, length-append a.assembled last) in
      rw
        (next_frame-server_frame (record { fin = true; op = op; payload = last }) rest
          (omega (arith, op-lt-close a op o)) size)
        (on_frame_of_data (λ a' w'. read_loop writer fuel a' rest w') rest a true op last w o l)
  read_events (suc fuel) a op (fragment b ∷ es) last rest w o n s l =
      let more = encode op_continuation es last ++ rest in
      let e : (a.assembled ++ b) ++ joined es last ≡ a.assembled ++ (b ++ joined es last) =
        append_assoc a.assembled b (joined es last) in
      let l' : length ((a.assembled ++ b) ++ joined es last) ≤ max_frame_bytes = rw e l in
      let size : length (a.assembled ++ b) ≤ max_frame_bytes =
        omega (arith, l', length-append (a.assembled ++ b) (joined es last)) in
      rw
        (
          append_assoc (frame false op b) (encode op_continuation es last) rest,
          next_frame-server_frame (record { fin = false; op = op; payload = b }) more
              (omega (arith, op-lt-close a op o)) s.0,
        )
        (on_frame_of_data (λ a' w'. read_loop writer fuel a' more w') more a false op b w o size
          ∙ (read_events fuel (extend a op b) op_continuation es last rest w (inl (refl, refl))
                (omega (arith, n)) s.1 l'
              ∙ ap
                  (λ (t : Bytes). answer es w >>= λ w'.
                    ok (((if a.fragmented then a.first_opcode else op), t), rest, w'))
                  e))
  read_events (suc fuel) a op (ping b ∷ es) last rest w o n s l =
      let more = encode op es last ++ rest in
      rw
        (
          append_assoc (frame true op_ping b) (encode op es last) rest,
          next_frame-server_frame (record { fin = true; op = op_ping; payload = b }) more
              (omega arith) s.0,
        )
        (elim (Result-cases (write_frame writer op_pong b w)) [
          | inl (e, h) ↦ rw h refl
          | inr (w', h) ↦ rw h (read_events fuel a op es last rest w' o (omega (arith, n)) s.1 l)
        ])
  read_events (suc fuel) a op (pong b ∷ es) last rest w o n s l =
      let more = encode op es last ++ rest in
      rw
        (
          append_assoc (frame true op_pong b) (encode op es last) rest,
          next_frame-server_frame (record { fin = true; op = op_pong; payload = b }) more
              (omega arith) s.0,
        )
        (read_events fuel a op es last rest w o (omega (arith, n)) s.1 l)

  pub length-encode :
      (op : ℕ) (es : List Event) (last : Bytes) → length es < length (encode op es last)
  unfolding server_frame
  length-encode op [] last = omega arith
  length-encode op (fragment b ∷ es) last = omega (
    arith,
    length-encode op_continuation es last,
    length-append (frame false op b) (encode op_continuation es last),
  )
  length-encode op (ping b ∷ es) last =
      omega
        (arith, length-encode op es last, length-append (frame true op_ping b) (encode op es last))
  length-encode op (pong b ∷ es) last =
      omega
        (arith, length-encode op es last, length-append (frame true op_pong b) (encode op es last))

  -- A message of a data opcode in any fragments, with pings and pongs between them and within the
  -- limit, is read as its fragments joined; each ping is answered by a pong of its payload, in
  -- order, and the stream stands behind the message.
  pub read_frame_message :
      (op : ℕ) (es : List Event) (last rest : Bytes) (w : W)
      → 0 < op
      → op < op_close
      → All Small es
      → length (joined es last) ≤ max_frame_bytes
      → read_frame writer (encode op es last ++ rest) w
        ≡ (answer es w >>= λ w'. ok ((op, joined es last), rest, w'))
  unfolding read_frame
  read_frame_message op es last rest w p c s l =
      read_events (length (encode op es last ++ rest) + 1) nothing_yet op es last rest w
        (inr (refl, p, c))
        (omega (arith, length-encode op es last, length-append (encode op es last) rest)) s l
