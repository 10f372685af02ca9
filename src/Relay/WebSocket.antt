-- ===== src/Relay/WebSocket.antt =====
-- The RFC 6455 client of internal/relay/websocket.go, over the bytes that the server sends before it
-- closes and a writer. The locks, the deadlines and the HTTP upgrade are not modelled.
pub mod Frames
pub mod Messages
pub mod Limits
pub mod Chunks
pub mod Masking
pub mod Reception
pub mod Stream
use Prim.Native.Nat.{bit_xor}
use cmd_chat.Prelude.{
  ltb, leb, ◌==◌, if◌then◌else◌, length, get_or, take, drop, ◌>>=◌, ◌>>◌, refuse_if, or_fail,
  Result, nat_eq, bytes_eq, Bytes, put_u32, ok, err, ℕ, zero, suc, ◌+◌, ◌-◌, ◌*◌, ◌/◌, ◌%◌, ◌^◌, ap,
  Bool, true, false, not, ◌&&◌, Option, none, some, [], ◌∷◌, ◌++◌,
}

-- `closed` is a CloseError; `out_of_fuel` is the model's own and is never met (Limits).
pub data Error : Type 0 where
  eof unexpected_eof too_large masked_frame stray_continuation interleaved : Error
  message_too_large not_written out_of_fuel : Error
  closed : (code : ℕ) (reason : Bytes) → Error

abbrev pub op_continuation : ℕ
op_continuation = 0x0

abbrev pub op_text : ℕ
op_text = 0x1

abbrev pub op_binary : ℕ
op_binary = 0x2

abbrev pub op_close : ℕ
op_close = 0x8

abbrev pub op_ping : ℕ
op_ping = 0x9

abbrev pub op_pong : ℕ
op_pong = 0xA

abbrev pub max_frame_bytes : ℕ
max_frame_bytes = 64 * 1024

-- `io.ReadFull` of `n` bytes.
unfoldable pub read_full : ℕ → Bytes → Result Error (Bytes × Bytes)
read_full n stream =
    if ltb (length stream) n
    then err (if length stream == 0 then eof else unexpected_eof)
    else ok (take n stream, drop n stream)

-- `binary.BigEndian` of a slice of any length.
unfoldable pub big_endian : Bytes → ℕ → ℕ
big_endian [] acc = acc
big_endian (b ∷ r) acc = big_endian r (acc * 256 + b)

-- The extended length: an int64, so that the eight-byte one may turn out negative (`none`).
unfoldable pub extend_length : ℕ → Bytes → Result Error (Option ℕ × Bytes)
extend_length n stream =
    if n == 126
    then (do (ext, stream) ← read_full 2 stream; ok (some (big_endian ext 0), stream))
    else if n == 127
    then (do
      (ext, stream) ← read_full 8 stream
      let v = big_endian ext 0
      ok (if ltb v (2 ^ 63) then some v else none, stream))
    else ok (some n, stream)

pub record Frame : Type 0 where
  pub fin : Bool
  pub op : ℕ
  pub payload : Bytes

-- One frame of the server.
unfoldable pub next_frame : Bytes → Result Error (Frame × Bytes)
next_frame stream = do
  (header, stream) ← read_full 2 stream
  let b0 = get_or header 0 0
  let b1 = get_or header 1 0
  (size, stream) ← extend_length (b1 % 128) stream
  n ← or_fail size too_large
  refuse_if (ltb max_frame_bytes n) too_large
  refuse_if (leb 128 b1) masked_frame
  (body, stream) ← read_full n stream
  ok (record { fin = leb 128 b0; op = b0 % 16; payload = body }, stream)

unfoldable pub parse_close : Bytes → ℕ × Bytes
parse_close body =
    if ltb (length body) 2 then (1005, []) else (big_endian (take 2 body) 0, drop 2 body)

-- What is put together of a fragmented message.
pub record Assembly : Type 0 where
  pub assembled : Bytes
  pub first_opcode : ℕ
  pub fragmented : Bool

abbrev pub nothing_yet : Assembly
nothing_yet = record { assembled = []; first_opcode = 0; fragmented = false }

-- A frame of data joins the message.
unfoldable pub join : Assembly → Frame → Result Error Assembly
join a f = do
  refuse_if (f.op == op_continuation && not a.fragmented) stray_continuation
  refuse_if (not (f.op == op_continuation) && a.fragmented) interleaved
  let a = if f.op == op_continuation then a else record a { first_opcode = f.op; fragmented = true }
  let a = record a { assembled = a.assembled ++ f.payload }
  refuse_if (ltb max_frame_bytes (length a.assembled)) message_too_large
  ok a

-- `payload[i] ^ mask[i%4]`, from index `i` on.
unfoldable pub apply_mask : Bytes → ℕ → Bytes → Bytes
apply_mask mask i [] = []
apply_mask mask i (b ∷ r) = bit_xor b (get_or mask (i % 4) 0) ∷ apply_mask mask (i + 1) r

-- The header of a frame of the client, but for the mask.
unfoldable pub client_header : ℕ → ℕ → Bytes
client_header opcode n =
    (128 + opcode)
    ∷ (if ltb n 126
        then (128 + n) ∷ []
        else if leb n 0xFFFF
        then (128 + 126) ∷ (n / 2 ^ 8 % 256) ∷ (n % 256) ∷ []
        else (128 + 127) ∷ 0 ∷ 0 ∷ 0 ∷ 0 ∷ put_u32 n)

-- The writer takes a frame's bytes or fails; it has the masks that `rand.Read` gives.
pub record Writer (W : Type 0) : Type 0 where
  pub write : Bytes → W → Option W
  pub mask : W → Option (Bytes × W)

module _ {W : Type 0} (writer : Writer W) where
  unfoldable pub write_frame : ℕ → Bytes → W → Result Error W
  write_frame opcode payload w = do
    (mask, w) ← or_fail (writer.mask w) not_written
    or_fail
        (writer.write (client_header opcode (length payload) ++ (mask ++ apply_mask mask 0 payload))
          w)
        not_written

  -- What a round does with its frame; `again` is the next round.
  unfoldable pub on_frame :
      (Assembly → W → Result Error ((ℕ × Bytes) × Bytes × W))
      → Bytes
      → Assembly
      → Frame
      → W
      → Result Error ((ℕ × Bytes) × Bytes × W)
  on_frame again stream a f w =
      if f.op == op_ping
      then (write_frame op_pong f.payload w >>= λ w'. again a w')
      else if f.op == op_pong
      then again a w
      else if f.op == op_close
      then err (closed (parse_close f.payload).0 (parse_close f.payload).1)
      else (join a f >>= λ a'.
          if f.fin then ok ((a'.first_opcode, a'.assembled), stream, w) else again a' w)

  -- The loop of `readFrame`; the fuel bounds the rounds. The opcode, the message, what is left of
  -- the stream, and the writer. The close frame that is sent back is not seen: the connection is
  -- closed with it.
  unfoldable pub read_loop : ℕ → Assembly → Bytes → W → Result Error ((ℕ × Bytes) × Bytes × W)
  read_loop zero a stream w = err out_of_fuel
  read_loop (suc fuel) a stream w = do
    (f, rest) ← next_frame stream
    on_frame (λ a' w'. read_loop fuel a' rest w') rest a f w

  -- `readFrame`: each round takes two bytes at least.
  unfoldable pub read_frame : Bytes → W → Result Error ((ℕ × Bytes) × Bytes × W)
  read_frame stream w = read_loop (length stream + 1) nothing_yet stream w

  -- The loop of `Write`: the bytes written and the writer.
  unfoldable pub write_loop : ℕ → Bytes → ℕ → W → Result Error W × ℕ
  write_loop zero p written w = (ok w, written)
  write_loop (suc fuel) p written w =
      let end =
        if ltb (length p) (written + max_frame_bytes)
        then length p
        else written + max_frame_bytes in
      let sent = write_frame op_binary (take (end - written) (drop written p)) w in
      if ltb written (length p)
      then elim sent [ err e ↦ (err e, written) | ok w' ↦ write_loop fuel p end w' ]
      else (ok w, written)

  unfoldable pub write : Bytes → W → Result Error W × ℕ
  write p w = write_loop (length p + 1) p 0 w
