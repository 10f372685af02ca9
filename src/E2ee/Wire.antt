-- ===== src/E2ee/Wire.antt =====
-- internal/e2ee/wire.go, primitives.go (lengthPrefix) and the errors of the package. An `io.Reader`
-- is the list of the bytes that the peer sends before it closes; a nil slice is `none`.
pub mod Frames
pub mod Cursor
use cmd_chat.Prelude.{
  ltb, ◌==◌, if◌then◌else◌, length, get_or, take, drop, ◌>>=◌, ◌>>◌, refuse_if, Result, nat_eq,
  bytes_eq, Bytes, put_u16, put_u32, u16_of, u32_of, ok, err, ℕ, ◌+◌, ◌-◌, ◌*◌, ◌/◌, ◌%◌, ◌^◌, ap,
  Bool, true, false, not, ◌||◌, Option, none, some, [], ◌++◌,
}

-- The errors of the package. `io` and `local_fault` stand for errors of the libraries and for the
-- ones that the source makes where it returns them.
pub data Error : Type 0 where
  frame_too_large malformed skip_too_large stale_message decrypt_failed session_closed : Error
  no_common_version peer_closed_handshake legacy_peer downgrade no_channel_binding : Error
  authentication_failed untrusted_key padding_failed eof unexpected_eof io local_fault : Error

abbrev pub max_frame_size : ℕ
max_frame_size = 64 * 2 ^ 10

-- `io.ReadFull` into a buffer of `n` bytes.
unfoldable pub read_full : ℕ → Bytes → Result Error (Bytes × Bytes)
read_full n stream =
    if ltb (length stream) n
    then err (if length stream == 0 then eof else unexpected_eof)
    else ok (take n stream, drop n stream)

-- `w.Write` is a parameter: it takes the bytes or fails.
module _ {W : Type 0} (write : Bytes → W → Result Error W) where
  unfoldable pub write_frame : Bytes → W → Result Error W
  write_frame payload w = do
    refuse_if (ltb max_frame_size (length payload)) frame_too_large
    w' ← write (put_u32 (length payload % 2 ^ 32)) w
    write payload w'

-- The payload and what is left of the stream.
unfoldable pub read_frame : Bytes → Result Error (Bytes × Bytes)
unfolding read_full
read_frame stream = do
  (header, rest) ← read_full 4 stream
  refuse_if (ltb max_frame_size (u32_of header)) frame_too_large
  read_full (u32_of header) rest

-- What `readFrame` leaves of the stream, whether it fails or not: behind a length that is too large
-- nothing is read, and a stream that ends early is used up.
unfoldable pub unread : Bytes → Bytes
unread stream = elim (read_frame stream) [
  | ok (payload, rest) ↦ rest
  | err frame_too_large ↦ drop 4 stream
  | err _ ↦ []
]

-- `reader`: the only error that it can hold is `malformed`.
pub record Reader : Type 0 where
  pub b : Bytes
  pub failed : Bool

abbrev pub reader : Bytes → Reader
reader b = record { b = b; failed = false }

unfoldable pub take_bytes : Reader → ℕ → Option Bytes × Reader
take_bytes r n =
    if r.failed
    then (none, r)
    else if ltb (length r.b) n
    then (none, record r { failed = true })
    else (some (take n r.b), record r { b = drop n r.b })

unfoldable pub read_u8 : Reader → ℕ × Reader
read_u8 r = let (o, r') = take_bytes r 1 in elim o [ none ↦ (0, r') | some b ↦ (get_or b 0 0, r') ]

unfoldable pub read_u16 : Reader → ℕ × Reader
read_u16 r = let (o, r') = take_bytes r 2 in elim o [ none ↦ (0, r') | some b ↦ (u16_of b, r') ]

unfoldable pub read_u32 : Reader → ℕ × Reader
read_u32 r = let (o, r') = take_bytes r 4 in elim o [ none ↦ (0, r') | some b ↦ (u32_of b, r') ]

-- A length-prefixed byte string.
unfoldable pub read_lp : Reader → Option Bytes × Reader
read_lp r =
    let (n, r') = read_u32 r in
    if r'.failed
    then (none, r')
    else if ltb (length r'.b) n
    then (none, record r' { failed = true })
    else take_bytes r' n

unfoldable pub done : Reader → Result Error (Unit {0})
done r = do refuse_if r.failed malformed; refuse_if (ltb 0 (length r.b)) malformed; ok tt

unfoldable pub append_u16 : Bytes → ℕ → Bytes
append_u16 dst v = dst ++ put_u16 v

unfoldable pub append_u32 : Bytes → ℕ → Bytes
append_u32 dst v = dst ++ put_u32 v

-- lp(b) = uint32be(len(b)) || b, after `dst`.
unfoldable pub length_prefix : Bytes → Bytes → Bytes
length_prefix dst b = dst ++ (put_u32 (length b % 2 ^ 32) ++ b)
