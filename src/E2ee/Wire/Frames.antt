-- ===== src/E2ee/Wire/Frames.antt =====
-- Frames: what is written is read back.
use cmd_chat.Prelude.{
  ltb, le→ltb_false, length, length-append, take-append-drop, take-append, drop-append, length-take,
  >>=-eq-ok, refuse_if-eq-ok, Result, nat_eq, bytes_eq, Bytes, put_u32, u32_of, u32_of-put_u32,
  length-put_u32, ok, ℕ, ◌%◌, ◌^◌, ◌≤◌, ◌<◌, ◌≡◌, refl, ap, ◌∙◌, ◌++◌, arith,
}
use mathlib.Core.List.{append_assoc}
use cmd_chat.E2ee.Wire.{Error, max_frame_size, read_full, read_frame, write_frame}

pub read_full-append :
    (n : ℕ) (xs ys : Bytes) → length xs ≡ n → read_full n (xs ++ ys) ≡ ok (xs, ys)
unfolding read_full
read_full-append n xs ys h =
    rw (le→ltb_false (length (xs ++ ys)) n (omega (arith, length-append xs ys)))
      (rw (take-append n xs ys h, drop-append n xs ys h))

pub read_full_sound :
    (n : ℕ) (s : Bytes) {xs ys : Bytes}
    → read_full n s ≡ ok (xs, ys)
    → (s ≡ xs ++ ys) × (length xs ≡ n)
unfolding read_full
read_full_sound n s h = ground (arith, take-append-drop n s, length-take n s)

-- Writing to a buffer.
abbrev pub buffer_write : Bytes → Bytes → Result Error Bytes
buffer_write b w = ok (w ++ b)

-- A payload behind its length.
abbrev pub framed : Bytes → Bytes
framed payload = put_u32 (length payload % 2 ^ 32) ++ payload

pub write_frame-framed :
    (payload before : Bytes)
    → length payload ≤ max_frame_size
    → write_frame buffer_write payload before ≡ ok (before ++ framed payload)
unfolding write_frame
write_frame-framed payload before h =
    rw (le→ltb_false max_frame_size (length payload) h) (rw (append_assoc before))

pub read_frame-framed :
    (payload rest : Bytes)
    → length payload ≤ max_frame_size
    → read_frame (framed payload ++ rest) ≡ ok (payload, rest)
unfolding read_frame
read_frame-framed payload rest h =
    let n = length payload % 2 ^ 32 in
    let value : u32_of (put_u32 n) ≡ length payload =
      u32_of-put_u32 n (omega arith) ∙ omega arith in
    rw (append_assoc (put_u32 n) payload rest) (
      rw (read_full-append 4 (put_u32 n) (payload ++ rest) (length-put_u32 n)) (
        rw value (
          rw (le→ltb_false max_frame_size (length payload) h)
            (read_full-append (length payload) payload rest refl))))

-- A payload of at most 64 KiB is written after what the buffer holds, and a reader of the stream
-- that follows gets exactly that payload back and stands at the byte behind it.
pub read_frame-write_frame :
    (payload before rest : Bytes)
    → length payload ≤ max_frame_size
    → (frame : Bytes) × (write_frame buffer_write payload before ≡ ok (before ++ frame))
      × (read_frame (frame ++ rest) ≡ ok (payload, rest))
read_frame-write_frame payload before rest h =
    (framed payload, write_frame-framed payload before h, read_frame-framed payload rest h)

pub read_frame-shorter :
    (stream : Bytes) {payload rest : Bytes}
    → read_frame stream ≡ ok (payload, rest)
    → length rest < length stream
unfolding read_frame
read_frame-shorter stream {payload} {rest} came =
    let ((header, after), e, f) = >>=-eq-ok (read_full 4 stream) _ came in
    let (_, g) = refuse_if-eq-ok (ltb max_frame_size (u32_of header)) _ _ f in
    let (s, n) = read_full_sound 4 stream e in
    let (t, _) = read_full_sound (u32_of header) after g in
    omega
      (arith, ap length s, ap length t, length-append header after, length-append payload rest, n)
