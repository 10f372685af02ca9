-- ===== src/E2ee/Wire/Cursor.antt =====
-- The cursor over a frame: what its reads give.
use cmd_chat.Prelude.{
  le→ltb_false, length, length-append, take-append, drop-append, nat_eq, bytes_eq, Bytes, put_u32,
  u32_of-put_u32, length-put_u32, ℕ, ◌^◌, ◌<◌, ◌≡◌, refl, some, ◌++◌, arith,
}
use cmd_chat.E2ee.Wire.{reader, take_bytes, read_u32, read_lp}

pub take_bytes-append :
    (n : ℕ) (xs ys : Bytes)
    → length xs ≡ n
    → take_bytes (reader (xs ++ ys)) n ≡ (some xs, reader ys)
unfolding take_bytes
take_bytes-append n xs ys h =
    rw (le→ltb_false (length (xs ++ ys)) n (omega (arith, length-append xs ys)))
      (rw (take-append n xs ys h, drop-append n xs ys h))

pub read_u32-append :
    (v : ℕ) (ys : Bytes) → v < 2 ^ 32 → read_u32 (reader (put_u32 v ++ ys)) ≡ (v, reader ys)
unfolding read_u32
read_u32-append v ys h =
    ground (arith, take_bytes-append 4 (put_u32 v) ys (length-put_u32 v), u32_of-put_u32 v h)

pub read_lp-append :
    (xs ys : Bytes)
    → length xs < 2 ^ 32
    → read_lp (reader (put_u32 (length xs) ++ (xs ++ ys))) ≡ (some xs, reader ys)
unfolding read_lp
read_lp-append xs ys h = ground (
  arith,
  read_u32-append (length xs) (xs ++ ys) h,
  length-append xs ys,
  take_bytes-append (length xs) xs ys refl,
)
