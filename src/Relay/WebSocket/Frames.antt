-- ===== src/Relay/WebSocket/Frames.antt =====
-- One frame of a conforming server, as RFC 6455 has it, and how readFrame of
-- internal/relay/websocket.go takes it.
use cmd_chat.Prelude.{
  ltb, leb, if◌then◌else◌, lt→ltb, le→ltb_false, Bool-cases, length, get_or, replicate,
  length-append, take-append, drop-append, length-take, length-drop, or_fail, >>=-eq-ok,
  refuse_if-eq-ok, ok-injective, Result-cases, nat_eq, bytes_eq, Bytes, put_u16, put_u32,
  length-put_u32, length-put_u16, ok, ℕ, ◌+◌, ◌%◌, ◌^◌, ◌≤◌, ◌<◌, ◌≡◌, refl, sym, ap, ◌∙◌, inl, inr,
  false, Option, some, [], ◌∷◌, ◌++◌, arith,
}
use mathlib.Core.List.{append_assoc}
use cmd_chat.Relay.WebSocket.{
  too_large, masked_frame, Frame, read_full, big_endian, extend_length, next_frame, max_frame_bytes,
}

-- The length field of a frame that is not masked.
unfoldable pub length_field : ℕ → Bytes
length_field n =
    if ltb n 126
    then n ∷ []
    else if leb n 0xFFFF
    then 126 ∷ put_u16 n
    else 127 ∷ (replicate 4 0 ++ put_u32 n)

unfoldable pub server_frame : Frame → Bytes
server_frame f =
    ((if f.fin then 128 else 0) + f.op) ∷ (length_field (length f.payload) ++ f.payload)

pub read_full-append :
    (n : ℕ) (xs ys : Bytes) → length xs ≡ n → read_full n (xs ++ ys) ≡ ok (xs, ys)
unfolding read_full
read_full-append n xs ys h =
    rw (le→ltb_false (length (xs ++ ys)) n (omega (arith, length-append xs ys)))
      (rw (take-append n xs ys h, drop-append n xs ys h))

pub read_full_sound :
    (n : ℕ) (s : Bytes) {xs ys : Bytes}
    → read_full n s ≡ ok (xs, ys)
    → (length xs ≡ n) × (length ys + n ≡ length s)
unfolding read_full
read_full_sound n s h = ground (arith, length-take n s, length-drop n s)

big_endian-put_u16 : (n : ℕ) → n < 2 ^ 16 → big_endian (put_u16 n) 0 ≡ n
unfolding big_endian put_u16
big_endian-put_u16 n h = omega arith

big_endian-put_u32 : (n : ℕ) → n < 2 ^ 32 → big_endian (replicate 4 0 ++ put_u32 n) 0 ≡ n
unfolding big_endian put_u32
big_endian-put_u32 n h = omega arith

-- A length that is written is read back, whatever follows it.
pub record ReadsBack (n : ℕ) : Type 0 where
  pub marker : ℕ
  pub ext : Bytes
  pub written : length_field n ≡ marker ∷ ext
  pub unmasked : marker < 128
  pub read : (rest : Bytes) → extend_length marker (ext ++ rest) ≡ ok (some n, rest)

pub length_field-ReadsBack : (n : ℕ) → n < 2 ^ 32 → ReadsBack n
unfolding length_field extend_length
length_field-ReadsBack n h = elim (Bool-cases (ltb n 126)) [
  | inl s ↦ record {
    marker = n;
    ext = [];
    written = rw s refl;
    unmasked = ground arith;
    read = λ rest. ground arith;
  }
  | inr s ↦ elim (Bool-cases (leb n 0xFFFF)) [
    | inl m ↦ record {
      marker = 126;
      ext = put_u16 n;
      written = rw (s, m) refl;
      unmasked = omega arith;
      read = λ rest.
          rw
            (
              read_full-append 2 (put_u16 n) rest (length-put_u16 n),
              big_endian-put_u16 n (ground arith),
            )
            refl;
    }
    | inr m ↦ record {
      marker = 127;
      ext = replicate 4 0 ++ put_u32 n;
      written = rw (s, m) refl;
      unmasked = omega arith;
      read = λ rest.
          rw
            (
              read_full-append 8 (replicate 4 0 ++ put_u32 n) rest
                  (omega (arith, length-put_u32 n)),
              big_endian-put_u32 n h,
            )
            (rw (lt→ltb n (2 ^ 63) (omega arith)) refl);
    }
  ]
]

-- A frame that fits the limit is read as it was sent.
pub next_frame-server_frame :
    (f : Frame) (rest : Bytes)
    → f.op < 16
    → length f.payload ≤ max_frame_bytes
    → next_frame (server_frame f ++ rest) ≡ ok (f, rest)
unfolding next_frame server_frame
next_frame-server_frame f rest o n =
    let b0 = (if f.fin then 128 else 0) + f.op in
    let field = length_field-ReadsBack (length f.payload) (omega arith) in
    let k = field.marker in
    let top : leb 128 b0 ≡ f.fin = ground arith in
    let low : b0 % 16 ≡ f.op = ground arith in
    let bare : leb 128 k ≡ false = ground (arith, field.unmasked) in
    let seven : k % 128 ≡ k = omega (arith, field.unmasked) in
    rw
      (
        field.written,
        append_assoc field.ext f.payload rest,
        read_full-append 2 (b0 ∷ k ∷ []) (field.ext ++ (f.payload ++ rest)) refl,
      )
      (rw (seven, field.read (f.payload ++ rest))
        (rw
          (
            le→ltb_false max_frame_bytes (length f.payload) n,
            bare,
            read_full-append (length f.payload) f.payload rest refl,
            top,
            low,
          )
          refl))

within : (m n : ℕ) → m ≡ n → ltb max_frame_bytes n ≡ false → m ≤ max_frame_bytes
within m n e h = ground arith

extend_length_sound :
    (k : ℕ) (s : Bytes) {size : Option ℕ} {rest : Bytes}
    → extend_length k s ≡ ok (size, rest)
    → length rest ≤ length s
unfolding extend_length
extend_length_sound k s h = elim (Result-cases (read_full 2 s)) [
  | inl (e2, h2) ↦ elim (Result-cases (read_full 8 s)) [
    | inl (e8, h8) ↦ ground arith
    | inr ((x8, r8), h8) ↦ ground (arith, read_full_sound 8 s h8)
  ]
  | inr ((x2, r2), h2) ↦ elim (Result-cases (read_full 8 s)) [
    | inl (e8, h8) ↦ ground (arith, read_full_sound 2 s h2)
    | inr ((x8, r8), h8) ↦ ground (arith, read_full_sound 2 s h2, read_full_sound 8 s h8)
  ]
]

-- A frame takes two bytes at least, and its payload is within the limit.
pub next_frame_sound :
    (stream : Bytes) {f : Frame} {rest : Bytes}
    → next_frame stream ≡ ok (f, rest)
    → (length rest + 2 ≤ length stream) × (length f.payload ≤ max_frame_bytes)
unfolding next_frame
next_frame_sound stream {f} {rest} h =
    let ((header, s1), e1, h1) = >>=-eq-ok (read_full 2 stream) _ h in
    let b0 = get_or header 0 0 in
    let b1 = get_or header 1 0 in
    let ((size, s2), e2, h2) = >>=-eq-ok (extend_length (b1 % 128) s1) _ h1 in
    let (n, e3, h3) = >>=-eq-ok (or_fail size too_large) _ h2 in
    let (small, h4) = refuse_if-eq-ok (ltb max_frame_bytes n) too_large _ h3 in
    let (_, h5) = refuse_if-eq-ok (leb 128 b1) masked_frame _ h4 in
    let ((body, s3), e6, h6) = >>=-eq-ok (read_full n s2) _ h5 in
    let (l1, r1) = read_full_sound 2 stream e1 in
    let r2 = extend_length_sound (b1 % 128) s1 e2 in
    let (l3, r3) = read_full_sound n s2 e6 in
    let e = ok-injective h6 in
    let rest_is : length rest ≡ length s3 = ap (λ (q : Frame × Bytes). length q.1) (sym e) in
    let payload_is : length f.payload ≡ length body =
      ap (λ (q : Frame × Bytes). length q.0.payload) (sym e) in
    (omega (arith, rest_is, r1, r2, r3), within (length f.payload) n (payload_is ∙ l3) small)
