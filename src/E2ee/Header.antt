-- ===== src/E2ee/Header.antt =====
-- The header of a record: header.encode and decodeHeader of internal/e2ee/ratchet.go.
use cmd_chat.Prelude.{
  ◌==◌, if◌then◌else◌, length, get_or, take, drop, length-append, take-append, drop-append,
  drop-drop, take_of_length, Result, Bytes, put_u32, u32_of, u32_of-put_u32, length-put_u32, ok,
  err, ℕ, ◌+◌, ◌-◌, ◌^◌, ◌<◌, ◌≡◌, ap, subst, [], ◌∷◌, ◌++◌, arith,
}
use mathlib.Core.List.{append_assoc}
use cmd_chat.E2ee.Wire.{Error, malformed, append_u32}

abbrev pub header_size : ℕ
header_size = 1 + 32 + 4 + 4

pub record Header : Type 0 where
  pub version : ℕ
  pub ratchet_pub : Bytes
  pub pn : ℕ
  pub n : ℕ

unfoldable pub encode : Header → Bytes
unfolding append_u32
encode h = append_u32 (append_u32 ((h.version ∷ []) ++ h.ratchet_pub) h.pn) h.n

-- `b[i:j]`
abbrev slice : Bytes → ℕ → ℕ → Bytes
slice b i j = take (j - i) (drop i b)

unfoldable pub decode_header : Bytes → Result Error Header
decode_header b =
    if length b == header_size
    then ok (record {
      version = get_or b 0 0;
      ratchet_pub = slice b 1 33;
      pn = u32_of (slice b 33 37);
      n = u32_of (slice b 37 41);
    })
    else err malformed

-- A header that fits its fields.
pub record Fits (h : Header) : Type 0 where
  pub key_length : length h.ratchet_pub ≡ 32
  pub pn_word : h.pn < 2 ^ 32
  pub n_word : h.n < 2 ^ 32

encode_lem : (h : Header) → encode h ≡ h.version ∷ (h.ratchet_pub ++ (put_u32 h.pn ++ put_u32 h.n))
unfolding encode
encode_lem h = ap (◌∷◌ h.version) (append_assoc h.ratchet_pub (put_u32 h.pn) (put_u32 h.n))

pub length-encode : (h : Header) → Fits h → length (encode h) ≡ header_size
length-encode h f = rw (encode_lem h) (
    omega (
      arith,
      f.key_length,
      length-append h.ratchet_pub (put_u32 h.pn ++ put_u32 h.n),
      length-append (put_u32 h.pn) (put_u32 h.n),
      length-put_u32 h.pn,
      length-put_u32 h.n,
    ))

-- A header whose fields fit their places is decoded to itself.
pub decode_header-encode : (h : Header) → Fits h → decode_header (encode h) ≡ ok h
unfolding decode_header
decode_header-encode h f =
    let t = put_u32 h.pn ++ put_u32 h.n in
    let behind : drop 36 (h.ratchet_pub ++ t) ≡ put_u32 h.n =
      rw (← drop-drop 32 4 (h.ratchet_pub ++ t), drop-append 32 h.ratchet_pub t f.key_length)
        (drop-append 4 (put_u32 h.pn) (put_u32 h.n) (length-put_u32 h.pn)) in
    let size = length-encode h f in
    rw (encode_lem h) (
      ground (
        arith,
        subst (λ b. length b ≡ header_size) (encode_lem h) size,
        take-append 32 h.ratchet_pub t f.key_length,
        drop-append 32 h.ratchet_pub t f.key_length,
        behind,
        take-append 4 (put_u32 h.pn) (put_u32 h.n) (length-put_u32 h.pn),
        take_of_length 4 (put_u32 h.n) (length-put_u32 h.n),
        u32_of-put_u32 h.pn f.pn_word,
        u32_of-put_u32 h.n f.n_word,
      ))
