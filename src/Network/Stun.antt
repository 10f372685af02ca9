-- ===== src/Network/Stun.antt =====
-- The answer of a STUN server, as RFC 5389 writes it, and what is read from it.
use cmd_chat.Prelude.{
  ◌==◌, le→ltb_false, length, drop, replicate, length-append, take-append, drop-append,
  length-replicate, All, bytes_beq_iff, nat_eq, bytes_eq, Bytes, put_u16, put_u32, u16_of, u32_of,
  ok, ℕ, zero, suc, ◌+◌, ◌-◌, ◌*◌, ◌/◌, ◌%◌, ◌^◌, ◌≤◌, ◌<◌, ◌≡◌, refl, sym, ap, ◌∙◌, false, none,
  some, List, [], ◌∷◌, ◌++◌, arith,
}
use mathlib.Core.List.{append_assoc}
use cmd_chat.Prelude.Xor.{xor-twice, xor-lt}
use Prim.Native.Nat.{bit_xor}
use cmd_chat.Network.{magic_cookie, xor_octet, mapped, padded, attributes, read_response}

pub record Attribute : Type 0 where
  pub kind : ℕ
  pub value : Bytes

-- An attribute is followed by zeros up to a multiple of four.
unfoldable pub written : Attribute → Bytes
written a =
    put_u16 a.kind
    ++ (put_u16 (length a.value) ++ (a.value ++ replicate ((4 - length a.value % 4) % 4) 0))

abbrev pub all_written : List Attribute → Bytes → Bytes
all_written [] rest = rest
all_written (a ∷ as_) rest = written a ++ all_written as_ rest

-- An attribute that says nothing of the mapped address.
abbrev pub IsOther : Attribute → Type 0
IsOther a =
    (a.kind < 2 ^ 16)
    × (length a.value < 2 ^ 16)
    × ((a.kind == 0x0020) ≡ false)
    × ((a.kind == 0x0001) ≡ false)

padding : Attribute → Bytes
padding a = replicate ((4 - length a.value % 4) % 4) 0

length-padding : (a : Attribute) → length a.value + length (padding a) ≡ padded (length a.value)
unfolding padding padded
length-padding a = omega (arith, length-replicate {A = ℕ} ((4 - length a.value % 4) % 4) 0)

kind_read : (a : Attribute) (rest : Bytes) → a.kind < 2 ^ 16 → u16_of (written a ++ rest) ≡ a.kind
unfolding written put_u16 u16_of
kind_read a rest h = omega arith

size_read :
    (a : Attribute) (rest : Bytes)
    → length a.value < 2 ^ 16
    → u16_of (drop 2 (written a ++ rest)) ≡ length a.value
unfolding written put_u16 u16_of
size_read a rest h = omega arith

body_read :
    (a : Attribute) (rest : Bytes) → drop 4 (written a ++ rest) ≡ a.value ++ (padding a ++ rest)
unfolding written put_u16 padding
body_read a rest = append_assoc a.value (padding a) rest

long_enough : (a : Attribute) (rest : Bytes) → 4 ≤ length (written a ++ rest)
unfolding written put_u16
long_enough a rest = omega arith

behind :
    (a : Attribute) (rest : Bytes)
    → drop (padded (length a.value)) (a.value ++ (padding a ++ rest)) ≡ rest
behind a rest =
    ap (drop (padded (length a.value))) (sym (append_assoc a.value (padding a) rest))
    ∙ drop-append (padded (length a.value)) (a.value ++ padding a) rest
        (length-append a.value (padding a) ∙ length-padding a)

-- One attribute of the list.
one :
    (fuel : ℕ) (a : Attribute) (rest : Bytes)
    → a.kind < 2 ^ 16
    → length a.value < 2 ^ 16
    → attributes (suc fuel) (written a ++ rest) ≡ elim (mapped a.kind (length a.value) a.value) [
      | none ↦ attributes fuel rest
      | some e ↦ ok e
    ]
unfolding attributes
one fuel a rest k l =
    simp
      (
        le→ltb_false (length (written a ++ rest)) 4 (long_enough a rest),
        kind_read a rest k,
        size_read a rest l,
        body_read a rest,
        le→ltb_false (length (a.value ++ (padding a ++ rest))) (length a.value)
            (omega (arith, length-append a.value (padding a ++ rest))),
        take-append (length a.value) a.value (padding a ++ rest) refl,
      )
      (ap
        (λ (r : Bytes). elim (mapped a.kind (length a.value) a.value) [
          | none ↦ attributes fuel r
          | some e ↦ ok e
        ])
        (rw (size_read a rest l, body_read a rest) (behind a rest)))

passed_over :
    (a : Attribute)
    → ((a.kind == 0x0020) ≡ false)
    → ((a.kind == 0x0001) ≡ false)
    → (n : ℕ) (v : Bytes) → mapped a.kind n v ≡ none
unfolding mapped
passed_over a h k n v = rw (h, k) refl

-- XOR-MAPPED-ADDRESS for an IPv4 endpoint.
unfoldable pub xor_mapped_address : ℕ → ℕ → ℕ → ℕ → ℕ → Attribute
xor_mapped_address a b c d port = record {
  kind = 0x0020;
  value =
      0
      ∷ 1
      ∷ (put_u16 (bit_xor port 0x2112)
          ++ (bit_xor a 0x21 ∷ bit_xor b 0x12 ∷ bit_xor c 0xA4 ∷ bit_xor d 0x42 ∷ []));
}

unfoldable pub response : Bytes → Bytes → Bytes
response tx body =
    put_u16 0x0101 ++ (put_u16 (length body) ++ (put_u32 magic_cookie ++ (tx ++ body)))

mapped_read :
    (a b c d port : ℕ)
    → port < 2 ^ 16
    → mapped 0x0020 8 (xor_mapped_address a b c d port).value
      ≡ some (record { address = a ∷ b ∷ c ∷ d ∷ []; port = port })
unfolding mapped xor_mapped_address xor_octet put_u16 u16_of
mapped_read a b c d port h =
    let x = bit_xor port 0x2112 in
    let word : x / 256 % 256 * 256 + x % 256 ≡ x =
      omega (arith, xor-lt 16 port 0x2112 h (omega arith)) in
    rw
      (
        word,
        xor-twice port 0x2112,
        xor-twice a 0x21,
        xor-twice b 0x12,
        xor-twice c 0xA4,
        xor-twice d 0x42,
      )
      refl

own_size : (a b c d port : ℕ) → length (xor_mapped_address a b c d port).value < 2 ^ 16
unfolding xor_mapped_address put_u16
own_size a b c d port = omega arith

own_kind : (a b c d port : ℕ) → (xor_mapped_address a b c d port).kind < 2 ^ 16
unfolding xor_mapped_address
own_kind a b c d port = omega arith

own_read :
    (a b c d port : ℕ)
    → port < 2 ^ 16
    → (let x = xor_mapped_address a b c d port in mapped x.kind (length x.value) x.value)
      ≡ some (record { address = a ∷ b ∷ c ∷ d ∷ []; port = port })
unfolding xor_mapped_address put_u16
own_read a b c d port h = mapped_read a b c d port h

mapped_found :
    (fuel : ℕ) (others : List Attribute) (a b c d port : ℕ) (rest : Bytes)
    → All IsOther others
    → port < 2 ^ 16
    → length others < fuel
    → attributes fuel (all_written others (written (xor_mapped_address a b c d port) ++ rest))
      ≡ ok (record { address = a ∷ b ∷ c ∷ d ∷ []; port = port })
mapped_found zero others a b c d port rest o h f = absurd (omega arith)
mapped_found (suc fuel) [] a b c d port rest o h f =
    one fuel (xor_mapped_address a b c d port) rest (own_kind a b c d port) (own_size a b c d port)
    ∙ rw (own_read a b c d port h) refl
mapped_found (suc fuel) (x ∷ others) a b c d port rest o h f =
    one fuel x (all_written others (written (xor_mapped_address a b c d port) ++ rest)) o.0.0 o.0.1
    ∙ rw (passed_over x o.0.2 o.0.3 (length x.value) x.value)
        (mapped_found fuel others a b c d port rest o.1 h (omega (arith, f)))

not_empty : (a : Attribute) → 1 ≤ length (written a)
unfolding written put_u16
not_empty a = omega arith

length-all_written :
    (others : List Attribute) (rest : Bytes) → length others ≤ length (all_written others rest)
length-all_written [] rest = omega arith
length-all_written (a ∷ others) rest = omega (
  arith,
  not_empty a,
  length-append (written a) (all_written others rest),
  length-all_written others rest,
)

-- The answer of a server that follows RFC 5389, with attributes of other kinds in front of
-- XOR-MAPPED-ADDRESS and anything behind it, is read as the endpoint in it.
pub read_response-response :
    (tx : Bytes) (others : List Attribute) (a b c d port : ℕ) (rest : Bytes)
    → length tx ≡ 12
    → All IsOther others
    → port < 2 ^ 16
    → read_response tx
        (response tx (all_written others (written (xor_mapped_address a b c d port) ++ rest)))
      ≡ ok (record { address = a ∷ b ∷ c ∷ d ∷ []; port = port })
unfolding read_response response put_u16 put_u32 u32_of
read_response-response tx others a b c d port rest t o h =
    let body = all_written others (written (xor_mapped_address a b c d port) ++ rest) in
    rw
      (
        le→ltb_false (length (response tx body)) 20 (omega (arith, length-append tx body, t)),
        take-append 12 tx body t,
        (bytes_beq_iff tx tx).1 refl,
        drop-append 12 tx body t,
      )
      (mapped_found _ others a b c d port rest o h (
        omega (
          arith,
          length-append tx body,
          length-all_written others (written (xor_mapped_address a b c d port) ++ rest),
        )))
