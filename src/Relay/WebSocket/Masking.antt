-- ===== src/Relay/WebSocket/Masking.antt =====
-- The frames of the client, as a server reads them by RFC 6455.
use cmd_chat.Prelude.{
  ltb, leb, le→ltb_false, Bool-cases, length, get_or, ◌>>=◌, ◌>>◌, refuse_if, or_fail, Result,
  nat_eq, bytes_eq, Bytes, put_u16, ok, ℕ, suc, ◌+◌, ◌-◌, ◌%◌, ◌^◌, ◌<◌, ◌≡◌, refl, ap, inl, inr,
  [], ◌∷◌, ◌++◌, arith,
}
use Prim.Native.Nat.{bit_xor}
use cmd_chat.Prelude.Xor.{xor-twice}
use cmd_chat.Relay.WebSocket.{
  Error, too_large, not_written, read_full, extend_length, apply_mask, client_header,
}
use cmd_chat.Relay.WebSocket.Frames.{read_full-append, length_field-ReadsBack, length_field}

-- The server removes the mask with the octets of the key in turn.
abbrev pub unmask : ℕ → ℕ → ℕ → ℕ → Bytes → Bytes
unmask a b c d [] = []
unmask a b c d (x ∷ s) = bit_xor x a ∷ unmask b c d a s

-- A masked frame: its opcode, what it carries, and the stream behind it.
unfoldable pub read_masked : Bytes → Result Error ((ℕ × Bytes) × Bytes)
read_masked stream = do
  (header, stream) ← read_full 2 stream
  refuse_if (ltb (get_or header 1 0) 128) not_written
  (size, stream) ← extend_length (get_or header 1 0 - 128) stream
  n ← or_fail size too_large
  (key, stream) ← read_full 4 stream
  (body, stream) ← read_full n stream
  ok (
    (
      get_or header 0 0 - 128,
      unmask (get_or key 0 0) (get_or key 1 0) (get_or key 2 0) (get_or key 3 0) body,
    ),
    stream,
  )

abbrev octet : Bytes → ℕ → ℕ
octet key i = get_or key (i % 4) 0

unmask-apply_mask :
    (key : Bytes) (i : ℕ) (p : Bytes)
    → unmask
        (octet key i)
        (octet key (i + 1))
        (octet key (i + 2))
        (octet key (i + 3))
        (apply_mask key i p)
      ≡ p
unfolding apply_mask
unmask-apply_mask key i [] = refl
unmask-apply_mask key i (x ∷ p) =
    rw (xor-twice x (octet key i), turned (unmask-apply_mask key (i + 1) p)) refl
  where
    same : (j k : ℕ) → j % 4 ≡ k % 4 → octet key j ≡ octet key k
    same j k e = ap (λ (n : ℕ). get_or key n 0) e

    body : Bytes
    body = apply_mask key (i + 1) p

    turned :
        unmask
            (octet key (i + 1))
            (octet key (i + 1 + 1))
            (octet key (i + 1 + 2))
            (octet key (i + 1 + 3))
            body
          ≡ p
        → unmask (octet key (i + 1)) (octet key (i + 2)) (octet key (i + 3)) (octet key i) body ≡ p
    turned h =
        rw
          (
            same (i + 2) (i + 1 + 1) (omega arith),
            same (i + 3) (i + 1 + 2) (omega arith),
            same i (i + 1 + 3) (omega arith),
          )
          h

abbrev with_mask_bit : Bytes → Bytes
with_mask_bit [] = []
with_mask_bit (marker ∷ ext) = (128 + marker) ∷ ext

client_header-length_field :
    (op n : ℕ) → client_header op n ≡ (128 + op) ∷ with_mask_bit (length_field n)
unfolding client_header length_field put_u16
client_header-length_field op n = elim (Bool-cases (ltb n 126)) [
  | inl s ↦ rw s refl
  | inr s ↦ elim (Bool-cases (leb n 0xFFFF)) [ inl m ↦ rw (s, m) refl | inr m ↦ rw (s, m) refl ]
]

length-apply_mask : (key : Bytes) (i : ℕ) (p : Bytes) → length (apply_mask key i p) ≡ length p
unfolding apply_mask
length-apply_mask key i [] = refl
length-apply_mask key i (x ∷ p) = ap suc (length-apply_mask key (i + 1) p)

pub read_masked-frame :
    (op : ℕ) (key payload rest : Bytes)
    → length key ≡ 4
    → length payload < 2 ^ 32
    → read_masked (client_header op (length payload) ++ (key ++ (apply_mask key 0 payload ++ rest)))
      ≡ ok ((op, payload), rest)
unfolding read_masked
read_masked-frame op key payload rest k h =
    let f = length_field-ReadsBack (length payload) h in
    let masked = apply_mask key 0 payload in
    let none_first : 128 + op - 128 ≡ op = omega arith in
    let unmarked : 128 + f.marker - 128 ≡ f.marker = omega arith in
    rw
      (
        client_header-length_field op (length payload),
        f.written,
        read_full-append 2 ((128 + op) ∷ (128 + f.marker) ∷ []) (f.ext ++ (key ++ (masked ++ rest)))
            refl,
        le→ltb_false (128 + f.marker) 128 (omega arith),
        unmarked,
        f.read (key ++ (masked ++ rest)),
        read_full-append 4 key (masked ++ rest) k,
        read_full-append (length payload) masked rest (length-apply_mask key 0 payload),
        none_first,
        unmask-apply_mask key 0 payload,
      )
      refl
