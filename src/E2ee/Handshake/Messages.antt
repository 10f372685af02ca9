-- ===== src/E2ee/Handshake/Messages.antt =====
-- The three messages of the handshake, which Initiate and Respond of internal/e2ee/handshake.go write
-- and read: what one side writes the other reads.
use cmd_chat.Prelude.{
  ltb, le→ltb_false, length, take, length-append, take-append, All, nat_eq, bytes_eq, Bytes,
  put_u16, put_u32, u16_of-put_u16, length-put_u32, length-put_u16, ok, ℕ, ◌+◌, ◌*◌, ◌%◌, ◌^◌, ◌<◌,
  ◌≡◌, refl, sym, ap, ◌∙◌, false, List, [], ◌∷◌, ◌++◌, arith,
}
use mathlib.Core.List.{append_assoc, append-nil}
use cmd_chat.E2ee.Wire.{reader, read_u8, read_u16, done, append_u16, append_u32}
use cmd_chat.E2ee.Wire.Cursor.{take_bytes-append, read_lp-append}
use cmd_chat.E2ee.Handshake.Versions.{append_versions, read_versions}
use cmd_chat.E2ee.Handshake.{
  parse_m1, parse_m2, parse_m3, ciphertext_size, encapsulation_key_size, m2_header_len,
}

read_u8-cons : (v : ℕ) (ys : Bytes) → read_u8 (reader (v ∷ ys)) ≡ (v, reader ys)
unfolding read_u8
read_u8-cons v ys = ground (arith, take_bytes-append 1 (v ∷ []) ys refl)

read_u16-append :
    (v : ℕ) (ys : Bytes) → v < 2 ^ 16 → read_u16 (reader (put_u16 v ++ ys)) ≡ (v, reader ys)
unfolding read_u16
read_u16-append v ys h =
    ground (arith, take_bytes-append 2 (put_u16 v) ys (length-put_u16 v), u16_of-put_u16 v h)

-- The versions as they stand in M1.
unfoldable pub versions_written : List ℕ → Bytes
versions_written [] = []
versions_written (v ∷ vs) = put_u16 v ++ versions_written vs

append_versions_lem :
    (dst : Bytes) (vs : List ℕ) → append_versions dst vs ≡ dst ++ versions_written vs
unfolding append_versions versions_written append_u16
append_versions_lem dst [] = sym (append-nil dst)
append_versions_lem dst (v ∷ vs) =
    append_versions_lem (dst ++ put_u16 v) vs ∙ append_assoc dst (put_u16 v) (versions_written vs)

read_versions-written :
    (vs : List ℕ) (ys : Bytes)
    → All (λ v. v < 2 ^ 16) vs
    → read_versions (length vs) (reader (versions_written vs ++ ys)) ≡ (vs, reader ys)
unfolding read_versions versions_written
read_versions-written [] ys h = refl
read_versions-written (v ∷ vs) ys h =
    rw
      (
        append_assoc (put_u16 v) (versions_written vs) ys,
        read_u16-append v (versions_written vs ++ ys) h.0,
        read_versions-written vs ys h.1,
      )
      refl

pub length-versions_written : (vs : List ℕ) → length (versions_written vs) ≡ 2 * length vs
unfolding versions_written put_u16
length-versions_written [] = refl
length-versions_written (v ∷ vs) = omega (arith, length-versions_written vs)

-- M1 as Initiate writes it.
abbrev pub m1_of : List ℕ → Bytes → Bytes → Bytes → Bytes
m1_of vs ephemeral kem_key nonce =
    append_versions (1 ∷ length vs % 256 ∷ []) vs ++ (ephemeral ++ (kem_key ++ nonce))

pub length-m1_of :
    (vs : List ℕ) (ephemeral kem_key nonce : Bytes)
    → length (m1_of vs ephemeral kem_key nonce)
      ≡ 2 + 2 * length vs + length ephemeral + length kem_key + length nonce
length-m1_of vs ephemeral kem_key nonce = rw (append_versions_lem (1 ∷ length vs % 256 ∷ []) vs) (
    omega (
      arith,
      length-append (1 ∷ length vs % 256 ∷ versions_written vs) (ephemeral ++ (kem_key ++ nonce)),
      length-append ephemeral (kem_key ++ nonce),
      length-append kem_key nonce,
      length-versions_written vs,
    ))

-- Respond reads from M1 what Initiate has put there, if it offers fewer than 256 versions.
pub parse_m1-m1_of :
    (vs : List ℕ) (ephemeral kem_key nonce : Bytes)
    → length vs < 256
    → All (λ v. v < 2 ^ 16) vs
    → length ephemeral ≡ 32
    → length kem_key ≡ encapsulation_key_size
    → length nonce ≡ 32
    → parse_m1 (m1_of vs ephemeral kem_key nonce)
      ≡ ok (record {
        count = length vs;
        offered = vs;
        peer_ephemeral = ephemeral;
        peer_encapsulation_key = kem_key;
      })
unfolding parse_m1 done
parse_m1-m1_of vs ephemeral kem_key nonce few words e k n =
    let one : length vs % 256 ≡ length vs = omega (arith, few) in
    rw
      (
        append_versions_lem (1 ∷ length vs % 256 ∷ []) vs,
        one,
        append_assoc (1 ∷ length vs ∷ []) (versions_written vs) (ephemeral ++ (kem_key ++ nonce)),
        read_u8-cons 1 (length vs ∷ (versions_written vs ++ (ephemeral ++ (kem_key ++ nonce)))),
        read_u8-cons (length vs) (versions_written vs ++ (ephemeral ++ (kem_key ++ nonce))),
        read_versions-written vs (ephemeral ++ (kem_key ++ nonce)) words,
        take_bytes-append 32 ephemeral (kem_key ++ nonce) e,
        take_bytes-append 1184 kem_key nonce k,
        sym (append-nil nonce),
        take_bytes-append 32 nonce [] n,
      )
      refl

-- The header of M2 and M2 as Respond writes them.
abbrev pub m2_header_of : ℕ → Bytes → Bytes → Bytes → Bytes
m2_header_of chosen ephemeral ciphertext nonce =
    append_u16 (2 ∷ []) chosen ++ (ephemeral ++ (ciphertext ++ nonce))

abbrev pub m2_of : Bytes → Bytes → Bytes
m2_of header c2 = append_u32 header (length c2 % 2 ^ 32) ++ c2

pub length-m2_header_of :
    (chosen : ℕ) (ephemeral ciphertext nonce : Bytes)
    → length (m2_header_of chosen ephemeral ciphertext nonce)
      ≡ 3 + length ephemeral + length ciphertext + length nonce
unfolding append_u16 put_u16
length-m2_header_of chosen ephemeral ciphertext nonce =
    omega (arith, length-append ephemeral (ciphertext ++ nonce), length-append ciphertext nonce)

pub length-m2_of : (header c2 : Bytes) → length (m2_of header c2) ≡ length header + 4 + length c2
unfolding append_u32
length-m2_of header c2 = omega (
  arith,
  length-append (header ++ put_u32 (length c2 % 2 ^ 32)) c2,
  length-append header (put_u32 (length c2 % 2 ^ 32)),
  length-put_u32 (length c2 % 2 ^ 32),
)

-- The header stands in front of M2.
pub take-m2_of :
    (header c2 : Bytes)
    → length header ≡ m2_header_len
    → take m2_header_len (m2_of header c2) ≡ header
unfolding append_u32
take-m2_of header c2 h =
    ap (take m2_header_len) (append_assoc header (put_u32 (length c2 % 2 ^ 32)) c2)
    ∙ take-append m2_header_len header (put_u32 (length c2 % 2 ^ 32) ++ c2) h

spread :
    (chosen : ℕ) (ephemeral ciphertext nonce c2 : Bytes)
    → length c2 < 2 ^ 32
    → m2_of (m2_header_of chosen ephemeral ciphertext nonce) c2
      ≡ 2
        ∷ (put_u16 chosen
            ++ (ephemeral ++ (ciphertext ++ (nonce ++ (put_u32 (length c2) ++ (c2 ++ []))))))
unfolding append_u16 append_u32
spread chosen ephemeral ciphertext nonce c2 size =
    let word : length c2 % 2 ^ 32 ≡ length c2 = omega (arith, size) in
    rw word (simp (append_assoc, append-nil))

-- Initiate reads from M2 what Respond has put there.
pub parse_m2-m2_of :
    (chosen : ℕ) (ephemeral ciphertext nonce c2 : Bytes)
    → chosen < 2 ^ 16
    → length ephemeral ≡ 32
    → length ciphertext ≡ ciphertext_size
    → length nonce ≡ 32
    → length c2 < 2 ^ 32
    → parse_m2 (m2_of (m2_header_of chosen ephemeral ciphertext nonce) c2)
      ≡ ok (record {
        chosen = chosen;
        peer_ephemeral = ephemeral;
        kem_ciphertext = ciphertext;
        c2 = c2;
      })
unfolding parse_m2 done
parse_m2-m2_of chosen ephemeral ciphertext nonce c2 v e k n size =
    let whole = m2_of (m2_header_of chosen ephemeral ciphertext nonce) c2 in
    let long : ltb (length whole) m2_header_len ≡ false =
      le→ltb_false (length whole) m2_header_len (
        omega (
          arith,
          length-m2_of (m2_header_of chosen ephemeral ciphertext nonce) c2,
          length-m2_header_of chosen ephemeral ciphertext nonce,
          e,
          k,
          n,
        )) in
    rw long (
      rw (spread chosen ephemeral ciphertext nonce c2 size) (
        rw
          (
            read_u8-cons 2 (
                put_u16 chosen
                ++ (ephemeral ++ (ciphertext ++ (nonce ++ (put_u32 (length c2) ++ (c2 ++ [])))))),
            read_u16-append chosen
                (ephemeral ++ (ciphertext ++ (nonce ++ (put_u32 (length c2) ++ (c2 ++ []))))) v,
            take_bytes-append 32 ephemeral
                (ciphertext ++ (nonce ++ (put_u32 (length c2) ++ (c2 ++ [])))) e,
            take_bytes-append 1088 ciphertext (nonce ++ (put_u32 (length c2) ++ (c2 ++ []))) k,
            take_bytes-append 32 nonce (put_u32 (length c2) ++ (c2 ++ [])) n,
            read_lp-append c2 [] size,
          )
          refl))

-- M3 as Initiate writes it, and as Respond reads it.
abbrev pub m3_of : Bytes → Bytes
m3_of c3 = append_u32 (3 ∷ []) (length c3 % 2 ^ 32) ++ c3

pub length-m3_of : (c3 : Bytes) → length (m3_of c3) ≡ 5 + length c3
unfolding append_u32 put_u32
length-m3_of c3 = omega arith

spread_m3 : (c3 : Bytes) → length c3 < 2 ^ 32 → m3_of c3 ≡ 3 ∷ (put_u32 (length c3) ++ (c3 ++ []))
unfolding append_u32
spread_m3 c3 size =
    let word : length c3 % 2 ^ 32 ≡ length c3 = omega (arith, size) in rw word (simp append-nil)

pub parse_m3-m3_of : (c3 : Bytes) → length c3 < 2 ^ 32 → parse_m3 (m3_of c3) ≡ ok c3
unfolding parse_m3 done
parse_m3-m3_of c3 size =
    rw (spread_m3 c3 size)
      (rw (read_u8-cons 3 (put_u32 (length c3) ++ (c3 ++ [])), read_lp-append c3 [] size) refl)
