-- ===== src/E2ee/Padding.antt =====
-- pad and unpad of internal/e2ee/primitives.go.
use cmd_chat.Prelude.{
  ◌==◌, if◌then◌else◌, length, get_or, take, replicate, length-append, take-append,
  length-replicate, get_or-append_right, Result, Bytes, ok, err, ℕ, zero, suc, ◌+◌, ◌-◌, ◌%◌, ◌≤◌,
  ◌<◌, ◌≡◌, refl, sym, ap, subst, ◌∙◌, [], ◌∷◌, ◌++◌, arith,
}
use mathlib.Core.List.{append_assoc}
use cmd_chat.E2ee.Wire.{Error, padding_failed}

abbrev pub pad_block : ℕ
pad_block = 256

-- `n`: the length of the padded text.
padded_length : Bytes → ℕ
padded_length plaintext =
    let n = length plaintext + 1 in
    let r = n % pad_block in if r == 0 then n else n + (pad_block - r)

-- The zeroed buffer, with the text copied to its front and 0x80 behind it.
unfoldable pub pad : Bytes → Bytes
unfolding padded_length
pad plaintext = plaintext ++ 0x80 ∷ replicate (padded_length plaintext - length plaintext - 1) 0x00

-- The loop of unpad, over `i + 1`: one more than the index of the last byte that is not 0.
last_non_zero : Bytes → ℕ → ℕ
last_non_zero padded zero = zero
last_non_zero padded (suc i) =
    let rest = last_non_zero padded i in if get_or padded i 0 == 0x00 then rest else suc i

cut_marker : Bytes → ℕ → Result Error Bytes
cut_marker padded zero = err padding_failed
cut_marker padded (suc i) =
    if get_or padded i 0 == 0x80 then ok (take i padded) else err padding_failed

unfoldable pub unpad : Bytes → Result Error Bytes
unfolding last_non_zero cut_marker
unpad padded = cut_marker padded (last_non_zero padded (length padded))

-- The padded length is the next multiple of the block that leaves room for the marker.
pub length-pad :
    (p : Bytes)
    → (length (pad p) % pad_block ≡ 0)
      × (length p < length (pad p))
      × (length (pad p) ≤ length p + pad_block)
unfolding pad
length-pad p =
    let k = padded_length p - length p - 1 in
    ground (arith, length-append p (0x80 ∷ replicate k 0x00), length-replicate {A = ℕ} k 0x00)

get_or-zeros : (k j : ℕ) → get_or {A = ℕ} (replicate k 0x00) j 0 ≡ 0
get_or-zeros zero j = refl
get_or-zeros (suc k) zero = refl
get_or-zeros (suc k) (suc j) = get_or-zeros k j

-- Zeros at the end are passed over.
last_non_zero-zeros :
    (xs : Bytes) (k j i : ℕ)
    → i ≡ length xs + j
    → last_non_zero (xs ++ replicate k 0x00) i ≡ last_non_zero (xs ++ replicate k 0x00) (length xs)
unfolding last_non_zero
last_non_zero-zeros xs k zero i h = ap (last_non_zero (xs ++ replicate k 0x00)) (omega arith)
last_non_zero-zeros xs k (suc j) zero h = absurd (omega arith)
last_non_zero-zeros xs k (suc j) (suc i) h =
    rw zero_here (last_non_zero-zeros xs k j i (omega arith))
  where
    zero_here : get_or (xs ++ replicate k 0x00) i 0 ≡ 0
    zero_here =
        ap (λ (m : ℕ). get_or (xs ++ replicate k 0x00) m 0) (omega arith)
        ∙ get_or-append_right xs (replicate k 0x00) j 0
        ∙ get_or-zeros k j

get_or-marker : (p r : Bytes) → get_or (p ++ 0x80 ∷ r) (length p) 0 ≡ 0x80
get_or-marker [] r = refl
get_or-marker (x ∷ p) r = get_or-marker p r

last_non_zero-marker_here :
    (p r : Bytes) → last_non_zero (p ++ 0x80 ∷ r) (suc (length p)) ≡ suc (length p)
unfolding last_non_zero
last_non_zero-marker_here p r = ground (arith, get_or-marker p r)

last_non_zero-marker :
    (p : Bytes) (k : ℕ)
    → last_non_zero (p ++ 0x80 ∷ replicate k 0x00) (length (p ++ 0x80 ∷ replicate k 0x00))
      ≡ suc (length p)
last_non_zero-marker p k =
    subst (λ zs. last_non_zero zs (length zs) ≡ suc (length p))
      (append_assoc p (0x80 ∷ []) (replicate k 0x00))
      (last_non_zero-zeros (p ++ 0x80 ∷ []) k k _ total
        ∙ ap (last_non_zero ((p ++ 0x80 ∷ []) ++ replicate k 0x00)) one
        ∙ subst (λ zs. last_non_zero zs (suc (length p)) ≡ suc (length p))
            (sym (append_assoc p (0x80 ∷ []) (replicate k 0x00)))
            (last_non_zero-marker_here p (replicate k 0x00)))
  where
    total : length ((p ++ 0x80 ∷ []) ++ replicate k 0x00) ≡ length (p ++ 0x80 ∷ []) + k
    total =
        omega (
          arith,
          length-append (p ++ 0x80 ∷ []) (replicate k 0x00),
          length-replicate {A = ℕ} k 0x00,
        )

    one : length (p ++ 0x80 ∷ []) ≡ suc (length p)
    one = omega (arith, length-append p (0x80 ∷ []))

-- Unpadding what was padded gives the text back.
pub unpad-pad : (p : Bytes) → unpad (pad p) ≡ ok p
unfolding unpad pad
unpad-pad p =
    let k = padded_length p - length p - 1 in
    let zeros : Bytes = replicate k 0x00 in
    rw (last_non_zero-marker p k)
      (ground (arith, get_or-marker p zeros, take-append (length p) p (0x80 ∷ zeros) refl))
