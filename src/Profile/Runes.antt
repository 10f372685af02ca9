-- ===== src/Profile/Runes.antt =====
-- What internal/profile uses of the language and of the packages unicode and strings: UTF-8 as
-- `range` and `WriteRune` have it, and white space on runes.
use cmd_chat.Prelude.{
  ltb, leb, ◌==◌, if◌then◌else◌, ltb→lt, lt→ltb, le→ltb_false, Bool-cases, get_or, All, nat_eq,
  bytes_eq, Bytes, ℕ, zero, suc, ◌+◌, ◌-◌, ◌*◌, ◌/◌, ◌%◌, ◌≤◌, ◌<◌, ◌≡◌, refl, ap, ◌∙◌, ◌⊎◌, inl,
  inr, Bool, true, ◌&&◌, ◌||◌, List, [], ◌∷◌, ◌++◌, arith,
}

-- A code point that is no surrogate.
abbrev pub IsRune : ℕ → Type 0
IsRune r = (r < 55_296) ⊎ ((57_344 ≤ r) × (r < 1_114_112))

unfoldable pub rune_bytes : ℕ → Bytes
rune_bytes r =
    if ltb r 128
    then r ∷ []
    else if ltb r 2_048
    then (192 + r / 64) ∷ (128 + r % 64) ∷ []
    else if ltb r 65_536
    then (224 + r / 4_096) ∷ (128 + r / 64 % 64) ∷ (128 + r % 64) ∷ []
    else (240 + r / 262_144) ∷ (128 + r / 4_096 % 64) ∷ (128 + r / 64 % 64) ∷ (128 + r % 64) ∷ []

abbrev pub encode : List ℕ → Bytes
encode [] = []
encode (r ∷ rs) = rune_bytes r ++ encode rs

abbrev within : ℕ → ℕ → ℕ → Bool
within lo hi b = leb lo b && leb b hi

-- The least and greatest second byte after a first one.
abbrev second_min : ℕ → ℕ
second_min b = if b == 224 then 160 else if b == 240 then 144 else 128

abbrev second_max : ℕ → ℕ
second_max b = if b == 237 then 159 else if b == 244 then 143 else 191

abbrev begins_two : ℕ → ℕ → Bool
begins_two b b1 = within 194 223 b && within 128 191 b1

abbrev begins_three : ℕ → ℕ → ℕ → Bool
begins_three b b1 b2 =
    within 224 239 b && within (second_min b) (second_max b) b1 && within 128 191 b2

abbrev begins_four : ℕ → ℕ → ℕ → ℕ → Bool
begins_four b b1 b2 b3 =
    within 240 244 b
    && within (second_min b) (second_max b) b1
    && within 128 191 b2
    && within 128 191 b3

-- The rune that a byte and the ones after it begin with, and how many of those it takes: a byte
-- that begins none gives U+FFFD.
unfoldable pub first_rune : ℕ → ℕ → ℕ → ℕ → ℕ × ℕ
first_rune b b1 b2 b3 =
    if ltb b 128
    then (b, 0)
    else if begins_two b b1
    then ((b - 192) * 64 + (b1 - 128), 1)
    else if begins_three b b1 b2
    then ((b - 224) * 4_096 + (b1 - 128) * 64 + (b2 - 128), 2)
    else if begins_four b b1 b2 b3
    then ((b - 240) * 262_144 + (b1 - 128) * 4_096 + (b2 - 128) * 64 + (b3 - 128), 3)
    else (65_533, 0)

abbrev pub runes_from : ℕ → Bytes → List ℕ
runes_from skip [] = []
runes_from (suc skip) (b ∷ s) = runes_from skip s
runes_from zero (b ∷ s) =
    let (r, more) = first_rune b (get_or s 0 0) (get_or s 1 0) (get_or s 2 0) in
    r ∷ runes_from more s

-- `for _, r := range s`
abbrev pub runes : Bytes → List ℕ
runes = runes_from 0

unfoldable pub is_control : ℕ → Bool
is_control r = ltb r 32 || within 127 159 r

unfoldable pub is_space : ℕ → Bool
is_space r =
    within 9 13 r
    || r == 32
    || r == 133
    || r == 160
    || r == 5_760
    || within 8_192 8_202 r
    || r == 8_232
    || r == 8_233
    || r == 8_239
    || r == 8_287
    || r == 12_288

one_byte-first : (r x y z : ℕ) → r < 128 → first_rune r x y z ≡ (r, 0)
unfolding first_rune
one_byte-first r x y z h = ground arith

two_bytes-first :
    (r x y : ℕ) → 128 ≤ r → r < 2_048 → first_rune (192 + r / 64) (128 + r % 64) x y ≡ (r, 1)
unfolding first_rune
two_bytes-first r x y lo hi = ground arith

three_bytes-first :
    (r x : ℕ)
    → 2_048 ≤ r
    → r < 65_536
    → IsRune r
    → first_rune (224 + r / 4_096) (128 + r / 64 % 64) (128 + r % 64) x ≡ (r, 2)
unfolding first_rune
three_bytes-first r x lo hi h = ground arith

four_bytes-first :
    (r : ℕ)
    → 65_536 ≤ r
    → r < 1_114_112
    → first_rune (240 + r / 262_144) (128 + r / 4_096 % 64) (128 + r / 64 % 64) (128 + r % 64)
      ≡ (r, 3)
unfolding first_rune
four_bytes-first r lo hi = ground arith

-- Reading a rune back, by the number of its bytes.
runes-one : (r : ℕ) (s : Bytes) → r < 128 → runes (rune_bytes r ++ s) ≡ r ∷ runes s
unfolding rune_bytes
runes-one r s h =
    rw (lt→ltb r 128 h, one_byte-first r (get_or s 0 0) (get_or s 1 0) (get_or s 2 0) h) refl

runes-two : (r : ℕ) (s : Bytes) → 128 ≤ r → r < 2_048 → runes (rune_bytes r ++ s) ≡ r ∷ runes s
unfolding rune_bytes
runes-two r s lo hi =
    rw
      (
        le→ltb_false r 128 lo,
        lt→ltb r 2_048 hi,
        two_bytes-first r (get_or s 0 0) (get_or s 1 0) lo hi,
      )
      refl

runes-three :
    (r : ℕ) (s : Bytes)
    → 2_048 ≤ r
    → r < 65_536
    → IsRune r
    → runes (rune_bytes r ++ s) ≡ r ∷ runes s
unfolding rune_bytes
runes-three r s lo hi h =
    rw
      (
        le→ltb_false r 128 (omega arith),
        le→ltb_false r 2_048 lo,
        lt→ltb r 65_536 hi,
        three_bytes-first r (get_or s 0 0) lo hi h,
      )
      refl

runes-four :
    (r : ℕ) (s : Bytes) → 65_536 ≤ r → r < 1_114_112 → runes (rune_bytes r ++ s) ≡ r ∷ runes s
unfolding rune_bytes
runes-four r s lo hi =
    rw
      (
        le→ltb_false r 128 (omega arith),
        le→ltb_false r 2_048 (omega arith),
        le→ltb_false r 65_536 lo,
        four_bytes-first r lo hi,
      )
      refl

pub below_or : (n r : ℕ) → (r < n) ⊎ (n ≤ r)
below_or n r = omega arith

IsRune-below : (r : ℕ) → IsRune r → r < 1_114_112
IsRune-below r h = omega arith

runes-rune_bytes : (r : ℕ) (s : Bytes) → IsRune r → runes (rune_bytes r ++ s) ≡ r ∷ runes s
runes-rune_bytes r s h = elim (below_or 128 r) [
  | inl a ↦ runes-one r s a
  | inr a ↦ elim (below_or 2_048 r) [
    | inl b ↦ runes-two r s a b
    | inr b ↦ elim (below_or 65_536 r) [
      | inl c ↦ runes-three r s b c h
      | inr c ↦ runes-four r s c (IsRune-below r h)
    ]
  ]
]

pub runes-encode : (rs : List ℕ) → All IsRune rs → runes (encode rs) ≡ rs
runes-encode [] h = refl
runes-encode (r ∷ rs) h = runes-rune_bytes r (encode rs) h.0 ∙ ap (◌∷◌ r) (runes-encode rs h.1)

-- What a string is read as are runes.
two_bytes-IsRune : (b b1 : ℕ) → begins_two b b1 ≡ true → IsRune ((b - 192) * 64 + (b1 - 128))
two_bytes-IsRune b b1 h = ground arith

three_bytes-IsRune :
    (b b1 b2 : ℕ)
    → begins_three b b1 b2 ≡ true
    → IsRune ((b - 224) * 4_096 + (b1 - 128) * 64 + (b2 - 128))
three_bytes-IsRune b b1 b2 h = ground arith

four_bytes-IsRune :
    (b b1 b2 b3 : ℕ)
    → begins_four b b1 b2 b3 ≡ true
    → IsRune ((b - 240) * 262_144 + (b1 - 128) * 4_096 + (b2 - 128) * 64 + (b3 - 128))
four_bytes-IsRune b b1 b2 b3 h = ground arith

first_rune-IsRune : (b b1 b2 b3 : ℕ) → IsRune (first_rune b b1 b2 b3).0
unfolding first_rune
first_rune-IsRune b b1 b2 b3 = elim (Bool-cases (ltb b 128)) [
  | inl e ↦ rw e (inl (omega (arith, ltb→lt b 128 e)))
  | inr e ↦ rw e (elim (Bool-cases (begins_two b b1)) [
    | inl e2 ↦ rw e2 (two_bytes-IsRune b b1 e2)
    | inr e2 ↦ rw e2 (elim (Bool-cases (begins_three b b1 b2)) [
      | inl e3 ↦ rw e3 (three_bytes-IsRune b b1 b2 e3)
      | inr e3 ↦ rw e3 (elim (Bool-cases (begins_four b b1 b2 b3)) [
        | inl e4 ↦ rw e4 (four_bytes-IsRune b b1 b2 b3 e4)
        | inr e4 ↦ rw e4 (inr (omega arith))
      ])
    ])
  ])
]

pub runes_from-IsRune : (skip : ℕ) (s : Bytes) → All IsRune (runes_from skip s)
runes_from-IsRune skip [] = tt
runes_from-IsRune (suc skip) (b ∷ s) = runes_from-IsRune skip s
runes_from-IsRune zero (b ∷ s) =
    (first_rune-IsRune b (get_or s 0 0) (get_or s 1 0) (get_or s 2 0), runes_from-IsRune _ s)
