-- ===== src/Profile/Cut.antt =====
-- `truncate` cuts between runes: it keeps the first few of them, in at most n bytes.
use cmd_chat.Prelude.{
  leb, if◌then◌else◌, leb→le, Bool-cases, length, get_or, take, length-take, get_or-append_right,
  All, take_of_length, nat_eq, bytes_eq, Bytes, ℕ, zero, suc, ◌+◌, ◌-◌, ◌≤◌, ◌<◌, ◌≡◌, refl, sym,
  ap, ◌∙◌, inl, inr, true, false, List, [], ◌∷◌, ◌++◌, arith,
}
use cmd_chat.Profile.{is_rune_start, cut_at, truncate}
use cmd_chat.Profile.Runes.{IsRune, rune_bytes, encode, below_or}

cut_at_le : (s : Bytes) (n : ℕ) → cut_at s n ≤ n
unfolding cut_at
cut_at_le s zero = omega arith
cut_at_le s (suc n) = ground (arith, cut_at_le s n)

cut_at-start : (s : Bytes) (n : ℕ) → is_rune_start (get_or s n 0) ≡ true → cut_at s n ≡ n
unfolding cut_at
cut_at-start s zero h = refl
cut_at-start s (suc n) h = rw h refl

cut_at-suc :
    (s : Bytes) (n : ℕ)
    → cut_at s (suc n) ≡ (if is_rune_start (get_or s (suc n) 0) then suc n else cut_at s n)
unfolding cut_at
cut_at-suc s n = refl

-- A position behind a prefix is cut where the rest is cut.
cut_at-append :
    (a s : Bytes) (n : ℕ)
    → is_rune_start (get_or s 0 0) ≡ true
    → cut_at (a ++ s) (length a + n) ≡ length a + cut_at s n
unfolding cut_at
cut_at-append a s zero start =
    cut_at-start (a ++ s) (length a + 0) (rw (get_or-append_right a s 0 0) start)
cut_at-append a s (suc n) start =
    ap (cut_at (a ++ s)) next
    ∙ rw
        (
          cut_at-suc (a ++ s) (length a + n),
          sym next,
          get_or-append_right a s (suc n) 0,
          cut_at-append a s n start,
        )
        (ground arith)
  where
    next : length a + suc n ≡ suc (length a + n)
    next = omega arith

-- The first byte of a rune starts it and the others do not.
abbrev IsRuneBytes : Bytes → Type 0
IsRuneBytes [] = ⊥
IsRuneBytes (b ∷ bs) = (is_rune_start b ≡ true) × All (λ c. is_rune_start c ≡ false) bs

rune_bytes-IsRuneBytes : (r : ℕ) → IsRune r → IsRuneBytes (rune_bytes r)
unfolding rune_bytes is_rune_start
rune_bytes-IsRuneBytes r h = ground arith

continued :
    (bs s : Bytes) (n : ℕ)
    → All (λ c. is_rune_start c ≡ false) bs
    → n < length bs
    → is_rune_start (get_or (bs ++ s) n 0) ≡ false
continued [] s n h l = absurd (omega arith)
continued (b ∷ bs) s zero h l = h.0
continued (b ∷ bs) s (suc n) h l = continued bs s n h.1 (omega arith)

cut_at-inside :
    (b : ℕ) (bs s : Bytes) (n : ℕ)
    → All (λ c. is_rune_start c ≡ false) bs
    → n ≤ length bs
    → cut_at ((b ∷ bs) ++ s) n ≡ 0
unfolding cut_at
cut_at-inside b bs s zero h l = refl
cut_at-inside b bs s (suc n) h l =
    rw (continued bs s n h (omega arith)) (cut_at-inside b bs s n h (omega arith))

-- The runes that are kept, as a number of them.
Kept : List ℕ → ℕ → Type 0
Kept rs n = (k : ℕ) × (take (cut_at (encode rs) n) (encode rs) ≡ encode (take k rs))

encode-start : (rs : List ℕ) → All IsRune rs → is_rune_start (get_or (encode rs) 0 0) ≡ true
unfolding is_rune_start
encode-start [] h = refl
encode-start (r ∷ rs) h = begins (rune_bytes r) (rune_bytes-IsRuneBytes r h.0)
  where
    begins : (a : Bytes) → IsRuneBytes a → is_rune_start (get_or (a ++ encode rs) 0 0) ≡ true
    begins [] g = absurd g
    begins (b ∷ bs) g = g.0

take-append_more : (a s : Bytes) (n m : ℕ) → n ≡ length a + m → take n (a ++ s) ≡ a ++ take m s
take-append_more [] s n m e = ap (λ (i : ℕ). take i s) (omega (arith, e))
take-append_more (x ∷ a) s zero m e = absurd (omega (arith, e))
take-append_more (x ∷ a) s (suc n) m e = ap (◌∷◌ x) (take-append_more a s n m (omega (arith, e)))

take-nil : (n : ℕ) → take {A = ℕ} n [] ≡ []
take-nil zero = refl
take-nil (suc n) = refl

module _ (r : ℕ) (rs : List ℕ) (h : All IsRune rs) where
  kept_inside :
      (a : Bytes) (n : ℕ)
      → IsRuneBytes a
      → n < length a
      → take (cut_at (a ++ encode rs) n) (a ++ encode rs) ≡ []
  kept_inside [] n g l = absurd g
  kept_inside (b ∷ bs) n g l = rw (cut_at-inside b bs (encode rs) n g.1 (omega arith)) refl

  Kept-after : (n m : ℕ) → n ≡ length (rune_bytes r) + m → Kept rs m → Kept (r ∷ rs) n
  unfolding Kept
  Kept-after n m e (k, same) = (
    suc k,
    take-append_more (rune_bytes r) (encode rs) (cut_at (encode (r ∷ rs)) n) (cut_at (encode rs) m)
          cut
        ∙ ap (◌++◌ (rune_bytes r)) same,
  )
    where
      cut : cut_at (rune_bytes r ++ encode rs) n ≡ length (rune_bytes r) + cut_at (encode rs) m
      cut =
          ap (cut_at (rune_bytes r ++ encode rs)) e
          ∙ cut_at-append (rune_bytes r) (encode rs) m (encode-start rs h)

cut_at-encode : (rs : List ℕ) (n : ℕ) → All IsRune rs → Kept rs n
unfolding Kept
cut_at-encode [] n h = (0, take-nil (cut_at [] n))
cut_at-encode (r ∷ rs) n h = elim (below_or (length (rune_bytes r)) n) [
  | inl l ↦ (0, kept_inside r rs h.1 (rune_bytes r) n (rune_bytes-IsRuneBytes r h.0) l)
  | inr g ↦
      Kept-after r rs h.1 n (n - length (rune_bytes r)) (omega arith)
        (cut_at-encode rs (n - length (rune_bytes r)) h.1)
]

-- In at most n bytes `truncate` keeps whole runes.
pub truncate-encode :
    (rs : List ℕ) (n : ℕ)
    → All IsRune rs
    → (k : ℕ) × (truncate (encode rs) n ≡ encode (take k rs))
      × (length (truncate (encode rs) n) ≤ n)
unfolding truncate Kept
truncate-encode rs n h = elim (Bool-cases (leb (length (encode rs)) n)) [
  | inl e ↦ (
    length rs,
    rw e (ap encode (sym (take_of_length (length rs) rs refl))),
    rw e (leb→le (length (encode rs)) n e),
  )
  | inr e ↦ (
    (cut_at-encode rs n h).0,
    rw e (cut_at-encode rs n h).1,
    rw (e, length-take (cut_at (encode rs) n) (encode rs)) (omega (arith, cut_at_le (encode rs) n)),
  )
]
