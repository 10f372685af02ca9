-- ===== src/Profile/Nickname.antt =====
-- What CleanNickname lets through.
use cmd_chat.Prelude.{
  ltb, ◌==◌, ltb_false→le, Bool-cases, length, take, length-append, All, All-append, All-take,
  nat_eq, bytes_eq, Bytes, ℕ, ◌≤◌, ◌≡◌, refl, subst, ◌⊎◌, inl, inr, Bool, true, false, not, ◌&&◌,
  ◌||◌, List, [], ◌∷◌, ◌++◌, arith,
}
use cmd_chat.Profile.{
  max_nickname_length, truncate, trim_left, keep_right, trim_right, trim_space, put_word,
  split_word, fields, join_words, clean_rune, clean_runes, clean_nickname,
}
use cmd_chat.Profile.Runes.{
  IsRune, rune_bytes, encode, runes, is_control, is_space, runes-encode, runes_from-IsRune,
}
use cmd_chat.Profile.Cut.{truncate-encode}

-- The list functions keep a predicate of runes that holds of the space.
module _ (P : ℕ → Type 0) where
  trim_left-All : (rs : List ℕ) → All P rs → All P (trim_left rs)
  trim_left-All [] h = tt
  trim_left-All (r ∷ rs) h = elim (Bool-cases (is_space r)) [
    | inl e ↦ rw e (trim_left-All rs h.1)
    | inr e ↦ rw e h
  ]

  keep_right-All : (r : ℕ) (rs : List ℕ) → P r → All P rs → All P (keep_right r rs)
  keep_right-All r [] p h = elim (Bool-cases (is_space r)) [
    | inl e ↦ rw e tt
    | inr e ↦ rw e (p, tt)
  ]
  keep_right-All r (q ∷ rs) p h = (p, h)

  trim_right-All : (rs : List ℕ) → All P rs → All P (trim_right rs)
  trim_right-All [] h = tt
  trim_right-All (r ∷ rs) h = keep_right-All r (trim_right rs) h.0 (trim_right-All rs h.1)

  pub trim_space-All : (rs : List ℕ) → All P rs → All P (trim_space rs)
  trim_space-All rs h = trim_right-All (trim_left rs) (trim_left-All rs h)

  put_word-All :
      (w : List ℕ) (ws : List (List ℕ)) → All P w → All (All P) ws → All (All P) (put_word w ws)
  put_word-All [] ws p h = h
  put_word-All (r ∷ w) ws p h = (p, h)

  split_word-cons :
      (r : ℕ) (rs : List ℕ)
      → P r
      → All P (split_word rs).0 × All (All P) (split_word rs).1
      → All P (split_word (r ∷ rs)).0 × All (All P) (split_word (r ∷ rs)).1
  split_word-cons r rs p rest = elim (Bool-cases (is_space r)) [
    | inl e ↦ rw e (tt, put_word-All (split_word rs).0 (split_word rs).1 rest.0 rest.1)
    | inr e ↦ rw e ((p, rest.0), rest.1)
  ]

  split_word-All :
      (rs : List ℕ) → All P rs → All P (split_word rs).0 × All (All P) (split_word rs).1
  split_word-All [] h = (tt, tt)
  split_word-All (r ∷ rs) h = split_word-cons r rs h.0 (split_word-All rs h.1)

  join_words-All : (ws : List (List ℕ)) → P 32 → All (All P) ws → All P (join_words ws)
  join_words-All [] p h = tt
  join_words-All (w ∷ []) p h = h.0
  join_words-All (w ∷ v ∷ ws) p h =
      All-append P w (32 ∷ join_words (v ∷ ws)) h.0 (p, join_words-All (v ∷ ws) p h.1)

-- Trimming never lengthens.
trim_left-length : (rs : List ℕ) → length (encode (trim_left rs)) ≤ length (encode rs)
trim_left-length [] = omega arith
trim_left-length (r ∷ rs) = elim (Bool-cases (is_space r)) [
  | inl e ↦ rw (e, length-append (rune_bytes r) (encode rs)) (omega (arith, trim_left-length rs))
  | inr e ↦ rw e (omega arith)
]

keep_right-length :
    (r : ℕ) (rs : List ℕ) → length (encode (keep_right r rs)) ≤ length (rune_bytes r ++ encode rs)
keep_right-length r [] = elim (Bool-cases (is_space r)) [
  | inl e ↦ rw e (omega arith)
  | inr e ↦ rw e (omega arith)
]
keep_right-length r (q ∷ rs) = omega arith

trim_right-length : (rs : List ℕ) → length (encode (trim_right rs)) ≤ length (encode rs)
trim_right-length [] = omega arith
trim_right-length (r ∷ rs) = omega (
  arith,
  keep_right-length r (trim_right rs),
  trim_right-length rs,
  length-append (rune_bytes r) (encode rs),
  length-append (rune_bytes r) (encode (trim_right rs)),
)

-- A rune that may be shown: no control character, and graphic unless it is the space.
module _ (is_graphic : ℕ → Bool) where
  abbrev pub IsShown : ℕ → Type 0
  IsShown r = IsRune r × (is_control r ≡ false) × ((is_graphic r ≡ true) ⊎ (r ≡ 32))

  space-IsShown : IsShown 32
  unfolding is_control
  space-IsShown = (inl (omega arith), refl, inr refl)

  clean_rune-IsShown : (r : ℕ) → IsRune r → All IsShown (clean_rune is_graphic r)
  unfolding clean_rune
  clean_rune-IsShown r h = elim (Bool-cases (r == 10 || r == 13 || r == 9)) [
    | inl e ↦ rw e (space-IsShown, tt)
    | inr e ↦ rw e (elim (Bool-cases (r == 127 || is_control r)) [
      | inl e2 ↦ rw e2 tt
      | inr e2 ↦ rw e2 (elim (Bool-cases (not (is_graphic r) && not (r == 32))) [
        | inl e3 ↦ rw e3 tt
        | inr e3 ↦ rw e3 ((h, ground arith, ground arith), tt)
      ])
    ])
  ]

  clean_runes-IsShown : (rs : List ℕ) → All IsRune rs → All IsShown (clean_runes is_graphic rs)
  unfolding clean_runes
  clean_runes-IsShown [] h = tt
  clean_runes-IsShown (r ∷ rs) h =
      All-append IsShown (clean_rune is_graphic r) (clean_runes is_graphic rs)
        (clean_rune-IsShown r h.0) (clean_runes-IsShown rs h.1)

  unfoldable pub words : Bytes → List ℕ
  words s = join_words (fields (trim_space (clean_runes is_graphic (runes s))))

  pub words-IsShown : (s : Bytes) → All IsShown (words s)
  unfolding words
  words-IsShown s =
      join_words-All IsShown (fields kept) space-IsShown
        (put_word-All IsShown (split_word kept).0 (split_word kept).1 split.0 split.1)
    where
      kept : List ℕ
      kept = trim_space (clean_runes is_graphic (runes s))

      split : All IsShown (split_word kept).0 × All (All IsShown) (split_word kept).1
      split = split_word-All IsShown kept (
          trim_space-All IsShown (clean_runes is_graphic (runes s))
            (clean_runes-IsShown (runes s) (runes_from-IsRune 0 s)))

  pub IsRunes-words : (rs : List ℕ) → All IsShown rs → All IsRune rs
  IsRunes-words [] h = tt
  IsRunes-words (r ∷ rs) h = ((h.0).0, IsRunes-words rs h.1)

  Clean : Bytes → Type 0
  Clean name = All IsShown (runes name) × (length name ≤ max_nickname_length)

  encode-Clean :
      (rs : List ℕ) → All IsShown rs → length (encode rs) ≤ max_nickname_length → Clean (encode rs)
  unfolding Clean
  encode-Clean rs h l = (rw (runes-encode rs (IsRunes-words rs h)) h, l)

  trim_space-length : (rs : List ℕ) → length (encode (trim_space rs)) ≤ length (encode rs)
  trim_space-length rs = omega (arith, trim_right-length (trim_left rs), trim_left-length rs)

  -- The first runes of a name that is too long.
  shortened-Clean :
      (rs : List ℕ)
      → All IsShown rs
      → Clean (encode (trim_space (runes (truncate (encode rs) max_nickname_length))))
  shortened-Clean rs h =
      rw (cut.1, runes-encode (take cut.0 rs) (All-take IsRune cut.0 rs (IsRunes-words rs h)))
        (encode-Clean (trim_space (take cut.0 rs))
          (trim_space-All IsShown (take cut.0 rs) (All-take IsShown cut.0 rs h))
          (omega (arith, trim_space-length (take cut.0 rs), short)))
    where
      cut :
          (k : ℕ) × (truncate (encode rs) max_nickname_length ≡ encode (take k rs))
          × (length (truncate (encode rs) max_nickname_length) ≤ max_nickname_length)
      cut = truncate-encode rs max_nickname_length (IsRunes-words rs h)

      short : length (encode (take cut.0 rs)) ≤ max_nickname_length
      short = subst (λ b. length b ≤ max_nickname_length) cut.1 cut.2

  -- Whatever bytes a peer sends for a nickname, the name that is shown has at most 24 bytes, and
  -- each of its runes is no control character and is graphic or a space.
  pub clean_nickname-IsShown :
      (s : Bytes)
      → All IsShown (runes (clean_nickname is_graphic s))
        × (length (clean_nickname is_graphic s) ≤ max_nickname_length)
  unfolding clean_nickname words Clean
  clean_nickname-IsShown s =
      elim (Bool-cases (ltb max_nickname_length (length (encode (words s))))) [
        | inl e ↦ rw e (shortened-Clean (words s) (words-IsShown s))
        | inr e ↦ rw e (
            encode-Clean (words s) (words-IsShown s)
              (ltb_false→le max_nickname_length (length (encode (words s))) e))
      ]
