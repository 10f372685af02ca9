-- ===== src/Terminal/Text/Words.antt =====
-- The first word of a line that is typed into cmd/cmd-chat/main.go: after blanks, in any mixture of
-- capital and small letters, with nothing or a blank and more behind it.
use mathlib.Core.List.{append-nil}
use cmd_chat.Prelude.{
  leb, ◌==◌, if◌then◌else◌, Bool-cases, length, get_or, replicate, All, nat_eq, bytes_eq, Bytes, ℕ,
  zero, suc, ◌+◌, ◌≤◌, ◌<◌, ◌≡◌, refl, sym, ap, subst, ◌∙◌, ◌⊎◌, inl, inr, false, ◌&&◌, [], ◌∷◌,
  ◌++◌, map, arith,
}
use cmd_chat.Profile.Runes.{encode, rune_bytes, runes, first_rune, is_space}
use cmd_chat.Terminal.Text.{
  trim, trim_front, trim_back, all_space, split_at_space, to_lower, lower_rune, split_command,
}

abbrev pub small : ℕ → ℕ
small b = if leb 65 b && leb b 90 then b + 32 else b

-- The line that starts with a spelling of the word.
pub record BeginsWith (word line : Bytes) : Type 0 where
  pub blanks : ℕ
  pub spelling : Bytes
  pub rest : Bytes
  pub is : line ≡ replicate blanks 32 ++ (spelling ++ rest)
  pub spells : map small spelling ≡ word
  pub apart : (rest ≡ []) ⊎ ((more : Bytes) × (rest ≡ 32 ∷ more))

-- The printable characters of ASCII but the blank.
abbrev pub IsVisible : ℕ → Type 0
IsVisible b = (33 ≤ b) × (b < 127)

visible-first : (b x y z : ℕ) → IsVisible b → first_rune b x y z ≡ (b, 0)
unfolding first_rune
visible-first b x y z v = ground arith

visible-is_space : (b : ℕ) → IsVisible b → is_space b ≡ false
unfolding is_space
visible-is_space b v = ground arith

visible-all_space : (b : ℕ) (s : Bytes) → IsVisible b → all_space 0 (b ∷ s) ≡ false
unfolding all_space
visible-all_space b s v =
    rw (visible-first b (get_or s 0 0) (get_or s 1 0) (get_or s 2 0) v, visible-is_space b v) refl

trim_front-visible : (b : ℕ) (s : Bytes) → IsVisible b → trim_front 0 (b ∷ s) ≡ b ∷ s
unfolding trim_front
trim_front-visible b s v =
    rw (visible-first b (get_or s 0 0) (get_or s 1 0) (get_or s 2 0) v, visible-is_space b v) refl

trim_front-blanks : (n : ℕ) (s : Bytes) → trim_front 0 (replicate n 32 ++ s) ≡ trim_front 0 s
unfolding trim_front first_rune is_space
trim_front-blanks zero s = refl
trim_front-blanks (suc n) s = trim_front-blanks n s

trim_back-word : (w t : Bytes) → All IsVisible w → trim_back (w ++ t) ≡ w ++ trim_back t
unfolding trim_back
trim_back-word [] t v = refl
trim_back-word (b ∷ w) t v =
    rw (visible-all_space b (w ++ t) v.0) (ap (◌∷◌ b) (trim_back-word w t v.1))

trim_back-rest :
    (rest : Bytes)
    → (rest ≡ []) ⊎ ((more : Bytes) × (rest ≡ 32 ∷ more))
    → (split_at_space (trim_back rest)).0 ≡ []
unfolding trim_back split_at_space
trim_back-rest rest (inl e) = rw e refl
trim_back-rest rest (inr (more, e)) =
    rw e (elim (Bool-cases (all_space 0 (32 ∷ more))) [ inl s ↦ rw s refl | inr s ↦ rw s refl ])

split_at_space-word :
    (w t : Bytes) → All IsVisible w → (split_at_space (w ++ t)).0 ≡ w ++ (split_at_space t).0
unfolding split_at_space
split_at_space-word [] t v = refl
split_at_space-word (b ∷ w) t v =
    let other : (b == 32) ≡ false = ground (arith, v.0) in
    rw other (ap (◌∷◌ b) (split_at_space-word w t v.1))

runes-visible : (w : Bytes) → All IsVisible w → runes w ≡ w
runes-visible [] v = refl
runes-visible (b ∷ w) v =
    rw (visible-first b (get_or w 0 0) (get_or w 1 0) (get_or w 2 0) v.0)
      (ap (◌∷◌ b) (runes-visible w v.1))

trim-visible : (w : Bytes) → All IsVisible w → trim w ≡ w
unfolding trim trim_back trim_front
trim-visible [] v = refl
trim-visible (b ∷ w) v =
    rw (trim_front-visible b w v.0)
      (ap trim_back (sym (append-nil (b ∷ w))) ∙ (trim_back-word (b ∷ w) [] v ∙ append-nil (b ∷ w)))

module _ (lower : ℕ → ℕ) where
  lower_rune-visible : (b : ℕ) → IsVisible b → rune_bytes (lower_rune lower b) ≡ small b ∷ []
  unfolding rune_bytes lower_rune
  lower_rune-visible b v = ground arith

  encode-lower : (w : Bytes) → All IsVisible w → encode (map (lower_rune lower) w) ≡ map small w
  encode-lower [] v = refl
  encode-lower (b ∷ w) v = rw (lower_rune-visible b v.0) (ap (◌∷◌ (small b)) (encode-lower w v.1))

  to_lower-visible : (w : Bytes) → All IsVisible w → to_lower lower w ≡ map small w
  unfolding to_lower
  to_lower-visible w v = rw (runes-visible w v) (encode-lower w v)

  spelled : (w : Bytes) → All IsVisible (map small w) → All IsVisible w
  spelled [] v = tt
  spelled (b ∷ w) v = (by_letter b v.0, spelled w v.1)
    where
      by_letter : (b : ℕ) → IsVisible (small b) → IsVisible b
      by_letter b h = ground arith

  split_command-trimmed :
      (w t : Bytes)
      → All IsVisible w
      → (split_at_space t).0 ≡ []
      → (split_command lower (w ++ t)).0 ≡ map small w
  unfolding split_command
  split_command-trimmed w t v e =
      rw (split_at_space-word w t v, e, append-nil w, trim-visible w v) (to_lower-visible w v)

  spelled-trim :
      (n : ℕ) (w rest : Bytes)
      → All IsVisible w
      → 0 < length w
      → trim (replicate n 32 ++ (w ++ rest)) ≡ w ++ trim_back rest
  unfolding trim
  spelled-trim n [] rest v h = absurd (omega (arith, h))
  spelled-trim n (b ∷ w) rest v h =
      rw (trim_front-blanks n (b ∷ (w ++ rest)), trim_front-visible b (w ++ rest) v.0)
        (trim_back-word (b ∷ w) rest v)

  -- The command of such a line is the word in small letters.
  pub split_command-BeginsWith :
      (c : ℕ) (cs line : Bytes)
      → All IsVisible (c ∷ cs)
      → BeginsWith (c ∷ cs) line
      → (split_command lower (trim line)).0 ≡ c ∷ cs
  split_command-BeginsWith c cs line v b =
      let seen = spelled b.spelling (subst (All IsVisible) (sym b.spells) v) in
      rw (b.is, spelled-trim b.blanks b.spelling b.rest seen (some_letter b.spelling b.spells))
        (split_command-trimmed b.spelling (trim_back b.rest) seen (trim_back-rest b.rest b.apart)
          ∙ b.spells)
    where
      some_letter : (w : Bytes) → map small w ≡ c ∷ cs → 0 < length w
      some_letter [] e = absurd (cc e)
      some_letter (x ∷ w) e = omega arith
