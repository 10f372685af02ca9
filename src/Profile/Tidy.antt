-- ===== src/Profile/Tidy.antt =====
-- CleanNickname changes nothing in what it has cleaned.
use cmd_chat.Prelude.{
  ltb, le→ltb_false, Bool-cases, length, take, All, All-take, nat_eq, bytes_eq, Bytes, ℕ, zero, suc,
  ◌≤◌, ◌≡◌, refl, sym, ap, subst, ◌∙◌, ◌⊎◌, inl, inr, Bool, true, false, List, [], ◌∷◌, ◌++◌, arith,
}
use mathlib.Core.List.{append-nil}
use cmd_chat.Profile.{
  max_nickname_length, truncate, trim_left, keep_right, trim_right, trim_space, put_word,
  split_word, fields, join_words, clean_rune, clean_runes, clean_nickname,
}
use cmd_chat.Profile.Runes.{encode, runes, is_control, is_space, runes-encode}
use cmd_chat.Profile.Cut.{truncate-encode}
use cmd_chat.Profile.Nickname.{
  IsShown, trim_space-All, words, words-IsShown, IsRunes-words, clean_nickname-IsShown,
}

-- Spaces are single, the one of ASCII, and none is in front; `gap` is whether one may not come now.
abbrev IsSpaced : Bool → List ℕ → Type 0
IsSpaced gap [] = Unit
IsSpaced gap (r ∷ rs) =
    ((is_space r ≡ false) × IsSpaced false rs) ⊎ ((r ≡ 32) × (gap ≡ false) × IsSpaced true rs)

-- And none is at the end.
abbrev IsTidy : Bool → List ℕ → Type 0
IsTidy gap [] = gap ≡ false
IsTidy gap (r ∷ rs) =
    ((is_space r ≡ false) × IsTidy false rs) ⊎ ((r ≡ 32) × (gap ≡ false) × IsTidy true rs)

space_is_space : is_space 32 ≡ true
unfolding is_space
space_is_space = refl

IsTidy-IsSpaced : (gap : Bool) (rs : List ℕ) → IsTidy gap rs → IsSpaced gap rs
IsTidy-IsSpaced gap [] h = tt
IsTidy-IsSpaced gap (r ∷ rs) (inl (n, h)) = inl (n, IsTidy-IsSpaced false rs h)
IsTidy-IsSpaced gap (r ∷ rs) (inr (e, g, h)) = inr (e, g, IsTidy-IsSpaced true rs h)

IsSpaced-take : (gap : Bool) (k : ℕ) (rs : List ℕ) → IsSpaced gap rs → IsSpaced gap (take k rs)
IsSpaced-take gap zero rs h = tt
IsSpaced-take gap (suc k) [] h = tt
IsSpaced-take gap (suc k) (r ∷ rs) (inl (n, h)) = inl (n, IsSpaced-take false k rs h)
IsSpaced-take gap (suc k) (r ∷ rs) (inr (e, g, h)) = inr (e, g, IsSpaced-take true k rs h)

trim_left-IsSpaced : (rs : List ℕ) → IsSpaced true rs → trim_left rs ≡ rs
trim_left-IsSpaced [] h = refl
trim_left-IsSpaced (r ∷ rs) (inl (n, h)) = rw n refl
trim_left-IsSpaced (r ∷ rs) (inr (e, g, h)) = absurd (cc g)

-- Trimming the right of such a text leaves nothing or a tidy one.
keep_right-IsTidy :
    (gap : Bool) (r : ℕ) (rs : List ℕ)
    → is_space r ≡ false
    → (rs ≡ []) ⊎ IsTidy false rs
    → IsTidy gap (keep_right r rs)
keep_right-IsTidy gap r [] n h = rw n (inl (n, refl))
keep_right-IsTidy gap r (q ∷ rs) n (inl e) = absurd (cc e)
keep_right-IsTidy gap r (q ∷ rs) n (inr t) = inl (n, t)

keep_space-IsTidy :
    (rs : List ℕ)
    → (rs ≡ []) ⊎ IsTidy true rs
    → (keep_right 32 rs ≡ []) ⊎ IsTidy false (keep_right 32 rs)
keep_space-IsTidy [] h = rw space_is_space (inl refl)
keep_space-IsTidy (q ∷ rs) (inl e) = absurd (cc e)
keep_space-IsTidy (q ∷ rs) (inr t) = inr (inr (refl, refl, t))

trim_right-IsTidy :
    (gap : Bool) (rs : List ℕ) → IsSpaced gap rs → (trim_right rs ≡ []) ⊎ IsTidy gap (trim_right rs)
trim_right-IsTidy gap [] h = inl refl
trim_right-IsTidy gap (r ∷ rs) (inl (n, h)) =
    inr (keep_right-IsTidy gap r (trim_right rs) n (trim_right-IsTidy false rs h))
trim_right-IsTidy gap (r ∷ rs) (inr (e, g, h)) =
    subst (λ q. (keep_right q (trim_right rs) ≡ []) ⊎ IsTidy gap (keep_right q (trim_right rs)))
      (sym e) (rw g (keep_space-IsTidy (trim_right rs) (trim_right-IsTidy true rs h)))

-- On a tidy text it changes nothing.
trim_right-same : (gap : Bool) (rs : List ℕ) → IsTidy gap rs → trim_right rs ≡ rs
trim_right-same gap [] h = refl
trim_right-same gap (r ∷ []) (inl (n, h)) = rw n refl
trim_right-same gap (r ∷ []) (inr (e, g, h)) = absurd (cc h)
trim_right-same gap (r ∷ q ∷ rs) (inl (n, h)) = ap (keep_right r) (trim_right-same false (q ∷ rs) h)
trim_right-same gap (r ∷ q ∷ rs) (inr (e, g, h)) =
    ap (keep_right r) (trim_right-same true (q ∷ rs) h)

-- The words of a tidy text, put together again.
join_word-cons :
    (r : ℕ) (w : List ℕ) (ws : List (List ℕ)) → join_words ((r ∷ w) ∷ ws) ≡ r ∷ join_words (w ∷ ws)
join_word-cons r w [] = refl
join_word-cons r w (v ∷ ws) = refl

word_step :
    (r : ℕ) (rs : List ℕ)
    → is_space r ≡ false
    → join_words ((split_word rs).0 ∷ (split_word rs).1) ≡ rs
    → join_words ((split_word (r ∷ rs)).0 ∷ (split_word (r ∷ rs)).1) ≡ r ∷ rs
word_step r rs n h = rw n (join_word-cons r (split_word rs).0 (split_word rs).1 ∙ ap (◌∷◌ r) h)

space_step :
    (q : ℕ) (rs : List ℕ)
    → is_space q ≡ false
    → join_words ((split_word rs).0 ∷ (split_word rs).1) ≡ rs
    → join_words ((split_word (32 ∷ q ∷ rs)).0 ∷ (split_word (32 ∷ q ∷ rs)).1) ≡ 32 ∷ q ∷ rs
space_step q rs n h =
    rw (space_is_space, n)
      (ap (◌∷◌ 32) (join_word-cons q (split_word rs).0 (split_word rs).1 ∙ ap (◌∷◌ q) h))

rejoined : (rs : List ℕ) → IsTidy false rs → join_words ((split_word rs).0 ∷ (split_word rs).1) ≡ rs
rejoined [] h = refl
rejoined (r ∷ rs) (inl (n, h)) = word_step r rs n (rejoined rs h)
rejoined (r ∷ []) (inr (e, g, h)) = absurd (cc h)
rejoined (r ∷ q ∷ rs) (inr (e, g, inl (n, h))) =
    subst (λ p. join_words ((split_word (p ∷ q ∷ rs)).0 ∷ (split_word (p ∷ q ∷ rs)).1) ≡ p ∷ q ∷ rs)
      (sym e) (space_step q rs n (rejoined rs h))
rejoined (r ∷ q ∷ rs) (inr (e, g, inr (e2, g2, h))) = absurd (cc g2)

join-fields : (rs : List ℕ) → IsTidy true rs → join_words (fields rs) ≡ rs
join-fields [] h = absurd (cc h)
join-fields (r ∷ rs) (inl (n, h)) =
    rw n (join_word-cons r (split_word rs).0 (split_word rs).1 ∙ ap (◌∷◌ r) (rejoined rs h))
join-fields (r ∷ rs) (inr (e, g, h)) = absurd (cc g)

-- What is joined from words is tidy.
abbrev IsWord : List ℕ → Type 0
IsWord [] = ⊥
IsWord (r ∷ rs) = (is_space r ≡ false) × All (λ q. is_space q ≡ false) rs

word-IsTidy :
    (rs later : List ℕ)
    → All (λ q. is_space q ≡ false) rs
    → IsTidy false later
    → IsTidy false (rs ++ later)
word-IsTidy [] later h t = t
word-IsTidy (r ∷ rs) later h t = inl (h.0, word-IsTidy rs later h.1 t)

join_words-IsTidy :
    (w : List ℕ) (ws : List (List ℕ)) → IsWord w → All IsWord ws → IsTidy true (join_words (w ∷ ws))
join_words-IsTidy [] ws h a = absurd h
join_words-IsTidy (r ∷ rs) [] h a =
    inl (h.0, subst (IsTidy false) (append-nil rs) (word-IsTidy rs [] h.1 refl))
join_words-IsTidy (r ∷ rs) (v ∷ ws) h a = inl (
  h.0,
  word-IsTidy rs (32 ∷ join_words (v ∷ ws)) h.1 (inr (refl, refl, join_words-IsTidy v ws a.0 a.1)),
)

AreSplit : List ℕ × List (List ℕ) → Type 0
AreSplit s = All (λ q. is_space q ≡ false) s.0 × All IsWord s.1

put_word-AreWords :
    (w : List ℕ) (ws : List (List ℕ))
    → All (λ q. is_space q ≡ false) w
    → All IsWord ws
    → All IsWord (put_word w ws)
put_word-AreWords [] ws h a = a
put_word-AreWords (r ∷ w) ws h a = (h, a)

split_word-AreSplit : (rs : List ℕ) → AreSplit (split_word rs)
unfolding AreSplit
split_word-AreSplit [] = (tt, tt)
split_word-AreSplit (r ∷ rs) =
    let rest = split_word-AreSplit rs in
    elim (Bool-cases (is_space r)) [
      | inl e ↦ rw e (tt, put_word-AreWords (split_word rs).0 (split_word rs).1 rest.0 rest.1)
      | inr e ↦ rw e ((e, rest.0), rest.1)
    ]

join_fields-IsTidy :
    (ws : List (List ℕ)) → All IsWord ws → (join_words ws ≡ []) ⊎ IsTidy true (join_words ws)
join_fields-IsTidy [] a = inl refl
join_fields-IsTidy (w ∷ ws) a = inr (join_words-IsTidy w ws a.0 a.1)

fields-AreWords : (rs : List ℕ) → All IsWord (fields rs)
unfolding AreSplit
fields-AreWords rs =
    put_word-AreWords (split_word rs).0 (split_word rs).1 (split_word-AreSplit rs).0
      (split_word-AreSplit rs).1

abbrev IsTidyText : List ℕ → Type 0
IsTidyText rs = (rs ≡ []) ⊎ IsTidy true rs

IsTidyText-IsSpaced : (rs : List ℕ) → IsTidyText rs → IsSpaced true rs
IsTidyText-IsSpaced rs (inl e) = subst (IsSpaced true) (sym e) tt
IsTidyText-IsSpaced rs (inr t) = IsTidy-IsSpaced true rs t

trim_space-IsTidyText : (rs : List ℕ) → IsSpaced true rs → IsTidyText (trim_space rs)
trim_space-IsTidyText rs h = rw (trim_left-IsSpaced rs h) (trim_right-IsTidy true rs h)

trim_space-same : (rs : List ℕ) → IsTidyText rs → trim_space rs ≡ rs
trim_space-same rs (inl e) = subst (λ x. trim_space x ≡ x) (sym e) refl
trim_space-same rs (inr t) =
    rw (trim_left-IsSpaced rs (IsTidy-IsSpaced true rs t)) (trim_right-same true rs t)

join-fields-same : (rs : List ℕ) → IsTidyText rs → join_words (fields rs) ≡ rs
join-fields-same rs (inl e) = subst (λ x. join_words (fields x) ≡ x) (sym e) refl
join-fields-same rs (inr t) = join-fields rs t

module _ (is_graphic : ℕ → Bool) where
  clean_rune-same : (r : ℕ) → IsShown is_graphic r → clean_rune is_graphic r ≡ r ∷ []
  unfolding clean_rune is_control
  clean_rune-same r h = ground (arith, h.1, h.2)

  clean_runes-same : (rs : List ℕ) → All (IsShown is_graphic) rs → clean_runes is_graphic rs ≡ rs
  unfolding clean_runes
  clean_runes-same [] h = refl
  clean_runes-same (r ∷ rs) h = rw (clean_rune-same r h.0) (ap (◌∷◌ r) (clean_runes-same rs h.1))

  -- What CleanNickname gives.
  IsCleaned : List ℕ → Bytes → Type 0
  IsCleaned rs name = (name ≡ encode rs) × All (IsShown is_graphic) rs × IsTidyText rs

  shortened :
      (rs : List ℕ)
      → All (IsShown is_graphic) rs
      → IsTidyText rs
      → let name = encode (trim_space (runes (truncate (encode rs) max_nickname_length))) in
        (kept : List ℕ) × IsCleaned kept name
  unfolding IsCleaned
  shortened rs h t =
      let cut = truncate-encode rs max_nickname_length (IsRunes-words is_graphic rs h) in
      let kept = take cut.0 rs in
      let shown = All-take (IsShown is_graphic) cut.0 rs h in
      (
        trim_space kept,
        (
          ap (λ b. encode (trim_space (runes b))) cut.1
              ∙ ap (λ x. encode (trim_space x))
                  (runes-encode kept (IsRunes-words is_graphic kept shown)),
          trim_space-All (IsShown is_graphic) kept shown,
          trim_space-IsTidyText kept (IsSpaced-take true cut.0 rs (IsTidyText-IsSpaced rs t)),
        ),
      )

  cleaned : (s : Bytes) → (rs : List ℕ) × IsCleaned rs (clean_nickname is_graphic s)
  unfolding clean_nickname words IsCleaned
  cleaned s =
      let ws = words is_graphic s in
      let shown = words-IsShown is_graphic s in
      let tidy =
        join_fields-IsTidy (fields (trim_space (clean_runes is_graphic (runes s))))
          (fields-AreWords (trim_space (clean_runes is_graphic (runes s)))) in
      elim (Bool-cases (ltb max_nickname_length (length (encode ws)))) [
        | inl e ↦ rw e (shortened ws shown tidy)
        | inr e ↦ rw e (ws, (refl, shown, tidy))
      ]

  clean-encode :
      (rs : List ℕ)
      → All (IsShown is_graphic) rs
      → IsTidyText rs
      → length (encode rs) ≤ max_nickname_length
      → clean_nickname is_graphic (encode rs) ≡ encode rs
  unfolding clean_nickname
  clean-encode rs h t short =
      rw
        (
          runes-encode rs (IsRunes-words is_graphic rs h),
          clean_runes-same rs h,
          trim_space-same rs t,
          join-fields-same rs t,
          le→ltb_false max_nickname_length (length (encode rs)) short,
        )
        refl

  -- Whatever bytes a peer or the user gives for a nickname, what CleanNickname makes of them has at
  -- most 24 bytes of valid UTF-8, each rune of it is no control character and is graphic or a space,
  -- and cleaning it once more leaves it as it is.
  pub clean_nickname_again :
      (s : Bytes)
      → let name = clean_nickname is_graphic s in
        (clean_nickname is_graphic name ≡ name)
        × (encode (runes name) ≡ name)
        × All (IsShown is_graphic) (runes name)
        × (length name ≤ max_nickname_length)
  unfolding IsCleaned
  clean_nickname_again s =
      let (rs, (e, h, t)) = cleaned s in
      let shown = clean_nickname-IsShown is_graphic s in
      (
        ap (clean_nickname is_graphic) e ∙ clean-encode rs h t (rw e at shown.1) ∙ sym e,
        ap (λ b. encode (runes b)) e
            ∙ ap encode (runes-encode rs (IsRunes-words is_graphic rs h))
            ∙ sym e,
        shown.0,
        shown.1,
      )
