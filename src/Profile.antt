-- ===== src/Profile.antt =====
-- CleanNickname and the preferences of internal/profile/profile.go. A string is the list of its
-- bytes; whether a rune is graphic, a table of the package unicode, is an argument.
pub mod Runes
pub mod Cut
pub mod Nickname
pub mod Storage
pub mod Tidy
mod Tests
use cmd_chat.Prelude.{
  ltb, leb, ◌==◌, if◌then◌else◌, length, get_or, take, nat_eq, bytes_eq, Bytes, codes, ℕ, zero, suc,
  ◌+◌, ◌-◌, ◌/◌, ap, Bool, true, not, ◌&&◌, ◌||◌, Option, none, some, List, [], ◌∷◌, ◌++◌,
}
use cmd_chat.Profile.Runes.{encode, runes, is_control, is_space}

abbrev pub max_nickname_length : ℕ
max_nickname_length = 24

unfoldable pub is_rune_start : ℕ → Bool
is_rune_start b = not (b / 64 == 2)

-- The loop of `truncate`, from `cut` down.
unfoldable pub cut_at : Bytes → ℕ → ℕ
cut_at s zero = 0
cut_at s (suc cut) =
    let lower = cut_at s cut in if is_rune_start (get_or s (suc cut) 0) then suc cut else lower

unfoldable pub truncate : Bytes → ℕ → Bytes
truncate s n = if leb (length s) n then s else take (cut_at s n) s

-- The string functions that the source calls, on the runes of a string.
abbrev pub trim_left : List ℕ → List ℕ
trim_left [] = []
trim_left (r ∷ rs) = let rest = trim_left rs in if is_space r then rest else r ∷ rs

-- A rune before what is left of the runes that follow it.
abbrev pub keep_right : ℕ → List ℕ → List ℕ
keep_right r [] = if is_space r then [] else r ∷ []
keep_right r (q ∷ rest) = r ∷ q ∷ rest

abbrev pub trim_right : List ℕ → List ℕ
trim_right [] = []
trim_right (r ∷ rs) = keep_right r (trim_right rs)

abbrev pub trim_space : List ℕ → List ℕ
trim_space rs = trim_right (trim_left rs)

-- A word in front of others, if it is one.
abbrev pub put_word : List ℕ → List (List ℕ) → List (List ℕ)
put_word [] words = words
put_word (r ∷ rs) words = (r ∷ rs) ∷ words

-- The runes up to the first space, and the words after it.
abbrev pub split_word : List ℕ → List ℕ × List (List ℕ)
split_word [] = ([], [])
split_word (r ∷ rs) =
    let (word, words) = split_word rs in
    if is_space r then ([], put_word word words) else (r ∷ word, words)

-- `strings.Fields`
abbrev pub fields : List ℕ → List (List ℕ)
fields rs = let (word, words) = split_word rs in put_word word words

-- `strings.Join(words, " ")`
abbrev pub join_words : List (List ℕ) → List ℕ
join_words [] = []
join_words (w ∷ []) = w
join_words (w ∷ v ∷ ws) = w ++ (32 ∷ join_words (v ∷ ws))

module _ (is_graphic : ℕ → Bool) where
  -- What the loop writes for one rune.
  unfoldable pub clean_rune : ℕ → List ℕ
  clean_rune r =
      if r == 10 || r == 13 || r == 9
      then 32 ∷ []
      else if r == 127 || is_control r
      then []
      else if not (is_graphic r) && not (r == 32)
      then []
      else r ∷ []

  unfoldable pub clean_runes : List ℕ → List ℕ
  clean_runes [] = []
  clean_runes (r ∷ rs) = clean_rune r ++ clean_runes rs

  unfoldable pub clean_nickname : Bytes → Bytes
  clean_nickname nickname =
      let out = encode (join_words (fields (trim_space (clean_runes (runes nickname))))) in
      if ltb max_nickname_length (length out)
      then encode (trim_space (runes (truncate out max_nickname_length)))
      else out

-- `Profile`; a missing choice is `none`.
pub record Preferences : Type 0 where
  pub nickname : Bytes
  pub group_chat : Option Bool

-- The account's names, from the environment.
unfoldable pub account_name : Bytes → Bytes → Bytes
account_name username user =
    if not (length username == 0)
    then username
    else if not (length user == 0)
    then user
    else codes "user"

unfoldable pub display_name : Preferences → Bytes → Bytes
display_name p account = if not (length p.nickname == 0) then p.nickname else account

unfoldable pub group_chat_enabled : Preferences → Bool
group_chat_enabled p = elim p.group_chat [ none ↦ true | some enabled ↦ enabled ]
