-- ===== src/Terminal/Text.antt =====
-- What cmd/cmd-chat/main.go makes of a line: the functions of the package strings that it calls, and
-- splitCommand. The table of lower case is an argument, above the ASCII letters.
pub mod Words
use cmd_chat.Prelude.{
  ltb, leb, ◌==◌, if◌then◌else◌, get_or, eq, bytes_beq, nat_eq, bytes_eq, Bytes, codes, ℕ, zero,
  suc, ◌+◌, ◌-◌, ◌/◌, ap, Bool, true, false, ◌&&◌, ◌||◌, Option, none, some, List, [], ◌∷◌, map,
}
use cmd_chat.Profile.Runes.{encode, runes, first_rune, is_space}

-- `strings.TrimSpace`: what is left behind the spaces in front; `skip` bytes belong to one already.
unfoldable pub trim_front : ℕ → Bytes → Bytes
trim_front skip [] = []
trim_front (suc skip) (b ∷ s) = trim_front skip s
trim_front zero (b ∷ s) =
    let (r, more) = first_rune b (get_or s 0 0) (get_or s 1 0) (get_or s 2 0) in
    let rest = trim_front more s in if is_space r then rest else b ∷ s

unfoldable pub all_space : ℕ → Bytes → Bool
all_space skip [] = true
all_space (suc skip) (b ∷ s) = all_space skip s
all_space zero (b ∷ s) =
    let (r, more) = first_rune b (get_or s 0 0) (get_or s 1 0) (get_or s 2 0) in
    is_space r && all_space more s

unfoldable pub trim_back : Bytes → Bytes
trim_back [] = []
trim_back (b ∷ s) = let rest = trim_back s in if all_space 0 (b ∷ s) then [] else b ∷ rest

unfoldable pub trim : Bytes → Bytes
trim s = trim_back (trim_front 0 s)

-- `strings.SplitN(s, " ", 2)`
unfoldable pub split_at_space : Bytes → Bytes × Option Bytes
split_at_space [] = ([], none)
split_at_space (b ∷ s) =
    let (field, rest) = split_at_space s in if b == 32 then ([], some s) else (b ∷ field, rest)

unfoldable pub trim_rest : Option Bytes → Bytes
trim_rest none = []
trim_rest (some rest) = trim rest

abbrev pub is_either : Bytes → Bytes → Bytes → Bool
is_either a b text = bytes_beq text a || bytes_beq text b

abbrev pub is_among : List Bytes → Bytes → Bool
is_among [] text = false
is_among (w ∷ ws) text = bytes_beq text w || is_among ws text

pub data Command : Type 0 where
  quit who verify invite nick group : Command

-- The words of the switch in hostChat and in chatSession.
unfoldable pub command_of : Bytes → Option Command
command_of word =
    if is_either (codes "/quit") (codes "/exit") word
    then some quit
    else if is_either (codes "/who") (codes "/room") word
    then some who
    else if is_either (codes "/verify") (codes "/safety") word
    then some verify
    else if bytes_beq word (codes "/invite")
    then some invite
    else if is_either (codes "/nick") (codes "/name") word
    then some nick
    else if bytes_beq word (codes "/group")
    then some group
    else none

module _ (lower : ℕ → ℕ) where
  unfoldable pub lower_rune : ℕ → ℕ
  lower_rune r = if ltb r 128 then if leb 65 r && leb r 90 then r + 32 else r else lower r

  -- `strings.ToLower`
  unfoldable pub to_lower : Bytes → Bytes
  to_lower s = encode (map lower_rune (runes s))

  unfoldable pub split_command : Bytes → Bytes × Bytes
  split_command text =
      let (field, rest) = split_at_space text in (to_lower (trim field), trim_rest rest)
