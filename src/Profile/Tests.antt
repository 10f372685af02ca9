-- ===== src/Profile/Tests.antt =====
-- Nicknames at concrete inputs.
use cmd_chat.Prelude.{
  leb, length, All, nat_eq, bytes_eq, Bytes, codes, ℕ, zero, suc, ◌≤◌, ◌≡◌, refl, Bool, true, ◌&&◌,
  ◌||◌, none, [], ◌∷◌, ◌++◌,
}
use cmd_chat.Profile.{
  max_nickname_length, clean_nickname, clean_rune, clean_runes, truncate, cut_at, is_rune_start,
  account_name, display_name, group_chat_enabled,
}
use cmd_chat.Profile.Runes.{encode, runes, rune_bytes, first_rune, is_control, is_space}
use cmd_chat.Profile.Nickname.{IsShown}
use cmd_chat.Profile.Tidy.{clean_nickname_again}

-- The graphic runes of the first 256 code points.
abbrev graphic : ℕ → Bool
graphic r = (leb 32 r && leb r 126) || leb 160 r

-- An escape sequence, spaces to be collapsed, and a carriage return.
abbrev forged : Bytes
forged = codes "  bob" ++ (27 ∷ codes "[2J   x") ++ (13 ∷ [])

forged_cleaned : clean_nickname graphic forged ≡ codes "bob[2J x"
unfolding clean_nickname clean_runes clean_rune is_control is_space first_rune rune_bytes
forged_cleaned = refl

-- Twelve e with acute accent after one letter take 25 bytes, and the last is dropped whole.
abbrev accents : ℕ → Bytes
accents zero = []
accents (suc n) = 195 ∷ 169 ∷ accents n

accents_cut : clean_nickname graphic (97 ∷ accents 12) ≡ 97 ∷ accents 11
unfolding clean_nickname clean_runes clean_rune is_control is_space first_rune rune_bytes truncate
    cut_at is_rune_start
accents_cut = refl

clean_nickname_again_example :
    let name = clean_nickname graphic forged in
    (clean_nickname graphic name ≡ name)
    × (encode (runes name) ≡ name)
    × All (IsShown graphic) (runes name)
    × (length name ≤ max_nickname_length)
clean_nickname_again_example = clean_nickname_again graphic forged

names : (account_name [] [] ≡ codes "user") × (account_name [] (1 ∷ []) ≡ 1 ∷ [])
unfolding account_name
names = (refl, refl)

defaults :
    (group_chat_enabled (record { nickname = []; group_chat = none }) ≡ true)
    × (display_name (record { nickname = []; group_chat = none }) (7 ∷ []) ≡ 7 ∷ [])
unfolding group_chat_enabled display_name
defaults = (refl, refl)
