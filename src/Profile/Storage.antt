-- ===== src/Profile/Storage.antt =====
-- The file of internal/profile/profile.go: Load, save, Name, SetNickname, SetGroupChatEnabled. The
-- file is what it holds, if it can be read; what the process has loaded is kept beside it.
pub mod Kept
use cmd_chat.Prelude.{
  if◌then◌else◌, nat_eq, bytes_eq, Bytes, ℕ, suc, ◌-◌, ◌/◌, ap, Bool, true, false, not, Option,
  none, some, [],
}
use cmd_chat.Profile.{Preferences, clean_nickname, display_name, group_chat_enabled}

-- The directory of the file (`Path`), encoding/json at `Profile`, and os.WriteFile: whether it
-- succeeds and what the file holds after it.
pub record Files : Type 0 where
  pub path_known : Bool
  pub unmarshal : Bytes → Option Preferences
  pub marshal : Preferences → Option Bytes
  pub write_file : Bytes → Option Bytes → Bool × Option Bytes
  pub is_graphic : ℕ → Bool

pub record Store : Type 0 where
  pub loaded : Option Preferences
  pub file : Option Bytes

-- A program that has just been started.
abbrev pub restarted : Store → Store
restarted s = record s { loaded = none }

abbrev pub no_preferences : Preferences
no_preferences = record { nickname = []; group_chat = none }

module _ (f : Files) where
  -- What `Load` makes of the file's bytes.
  unfoldable pub parsed : Bytes → Preferences
  parsed data_read = elim (f.unmarshal data_read) [
    | none ↦ no_preferences
    | some p ↦ record p { nickname = clean_nickname f.is_graphic p.nickname }
  ]

  unfoldable pub read_profile : Option Bytes → Preferences
  read_profile none = no_preferences
  read_profile (some bytes) = if f.path_known then parsed bytes else no_preferences

  unfoldable pub load : Store → Preferences × Store
  load s = elim s.loaded [
    | some p ↦ (p, s)
    | none ↦ let p = read_profile s.file in (p, record s { loaded = some p })
  ]

  unfoldable pub save : Store → Preferences → Bool × Store
  save s p = if not f.path_known then (false, s) else elim (f.marshal p) [
    | none ↦ (false, s)
    | some bytes ↦
        let (written, file) = f.write_file bytes s.file in
        if written
        then (true, record { loaded = some p; file = file })
        else (false, record s { file = file })
  ]

  unfoldable pub set_nickname : Store → Bytes → Bool × Store
  set_nickname s nickname =
      let (p, s') = load s in save s' (record p { nickname = clean_nickname f.is_graphic nickname })

  unfoldable pub set_group_chat_enabled : Store → Bool → Bool × Store
  set_group_chat_enabled s enabled =
      let (p, s') = load s in save s' (record p { group_chat = some enabled })

  unfoldable pub stored_name : Bytes → Store → Bytes × Store
  stored_name account s = let (p, s') = load s in (display_name p account, s')

  unfoldable pub stored_group : Store → Bool × Store
  stored_group s = let (p, s') = load s in (group_chat_enabled p, s')
