-- ===== src/Terminal/Tests/Stored.antt =====
-- A nickname that is stored.
use cmd_chat.Prelude.{
  nat_eq, bytes_eq, Bytes, codes, ◌≡◌, refl, ap, ◌∙◌, Bool, true, false, Option, none, some, ◌∷◌,
}
use cmd_chat.Profile.{Preferences, clean_nickname}
use cmd_chat.Profile.Storage.{restarted, load, set_nickname}
use cmd_chat.Profile.Storage.Kept.{FileLaws, set_nickname_kept}
use cmd_chat.Terminal.Tests.{files, new_store, marshal, unmarshal, group_byte, group_of}

-- The stand-in reads what it writes.
chosen_again : (c : Option Bool) → group_of (group_byte c) ≡ c
chosen_again none = refl
chosen_again (some true) = refl
chosen_again (some false) = refl

written_bytes :
    (p : Preferences) (bytes : Bytes)
    → marshal p ≡ some bytes
    → bytes ≡ group_byte p.group_chat ∷ p.nickname
written_bytes p bytes e = cc e

file_laws : FileLaws files
file_laws = record {
  round_trip = λ p bytes utf8 e.
      ap unmarshal (written_bytes p bytes e)
      ∙ ap (λ c. some (record p { group_chat = c })) (chosen_again p.group_chat);
  written = λ bytes old e. refl;
}

set_nickname_kept_example :
    let s' = (set_nickname files new_store (codes "  bob ")).1 in
    let p : Preferences = record (load files new_store).0 {
      nickname = clean_nickname files.is_graphic (codes "  bob ");
    } in
    ((set_nickname files new_store (codes "  bob ")).0 ≡ true
      → ((load files s').0 ≡ p) × ((load files (restarted s')).0 ≡ p))
    × ((set_nickname files new_store (codes "  bob ")).0 ≡ false
        → (load files s').0 ≡ (load files new_store).0)
set_nickname_kept_example = set_nickname_kept files file_laws new_store (codes "  bob ")
