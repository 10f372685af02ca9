-- ===== src/Terminal/Tests.antt =====
-- The terminal at concrete inputs.
mod Hosting
mod Guest
mod Ready
mod Stored
use cmd_chat.Prelude.{
  leb, ◌==◌, if◌then◌else◌, nat_eq, bytes_eq, Bytes, codes, ℕ, ◌+◌, ◌-◌, ◌/◌, min, ◌≡◌, refl, ap,
  Bool, true, false, ◌&&◌, Option, none, some, [], ◌∷◌,
}
use cmd_chat.Chat.{Packet, Peer}
use cmd_chat.Chat.Room.{Host, Log}
use cmd_chat.Profile.{Preferences}
use cmd_chat.Profile.Storage.{Files, Store}
use cmd_chat.Terminal.{Desk, Station}
use cmd_chat.Terminal.Text.{
  trim, trim_front, trim_back, all_space, split_at_space, trim_rest, to_lower, lower_rune,
  split_command, command_of, who,
}
use cmd_chat.Profile.Runes.{first_rune, is_space, rune_bytes}

-- A stand-in for JSON: the choice on group chat in front of the nickname.
abbrev pub group_byte : Option Bool → ℕ
group_byte none = 0
group_byte (some false) = 1
group_byte (some true) = 2

abbrev pub group_of : ℕ → Option Bool
group_of n = if n == 0 then none else some (n == 2)

abbrev pub marshal : Preferences → Option Bytes
marshal p = some (group_byte p.group_chat ∷ p.nickname)

abbrev pub unmarshal : Bytes → Option Preferences
unmarshal [] = none
unmarshal (n ∷ s) = some (record { nickname = s; group_chat = group_of n })

abbrev pub files : Files
files = record {
  path_known = true;
  unmarshal = unmarshal;
  marshal = marshal;
  write_file = λ bytes old. (true, some bytes);
  is_graphic = λ r. leb 32 r && leb r 126;
}

abbrev pub new_store : Store
new_store = record { loaded = none; file = none }

abbrev pub account : Bytes
account = codes "alice"

abbrev pub lower : ℕ → ℕ
lower r = r

abbrev pub reliable : Log → ℕ → Packet → Bool
reliable log k p = true

abbrev pub bob : Peer
bob = record {
  id = codes "cc-B";
  name = codes "bob";
  first_contact = true;
  safety_number = codes "12345";
}

abbrev pub desk : Desk
desk = record { store = new_store; screen = [] }

-- A host with bob on the connection 1.
abbrev pub host : Host
host = record {
  id = codes "cc-H";
  name = codes "alice";
  group = true;
  clients = (1, tt) ∷ [];
  members = (1, record { id = codes "cc-B"; name = codes "bob"; host = false }) ∷ [];
}

abbrev pub station : Station
station = record { id = codes "cc-H"; host = host; log = []; desk = desk; peers = []; left = [] }

-- A line in capitals with space around it, among it the bytes of U+00A0.
who_is_there :
    command_of (split_command lower (trim (194 ∷ 160 ∷ codes " /WHO  now "))).0 ≡ some who
unfolding command_of split_command split_at_space trim_rest trim trim_front trim_back all_space
    to_lower lower_rune first_rune is_space rune_bytes
who_is_there = refl
