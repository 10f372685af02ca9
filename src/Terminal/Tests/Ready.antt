-- ===== src/Terminal/Tests/Ready.antt =====
-- Lines at the prompt.
use cmd_chat.Prelude.{
  nat_eq, bytes_eq, Bytes, codes, ◌≡◌, refl, Bool, true, false, Option, some, List, [], ◌∷◌,
}
use cmd_chat.Phonebook.{valid_id, all_base32, is_base32}
use cmd_chat.Profile.Runes.{first_rune, rune_bytes}
use cmd_chat.Terminal.Text.{to_lower, lower_rune}
use cmd_chat.Chat.{Packet, packet}
use cmd_chat.Chat.Room.Attribution.{Adds}
use cmd_chat.Terminal.{Station, Input, line_typed, input_ended, peer_picked, room_moved}
use cmd_chat.Terminal.Hosting.Said.{IsTyped}
use cmd_chat.Terminal.Ready.Loop.{Reached, ready}
use cmd_chat.Terminal.Ready.Loop.Said.{ready-IsTyped}
use cmd_chat.Terminal.Tests.Guest.{recorder}
use cmd_chat.Terminal.Ready.{join, run_command}
use cmd_chat.Terminal.Ready.Joining.{joins_iff}
use cmd_chat.Terminal.Tests.{files, account, lower, reliable, bob, host, station}

abbrev friend : Bytes
friend = codes "cc-ABCDEFGH234567AB"

joins_iff_example : run_command files account lower reliable friend station ≡ join friend station
unfolding valid_id all_base32 is_base32 to_lower lower_rune first_rune rune_bytes
joins_iff_example =
    (joins_iff files account lower reliable friend friend station station).1
      (refl, refl, refl, refl)

-- A friend is joined, answers with a hello, is talked to and left; then a guest comes and goes.
abbrev connect : Bytes → Option (Reached (List Packet))
connect target = some (record {
  link = [];
  host_id = target;
  safety_number = codes "12345";
  first_contact = true;
  hello = some (record (packet (codes "hello")) { from = target });
})

abbrev day : List Input
day =
    line_typed friend
    ∷ line_typed (codes "hello")
    ∷ line_typed (codes "/quit")
    ∷ room_moved host [] ((bob, false) ∷ [])
    ∷ peer_picked
    ∷ line_typed (codes "hi bob")
    ∷ input_ended
    ∷ input_ended
    ∷ []

ready-IsTyped_example :
    (r : Bool × Station × List Input) × (ready files account lower reliable false recorder connect
        day station
      ≡ some r)
    × Adds (IsTyped lower (codes "cc-H") day) [] r.1.log
ready-IsTyped_example =
    ready-IsTyped files account lower reliable false recorder connect day station
