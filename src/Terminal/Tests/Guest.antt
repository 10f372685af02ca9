-- ===== src/Terminal/Tests/Guest.antt =====
-- A guest's session at concrete inputs.
use cmd_chat.Prelude.{
  nat_eq, bytes_eq, codes, ◌≡◌, refl, inl, true, false, some, List, [], ◌∷◌, ◌++◌,
}
use cmd_chat.Chat.{Member, Packet, packet}
use cmd_chat.Profile.Runes.{first_rune, is_space, rune_bytes}
use cmd_chat.Terminal.{room_shown}
use cmd_chat.Terminal.Text.{
  trim, trim_front, trim_back, all_space, split_at_space, trim_rest, to_lower, lower_rune,
  split_command, command_of, who,
}
use cmd_chat.Terminal.Turns.{run_turns}
use cmd_chat.Terminal.{Input, line_typed, packet_picked}
use cmd_chat.Terminal.Guest.{Link, Session, session_loop, session_turn}
use cmd_chat.Terminal.Guest.Talking.{Talks, word_of, session_loop-Talks}
use cmd_chat.Terminal.Guest.Rosters.{who_shows}
use cmd_chat.Terminal.Tests.{files, account, lower, desk}

-- A connection that remembers what was sent on it.
abbrev pub recorder : Link (List Packet)
recorder = record {
  send = λ sent_so_far p. (true, sent_so_far ++ (p ∷ []));
  rename = λ sent_so_far name. sent_so_far ++ (record (packet (codes "nick")) { name = name } ∷ []);
}

abbrev pub session : Session (List Packet)
session = record {
  link = [];
  id = codes "cc-B";
  room_id = codes "cc-H";
  host_label = codes "alice";
  safety_number = codes "12345";
  members = [];
  desk = desk;
}

abbrev talk : List Input
talk =
    line_typed (codes "hello")
    ∷ line_typed (codes "/nick bo")
    ∷ line_typed (codes "/group on")
    ∷ line_typed (codes "/quit")
    ∷ []

session_loop-Talks_example :
    Talks lower recorder
      (codes "cc-B")
      talk
      []
      (session_loop files account lower recorder talk session).1.link
session_loop-Talks_example = session_loop-Talks files account lower recorder talk session

abbrev alice : Member
alice = record { id = codes "cc-H"; name = codes "alice"; host = true }

abbrev roster : Packet
roster = record (packet (codes "roster")) { members = some (alice ∷ []) }

who_typed : word_of lower (codes "/who") ≡ some who
unfolding command_of split_command split_at_space trim_rest trim trim_front trim_back all_space
    to_lower lower_rune first_rune is_space rune_bytes
who_typed = refl

abbrev news : List Input
news = packet_picked (packet (codes "system")) ∷ []

went_on :
    (session_loop files account lower recorder (packet_picked roster ∷ news) session).0 ≡ false
unfolding session_loop run_turns session_turn
went_on = refl

who_shows_example :
    (session_loop files account lower recorder
      ((packet_picked roster ∷ news) ++ (line_typed (codes "/who") ∷ []))
      session).1.desk.screen
    ≡ (session_loop files account lower recorder
        (packet_picked roster ∷ news)
        session).1.desk.screen
      ++ (room_shown (alice ∷ []) (codes "cc-H") ∷ [])
who_shows_example =
    who_shows files account lower recorder [] news roster (alice ∷ []) (codes "/who") session
      (refl, refl) (inl refl, tt) who_typed went_on
