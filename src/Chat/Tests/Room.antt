-- ===== src/Chat/Tests/Room.antt =====
-- A room at concrete inputs.
use cmd_chat.Prelude.{
  leb, nat_eq, bytes_eq, Bytes, codes, ℕ, ◌≡◌, refl, Bool, true, false, ◌&&◌, some, [], ◌∷◌, arith,
}
use cmd_chat.Prelude.Map.{lookup, insert, delete, IsMap}
use cmd_chat.E2ee.Identity.{after}
use cmd_chat.Chat.{Packet, Peer, packet, too_long}
use cmd_chat.Chat.Room.{
  sent, announced, Log, Host, new_host, keys, was_closed, others, send_to, send_or_close, send_all,
  broadcast, send_roster, members_of, place, sort_members, admits, enter, leave, greet,
}
use cmd_chat.Chat.Room.Attribution.{Adds, IsAttributed, receive_packet-Attributed}
use cmd_chat.Chat.Room.Steps.{
  Guest, System, Reach, here, next, arrive, receive_packet, arrives, first_member,
}
use cmd_chat.Chat.Room.Invariant.{IsValid, Reach-IsValid}
use cmd_chat.Chat.Room.Acts.{view}
use cmd_chat.Chat.Room.View.{played, Reach-Refined}
use cmd_chat.Chat.Room.Private.{Private, begins, goes_on, HasAtMostOne, Private-HasAtMostOne}
use cmd_chat.Chat.Tests.{says}

abbrev graphic : ℕ → Bool
graphic r = leb 32 r && leb r 126

-- A network that takes everything.
abbrev reliable : Log → ℕ → Packet → Bool
reliable log k p = true

abbrev peer : Bytes → Peer
peer id = record { id = id; name = []; first_contact = true; safety_number = [] }

abbrev empty_room : System
empty_room = record {
  host = record { id = codes "cc-H"; name = []; group = true; clients = []; members = [] };
  guests = [];
  log = [];
}

empty-IsValid : IsValid empty_room
unfolding lookup
empty-IsValid = record { members = λ k. refl; clients = λ k. refl; proven = λ k g h. absurd (cc h) }

-- The host made by NewHost is the empty room's.
made : new_host (codes "cc-H") [] ≡ empty_room.host
unfolding new_host
made = refl

abbrev guest : Bytes → Guest
guest id = record { peer = peer id; member = record { id = id; name = []; host = false } }

-- B and then A come in, on the connections 1 and 2.
abbrev one : System
one = arrive graphic reliable empty_room 1 (peer (codes "cc-B"))

abbrev two : System
two = arrive graphic reliable one 2 (peer (codes "cc-A"))

to_two : Reach graphic reliable empty_room two
unfolding arrive admits enter leave greet first_member insert delete send_to too_long was_closed
    send_roster broadcast send_all others send_or_close lookup
to_two =
    next (next here (arrives empty_room 1 (peer (codes "cc-B")) refl))
      (arrives one 2 (peer (codes "cc-A")) refl)

arrival : keys two.host.clients ≡ 1 ∷ 2 ∷ []
unfolding arrive admits enter leave greet first_member insert delete send_to too_long was_closed
    send_roster broadcast send_all others send_or_close
arrival = refl

joined :
    one.log
    ≡ sent 1 (record (packet (codes "hello")) { from = codes "cc-H"; group = true })
      ∷ announced (peer (codes "cc-B")) false
      ∷ sent 1 (record (packet (codes "roster")) { members = some (members_of one.host) })
      ∷ []
unfolding arrive admits enter leave greet first_member insert delete send_to too_long was_closed
    send_roster broadcast send_all others send_or_close
joined = refl

sorted :
    members_of two.host
    ≡ record { id = codes "cc-H"; name = []; host = true }
      ∷ record { id = codes "cc-A"; name = []; host = false }
      ∷ record { id = codes "cc-B"; name = []; host = false }
      ∷ []
unfolding arrive admits enter leave greet first_member insert delete send_to too_long was_closed
    send_roster broadcast send_all others send_or_close members_of sort_members place after
sorted = refl

-- A forged sender in the packet of B.
abbrev forged : Packet
forged = record (says (codes "hi")) { from = codes "cc-H" }

abbrev pair : Host
pair = record {
  id = codes "cc-H";
  name = [];
  group = true;
  clients = (1, tt) ∷ (2, tt) ∷ [];
  members = (1, (guest (codes "cc-B")).member) ∷ (2, (guest (codes "cc-A")).member) ∷ [];
}

Reach-IsValid_example : IsValid two
Reach-IsValid_example = Reach-IsValid graphic reliable empty-IsValid to_two

two-IsValid : IsValid two
two-IsValid = Reach-IsValid graphic reliable empty-IsValid to_two

receive_packet-Attributed_example :
    Adds
      (IsAttributed 1 (codes "cc-B") (codes "hi"))
      two.log
      (receive_packet graphic reliable two 1 (guest (codes "cc-B")) forged).log
unfolding arrive admits enter leave greet first_member insert delete send_to too_long was_closed
    send_roster broadcast send_all others send_or_close lookup
receive_packet-Attributed_example =
    receive_packet-Attributed graphic reliable two 1 (guest (codes "cc-B")) forged two-IsValid refl

Reach-Refined_example :
    (view two.host ≡ played graphic reliable to_two (view empty_room.host)) × IsMap two.host.members
Reach-Refined_example = Reach-Refined graphic reliable to_two empty-IsValid tt

-- With group chat off the second is turned away.
abbrev private_room : System
private_room = record empty_room {
  host = record { id = codes "cc-H"; name = []; group = false; clients = []; members = [] };
}

private-IsValid : IsValid private_room
unfolding lookup
private-IsValid = record {
  members = λ k. refl;
  clients = λ k. refl;
  proven = λ k g h. absurd (cc h);
}

abbrev occupied : System
occupied = arrive graphic reliable private_room 1 (peer (codes "cc-B"))

abbrev refused : System
refused = arrive graphic reliable occupied 2 (peer (codes "cc-A"))

to_refused : Private graphic reliable private_room refused
unfolding arrive admits enter leave greet first_member insert delete send_to too_long was_closed
    send_roster broadcast send_all others send_or_close lookup
to_refused =
    goes_on (goes_on begins refl (arrives private_room 1 (peer (codes "cc-B")) refl)) refl
      (arrives occupied 2 (peer (codes "cc-A")) refl)

Private-HasAtMostOne_example : HasAtMostOne refused
Private-HasAtMostOne_example =
    Private-HasAtMostOne graphic reliable to_refused private-IsValid tt (omega arith)

not_in : keys refused.host.clients ≡ 1 ∷ []
unfolding arrive admits enter leave greet first_member insert delete send_to too_long was_closed
    send_roster broadcast send_all others send_or_close
not_in = refl
