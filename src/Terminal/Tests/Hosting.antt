-- ===== src/Terminal/Tests/Hosting.antt =====
-- A hosted chat at concrete inputs.
use cmd_chat.Prelude.{
  All, nat_eq, bytes_eq, Bytes, codes, ◌≡◌, refl, inl, inr, true, false, List, [], ◌∷◌, ◌++◌,
}
use cmd_chat.Chat.Room.{keys, was_closed}
use cmd_chat.Profile.Runes.{first_rune, is_space, rune_bytes}
use cmd_chat.Terminal.{Station, on_peer, own_name}
use cmd_chat.Terminal.Text.{
  trim, trim_front, trim_back, all_space, split_at_space, trim_rest, to_lower, lower_rune,
  split_command, command_of,
}
use cmd_chat.Terminal.Hosting.{host_turn, host_loop, host_chat}
use cmd_chat.Terminal.{Input, line_typed, input_ended}
use cmd_chat.Terminal.Hosting.Said.{IsSaid}
use cmd_chat.Terminal.Hosting.Stale.{typed, stale_chat}
use cmd_chat.Terminal.Hosting.Heard.{messages, echoes, all_heard}
use cmd_chat.Terminal.Hosting.Quitting.{StoppedBy, host_loop_returns}
use cmd_chat.Terminal.Hosting.Leaving.{IsClosing, quits}
use cmd_chat.Terminal.Text.Words.{BeginsWith}
use cmd_chat.Chat.Room.Attribution.{Adds}
use cmd_chat.Terminal.Tests.{files, account, lower, reliable, bob, host, station}

abbrev greetings : List Bytes
greetings = codes "hi" ∷ codes " how are you " ∷ []

greetings-IsSaid : All (IsSaid lower) greetings
unfolding command_of split_command split_at_space trim_rest trim trim_front trim_back all_space
    to_lower lower_rune first_rune is_space rune_bytes
greetings-IsSaid = ((refl, refl), ((refl, refl), tt))

abbrev evening : List Input
evening = line_typed (codes "hi") ∷ line_typed (codes "/who") ∷ line_typed (codes "/quit") ∷ []

all_heard_example :
    let r = host_loop files account lower reliable bob (typed greetings) station in
    (r.0 ≡ false)
    × (r.1.log ≡ messages (codes "cc-H") (own_name files account station.desk).0 greetings (1 ∷ []))
    × (r.1.desk.screen ≡ echoes (own_name files account station.desk).0 greetings)
unfolding was_closed
all_heard_example =
    all_heard files account lower reliable (λ log k p. refl) bob greetings station greetings-IsSaid
      (refl, tt)

abbrev alone : Station
alone = record station { host = record host { clients = []; members = [] } }

stale_chat_example :
    let s = on_peer bob true (on_peer bob false alone) in
    let r = host_chat files account lower reliable bob (typed greetings) s in
    (r.0 ≡ false) × (r.1.log ≡ []) × (r.1.left ≡ [])
stale_chat_example =
    stale_chat files account lower reliable bob greetings alone refl greetings-IsSaid

host_loop_returns_example :
    let r = host_loop files account lower reliable bob evening station in
    (r.0 ≡ true → StoppedBy files account lower reliable bob evening station)
    × ((b : StoppedBy files account lower reliable bob evening station)
        → r ≡ (true, (host_turn files account lower reliable bob b.last b.at).1, b.rest))
host_loop_returns_example = host_loop_returns files account lower reliable bob evening station

quit_typed : BeginsWith (codes "/quit") (codes "  /Quit please")
quit_typed = record {
  blanks = 2;
  spelling = codes "/Quit";
  rest = codes " please";
  is = refl;
  spells = refl;
  apart = inr (codes "please", refl);
}

still_open : (host_loop files account lower reliable bob (typed greetings) station).0 ≡ false
unfolding was_closed
still_open =
    (all_heard files account lower reliable (λ log k p. refl) bob greetings station greetings-IsSaid
      (refl, tt)).0

quits_example :
    let at = (host_loop files account lower reliable bob (typed greetings) station).1 in
    let r =
      host_loop files account lower reliable bob
        (typed greetings ++ (line_typed (codes "  /Quit please") ∷ (input_ended ∷ [])))
        station in
    (r.0 ≡ true)
    × (r.2 ≡ input_ended ∷ [])
    × (r.1.peers ≡ [])
    × (r.1.left ≡ [])
    × All (λ k. was_closed k r.1.log ≡ true) (keys at.host.clients)
    × Adds IsClosing at.log r.1.log
quits_example =
    quits files account lower reliable bob (typed greetings) (input_ended ∷ [])
      (codes "  /Quit please") station still_open (inl quit_typed)
