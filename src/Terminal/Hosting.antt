-- ===== src/Terminal/Hosting.antt =====
-- hostChat and the loop of host of cmd/cmd-chat/main.go. A turn of the loop is told what its select
-- picks; between two turns the room may move, as its own goroutines make it.
pub mod Said
pub mod Stale
pub mod Heard
pub mod Quitting
pub mod Leaving
use cmd_chat.Prelude.{
  leb, ◌==◌, if◌then◌else◌, length, take, nat_eq, bytes_eq, Bytes, ok, ℕ, ◌+◌, ◌-◌, ◌/◌, ◌<◌, min,
  ap, Bool, true, false, not, Option, none, some, List, [], ◌∷◌, ◌++◌,
}
use cmd_chat.Profile.Storage.{Files}
use cmd_chat.Chat.{Packet, Peer}
use cmd_chat.Chat.Room.{Host, Log, say, set_name, members_of, disconnect, count_of}
use cmd_chat.Terminal.{
  Input, line_typed, input_ended, peer_picked, left_picked, room_moved, packet_picked, link_closed,
  Shown, number_shown, room_shown, invite_shown, spoken, connected, joined, gone, emptied,
  left_chat, Desk, Station, show, display_on, peer_label, announce_verification, on_peer,
  own_message, own_name, set_own_nickname, set_group_chat,
}
use cmd_chat.Terminal.Turns.{run_turns}
use cmd_chat.Terminal.Text.{
  trim, split_command, command_of, Command, quit, who, verify, invite, nick, group,
}

unfoldable pub on_peers : List (Peer × Bool) → Station → Station
on_peers [] s = s
on_peers ((p, left) ∷ calls) s = on_peers calls (on_peer p left s)

unfoldable pub move_room : Host → Log → List (Peer × Bool) → Station → Station
move_room h new calls s = on_peers calls (record s { host = h; log = s.log ++ new })

module _ (f : Files) (account : Bytes) (lower : ℕ → ℕ) (taken : Log → ℕ → Packet → Bool) where
  -- `st.host.Broadcast` of a message of the user, and its echo.
  unfoldable pub say_line : Bytes → Station → Station
  say_line text s =
      let (name, desk) = own_name f account s.desk in
      record s {
        log = say taken s.host (own_message s.id name text) s.log;
        desk = show (spoken name text) desk;
      }

  unfoldable pub notify_host : Option Bytes × Desk → Station → Station
  notify_host (none, desk) s = record s { desk = desk }
  notify_host (some name, desk) s =
      let (host, log) = set_name taken f.is_graphic s.host name s.log in
      record s { host = host; log = log; desk = desk }

  -- The case `/quit`.
  unfoldable pub quit_chat : Station → Station
  quit_chat s = record s {
    log = disconnect s.host s.log;
    left = [];
    peers = [];
    desk = show left_chat s.desk;
  }

  unfoldable pub obey : Peer → Command → Bytes → Station → Bool × Station
  obey first quit argument s = (true, quit_chat s)
  obey first who argument s = (false, display_on s (room_shown (members_of s.host) s.id))
  obey first verify argument s =
      (false, display_on s (number_shown (peer_label first) first.safety_number))
  obey first invite argument s = (false, display_on s (invite_shown s.id s.id true))
  obey first nick argument s = (false, notify_host (set_own_nickname f account argument s.desk) s)
  obey first group argument s = (false, set_group_chat f account lower argument s)

  -- The switch, and what comes after it: the text is for the chat.
  unfoldable pub heed : Peer → Option Command → Bytes → Bytes → Station → Bool × Station
  heed first (some c) argument text s = obey first c argument s
  heed first none argument text s = (false, if length text == 0 then s else say_line text s)

  -- A line, trimmed; whether the loop returns.
  unfoldable pub take_line : Peer → Bytes → Station → Bool × Station
  take_line first text s =
      let (word, argument) = split_command lower text in
      heed first (command_of word) argument text s

  -- `case p := <-st.peers`; nothing is picked from an empty channel.
  unfoldable pub take_peer : List Peer → Station → Bool × Station
  take_peer [] s = (false, s)
  take_peer (p ∷ peers) s =
      let told = show (joined (peer_label p) (count_of s.host)) s.desk in
      (
        false,
        record s {
          peers = peers;
          desk = announce_verification (peer_label p) p.safety_number p.first_contact told;
        },
      )

  unfoldable pub take_left : List Peer → Station → Bool × Station
  take_left [] s = (false, s)
  take_left (p ∷ left) s =
      let s' : Station = record s { left = left } in
      if leb (count_of s.host) 1
      then (true, display_on s' (emptied (peer_label p)))
      else (false, display_on s' (gone (peer_label p) (count_of s.host)))

  unfoldable pub host_turn : Peer → Input → Station → Bool × Station
  host_turn first (line_typed line) s = take_line first (trim line) s
  host_turn first input_ended s = (true, s)
  host_turn first peer_picked s = take_peer s.peers s
  host_turn first left_picked s = take_left s.left s
  host_turn first (room_moved h new calls) s = (false, move_room h new calls s)
  host_turn first (packet_picked p) s = (false, s)
  host_turn first (link_closed pending) s = (false, s)

  -- Whether it has returned, the station, and the inputs that it has not taken.
  unfoldable pub host_loop : Peer → List Input → Station → Bool × Station × List Input
  host_loop first = run_turns (host_turn first)

  unfoldable pub host_chat : Peer → List Input → Station → Bool × Station × List Input
  host_chat first inputs s =
      let told = show (connected (peer_label first)) s.desk in
      let desk =
        announce_verification (peer_label first) first.safety_number first.first_contact told in
      host_loop first inputs (record s { left = []; desk = desk })
