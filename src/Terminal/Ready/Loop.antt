-- ===== src/Terminal/Ready/Loop.antt =====
-- joinPeer and the loop of ready of cmd/cmd-chat/main.go: the prompt, the chats that it hosts and
-- those that it joins. A closed channel is picked again, so that the end of the keyboard stands in
-- the inputs once for each loop that sees it. What connect.Join, ClientConn and the first Receive
-- give is a parameter, as is whether the debug log is on.
pub mod Ending
pub mod Said
use cmd_chat.Prelude.{
  if◌then◌else◌, length, take, nat_eq, bytes_eq, Bytes, ℕ, zero, suc, ◌+◌, ◌-◌, ◌/◌, min, Bool,
  true, false, not, Option, none, some, List, [], ◌∷◌,
}
use cmd_chat.Profile.Storage.{Files}
use cmd_chat.Chat.{Packet, Peer}
use cmd_chat.Chat.Room.{Log}
use cmd_chat.Terminal.{
  Input, line_typed, input_ended, peer_picked, left_picked, room_moved, packet_picked, link_closed,
  Station, Desk, show, unreachable,
}
use cmd_chat.Terminal.Text.{trim}
use cmd_chat.Terminal.Turns.{run_turns}
use cmd_chat.Terminal.Hosting.{move_room, host_chat}
use cmd_chat.Terminal.Guest.{Link, Session, session_turn, greeted}
use cmd_chat.Terminal.Ready.{Next, stay, exit, debug_menu, join, run_command}

-- A connection that could be made, with what the host sent first, if it could be read.
pub record Reached (C : Type 0) : Type 0 where
  pub link : C
  pub host_id : Bytes
  pub safety_number : Bytes
  pub first_contact : Bool
  pub hello : Option Packet

-- The question of `debugMenu` waits for a line, and for nothing else.
unfoldable pub take_answer : List Input → Station → Station × List Input
take_answer [] s = (s, [])
take_answer (line_typed line ∷ inputs) s = (s, inputs)
take_answer (input_ended ∷ inputs) s = (s, inputs)
take_answer (peer_picked ∷ inputs) s = take_answer inputs s
take_answer (left_picked ∷ inputs) s = take_answer inputs s
take_answer (room_moved h new calls ∷ inputs) s = take_answer inputs (move_room h new calls s)
take_answer (packet_picked p ∷ inputs) s = take_answer inputs s
take_answer (link_closed pending ∷ inputs) s = take_answer inputs s

abbrev pub Run : Type 0
Run = Option (Bool × Station × List Input)

module _ (f : Files) (account : Bytes) (lower : ℕ → ℕ) (taken : Log → ℕ → Packet → Bool)
    (debug_enabled : Bool) {C : Type 0} (l : Link C) (connect : Bytes → Option (Reached C)) where
  -- While a joined chat goes on, the own room may move.
  unfoldable pub joined_turn : Input → Session C × Station → Bool × (Session C × Station)
  joined_turn (room_moved h new calls) (k, s) = (false, (k, move_room h new calls s))
  joined_turn i (k, s) =
      let (returned, k') = session_turn f account lower l i k in (returned, (k', s))

  unfoldable pub chat_session :
      Option (Session C) × Desk → List Input → Station → Station × List Input
  chat_session (none, d) inputs s = (record s { desk = d }, inputs)
  chat_session (some k, d) inputs s =
      let (returned, joined, rest) = run_turns joined_turn inputs (k, s) in
      (record joined.1 { desk = joined.0.desk }, rest)

  -- What `connect.Join` and the greeting give.
  unfoldable pub begun : Bytes → Option (Reached C) → Desk → Option (Session C) × Desk
  begun id none d = (none, show unreachable d)
  begun id (some r) d =
      greeted f account lower l r.link id r.host_id r.safety_number r.first_contact r.hello d

  unfoldable pub join_peer : Bytes → List Input → Station → Station × List Input
  join_peer target inputs s = chat_session (begun s.id (connect target) s.desk) inputs s

  -- What follows a line; `continue` is the next turn.
  unfoldable pub after_line : (List Input → Station → Run) → List Input → Next → Run
  after_line continue inputs (stay s) = continue inputs s
  after_line continue inputs (exit s) = some (true, s, inputs)
  after_line continue inputs (debug_menu s) =
      let (s', rest) = take_answer inputs s in
      let unasked = continue inputs s in
      let answered = continue rest s' in if debug_enabled then unasked else answered
  after_line continue inputs (join target s) =
      let (s', rest) = join_peer target inputs s in continue rest s'

  unfoldable pub begin_chat : (List Input → Station → Run) → List Input → List Peer → Station → Run
  begin_chat continue inputs [] s = continue inputs s
  begin_chat continue inputs (p ∷ peers) s =
      let (returned, s', rest) =
        host_chat f account lower taken p inputs (record s { peers = peers }) in
      continue rest s'

  unfoldable pub ready_turn : (List Input → Station → Run) → Input → List Input → Station → Run
  ready_turn continue (line_typed line) inputs s =
      after_line continue inputs (run_command f account lower taken (trim line) s)
  ready_turn continue input_ended inputs s = some (true, s, inputs)
  ready_turn continue peer_picked inputs s = begin_chat continue inputs s.peers s
  ready_turn continue left_picked inputs s = continue inputs s
  ready_turn continue (room_moved h new calls) inputs s = continue inputs (move_room h new calls s)
  ready_turn continue (packet_picked p) inputs s = continue inputs s
  ready_turn continue (link_closed pending) inputs s = continue inputs s

  -- Whether it has returned, the station, and the inputs that were not taken; `none` when the fuel
  -- has run out.
  unfoldable pub ready_loop : ℕ → List Input → Station → Run
  ready_loop zero inputs s = none
  ready_loop (suc fuel) [] s = some (false, s, [])
  ready_loop (suc fuel) (i ∷ inputs) s = ready_turn (ready_loop fuel) i inputs s

  -- Each turn takes an input or more.
  abbrev pub ready : List Input → Station → Run
  ready inputs s = ready_loop (length inputs + 1) inputs s
