-- ===== src/Terminal/Guest.antt =====
-- chatSession of cmd/cmd-chat/main.go, from the connection that ClientConn gives. What it asks of the
-- connection is an interface; Guest/Wired.antt has the connection of internal/chat. The closing of
-- the connection behind the session is left out.
pub mod Talking
pub mod Rosters
pub mod Wired
use cmd_chat.Prelude.{
  ◌==◌, if◌then◌else◌, length, take, eq, bytes_beq, nat_eq, bytes_eq, Bytes, codes, ok, err, ℕ, suc,
  ◌-◌, ◌/◌, ◌<◌, min, Bool, true, false, not, ◌||◌, Option, none, some, List, [], ◌∷◌,
}
use cmd_chat.Profile.Storage.{Files}
use cmd_chat.Chat.{Member, Packet, short_id}
use cmd_chat.Terminal.{
  Input, line_typed, input_ended, peer_picked, left_picked, room_moved, packet_picked, link_closed,
  Shown, number_shown, room_shown, invite_shown, spoken, notice, error_shown, only_the_host,
  left_chat, chat_closed, not_joined, not_greeted, send_failed, refused, authenticated, Desk, show,
  announce_verification, own_message, own_name, set_own_nickname,
}
use cmd_chat.Terminal.Turns.{run_turns}
use cmd_chat.Terminal.Text.{
  trim, split_command, command_of, Command, quit, who, verify, invite, nick, group,
}

-- `Send`, with whether it succeeds, and `Rename`, whose failure is only logged.
pub record Link (C : Type 0) : Type 0 where
  pub send : C → Packet → Bool × C
  pub rename : C → Bytes → C

-- The variables of chatSession that its loop reads.
pub record Session (C : Type 0) : Type 0 where
  pub link : C
  pub id : Bytes
  pub room_id : Bytes
  pub host_label : Bytes
  pub safety_number : Bytes
  pub members : List Member
  pub desk : Desk

-- What `renderPacket` prints, if it is of a kind that is shown.
unfoldable pub rendering : Packet → Option Shown
rendering p =
    if bytes_beq p.kind (codes "msg")
    then some (spoken (if length p.name == 0 then short_id p.from else p.name) p.text)
    else if bytes_beq p.kind (codes "system")
    then some (notice p.text)
    else if bytes_beq p.kind (codes "error")
    then some (error_shown p.text)
    else none

unfoldable pub show_some : Option Shown → Desk → Desk
show_some none d = d
show_some (some x) d = show x d

-- The caller passes over nil, and takes over any other list, an empty one too.
unfoldable pub not_nil : Option (List Member) → List Member → List Member
not_nil none members = members
not_nil (some ms) members = ms

unfoldable pub roster_of : Packet → List Member → List Member
roster_of p members =
    if bytes_beq p.kind (codes "roster") then not_nil p.members members else members

unfoldable pub render_packet : Packet → Desk → Desk
render_packet p d = show_some (rendering p) d

unfoldable pub show_pending : List Packet → Desk → Desk
show_pending [] d = d
show_pending (p ∷ ps) d = show_pending ps (render_packet p d)

-- The kinds that the reader goroutine hands on.
unfoldable pub is_handed_on : Packet → Bool
is_handed_on p =
    bytes_beq p.kind (codes "msg")
    || bytes_beq p.kind (codes "roster")
    || bytes_beq p.kind (codes "system")
    || bytes_beq p.kind (codes "error")

abbrev keep : Bool → Packet → List Packet → List Packet
keep true p ps = p ∷ ps
keep false p ps = ps

unfoldable pub handed_on : List Packet → List Packet
handed_on [] = []
handed_on (p ∷ ps) = keep (is_handed_on p) p (handed_on ps)

abbrev pub display_in : {C : Type 0} → Session C → Shown → Session C
display_in s x = record s { desk = show x s.desk }

module _ (f : Files) (account : Bytes) (lower : ℕ → ℕ) {C : Type 0} (l : Link C) where
  unfoldable pub rename_on : Option Bytes × Desk → Session C → Session C
  rename_on (none, desk) s = record s { desk = desk }
  rename_on (some name, desk) s = record s { link = l.rename s.link name; desk = desk }

  unfoldable pub obey : Command → Bytes → Session C → Bool × Session C
  obey quit argument s = (true, display_in s left_chat)
  obey who argument s = (false, display_in s (room_shown s.members s.room_id))
  obey verify argument s = (false, display_in s (number_shown s.host_label s.safety_number))
  obey invite argument s = (false, display_in s (invite_shown s.room_id s.id false))
  obey nick argument s = (false, rename_on (set_own_nickname f account argument s.desk) s)
  obey group argument s = (false, display_in s only_the_host)

  -- The message that a line becomes; a failure ends the session.
  unfoldable pub send_line : Bytes → Session C → Bool × Session C
  send_line text s =
      let (name, desk) = own_name f account s.desk in
      let (sent, link) = l.send s.link (own_message s.id name text) in
      if sent
      then (false, record s { link = link; desk = desk })
      else (true, record s { link = link; desk = show send_failed desk })

  unfoldable pub heed : Option Command → Bytes → Bytes → Session C → Bool × Session C
  heed (some c) argument text s = obey c argument s
  heed none argument text s = if length text == 0 then (false, s) else send_line text s

  unfoldable pub take_line : Bytes → Session C → Bool × Session C
  take_line text s =
      let (word, argument) = split_command lower text in heed (command_of word) argument text s

  -- `case p := <-incoming`
  unfoldable pub take_packet : Packet → Session C → Session C
  take_packet p s = record s { members = roster_of p s.members; desk = render_packet p s.desk }

  unfoldable pub session_turn : Input → Session C → Bool × Session C
  session_turn (packet_picked p) s = (false, if is_handed_on p then take_packet p s else s)
  session_turn (line_typed line) s = take_line (trim line) s
  session_turn input_ended s = (true, s)
  session_turn peer_picked s = (false, s)
  session_turn left_picked s = (false, s)
  session_turn (room_moved h new calls) s = (false, s)
  session_turn (link_closed pending) s =
      (true, record s { desk = show chat_closed (show_pending (handed_on pending) s.desk) })

  unfoldable pub session_loop : List Input → Session C → Bool × Session C × List Input
  session_loop = run_turns session_turn

  -- What the host's greeting makes of the session; `none` where it returns instead.
  unfoldable pub greeted :
      C → Bytes → Bytes → Bytes → Bool → Option Packet → Desk → Option (Session C) × Desk
  greeted link id expected number first none d = (none, show not_joined d)
  greeted link id expected number first (some hello) d =
      let label = if length hello.name == 0 then short_id hello.from else hello.name in
      let reason =
        if length (trim hello.text) == 0
        then codes "the host refused the connection"
        else trim hello.text in
      let d' = announce_verification label number first (show (authenticated label hello.from) d) in
      if bytes_beq hello.kind (codes "error")
      then (none, show (refused reason) d)
      else if not (bytes_beq hello.kind (codes "hello"))
      then (none, show not_greeted d)
      else (
        some (record {
          link = link;
          id = id;
          room_id = if length hello.from == 0 then expected else hello.from;
          host_label = label;
          safety_number = number;
          members = [];
          desk = d';
        }),
        d',
      )
