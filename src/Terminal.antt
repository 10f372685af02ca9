-- ===== src/Terminal.antt =====
-- The state of cmd/cmd-chat/main.go: the station with its host, what it has stored and what it has
-- shown. A constructor of Shown stands for a call of fmt or a run of them, with what they are given.
pub mod Text
pub mod Turns
pub mod Hosting
pub mod Ready
pub mod Guest
mod Tests
use cmd_chat.Prelude.{
  ltb, ◌==◌, if◌then◌else◌, length, nat_eq, bytes_eq, Bytes, codes, ok, err, ℕ, ◌+◌, ◌-◌, ◌/◌, min,
  ap, Bool, true, false, not, ◌&&◌, Option, none, some, List, [], ◌∷◌, ◌++◌,
}
use cmd_chat.Profile.{clean_nickname}
use cmd_chat.Profile.Storage.{
  Files, Store, set_nickname, set_group_chat_enabled, stored_name, stored_group,
}
use cmd_chat.Chat.{Member, Packet, Peer, packet, short_id}
use cmd_chat.Chat.Room.{Host, Log, set_group, count_of}
use cmd_chat.Terminal.Text.{trim, to_lower, is_among}

pub data Shown : Type 0 where
  -- `announceVerification` and `showVerification`.
  announced_number : Bytes → Bytes → Bool → Shown
  number_shown : Bytes → Bytes → Shown
  room_shown : List Member → Bytes → Shown
  invite_shown : Bytes → Bytes → Bool → Shown
  spoken : Bytes → Bytes → Shown
  notice error_shown : Bytes → Shown
  connected : Bytes → Shown
  joined gone : Bytes → ℕ → Shown
  emptied : Bytes → Shown
  nickname_unprintable nickname_unsaved : Shown
  nickname_cleared nickname_set : Bytes → Shown
  group_told group_switched : Bool → Shown
  group_unsaved those_here_stay group_usage only_the_host : Shown
  left_chat chat_closed not_joined not_greeted send_failed : Shown
  refused : Bytes → Shown
  unreachable : Shown
  authenticated : Bytes → Bytes → Shown

-- What the process remembers and what it has shown, the oldest first.
pub record Desk : Type 0 where
  pub store : Store
  pub screen : List Shown

-- `station`, with the two channels as queues.
pub record Station : Type 0 where
  pub id : Bytes
  pub host : Host
  pub log : Log
  pub desk : Desk
  pub peers : List Peer
  pub left : List Peer

-- What the loops are told, in order: what their select picks, and what the room does meanwhile.
pub data Input : Type 0 where
  line_typed : Bytes → Input
  input_ended peer_picked left_picked : Input
  -- The room after what others did, what that added to the log, and its calls of OnPeer.
  room_moved : Host → Log → List (Peer × Bool) → Input
  -- From the read loop of a joined chat: a packet, or its end with the packets not yet shown.
  packet_picked : Packet → Input
  link_closed : List Packet → Input

abbrev pub show : Shown → Desk → Desk
show x d = record d { screen = d.screen ++ (x ∷ []) }

abbrev pub display_on : Station → Shown → Station
display_on s x = record s { desk = show x s.desk }

unfoldable pub peer_label : Peer → Bytes
peer_label p =
    if not (length p.name == 0)
    then p.name ++ (codes " (" ++ (short_id p.id ++ codes ")"))
    else short_id p.id

unfoldable pub announce_verification : Bytes → Bytes → Bool → Desk → Desk
announce_verification label number first d =
    if length number == 0 then d else show (announced_number label number first) d

-- A channel of eight, into which one puts without waiting.
unfoldable pub offer : Peer → List Peer → List Peer
offer p queue = if ltb (length queue) 8 then queue ++ (p ∷ []) else queue

-- `OnPeer`, as openStation sets it.
unfoldable pub on_peer : Peer → Bool → Station → Station
on_peer p true s = record s { left = offer p s.left }
on_peer p false s = record s { peers = offer p s.peers }

unfoldable pub own_message : Bytes → Bytes → Bytes → Packet
own_message id name text = record (packet (codes "msg")) { from = id; name = name; text = text }

module _ (f : Files) (account : Bytes) where
  -- `name`
  unfoldable pub own_name : Desk → Bytes × Desk
  own_name d =
      let (name, store) = stored_name f account d.store in (name, record d { store = store })

  -- `setNickname`; the name that `notify` is called with, if it is.
  unfoldable pub set_own_nickname : Bytes → Desk → Option Bytes × Desk
  set_own_nickname argument d =
      let wanted = clean_nickname f.is_graphic argument in
      let (saved, store) = set_nickname f d.store wanted in
      let (name, d') = own_name (record d { store = store }) in
      if not (length argument == 0) && length wanted == 0
      then (none, show nickname_unprintable d)
      else if not saved
      then (none, show nickname_unsaved (record d { store = store }))
      else (
        some name,
        show (if length wanted == 0 then nickname_cleared name else nickname_set name) d',
      )

  -- `apply`
  unfoldable pub apply_group : Bool → Station → Station
  apply_group enabled s =
      let (saved, store) = set_group_chat_enabled f s.desk.store enabled in
      let d : Desk = record s.desk { store = store } in
      let warned = if saved then d else show group_unsaved d in
      let told = show (group_switched enabled) warned in
      record s {
        host = set_group s.host enabled;
        desk = if not enabled && ltb 1 (count_of s.host) then show those_here_stay told else told;
      }

  unfoldable pub set_group_chat : (ℕ → ℕ) → Bytes → Station → Station
  set_group_chat lower argument s =
      let word = to_lower lower (trim argument) in
      let affirmed =
        codes "on" ∷ codes "yes" ∷ codes "true" ∷ codes "enable" ∷ codes "enabled" ∷ [] in
      let denied =
        codes "off" ∷ codes "no" ∷ codes "false" ∷ codes "disable" ∷ codes "disabled" ∷ [] in
      if is_among affirmed word
      then apply_group true s
      else if is_among denied word
      then apply_group false s
      else if length word == 0
      then display_on s (group_told s.host.group)
      else display_on s group_usage
