-- ===== src/Chat/Room/Steps.antt =====
-- The room over time: connections arrive, send packets and depart in any order, between what the
-- host's own user does. A guest is what the loop of `serve` keeps for a connection.
use cmd_chat.Prelude.{
  if◌then◌else◌, nat_eq, bytes_eq, Bytes, ℕ, ◌≡◌, Bool, false, not, none, some, List,
}
use cmd_chat.Prelude.Map.{lookup, insert, delete}
use cmd_chat.Chat.{Member, Packet, Peer}
use cmd_chat.Chat.Room.{
  Host, Log, set_group, say, set_name, disconnect, admits, reject, enter, leave, greet, handle,
}

pub record Guest : Type 0 where
  pub peer : Peer
  pub member : Member

pub record System : Type 0 where
  pub host : Host
  pub guests : List (ℕ × Guest)
  pub log : Log

-- `member`, as serve sets it first.
unfoldable pub first_member : Peer → Member
first_member peer = record { id = peer.id; name = peer.name; host = false }

module _ (is_graphic : ℕ → Bool) (taken : Log → ℕ → Packet → Bool) where
  -- `serve` up to its loop, for a connection that has been accepted.
  unfoldable pub arrive : System → ℕ → Peer → System
  arrive s k peer =
      let m = first_member peer in
      let h = enter s.host k m in
      let (stays, log) = greet taken h k peer m s.log in
      let (h', log') = leave taken h k peer m log in
      if not (admits s.host)
      then record s { log = reject taken k s.log }
      else if stays
      then record {
        host = h;
        guests = insert k (record { peer = peer; member = m }) s.guests;
        log = log;
      }
      else record { host = h'; guests = s.guests; log = log' }

  unfoldable pub receive_packet : System → ℕ → Guest → Packet → System
  receive_packet s k g p =
      let (h, m, log) = handle taken is_graphic s.host k g.member p s.log in
      record { host = h; guests = insert k (record g { member = m }) s.guests; log = log }

  -- The end of `serve`, once `Receive` has failed.
  unfoldable pub depart : System → ℕ → Guest → System
  depart s k g =
      let (h, log) = leave taken s.host k g.peer g.member s.log in
      record { host = h; guests = delete k s.guests; log = log }

  unfoldable pub call_host : System → Bytes → System
  call_host s name =
      let (h, log) = set_name taken is_graphic s.host name s.log in record s { host = h; log = log }

  -- A new connection is one that no loop has.
  pub data Step : System → System → Type 0 where
    arrives :
        (s : System) (k : ℕ) (peer : Peer) → lookup k s.guests ≡ none → Step s (arrive s k peer)
    packet_comes :
        (s : System) (k : ℕ) (g : Guest) (p : Packet)
        → lookup k s.guests ≡ some g
        → Step s (receive_packet s k g p)
    departs : (s : System) (k : ℕ) (g : Guest) → lookup k s.guests ≡ some g → Step s (depart s k g)
    group_set : (s : System) (b : Bool) → Step s (record s { host = set_group s.host b })
    name_set : (s : System) (name : Bytes) → Step s (call_host s name)
    said : (s : System) (p : Packet) → Step s (record s { log = say taken s.host p s.log })
    disconnected : (s : System) → Step s (record s { log = disconnect s.host s.log })

  pub data Reach (s : System) : System → Type 0 where
    here : Reach s s
    next : {t u : System} → Reach s t → Step t u → Reach s u
