-- ===== src/Chat.antt =====
-- The packets and people of internal/chat/chat.go. A string is the list of its bytes.
pub mod Conn
pub mod Room
pub mod Link
mod Tests
use cmd_chat.Prelude.{
  ltb, leb, ◌==◌, if◌then◌else◌, length, take, eq, bytes_beq, nat_eq, bytes_eq, Bytes, codes, ℕ,
  ◌+◌, ◌-◌, ◌/◌, Bool, false, not, ◌&&◌, Option, none, List, [], ◌∷◌, ◌++◌,
}

abbrev pub max_message_bytes : ℕ
max_message_bytes = 4096

pub record Member : Type 0 where
  pub id : Bytes
  pub name : Bytes
  pub host : Bool

-- No members are nil, which is not the empty list.
pub record Packet : Type 0 where
  pub kind : Bytes
  pub from : Bytes
  pub name : Bytes
  pub text : Bytes
  pub members : Option (List Member)
  pub group : Bool

pub record Peer : Type 0 where
  pub id : Bytes
  pub name : Bytes
  pub first_contact : Bool
  pub safety_number : Bytes

-- A packet of a kind, with nothing else in it.
abbrev pub packet : Bytes → Packet
packet kind = record { kind = kind; from = []; name = []; text = []; members = none; group = false }

unfoldable pub short_id : Bytes → Bytes
short_id id = if leb (length id) 11 then id else take 11 id ++ (226 ∷ 128 ∷ 166 ∷ [])

unfoldable pub display : Member → Bytes
display m = if not (length m.name == 0) then m.name else short_id m.id

-- What `Conn.Send` and `Host.Broadcast` refuse.
unfoldable pub too_long : Packet → Bool
too_long p = bytes_beq p.kind (codes "msg") && ltb max_message_bytes (length p.text)
