-- ===== src/Chat/Tests.antt =====
-- The chat at concrete inputs.
mod Conn
mod Room
mod Link
use cmd_chat.Prelude.{
  leb, length, take, drop, nat_eq, bytes_eq, Bytes, codes, ◌+◌, ◌-◌, ap, ◌&&◌, Option, none, some,
  [], ◌∷◌, ◌++◌,
}
use cmd_chat.Chat.{Packet, packet}
use cmd_chat.Chat.Conn.{Libraries}

-- A stand-in for JSON that carries the kind and the text of a packet.
abbrev marshal : Packet → Option Bytes
marshal p = some ((length p.kind ∷ p.kind) ++ p.text)

abbrev unmarshal : Bytes → Option Packet
unmarshal [] = none
unmarshal (n ∷ s) = some (record (packet (take n s)) { text = drop n s })

abbrev pub libraries : Libraries
libraries = record {
  marshal = marshal;
  unmarshal = unmarshal;
  is_graphic = λ r. leb 32 r && leb r 126;
}

abbrev pub says : Bytes → Packet
says text = record (packet (codes "msg")) { text = text }
