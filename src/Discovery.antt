-- ===== src/Discovery.antt =====
-- Discovery on the local network: Find and Serve of internal/discovery/discovery.go. A datagram is
-- what its JSON decodes to, or nothing; Find has the ones that arrive before its deadline.
pub mod Answers
mod Tests
use cmd_chat.Prelude.{
  ◌==◌, if◌then◌else◌, length, eq, bytes_beq, nat_eq, bytes_eq, Bytes, codes, ok, err, ℕ, ◌-◌, ◌/◌,
  ap, Bool, true, false, not, ◌||◌, Option, none, some, List, [], ◌∷◌,
}
use cmd_chat.Prelude.Map.{lookup, insert}

abbrev pub magic : Bytes
magic = codes "CMDCHAT/1"

pub record Announcement : Type 0 where
  pub id : Bytes
  pub name : Bytes
  pub port : ℕ
  pub fingerprint : Bytes
  pub endpoint : Bytes

-- `Announcement` may be nil.
pub record Packet : Type 0 where
  pub magic_text : Bytes
  pub kind : Bytes
  pub announcement : Option Announcement
  pub id : Bytes

-- `seen[id]`
unfoldable pub was_seen : Bytes → List (Bytes × Bool) → Bool
was_seen id seen = elim (lookup id seen) [ none ↦ false | some b ↦ b ]

-- The announcement of a datagram that passes the first test of the loop.
unfoldable pub found : Option Packet → Option Announcement
found none = none
found (some p) =
    if not (bytes_beq p.magic_text magic) || not (bytes_beq p.kind (codes "found"))
    then none
    else p.announcement

-- The loop of `Find`.
unfoldable pub find_loop : Bytes → List (Bytes × Bool) → List (Option Packet) → List Announcement
find_loop id seen [] = []
find_loop id seen (d ∷ ds) =
    let rest = find_loop id seen ds in
    elim (found d) [
      | none ↦ rest
      | some a ↦
          let more = find_loop id (insert a.id true seen) ds in
          if not (bytes_beq a.id id) then rest else if was_seen a.id seen then rest else a ∷ more
    ]

unfoldable pub find : Bytes → List (Option Packet) → List Announcement
find id ds = find_loop id [] ds

-- The answer of `Serve` to a datagram; `host_ip` is hostIPFor of the sender, empty on an error, and
-- `join_host_port` a library's.
unfoldable pub serve : (Bytes → ℕ → Bytes) → Announcement → Bytes → Option Packet → Option Packet
serve join_host_port a host_ip none = none
serve join_host_port a host_ip (some p) =
    if not (bytes_beq p.magic_text magic)
      || not (bytes_beq p.kind (codes "discover"))
      || not (bytes_beq p.id a.id)
    then none
    else some (record {
      magic_text = magic;
      kind = codes "found";
      announcement = some (
          if length host_ip == 0 then a else record a { endpoint = join_host_port host_ip a.port });
      id = [];
    })
