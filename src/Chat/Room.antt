-- ===== src/Chat/Room.antt =====
-- Host of internal/chat/chat.go: the room as a star around its host. A connection is a number, and
-- the log holds what happened to the outside, the oldest first. Whether the network takes a packet
-- is a parameter that may depend on all that came before. The handler of one packet runs whole
-- here: the locks and what other connections do between two writes of a broadcast are not modelled,
-- and what is printed on the terminal is left out.
pub mod Members
pub mod Relay
pub mod Attribution
pub mod Steps
pub mod Invariant
pub mod Acts
pub mod View
pub mod Private
use cmd_chat.Prelude.{
  ltb, ◌==◌, if◌then◌else◌, length, take, ◌>>=◌, ◌>>◌, eq, bytes_beq, nat_eq, bytes_eq, Bytes,
  codes, ok, err, ℕ, ◌+◌, ◌-◌, ◌/◌, min, ap, Bool, true, false, not, ◌&&◌, ◌||◌, Option, none, some,
  List, [], ◌∷◌, ◌++◌, map,
}
use cmd_chat.Prelude.Map.{lookup, insert, delete}
use cmd_chat.E2ee.Identity.{after}
use cmd_chat.Profile.{clean_nickname}
use cmd_chat.Chat.{Member, Packet, Peer, packet, display, too_long, max_message_bytes}

pub data Event : Type 0 where
  sent : ℕ → Packet → Event
  closed : ℕ → Event
  -- `OnPeer`, with whether the peer has left.
  announced : Peer → Bool → Event

abbrev pub Log : Type 0
Log = List Event

-- `Clients` is a set, `members` a map; both by connection.
pub record Host : Type 0 where
  pub id : Bytes
  pub name : Bytes
  pub group : Bool
  pub clients : List (ℕ × Unit {0})
  pub members : List (ℕ × Member)

unfoldable pub new_host : Bytes → Bytes → Host
new_host id name = record { id = id; name = name; group = true; clients = []; members = [] }

unfoldable pub set_group : Host → Bool → Host
set_group h enabled = record h { group = enabled }

abbrev pub values : List (ℕ × Member) → List Member
values [] = []
values ((k, m) ∷ ms) = m ∷ values ms

abbrev pub keys {ℓ} : {V : Type ℓ} → List (ℕ × V) → List ℕ
keys [] = []
keys ((k, v) ∷ ms) = k ∷ keys ms

-- `sort.Slice` by ID.
unfoldable pub place : Member → List Member → List Member
place m [] = m ∷ []
place m (n ∷ ms) = let rest = place m ms in if after m.id n.id then n ∷ rest else m ∷ n ∷ ms

unfoldable pub sort_members : List Member → List Member
sort_members [] = []
sort_members (m ∷ ms) = place m (sort_members ms)

unfoldable pub members_of : Host → List Member
members_of h =
    let host : Member = record { id = h.id; name = h.name; host = true } in
    host ∷ sort_members (values h.members)

unfoldable pub count_of : Host → ℕ
count_of h = length h.members + 1

unfoldable pub was_closed : ℕ → Log → Bool
was_closed k [] = false
was_closed k (sent j p ∷ log) = was_closed k log
was_closed k (closed j ∷ log) = j == k || was_closed k log
was_closed k (announced p left ∷ log) = was_closed k log

-- `Conn.Close`, which does nothing the second time.
unfoldable pub close_link : ℕ → Log → Log
close_link k log = if was_closed k log then log else log ++ (closed k ∷ [])

-- `broadcast`'s snapshot of the clients.
unfoldable pub others : Option ℕ → List ℕ → List ℕ
others except [] = []
others none (k ∷ ks) = k ∷ others none ks
others (some e) (k ∷ ks) = let rest = others (some e) ks in if not (k == e) then k ∷ rest else rest

-- The stages of `serve`: who may come in.
unfoldable pub admits : Host → Bool
admits h = not (not h.group && ltb 0 (length h.members))

unfoldable pub enter : Host → ℕ → Member → Host
enter h k m = record h { clients = insert k tt h.clients; members = insert k m h.members }

-- What is sent on for a guest: under the identity that it proved.
unfoldable pub relayed : Member → Packet → Packet
relayed m p = record (packet (codes "msg")) { from = m.id; name = m.name; text = p.text }

-- `Disconnect`.
unfoldable pub close_all : List ℕ → Log → Log
close_all [] log = log
close_all (k ∷ ks) log = close_all ks (close_link k log)

unfoldable pub disconnect : Host → Log → Log
disconnect h log = close_all (keys h.clients) log

module _ (taken : Log → ℕ → Packet → Bool) where
  -- `Conn.Send`, as far as the room sees it.
  unfoldable pub send_to : ℕ → Packet → Log → Bool × Log
  send_to k p log =
      if too_long p || was_closed k log
      then (false, log)
      else if taken log k p
      then (true, log ++ (sent k p ∷ []))
      else (false, log)

  -- A client that cannot be written to is closed.
  unfoldable pub send_or_close : ℕ → Packet → Log → Log
  send_or_close k p log =
      let (delivered, log') = send_to k p log in if delivered then log' else close_link k log'

  unfoldable pub send_all : List ℕ → Packet → Log → Log
  send_all [] p log = log
  send_all (k ∷ ks) p log = send_all ks p (send_or_close k p log)

  unfoldable pub broadcast : Host → Packet → Option ℕ → Log → Log
  broadcast h p except log = send_all (others except (keys h.clients)) p log

  unfoldable pub send_roster : Host → Log → Log
  send_roster h log =
      broadcast h (record (packet (codes "roster")) { members = some (members_of h) }) none log

  unfoldable pub system : Host → Bytes → Log → Log
  system h text log = broadcast h (record (packet (codes "system")) { text = text }) none log

  -- `Host.Broadcast`: what the host itself says.
  unfoldable pub say : Host → Packet → Log → Log
  say h p log = if too_long p then log else broadcast h p none log

  unfoldable pub set_name : (ℕ → Bool) → Host → Bytes → Log → Host × Log
  set_name is_graphic h name log =
      let h' = record h { name = clean_nickname is_graphic name } in
      (h', if h.group then send_roster h' log else log)

  -- The other stages of `serve`.
  unfoldable pub reject : ℕ → Log → Log
  reject k log =
      let refusal = record (packet (codes "error")) {
        text = codes "this host is already in a chat and has group chat turned off";
      } in
      close_link k (send_to k refusal log).1

  -- The deferred function, and the closing of the connection after it.
  unfoldable pub leave : Host → ℕ → Peer → Member → Log → Host × Log
  leave h k peer m log =
      let h' = record h { clients = delete k h.clients; members = delete k h.members } in
      let told = log ++ (announced peer true ∷ []) in
      let gone =
        if h.group then send_roster h' (system h' (display m ++ codes " left") told) else told in
      (h', close_link k gone)

  -- The `hello`, and the notices if it could be sent; whether the guest stays.
  unfoldable pub greet : Host → ℕ → Peer → Member → Log → Bool × Log
  greet h k peer m log =
      let (greeted, log') =
        send_to k (record (packet (codes "hello")) { from = h.id; name = h.name; group = h.group })
          log in
      let told = log' ++ (announced peer false ∷ []) in
      let joined = record (packet (codes "system")) { text = display m ++ codes " joined" } in
      if not greeted
      then (false, log')
      else if h.group
      then (true, send_roster h (broadcast h joined (some k) told))
      else (true, told)

  -- A guest changes its name.
  unfoldable pub rename_guest : Host → ℕ → Member → Member → Log → Host × Log
  rename_guest h k m renamed log =
      let h' = record h { members = insert k renamed h.members } in
      let notice = display m ++ (codes " is now " ++ display renamed) in
      (
        h',
        if h.group && not (bytes_beq (display renamed) (display m))
            then send_roster h' (system h' notice log)
            else log,
      )

  -- One turn of the loop: the host, what the loop keeps as the member, the log.
  unfoldable pub handle : (ℕ → Bool) → Host → ℕ → Member → Packet → Log → Host × Member × Log
  handle is_graphic h k m p log =
      let renamed : Member = record {
        id = m.id;
        name = clean_nickname is_graphic p.name;
        host = false;
      } in
      let (h', log') = rename_guest h k m renamed log in
      let refusal = record (packet (codes "error")) { text = codes "message exceeds 4096 bytes" } in
      if bytes_beq p.kind (codes "nick")
      then (h', renamed, log')
      else if not (bytes_beq p.kind (codes "msg"))
      then (h, m, log)
      else if ltb max_message_bytes (length p.text)
      then (h, m, (send_to k refusal log).1)
      else if h.group
      then (h, m, broadcast h (relayed m p) (some k) log)
      else (h, m, log)
