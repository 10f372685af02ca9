-- ===== src/Terminal/Hosting/Said.antt =====
-- What leaves the computer from hostChat: only what was typed for the chat.
use cmd_chat.Prelude.{
  leb, ◌==◌, Bool-cases, length, All, unequal, nat_eq, bytes_eq, Bytes, codes, ℕ, ◌≡◌, refl, sym,
  subst, ◌∙◌, ◌≢◌, inl, inr, Bool, true, false, Option, none, some, List, [], ◌∷◌, ◌++◌, arith,
}
use mathlib.Core.List.{Memᴰ}
use cmd_chat.Profile.Storage.{Files}
use cmd_chat.Chat.{Packet, Peer, too_long}
use cmd_chat.Chat.Room.{
  Event, sent, closed, announced, Host, Log, say, count_of, set_name, disconnect, broadcast,
  send_roster, others, keys, close_all, close_link,
}
use cmd_chat.Chat.Room.Attribution.{
  Adds, Adds-none, Adds-trans, send_all-Adds, close_link-Adds, everywhere,
}
use cmd_chat.Terminal.{
  Desk, Station, on_peer, own_message, set_own_nickname, set_group_chat, own_name, apply_group,
}
use cmd_chat.Terminal.Turns.{run_turns}
use cmd_chat.Terminal.Text.{
  trim, split_command, command_of, Command, quit, who, verify, invite, nick, group,
}
use cmd_chat.Terminal.{
  Input, line_typed, input_ended, peer_picked, left_picked, room_moved, packet_picked, link_closed,
}
use cmd_chat.Terminal.Hosting.{
  on_peers, move_room, say_line, notify_host, quit_chat, obey, heed, take_line, take_peer,
  take_left, host_turn, host_loop,
}

-- A line that is for the chat: with something in it, and no command.
abbrev pub IsSaid : (ℕ → ℕ) → Bytes → Type 0
IsSaid lower line =
    (command_of (split_command lower (trim line)).0 ≡ none) × ((length (trim line) == 0) ≡ false)

abbrev pub IsNotice : Event → Type 0
IsNotice (sent k p) = p.kind ≢ codes "msg"
IsNotice (closed k) = Unit
IsNotice (announced p left) = Unit

-- An event is a message that was typed for the chat, or one of the room's own, or no message.
pub data IsTyped (lower : ℕ → ℕ) (id : Bytes) (inputs : List Input) : Event → Type 0 where
  message :
      (line : Bytes) (k : ℕ) (name : Bytes)
      → Memᴰ (line_typed line) inputs
      → IsSaid lower line
      → IsTyped lower id inputs (sent k (own_message id name (trim line)))
  of_room :
      {e : Event} (h : Host) (new : Log) (calls : List (Peer × Bool))
      → Memᴰ (room_moved h new calls) inputs
      → Memᴰ e new
      → IsTyped lower id inputs e
  other : {e : Event} → IsNotice e → IsTyped lower id inputs e

module _ (f : Files) (account : Bytes) (lower : ℕ → ℕ) (taken : Log → ℕ → Packet → Bool)
    (P : Event → Type 0) (fine : (e : Event) → IsNotice e → P e) where
  -- The log has grown by such events, and the ID is the same.
  abbrev pub Grows : Station → Station → Type 0
  Grows s s' = Adds P s.log s'.log × (s'.id ≡ s.id)

  pub Grows-none : (s : Station) → Grows s s
  Grows-none s = (Adds-none P s.log, refl)

  broadcast-Adds :
      (h : Host) (p : Packet) (log : Log)
      → ((k : ℕ) → P (sent k p))
      → Adds P log (broadcast taken h p none log)
  unfolding broadcast
  broadcast-Adds h p log q =
      send_all-Adds P taken (λ k. fine (closed k) tt) (others none (keys h.clients)) p log
        (everywhere (λ k. P (sent k p)) (others none (keys h.clients)) q)

  say_line-Grows :
      (text : Bytes) (s : Station)
      → ((k : ℕ) (name : Bytes) → P (sent k (own_message s.id name text)))
      → Grows s (say_line f account lower taken text s)
  unfolding say_line say
  say_line-Grows text s q = elim (Bool-cases (too_long message)) [
    | inl e ↦ (rw e (Adds-none P s.log), refl)
    | inr e ↦ (rw e (broadcast-Adds s.host message s.log (λ k. q k name)), refl)
  ]
    where
      name : Bytes
      name = (own_name f account s.desk).0

      message : Packet
      message = own_message s.id name text

  set_name-Adds :
      (h : Host) (name : Bytes) (log : Log) → Adds P log (set_name taken f.is_graphic h name log).1
  unfolding set_name send_roster
  set_name-Adds h name log = elim (Bool-cases h.group) [
    | inr e ↦ rw e (Adds-none P log)
    | inl e ↦
        rw e (broadcast-Adds _ _ log (λ k. fine _ (unequal (codes "roster") (codes "msg") refl)))
  ]

  pub notify_host-Grows :
      (r : Option Bytes × Desk) (s : Station) → Grows s (notify_host f account lower taken r s)
  unfolding notify_host
  notify_host-Grows (none, desk) s = (Adds-none P s.log, refl)
  notify_host-Grows (some name, desk) s = (set_name-Adds s.host name s.log, refl)

  close_all-Adds : (ks : List ℕ) (log : Log) → Adds P log (close_all ks log)
  unfolding close_all
  close_all-Adds [] log = Adds-none P log
  close_all-Adds (k ∷ ks) log =
      Adds-trans P log (close_link k log) (close_all ks (close_link k log))
        (close_link-Adds P taken (λ j. fine (closed j) tt) k log)
        (close_all-Adds ks (close_link k log))

  quit_chat-Grows : (s : Station) → Grows s (quit_chat f account lower taken s)
  unfolding quit_chat disconnect
  quit_chat-Grows s = (close_all-Adds (keys s.host.clients) s.log, refl)

  pub set_group_chat-Grows :
      (argument : Bytes) (s : Station) → Grows s (set_group_chat f account lower argument s)
  unfolding set_group_chat apply_group
  set_group_chat-Grows argument s = ground (arith, Grows-none s)

  obey-Grows :
      (first : Peer) (c : Command) (argument : Bytes) (s : Station)
      → Grows s (obey f account lower taken first c argument s).1
  unfolding obey
  obey-Grows first quit argument s = quit_chat-Grows s
  obey-Grows first who argument s = Grows-none s
  obey-Grows first verify argument s = Grows-none s
  obey-Grows first invite argument s = Grows-none s
  obey-Grows first nick argument s =
      notify_host-Grows (set_own_nickname f account argument s.desk) s
  obey-Grows first group argument s = set_group_chat-Grows argument s

  -- What a line adds, if what it says may be added.
  heed-Grows :
      (first : Peer) (c : Option Command) (argument text : Bytes) (s : Station)
      → (c ≡ none
          → (length text == 0) ≡ false
          → (k : ℕ) (name : Bytes) → P (sent k (own_message s.id name text)))
      → Grows s (heed f account lower taken first c argument text s).1
  unfolding heed
  heed-Grows first (some c) argument text s q = obey-Grows first c argument s
  heed-Grows first none argument text s q = elim (Bool-cases (length text == 0)) [
    | inl b ↦ rw b (Grows-none s)
    | inr b ↦ rw b (say_line-Grows text s (q refl b))
  ]

  on_peers-Grows : (calls : List (Peer × Bool)) (s : Station) → Grows s (on_peers calls s)
  unfolding on_peers on_peer
  on_peers-Grows [] s = Grows-none s
  on_peers-Grows ((p, true) ∷ calls) s = on_peers-Grows calls (on_peer p true s)
  on_peers-Grows ((p, false) ∷ calls) s = on_peers-Grows calls (on_peer p false s)

  pub move_room-Grows :
      (h : Host) (new : Log) (calls : List (Peer × Bool)) (s : Station)
      → All P new
      → Grows s (move_room h new calls s)
  unfolding move_room
  move_room-Grows h new calls s q = (
    Adds-trans P s.log moved.log (on_peers calls moved).log (new, refl, q)
        (on_peers-Grows calls moved).0,
    (on_peers-Grows calls moved).1,
  )
    where
      moved : Station
      moved = record s { host = h; log = s.log ++ new }

  take_peer-Grows :
      (peers : List Peer) (s : Station) → Grows s (take_peer f account lower taken peers s).1
  unfolding take_peer
  take_peer-Grows [] s = Grows-none s
  take_peer-Grows (p ∷ peers) s = Grows-none s

  take_left-Grows :
      (left : List Peer) (s : Station) → Grows s (take_left f account lower taken left s).1
  unfolding take_left
  take_left-Grows [] s = Grows-none s
  take_left-Grows (p ∷ left) s = elim (Bool-cases (leb (count_of s.host) 1)) [
    | inl e ↦ rw e (Grows-none s)
    | inr e ↦ rw e (Grows-none s)
  ]

  -- What the inputs may add under the ID.
  unfoldable pub Allowed : Bytes → Input → Type 0
  Allowed id (line_typed line) =
      IsSaid lower line → (k : ℕ) (name : Bytes) → P (sent k (own_message id name (trim line)))
  Allowed id (room_moved h new calls) = All P new
  Allowed id _ = Unit

  host_turn-Grows :
      (first : Peer) (i : Input) (s : Station)
      → Allowed s.id i
      → Grows s (host_turn f account lower taken first i s).1
  unfolding host_turn take_line Allowed
  host_turn-Grows first (line_typed line) s q =
      heed-Grows first (command_of (split_command lower (trim line)).0)
        (split_command lower (trim line)).1 (trim line) s (λ e b. q (e, b))
  host_turn-Grows first input_ended s q = Grows-none s
  host_turn-Grows first peer_picked s q = take_peer-Grows s.peers s
  host_turn-Grows first left_picked s q = take_left-Grows s.left s
  host_turn-Grows first (room_moved h new calls) s q = move_room-Grows h new calls s q
  host_turn-Grows first (packet_picked p) s q = Grows-none s
  host_turn-Grows first (link_closed pending) s q = Grows-none s

  pub Grows-trans : (s t u : Station) → Grows s t → Grows t u → Grows s u
  Grows-trans s t u a b = (Adds-trans P s.log t.log u.log a.0 b.0, b.1 ∙ a.1)

  pub host_loop-Grows :
      (first : Peer) (inputs : List Input) (s : Station)
      → All (Allowed s.id) inputs
      → Grows s (host_loop f account lower taken first inputs s).1
  unfolding host_loop run_turns
  host_loop-Grows first [] s q = Grows-none s
  host_loop-Grows first (i ∷ inputs) s q =
      let turn = host_turn f account lower taken first i s in
      let grown = host_turn-Grows first i s q.0 in
      elim (Bool-cases turn.0) [
        | inl e ↦ rw e grown
        | inr e ↦ rw e (
            Grows-trans s turn.1 (host_loop f account lower taken first inputs turn.1).1 grown (
              host_loop-Grows first inputs turn.1
                (subst (λ id. All (Allowed id) inputs) (sym grown.1) q.1)))
      ]

module _ (f : Files) (account : Bytes) (lower : ℕ → ℕ) (taken : Log → ℕ → Packet → Bool) where
  -- What is in the log of the room is there for a reason that the inputs give.
  moved-IsTyped :
      (id : Bytes) (inputs : List Input) (h : Host) (new seen : Log) (calls : List (Peer × Bool))
      → Memᴰ (room_moved h new calls) inputs
      → ((e : Event) → Memᴰ e seen → Memᴰ e new)
      → All (IsTyped lower id inputs) seen
  moved-IsTyped id inputs h new [] calls m sub = tt
  moved-IsTyped id inputs h new (e ∷ seen) calls m sub = (
    IsTyped.of_room h new calls m (sub e (Memᴰ.head refl)),
    moved-IsTyped id inputs h new seen calls m (λ d n. sub d (Memᴰ.tail n)),
  )

  allowed :
      (id : Bytes) (all : List Input) (i : Input)
      → Memᴰ i all
      → Allowed f account lower taken (IsTyped lower id all) (λ e n. IsTyped.other n) id i
  unfolding Allowed
  allowed id all (line_typed line) m = λ said k name. IsTyped.message line k name m said
  allowed id all input_ended m = tt
  allowed id all peer_picked m = tt
  allowed id all left_picked m = tt
  allowed id all (packet_picked p) m = tt
  allowed id all (link_closed pending) m = tt
  allowed id all (room_moved h new calls) m = moved-IsTyped id all h new new calls m (λ e n. n)

  pub every-Allowed :
      (id : Bytes) (all inputs : List Input)
      → ((i : Input) → Memᴰ i inputs → Memᴰ i all)
      → All
          (Allowed f account lower taken (IsTyped lower id all) (λ e n. IsTyped.other n) id)
          inputs
  every-Allowed id all [] sub = tt
  every-Allowed id all (i ∷ inputs) sub = (
    allowed id all i (sub i (Memᴰ.head refl)),
    every-Allowed id all inputs (λ j n. sub j (Memᴰ.tail n)),
  )
