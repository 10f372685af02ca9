-- ===== src/Terminal/Hosting/Quitting.antt =====
-- When hostChat returns, and what is left then.
use cmd_chat.Prelude.{
  leb, Bool-cases, nat_eq, bytes_eq, Bytes, ℕ, ◌≡◌, refl, ap, ◌∙◌, ◌↔◌, inl, inr, Bool, true, false,
  Option, none, some, List, [], ◌∷◌, ◌++◌, arith,
}
use cmd_chat.Profile.Storage.{Files}
use cmd_chat.Chat.{Packet, Peer}
use cmd_chat.Chat.Room.{Log, count_of}
use cmd_chat.Terminal.{Station}
use cmd_chat.Terminal.Turns.{run_turns, turns_returned, run_turns-append}
use cmd_chat.Terminal.Text.{
  trim, split_command, command_of, Command, quit, who, verify, invite, nick, group,
}
use cmd_chat.Terminal.{
  Input, line_typed, input_ended, peer_picked, left_picked, room_moved, packet_picked, link_closed,
}
use cmd_chat.Terminal.Hosting.{obey, heed, take_line, take_peer, take_left, host_turn, host_loop}

-- A departure is picked and nobody is left but the host.
abbrev pub IsLast : Station → Type 0
IsLast s =
    (p : Peer) × (later : List Peer) × (s.left ≡ p ∷ later) × (leb (count_of s.host) 1 ≡ true)

-- The inputs that end the chat.
abbrev pub Ends : (ℕ → ℕ) → Station → Input → Type 0
Ends lower s (line_typed line) = command_of (split_command lower (trim line)).0 ≡ some quit
Ends lower s input_ended = Unit
Ends lower s left_picked = IsLast s
Ends lower s peer_picked = ⊥
Ends lower s (room_moved h new calls) = ⊥
Ends lower s (packet_picked p) = ⊥
Ends lower s (link_closed pending) = ⊥

module _ (f : Files) (account : Bytes) (lower : ℕ → ℕ) (taken : Log → ℕ → Packet → Bool) where
  abbrev turn : Peer → Input → Station → Bool × Station
  turn = host_turn f account lower taken

  heed-is_quit :
      (first : Peer) (c : Option Command) (argument text : Bytes) (s : Station)
      → ((heed f account lower taken first c argument text s).0 ≡ true) ↔ (c ≡ some quit)
  unfolding heed obey
  heed-is_quit first none argument text s = ground arith
  heed-is_quit first (some quit) argument text s = ground arith
  heed-is_quit first (some who) argument text s = ground arith
  heed-is_quit first (some verify) argument text s = ground arith
  heed-is_quit first (some invite) argument text s = ground arith
  heed-is_quit first (some nick) argument text s = ground arith
  heed-is_quit first (some group) argument text s = ground arith

  take_peer_stays :
      (peers : List Peer) (s : Station) → (take_peer f account lower taken peers s).0 ≡ false
  unfolding take_peer
  take_peer_stays [] s = refl
  take_peer_stays (p ∷ peers) s = refl

  left-IsLast :
      (left : List Peer) (s : Station)
      → s.left ≡ left
      → ((take_left f account lower taken left s).0 ≡ true) ↔ IsLast s
  unfolding take_left
  left-IsLast [] s e = (λ h. absurd (cc h), λ l. absurd (cc (l.2, e)))
  left-IsLast (p ∷ left) s e = elim (Bool-cases (leb (count_of s.host) 1)) [
    | inl b ↦ rw b (λ h. (p, left, e, refl), λ l. refl)
    | inr b ↦ rw b (λ h. absurd (cc h), λ l. absurd (cc (l.3)))
  ]

  turn-Ends :
      (first : Peer) (i : Input) (s : Station)
      → ((host_turn f account lower taken first i s).0 ≡ true) ↔ Ends lower s i
  unfolding host_turn take_line
  turn-Ends first (line_typed line) s =
      heed-is_quit first (command_of (split_command lower (trim line)).0)
        (split_command lower (trim line)).1 (trim line) s
  turn-Ends first input_ended s = (λ h. tt, λ u. refl)
  turn-Ends first peer_picked s = (λ h. absurd (cc (h, take_peer_stays s.peers s)), λ u. absurd u)
  turn-Ends first left_picked s = left-IsLast s.left s refl
  turn-Ends first (room_moved h new calls) s = (λ e. absurd (cc e), λ u. absurd u)
  turn-Ends first (packet_picked p) s = (λ e. absurd (cc e), λ u. absurd u)
  turn-Ends first (link_closed pending) s = (λ e. absurd (cc e), λ u. absurd u)

  -- The inputs before the one that ended the chat, and the station as they had left it.
  pub record StoppedBy (first : Peer) (inputs : List Input) (s : Station) : Type 0 where
    pub before : List Input
    pub last : Input
    pub rest : List Input
    pub at : Station
    pub splits : inputs ≡ before ++ (last ∷ rest)
    pub went_on : host_loop f account lower taken first before s ≡ (false, at, [])
    pub ends : Ends lower at last

  StoppedBy-cons :
      (first : Peer) (i : Input) (inputs : List Input) (s : Station)
      → (host_turn f account lower taken first i s).0 ≡ false
      → StoppedBy first inputs (host_turn f account lower taken first i s).1
      → StoppedBy first (i ∷ inputs) s
  unfolding host_loop run_turns
  StoppedBy-cons first i inputs s e b = record {
    before = i ∷ b.before;
    last = b.last;
    rest = b.rest;
    at = b.at;
    splits = ap (◌∷◌ i) b.splits;
    went_on = rw e b.went_on;
    ends = b.ends;
  }

  returned-StoppedBy :
      (first : Peer) (inputs : List Input) (s : Station)
      → (host_loop f account lower taken first inputs s).0 ≡ true
      → StoppedBy first inputs s
  unfolding host_loop run_turns
  returned-StoppedBy first [] s h = absurd (cc h)
  returned-StoppedBy first (i ∷ inputs) s h =
      let now = turn first i s in
      elim (Bool-cases now.0) [
        | inl e ↦ record {
          before = [];
          last = i;
          rest = inputs;
          at = s;
          splits = refl;
          went_on = refl;
          ends = (turn-Ends first i s).0 e;
        }
        | inr e ↦
            StoppedBy-cons first i inputs s e (returned-StoppedBy first inputs now.1 (rw e at h))
      ]

  -- The loop of hostChat returns if and only if one of its inputs ends the chat where the ones before
  -- it have led: the end of the keyboard, a line whose first word is /quit or /exit, or a departure
  -- that is picked when nobody but the host is in the room. It then leaves what the turn of that
  -- input leaves, and the later inputs unread.
  pub host_loop_returns :
      (first : Peer) (inputs : List Input) (s : Station)
      → ((host_loop f account lower taken first inputs s).0 ≡ true → StoppedBy first inputs s)
        × ((b : StoppedBy first inputs s)
            → host_loop f account lower taken first inputs s
              ≡ (true, (host_turn f account lower taken first b.last b.at).1, b.rest))
  unfolding host_loop
  host_loop_returns first inputs s = (
    returned-StoppedBy first inputs s,
    λ b.
        ap (λ xs. host_loop f account lower taken first xs s) b.splits
        ∙ run_turns-append (turn first) b.before (b.last ∷ b.rest) s (ap (λ r. r.0) b.went_on)
        ∙ ap (run_turns (turn first) (b.last ∷ b.rest)) (ap (λ r. r.1) b.went_on)
        ∙ turns_returned (turn first) b.last b.rest b.at ((turn-Ends first b.last b.at).1 b.ends),
  )
