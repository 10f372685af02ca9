-- ===== src/Terminal/Ready/Loop/Ending.antt =====
-- The fuel of the loop of ready is enough.
use cmd_chat.Prelude.{
  Bool-cases, length, nat_eq, bytes_eq, Bytes, ℕ, zero, suc, ◌+◌, ◌≤◌, ◌<◌, inl, inr, Bool, Option,
  none, some, List, [], ◌∷◌, arith,
}
use cmd_chat.Profile.Storage.{Files}
use cmd_chat.Chat.{Packet, Peer}
use cmd_chat.Chat.Room.{Log}
use cmd_chat.Terminal.{
  Input, line_typed, input_ended, peer_picked, left_picked, room_moved, packet_picked, link_closed,
  Station, Desk,
}
use cmd_chat.Terminal.Text.{trim}
use cmd_chat.Terminal.Turns.{run_turns-length}
use cmd_chat.Terminal.Hosting.{move_room, host_turn, host_loop, host_chat}
use cmd_chat.Terminal.Guest.{Link, Session}
use cmd_chat.Terminal.Ready.{Next, stay, exit, debug_menu, join, run_command}
use cmd_chat.Terminal.Ready.Loop.{
  Reached, take_answer, Run, joined_turn, chat_session, join_peer, after_line, begin_chat,
  ready_turn, ready_loop, ready,
}

take_answer-length :
    (inputs : List Input) (s : Station) → length (take_answer inputs s).1 ≤ length inputs
unfolding take_answer
take_answer-length [] s = omega arith
take_answer-length (line_typed line ∷ inputs) s = omega arith
take_answer-length (input_ended ∷ inputs) s = omega arith
take_answer-length (peer_picked ∷ inputs) s = omega (arith, take_answer-length inputs s)
take_answer-length (left_picked ∷ inputs) s = omega (arith, take_answer-length inputs s)
take_answer-length (packet_picked p ∷ inputs) s = omega (arith, take_answer-length inputs s)
take_answer-length (link_closed pending ∷ inputs) s = omega (arith, take_answer-length inputs s)
take_answer-length (room_moved h new calls ∷ inputs) s =
    omega (arith, take_answer-length inputs (move_room h new calls s))

abbrev pub IsDone : Run → Type 0
IsDone none = ⊥
IsDone (some r) = Unit

module _ (f : Files) (account : Bytes) (lower : ℕ → ℕ) (taken : Log → ℕ → Packet → Bool)
    (debug_enabled : Bool) {C : Type 0} (l : Link C) (connect : Bytes → Option (Reached C)) where
  chat_session-length :
      (g : Option (Session C) × Desk) (inputs : List Input) (s : Station)
      → length (chat_session f account lower taken debug_enabled l connect g inputs s).1
        ≤ length inputs
  unfolding chat_session
  chat_session-length (none, d) inputs s = omega arith
  chat_session-length (some k, d) inputs s =
      run_turns-length (joined_turn f account lower taken debug_enabled l connect) inputs (k, s)

  join_peer-length :
      (target : Bytes) (inputs : List Input) (s : Station)
      → length (join_peer f account lower taken debug_enabled l connect target inputs s).1
        ≤ length inputs
  unfolding join_peer
  join_peer-length target inputs s = chat_session-length _ inputs s

  -- The next turn is done with this many inputs.
  abbrev Continues : (List Input → Station → Run) → ℕ → Type 0
  Continues continue n =
      (inputs : List Input) (s : Station) → length inputs ≤ n → IsDone (continue inputs s)

  after_line-IsDone :
      (continue : List Input → Station → Run) (inputs : List Input) (next : Next)
      → Continues continue (length inputs)
      → IsDone (after_line f account lower taken debug_enabled l connect continue inputs next)
  unfolding after_line
  after_line-IsDone continue inputs (stay s) c = c inputs s (omega arith)
  after_line-IsDone continue inputs (exit s) c = tt
  after_line-IsDone continue inputs (debug_menu s) c = elim (Bool-cases debug_enabled) [
    | inl e ↦ rw e (c inputs s (omega arith))
    | inr e ↦
        rw e (c (take_answer inputs s).1 (take_answer inputs s).0 (take_answer-length inputs s))
  ]
  after_line-IsDone continue inputs (join target s) c = c _ _ (join_peer-length target inputs s)

  begin_chat-IsDone :
      (continue : List Input → Station → Run) (inputs : List Input) (peers : List Peer)
      (s : Station)
      → Continues continue (length inputs)
      → IsDone (begin_chat f account lower taken debug_enabled l connect continue inputs peers s)
  unfolding begin_chat host_chat host_loop
  begin_chat-IsDone continue inputs [] s c = c inputs s (omega arith)
  begin_chat-IsDone continue inputs (p ∷ peers) s c =
      c _ _ (run_turns-length (host_turn f account lower taken p) inputs _)

  ready_turn-IsDone :
      (continue : List Input → Station → Run) (i : Input) (inputs : List Input) (s : Station)
      → Continues continue (length inputs)
      → IsDone (ready_turn f account lower taken debug_enabled l connect continue i inputs s)
  unfolding ready_turn
  ready_turn-IsDone continue (line_typed line) inputs s c =
      after_line-IsDone continue inputs (run_command f account lower taken (trim line) s) c
  ready_turn-IsDone continue input_ended inputs s c = tt
  ready_turn-IsDone continue peer_picked inputs s c = begin_chat-IsDone continue inputs s.peers s c
  ready_turn-IsDone continue left_picked inputs s c = c inputs s (omega arith)
  ready_turn-IsDone continue (packet_picked p) inputs s c = c inputs s (omega arith)
  ready_turn-IsDone continue (link_closed pending) inputs s c = c inputs s (omega arith)
  ready_turn-IsDone continue (room_moved h new calls) inputs s c =
      c inputs (move_room h new calls s) (omega arith)

  ready_loop-IsDone :
      (fuel : ℕ) (inputs : List Input) (s : Station)
      → length inputs < fuel
      → IsDone (ready_loop f account lower taken debug_enabled l connect fuel inputs s)
  unfolding ready_loop
  ready_loop-IsDone zero inputs s h = absurd (omega (arith, h))
  ready_loop-IsDone (suc fuel) [] s h = tt
  ready_loop-IsDone (suc fuel) (i ∷ inputs) s h =
      ready_turn-IsDone (ready_loop f account lower taken debug_enabled l connect fuel) i inputs s
        (λ later t short. ready_loop-IsDone fuel later t (omega (arith, short, h)))

  -- The loop of ready comes to an end with any inputs, through all the chats that it hosts or joins.
  pub ready-IsDone :
      (inputs : List Input) (s : Station)
      → IsDone (ready f account lower taken debug_enabled l connect inputs s)
  ready-IsDone inputs s = ready_loop-IsDone (length inputs + 1) inputs s (omega arith)
