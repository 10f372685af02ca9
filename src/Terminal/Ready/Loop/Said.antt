-- ===== src/Terminal/Ready/Loop/Said.antt =====
-- What leaves the computer through the own room over a whole run of the loop of ready.
use cmd_chat.Prelude.{
  Bool-cases, length, All, nat_eq, bytes_eq, Bytes, ℕ, zero, suc, ◌+◌, ◌≡◌, refl, sym, subst, inl,
  inr, Bool, Option, none, some, List, [], ◌∷◌, arith,
}
use cmd_chat.Profile.Storage.{Files}
use cmd_chat.Chat.{Packet, Peer}
use cmd_chat.Chat.Room.{Log, Event}
use cmd_chat.Chat.Room.Attribution.{Adds}
use cmd_chat.Terminal.{
  Input, line_typed, input_ended, peer_picked, left_picked, room_moved, packet_picked, link_closed,
  Station, Desk, set_own_nickname,
}
use cmd_chat.Terminal.Text.{
  trim, split_command, command_of, Command, quit, who, verify, invite, nick, group,
}
use cmd_chat.Terminal.Turns.{run_turns, All-run_turns}
use cmd_chat.Terminal.Hosting.{move_room, host_turn, host_loop, host_chat}
use cmd_chat.Terminal.Hosting.Said.{
  IsNotice, IsTyped, Grows, Grows-none, Grows-trans, notify_host-Grows, set_group_chat-Grows,
  move_room-Grows, host_loop-Grows, Allowed, every-Allowed,
}
use cmd_chat.Terminal.Guest.{Link, Session}
use cmd_chat.Terminal.Ready.{Next, stay, exit, debug_menu, join, run_word, run_option, run_command}
use cmd_chat.Terminal.Ready.Loop.Ending.{IsDone, ready-IsDone}
use cmd_chat.Terminal.Ready.Loop.{
  Reached, take_answer, Run, joined_turn, chat_session, begun, join_peer, after_line, begin_chat,
  ready_turn, ready_loop, ready,
}

module _ (f : Files) (account : Bytes) (lower : ℕ → ℕ) (taken : Log → ℕ → Packet → Bool)
    (P : Event → Type 0) (fine : (e : Event) → IsNotice e → P e) where
  abbrev Grown : Station → Station → Type 0
  Grown = Grows f account lower taken P fine

  abbrev Unchanged : (s : Station) → Grown s s
  Unchanged s = Grows-none f account lower taken P fine s

  abbrev Permitted : Bytes → List Input → Type 0
  Permitted id = All (Allowed f account lower taken P fine id)

  -- A line at the prompt says nothing in the room.
  abbrev NextGrown : Station → Next → Type 0
  NextGrown s (stay t) = Grown s t
  NextGrown s (exit t) = Grown s t
  NextGrown s (debug_menu t) = Grown s t
  NextGrown s (join target t) = Grown s t

  run_word-Grown :
      (text : Bytes) (s : Station) → NextGrown s (run_word f account lower taken text s)
  unfolding run_word
  run_word-Grown text s = ground (arith, Unchanged s)

  run_option-Grown :
      (c : Option Command) (argument text : Bytes) (s : Station)
      → NextGrown s (run_option f account lower taken c argument text s)
  unfolding run_option
  run_option-Grown none argument text s = run_word-Grown text s
  run_option-Grown (some quit) argument text s = run_word-Grown text s
  run_option-Grown (some verify) argument text s = run_word-Grown text s
  run_option-Grown (some who) argument text s = Unchanged s
  run_option-Grown (some invite) argument text s = Unchanged s
  run_option-Grown (some nick) argument text s =
      notify_host-Grows f account lower taken P fine (set_own_nickname f account argument s.desk) s
  run_option-Grown (some group) argument text s =
      set_group_chat-Grows f account lower taken P fine argument s

  take_answer-Grown :
      (id : Bytes) (inputs : List Input) (s : Station)
      → Permitted id inputs
      → Grown s (take_answer inputs s).0 × Permitted id (take_answer inputs s).1
  unfolding take_answer Allowed
  take_answer-Grown id [] s h = (Unchanged s, tt)
  take_answer-Grown id (line_typed line ∷ inputs) s h = (Unchanged s, h.1)
  take_answer-Grown id (input_ended ∷ inputs) s h = (Unchanged s, h.1)
  take_answer-Grown id (peer_picked ∷ inputs) s h = take_answer-Grown id inputs s h.1
  take_answer-Grown id (left_picked ∷ inputs) s h = take_answer-Grown id inputs s h.1
  take_answer-Grown id (packet_picked p ∷ inputs) s h = take_answer-Grown id inputs s h.1
  take_answer-Grown id (link_closed pending ∷ inputs) s h = take_answer-Grown id inputs s h.1
  take_answer-Grown id (room_moved r new calls ∷ inputs) s h =
      let later = take_answer-Grown id inputs (move_room r new calls s) h.1 in
      (
        Grows-trans f account lower taken P fine s (move_room r new calls s)
            (take_answer inputs (move_room r new calls s)).0
            (move_room-Grows f account lower taken P fine r new calls s h.0) later.0,
        later.1,
      )

  -- What a run has become.
  abbrev RunGrown : Station → Run → Type 0
  RunGrown s none = Unit
  RunGrown s (some r) = Grown s r.1

  RunGrown-trans : (s t : Station) (r : Run) → Grown s t → RunGrown t r → RunGrown s r
  RunGrown-trans s t none g h = tt
  RunGrown-trans s t (some r) g h = Grows-trans f account lower taken P fine s t r.1 g h

  -- The next turn of a run under an ID.
  abbrev Continues : (List Input → Station → Run) → Type 0
  Continues continue =
      (inputs : List Input) (s : Station) → Permitted s.id inputs → RunGrown s (continue inputs s)

  goes_on :
      (continue : List Input → Station → Run) (inputs : List Input) (s t : Station)
      → Continues continue
      → Grown s t
      → Permitted s.id inputs
      → RunGrown s (continue inputs t)
  goes_on continue inputs s t c g h =
      RunGrown-trans s t (continue inputs t) g
        (c inputs t (subst (λ id. Permitted id inputs) (sym g.1) h))

  module _ (debug_enabled : Bool) {C : Type 0} (l : Link C)
      (connect : Bytes → Option (Reached C)) where
    joined_turn-Grown :
        (i : Input) (k : Session C) (s : Station)
        → Allowed f account lower taken P fine s.id i
        → Grown s (joined_turn f account lower taken debug_enabled l connect i (k, s)).1.1
    unfolding joined_turn Allowed
    joined_turn-Grown (room_moved h new calls) k s a =
        move_room-Grows f account lower taken P fine h new calls s a
    joined_turn-Grown (line_typed line) k s a = Unchanged s
    joined_turn-Grown input_ended k s a = Unchanged s
    joined_turn-Grown peer_picked k s a = Unchanged s
    joined_turn-Grown left_picked k s a = Unchanged s
    joined_turn-Grown (packet_picked p) k s a = Unchanged s
    joined_turn-Grown (link_closed pending) k s a = Unchanged s

    abbrev joins_turn : Input → Session C × Station → Bool × (Session C × Station)
    joins_turn = joined_turn f account lower taken debug_enabled l connect

    joined-Grown :
        (inputs : List Input) (k : Session C) (s : Station)
        → Permitted s.id inputs
        → Grown s (run_turns joins_turn inputs (k, s)).1.1
    unfolding run_turns
    joined-Grown [] k s h = Unchanged s
    joined-Grown (i ∷ inputs) k s h =
        let now = joined_turn-Grown i k s h.0 in
        let t = (joins_turn i (k, s)).1 in
        elim (Bool-cases (joins_turn i (k, s)).0) [
          | inl e ↦ rw e now
          | inr e ↦ rw e (
              Grows-trans f account lower taken P fine s t.1
                (run_turns joins_turn inputs (t.0, t.1)).1.1 now
                (joined-Grown inputs t.0 t.1 (subst (λ id. Permitted id inputs) (sym now.1) h.1)))
        ]

    chat_session-Grown :
        (g : Option (Session C) × Desk) (inputs : List Input) (s : Station)
        → Permitted s.id inputs
        → let r = chat_session f account lower taken debug_enabled l connect g inputs s in
          Grown s r.0 × Permitted s.id r.1
    unfolding chat_session
    chat_session-Grown (none, d) inputs s h = (Unchanged s, h)
    chat_session-Grown (some k, d) inputs s h = (
      joined-Grown inputs k s h,
      All-run_turns joins_turn (Allowed f account lower taken P fine s.id) inputs (k, s) h,
    )

    after_line-Grown :
        (continue : List Input → Station → Run) (inputs : List Input) (s : Station) (next : Next)
        → Continues continue
        → NextGrown s next
        → Permitted s.id inputs
        → RunGrown s (after_line f account lower taken debug_enabled l connect continue inputs next)
    unfolding after_line join_peer
    after_line-Grown continue inputs s (stay t) c g h = goes_on continue inputs s t c g h
    after_line-Grown continue inputs s (exit t) c g h = g
    after_line-Grown continue inputs s (debug_menu t) c g h =
        let answered = take_answer-Grown s.id inputs t h in
        elim (Bool-cases debug_enabled) [
          | inl e ↦ rw e (goes_on continue inputs s t c g h)
          | inr e ↦ rw e (
              goes_on continue (take_answer inputs t).1 s (take_answer inputs t).0 c
                (Grows-trans f account lower taken P fine s t (take_answer inputs t).0 g answered.0)
                answered.1)
        ]
    after_line-Grown continue inputs s (join target t) c g h =
        let b = begun f account lower taken debug_enabled l connect t.id (connect target) t.desk in
        let r = chat_session f account lower taken debug_enabled l connect b inputs t in
        let joined =
          chat_session-Grown b inputs t (subst (λ id. Permitted id inputs) (sym g.1) h) in
        goes_on continue r.1 s r.0 c (Grows-trans f account lower taken P fine s t r.0 g joined.0)
          (subst (λ id. Permitted id r.1) g.1 joined.1)

    begin_chat-Grown :
        (continue : List Input → Station → Run) (inputs : List Input) (peers : List Peer)
        (s : Station)
        → Continues continue
        → Permitted s.id inputs
        → RunGrown s
            (begin_chat f account lower taken debug_enabled l connect continue inputs peers s)
    unfolding begin_chat host_chat host_loop
    begin_chat-Grown continue inputs [] s c h = c inputs s h
    begin_chat-Grown continue inputs (p ∷ peers) s c h =
        let r = host_chat f account lower taken p inputs (record s { peers = peers }) in
        goes_on continue r.2 s r.1 c (host_loop-Grows f account lower taken P fine p inputs _ h) (
          All-run_turns (host_turn f account lower taken p)
            (Allowed f account lower taken P fine s.id) inputs _ h)

    ready_turn-Grown :
        (continue : List Input → Station → Run) (i : Input) (inputs : List Input) (s : Station)
        → Continues continue
        → Permitted s.id (i ∷ inputs)
        → RunGrown s (ready_turn f account lower taken debug_enabled l connect continue i inputs s)
    unfolding ready_turn run_command Allowed
    ready_turn-Grown continue (line_typed line) inputs s c h =
        let parts = split_command lower (trim line) in
        after_line-Grown continue inputs s (run_command f account lower taken (trim line) s) c
          (run_option-Grown (command_of parts.0) parts.1 (trim line) s) h.1
    ready_turn-Grown continue input_ended inputs s c h = Unchanged s
    ready_turn-Grown continue peer_picked inputs s c h =
        begin_chat-Grown continue inputs s.peers s c h.1
    ready_turn-Grown continue left_picked inputs s c h = c inputs s h.1
    ready_turn-Grown continue (room_moved r new calls) inputs s c h =
        goes_on continue inputs s (move_room r new calls s) c
          (move_room-Grows f account lower taken P fine r new calls s h.0) h.1
    ready_turn-Grown continue (packet_picked p) inputs s c h = c inputs s h.1
    ready_turn-Grown continue (link_closed pending) inputs s c h = c inputs s h.1

    pub ready_loop-Grown :
        (fuel : ℕ) (inputs : List Input) (s : Station)
        → Permitted s.id inputs
        → RunGrown s (ready_loop f account lower taken debug_enabled l connect fuel inputs s)
    unfolding ready_loop
    ready_loop-Grown zero inputs s h = tt
    ready_loop-Grown (suc fuel) [] s h = Unchanged s
    ready_loop-Grown (suc fuel) (i ∷ inputs) s h =
        ready_turn-Grown (ready_loop f account lower taken debug_enabled l connect fuel) i inputs s
          (λ later t. ready_loop-Grown fuel later t) h

-- A run that is done, and what it has added.
done_and_grown :
    (f : Files) (account : Bytes) (lower : ℕ → ℕ) (taken : Log → ℕ → Packet → Bool)
    (P : Event → Type 0) (fine : (e : Event) → IsNotice e → P e) (s : Station) (run : Run)
    → IsDone run
    → RunGrown f account lower taken P fine s run
    → (r : Bool × Station × List Input) × (run ≡ some r) × Adds P s.log r.1.log
done_and_grown f account lower taken P fine s none d g = absurd d
done_and_grown f account lower taken P fine s (some r) d g = (r, refl, g.0)

module _ (f : Files) (account : Bytes) (lower : ℕ → ℕ) (taken : Log → ℕ → Packet → Bool)
    (debug_enabled : Bool) {C : Type 0} (l : Link C) (connect : Bytes → Option (Reached C)) where
  -- The loop of ready comes to an end with any inputs. Over all of it, with every chat that it hosts
  -- or joins, each message that is added to what the own room sends is a line that was typed, trimmed
  -- and under the user's own ID, and that line is not empty and no command; all else that is added is
  -- no message, or is what the room itself did.
  pub ready-IsTyped :
      (inputs : List Input) (s : Station)
      → (r : Bool × Station × List Input) × (ready f account lower taken debug_enabled l connect
            inputs s
          ≡ some r)
        × Adds (IsTyped lower s.id inputs) s.log r.1.log
  ready-IsTyped inputs s =
      done_and_grown f account lower taken (IsTyped lower s.id inputs) (λ e n. IsTyped.other n) s
        (ready f account lower taken debug_enabled l connect inputs s)
        (ready-IsDone f account lower taken debug_enabled l connect inputs s)
        (ready_loop-Grown f account lower taken (IsTyped lower s.id inputs) (λ e n. IsTyped.other n)
          debug_enabled l connect (length inputs + 1) inputs s
          (every-Allowed f account lower taken s.id inputs inputs (λ i m. m)))
