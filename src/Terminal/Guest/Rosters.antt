-- ===== src/Terminal/Guest/Rosters.antt =====
-- Who a guest's /who shows.
use cmd_chat.Prelude.{
  ◌==◌, Bool-cases, length, All, bytes_beq, nat_eq, bytes_eq, Bytes, codes, ℕ, ◌≡◌, refl, sym, ap,
  ◌∙◌, ◌⊎◌, inl, inr, false, Option, none, some, List, [], ◌∷◌, ◌++◌,
}
use cmd_chat.Profile.Storage.{Files}
use cmd_chat.Chat.{Member, Packet}
use cmd_chat.Terminal.{room_shown, Desk, own_name, set_own_nickname, own_message}
use cmd_chat.Terminal.Turns.{run_turns, turns_went_on, run_turns_before, run_turns-append}
use cmd_chat.Terminal.Text.{trim, split_command, Command, quit, who, verify, invite, nick, group}
use cmd_chat.Terminal.{
  Input, line_typed, input_ended, peer_picked, left_picked, room_moved, packet_picked, link_closed,
}
use cmd_chat.Terminal.Guest.{
  Link, Session, rename_on, obey, send_line, heed, take_line, is_handed_on, take_packet,
  session_turn, session_loop, not_nil, roster_of,
}
use cmd_chat.Terminal.Guest.Talking.{word_of}

-- A list of members came with it, which may be empty.
abbrev pub IsRoster : Packet → List Member → Type 0
IsRoster p ms = (p.kind ≡ codes "roster") × (p.members ≡ some ms)

abbrev pub IsNoRoster : Input → Type 0
IsNoRoster (packet_picked p) = (bytes_beq p.kind (codes "roster") ≡ false) ⊎ (p.members ≡ none)
IsNoRoster _ = Unit

module _ (f : Files) (account : Bytes) (lower : ℕ → ℕ) {C : Type 0} (l : Link C) where
  -- A turn without a roster leaves the members, and every turn the room.
  record Same (s s' : Session C) : Type 0 where
    members : s'.members ≡ s.members
    room : s'.room_id ≡ s.room_id

  unchanged : (s s' : Session C) → s'.members ≡ s.members → s'.room_id ≡ s.room_id → Same s s'
  unchanged s s' m r = record { members = m; room = r }

  rename_on-Same :
      (s : Session C) (r : Option Bytes × Desk) → Same s (rename_on f account lower l r s)
  unfolding rename_on
  rename_on-Same s (none, desk) = unchanged s _ refl refl
  rename_on-Same s (some name, desk) = unchanged s _ refl refl

  obey-Same :
      (s : Session C) (c : Command) (argument : Bytes)
      → Same s (obey f account lower l c argument s).1
  unfolding obey
  obey-Same s quit argument = unchanged s _ refl refl
  obey-Same s who argument = unchanged s _ refl refl
  obey-Same s verify argument = unchanged s _ refl refl
  obey-Same s invite argument = unchanged s _ refl refl
  obey-Same s nick argument = rename_on-Same s (set_own_nickname f account argument s.desk)
  obey-Same s group argument = unchanged s _ refl refl

  send_line-Same : (s : Session C) (text : Bytes) → Same s (send_line f account lower l text s).1
  unfolding send_line
  send_line-Same s text =
      let name = (own_name f account s.desk).0 in
      elim (Bool-cases (l.send s.link (own_message s.id name text)).0) [
        | inl e ↦ rw e (unchanged s _ refl refl)
        | inr e ↦ rw e (unchanged s _ refl refl)
      ]

  heed-Same :
      (s : Session C) (c : Option Command) (argument text : Bytes)
      → Same s (heed f account lower l c argument text s).1
  unfolding heed
  heed-Same s (some c) argument text = obey-Same s c argument
  heed-Same s none argument text = elim (Bool-cases (length text == 0)) [
    | inl b ↦ rw b (unchanged s s refl refl)
    | inr b ↦ rw b (send_line-Same s text)
  ]

  no_roster : (p : Packet) (ms : List Member) → IsNoRoster (packet_picked p) → roster_of p ms ≡ ms
  unfolding roster_of not_nil
  no_roster p ms (inl e) = rw e refl
  no_roster p ms (inr e) = elim (Bool-cases (bytes_beq p.kind (codes "roster"))) [
    | inl k ↦ simp (k, e)
    | inr k ↦ simp k
  ]

  turn-Same :
      (s : Session C) (i : Input) → IsNoRoster i → Same s (session_turn f account lower l i s).1
  unfolding session_turn take_line take_packet roster_of
  turn-Same s (packet_picked p) q = elim (Bool-cases (is_handed_on p)) [
    | inl e ↦ rw e (unchanged s _ (no_roster p s.members q) refl)
    | inr e ↦ rw e (unchanged s s refl refl)
  ]
  turn-Same s (line_typed line) q =
      heed-Same s (word_of lower line) (split_command lower (trim line)).1 (trim line)
  turn-Same s input_ended q = unchanged s s refl refl
  turn-Same s peer_picked q = unchanged s s refl refl
  turn-Same s left_picked q = unchanged s s refl refl
  turn-Same s (room_moved h new calls) q = unchanged s s refl refl
  turn-Same s (link_closed pending) q = unchanged s _ refl refl

  -- As long as the session goes on, inputs without a roster leave the members.
  loop-Same :
      (inputs : List Input) (s : Session C)
      → All IsNoRoster inputs
      → (session_loop f account lower l inputs s).0 ≡ false
      → Same s (session_loop f account lower l inputs s).1
  unfolding session_loop run_turns
  loop-Same [] s q h = unchanged s s refl refl
  loop-Same (i ∷ inputs) s q h =
      let turn = session_turn f account lower l i s in
      elim (Bool-cases turn.0) [
        | inl e ↦ absurd (cc (rw e at h))
        | inr e ↦ rw e (
            let now = turn-Same s i q.0 in
            let later = loop-Same inputs turn.1 q.1 (rw e at h) in
            unchanged s _ (later.members ∙ now.members) (later.room ∙ now.room))
      ]

  picked :
      (p : Packet) (s : Session C) → (session_turn f account lower l (packet_picked p) s).0 ≡ false
  unfolding session_turn
  picked p s = refl

  taken_over :
      (p : Packet) (ms : List Member) (s : Session C)
      → IsRoster p ms
      → (session_turn f account lower l (packet_picked p) s).1.members ≡ ms
  unfolding session_turn take_packet roster_of not_nil is_handed_on
  taken_over p ms s r = simp (r.0, r.1)

  turn_room :
      (i : Input) (s : Session C) → (session_turn f account lower l i s).1.room_id ≡ s.room_id
  unfolding session_turn take_packet
  turn_room (packet_picked p) s = elim (Bool-cases (is_handed_on p)) [
    | inl e ↦ rw e refl
    | inr e ↦ rw e refl
  ]
  turn_room (line_typed line) s = (turn-Same s (line_typed line) tt).room
  turn_room input_ended s = refl
  turn_room peer_picked s = refl
  turn_room left_picked s = refl
  turn_room (room_moved h new calls) s = refl
  turn_room (link_closed pending) s = refl

  loop_room :
      (inputs : List Input) (s : Session C)
      → (session_loop f account lower l inputs s).1.room_id ≡ s.room_id
  unfolding session_loop run_turns
  loop_room [] s = refl
  loop_room (i ∷ inputs) s = elim (Bool-cases (session_turn f account lower l i s).0) [
    | inl e ↦ rw e (turn_room i s)
    | inr e ↦ rw e (loop_room inputs (session_turn f account lower l i s).1 ∙ turn_room i s)
  ]

  -- Once a roster has come, and no other, its members are the session's.
  roster_stays :
      (before after : List Input) (p : Packet) (ms : List Member) (s : Session C)
      → IsRoster p ms
      → All IsNoRoster after
      → (session_loop f account lower l (before ++ (packet_picked p ∷ after)) s).0 ≡ false
      → (session_loop f account lower l (before ++ (packet_picked p ∷ after)) s).1.members ≡ ms
  unfolding session_loop
  roster_stays before after p ms s r q h =
      let turn = session_turn f account lower l in
      let at = (run_turns turn before s).1 in
      let path =
        run_turns-append turn before (packet_picked p ∷ after) s
          (run_turns_before turn before (packet_picked p ∷ after) s h) in
      let took = path ∙ turns_went_on turn (packet_picked p) after at (picked p at) in
      ap (λ x. x.1.members) took
      ∙ (loop-Same after (turn (packet_picked p) at).1 q (sym (ap (λ x. x.0) took) ∙ h)).members
      ∙ taken_over p ms at r

  -- While a guest's session goes on, /who shows under the room's ID the members that came with the
  -- last roster, all of them and no others, also when its list was empty, whatever was said, typed
  -- or shown since.
  pub who_shows :
      (before after : List Input) (p : Packet) (ms : List Member) (line : Bytes) (s : Session C)
      → IsRoster p ms
      → All IsNoRoster after
      → word_of lower line ≡ some who
      → let taken = before ++ (packet_picked p ∷ after) in
        (session_loop f account lower l taken s).0 ≡ false
        → (session_loop f account lower l (taken ++ (line_typed line ∷ [])) s).1.desk.screen
          ≡ (session_loop f account lower l taken s).1.desk.screen ++ (room_shown ms s.room_id ∷ [])
  unfolding session_loop run_turns session_turn take_line heed obey
  who_shows before after p ms line s r q h e =
      rw
        (
          run_turns-append (session_turn f account lower l) (before ++ (packet_picked p ∷ after))
              (line_typed line ∷ []) s e,
          h,
        )
        (ap (λ x. at.desk.screen ++ (x ∷ []))
          (ap (λ x. room_shown x at.room_id) (roster_stays before after p ms s r q e)
            ∙ ap (room_shown ms) (loop_room (before ++ (packet_picked p ∷ after)) s)))
    where
      at : Session C
      at = (session_loop f account lower l (before ++ (packet_picked p ∷ after)) s).1
