-- ===== src/Terminal/Guest/Talking.antt =====
-- What a guest's session does to its connection.
use cmd_chat.Prelude.{
  ◌==◌, Bool-cases, length, nat_eq, bytes_eq, Bytes, ℕ, ◌≡◌, refl, sym, subst, ◌⊎◌, inl, inr, Bool,
  true, false, Option, none, some, List, [], ◌∷◌,
}
use cmd_chat.Profile.Storage.{Files}
use cmd_chat.Terminal.{Desk, own_message, own_name, set_own_nickname}
use cmd_chat.Terminal.Turns.{run_turns}
use cmd_chat.Terminal.Text.{
  trim, split_command, command_of, Command, quit, who, verify, invite, nick, group,
}
use cmd_chat.Terminal.Hosting.Said.{IsSaid}
use cmd_chat.Terminal.{
  Input, line_typed, input_ended, peer_picked, left_picked, room_moved, packet_picked, link_closed,
}
use cmd_chat.Terminal.Guest.{
  Link, Session, rename_on, obey, send_line, heed, take_line, is_handed_on, take_packet,
  session_turn, session_loop,
}

module _ (lower : ℕ → ℕ) where
  abbrev pub word_of : Bytes → Option Command
  word_of line = command_of (split_command lower (trim line)).0

  -- A line that is answered at the user's own terminal.
  abbrev pub IsLocal : Bytes → Type 0
  IsLocal line =
      (word_of line ≡ some who)
      ⊎ (word_of line ≡ some verify)
      ⊎ (word_of line ≡ some invite)
      ⊎ (word_of line ≡ some group)
      ⊎ ((word_of line ≡ none) × ((length (trim line) == 0) ≡ true))

  abbrev pub IsQuiet : Input → Type 0
  IsQuiet (packet_picked p) = Unit
  IsQuiet (line_typed line) = IsLocal line ⊎ (word_of line ≡ some nick)
  IsQuiet input_ended = ⊥
  IsQuiet peer_picked = Unit
  IsQuiet left_picked = Unit
  IsQuiet (room_moved h new calls) = Unit
  IsQuiet (link_closed pending) = ⊥

  abbrev pub IsEnd : Input → Type 0
  IsEnd (packet_picked p) = ⊥
  IsEnd (line_typed line) = word_of line ≡ some quit
  IsEnd input_ended = Unit
  IsEnd peer_picked = ⊥
  IsEnd left_picked = ⊥
  IsEnd (room_moved h new calls) = ⊥
  IsEnd (link_closed pending) = Unit

  -- What the inputs may do to a connection: one sending for each line that is said, in order; a
  -- change of name for a command that asks for it, at most one; and nothing else.
  pub data Talks {C : Type 0} (l : Link C) (id : Bytes) : List Input → C → C → Type 0 where
    waits : {c : C} → Talks l id [] c c
    is_quiet :
        {c d : C} {i : Input} {inputs : List Input}
        → IsQuiet i
        → Talks l id inputs c d
        → Talks l id (i ∷ inputs) c d
    renames :
        {c d : C} {line : Bytes} {inputs : List Input} (name : Bytes)
        → word_of line ≡ some nick
        → Talks l id inputs (l.rename c name) d
        → Talks l id (line_typed line ∷ inputs) c d
    says :
        {c d : C} {line : Bytes} {inputs : List Input} (name : Bytes)
        → IsSaid lower line
        → (l.send c (own_message id name (trim line))).0 ≡ true
        → Talks l id inputs (l.send c (own_message id name (trim line))).1 d
        → Talks l id (line_typed line ∷ inputs) c d
    fails :
        {c : C} {line : Bytes} {inputs : List Input} (name : Bytes)
        → IsSaid lower line
        → (l.send c (own_message id name (trim line))).0 ≡ false
        → Talks l id (line_typed line ∷ inputs) c (l.send c (own_message id name (trim line))).1
    ends : {c : C} {i : Input} {inputs : List Input} → IsEnd i → Talks l id (i ∷ inputs) c c

module _ (f : Files) (account : Bytes) (lower : ℕ → ℕ) {C : Type 0} (l : Link C) where
  -- A turn does to the connection what its input may do.
  record Follows (s : Session C) (i : Input) (b : Bool) (s' : Session C) : Type 0 where
    goes_on :
        (inputs : List Input) (d : C)
        → b ≡ false
        → Talks lower l s.id inputs s'.link d
        → Talks lower l s.id (i ∷ inputs) s.link d
    stops : (inputs : List Input) → b ≡ true → Talks lower l s.id (i ∷ inputs) s.link s'.link
    same_id : s'.id ≡ s.id

  quiet-Follows :
      (s s' : Session C) (i : Input)
      → IsQuiet lower i
      → s'.link ≡ s.link
      → s'.id ≡ s.id
      → Follows s i false s'
  quiet-Follows s s' i q e same = record {
    goes_on = λ inputs d b t. Talks.is_quiet q (subst (λ c. Talks lower l s.id inputs c d) e t);
    stops = λ inputs b. absurd (cc b);
    same_id = same;
  }

  end-Follows :
      (s s' : Session C) (i : Input)
      → IsEnd lower i
      → s'.link ≡ s.link
      → s'.id ≡ s.id
      → Follows s i true s'
  end-Follows s s' i q e same = record {
    goes_on = λ inputs d b. absurd (cc b);
    stops =
        λ inputs b. subst (λ c. Talks lower l s.id (i ∷ inputs) s.link c) (sym e) (Talks.ends q);
    same_id = same;
  }

  renamed-Follows :
      (s : Session C) (line : Bytes) (r : Option Bytes × Desk)
      → word_of lower line ≡ some nick
      → Follows s (line_typed line) false (rename_on f account lower l r s)
  unfolding rename_on
  renamed-Follows s line (none, desk) h = quiet-Follows s _ (line_typed line) (inr h) refl refl
  renamed-Follows s line (some name, desk) h = record {
    goes_on = λ inputs d b t. Talks.renames name h t;
    stops = λ inputs b. absurd (cc b);
    same_id = refl;
  }

  obey-Follows :
      (s : Session C) (line argument : Bytes) (c : Command)
      → word_of lower line ≡ some c
      → Follows s
          (line_typed line)
          (obey f account lower l c argument s).0
          (obey f account lower l c argument s).1
  unfolding obey
  obey-Follows s line argument quit h = end-Follows s _ (line_typed line) h refl refl
  obey-Follows s line argument who h = quiet-Follows s _ (line_typed line) (inl (inl h)) refl refl
  obey-Follows s line argument verify h =
      quiet-Follows s _ (line_typed line) (inl (inr (inl h))) refl refl
  obey-Follows s line argument invite h =
      quiet-Follows s _ (line_typed line) (inl (inr (inr (inl h)))) refl refl
  obey-Follows s line argument nick h =
      renamed-Follows s line (set_own_nickname f account argument s.desk) h
  obey-Follows s line argument group h =
      quiet-Follows s _ (line_typed line) (inl (inr (inr (inr (inl h))))) refl refl

  send_line-Follows :
      (s : Session C) (line : Bytes)
      → IsSaid lower line
      → Follows s
          (line_typed line)
          (send_line f account lower l (trim line) s).0
          (send_line f account lower l (trim line) s).1
  unfolding send_line
  send_line-Follows s line h =
      let name = (own_name f account s.desk).0 in
      elim (Bool-cases (l.send s.link (own_message s.id name (trim line))).0) [
        | inl e ↦ rw e (record {
          goes_on = λ inputs d b t. Talks.says name h e t;
          stops = λ inputs b. absurd (cc b);
          same_id = refl;
        })
        | inr e ↦ rw e (record {
          goes_on = λ inputs d b. absurd (cc b);
          stops = λ inputs b. Talks.fails name h e;
          same_id = refl;
        })
      ]

  heed-Follows :
      (s : Session C) (line argument : Bytes) (c : Option Command)
      → word_of lower line ≡ c
      → Follows s
          (line_typed line)
          (heed f account lower l c argument (trim line) s).0
          (heed f account lower l c argument (trim line) s).1
  unfolding heed
  heed-Follows s line argument (some c) h = obey-Follows s line argument c h
  heed-Follows s line argument none h = elim (Bool-cases (length (trim line) == 0)) [
    | inl b ↦
        rw b (quiet-Follows s s (line_typed line) (inl (inr (inr (inr (inr (h, b)))))) refl refl)
    | inr b ↦ rw b (send_line-Follows s line (h, b))
  ]

  turn-Follows :
      (s : Session C) (i : Input)
      → Follows s i (session_turn f account lower l i s).0 (session_turn f account lower l i s).1
  unfolding session_turn take_line take_packet
  turn-Follows s (packet_picked p) = elim (Bool-cases (is_handed_on p)) [
    | inl e ↦ rw e (quiet-Follows s _ (packet_picked p) tt refl refl)
    | inr e ↦ rw e (quiet-Follows s s (packet_picked p) tt refl refl)
  ]
  turn-Follows s (line_typed line) =
      heed-Follows s line (split_command lower (trim line)).1 (word_of lower line) refl
  turn-Follows s input_ended = end-Follows s s input_ended tt refl refl
  turn-Follows s peer_picked = quiet-Follows s s peer_picked tt refl refl
  turn-Follows s left_picked = quiet-Follows s s left_picked tt refl refl
  turn-Follows s (room_moved h new calls) = quiet-Follows s s (room_moved h new calls) tt refl refl
  turn-Follows s (link_closed pending) = end-Follows s _ (link_closed pending) tt refl refl

  -- Whatever is typed, received or closed, a guest's session does to its connection this and no
  -- more: each line that is not empty and no command is sent once, trimmed, under the guest's own
  -- ID and in the order of typing, until a sending fails or an input ends the session; and a line
  -- with /nick or /name renames the guest at most once. The other commands never reach it.
  pub session_loop-Talks :
      (inputs : List Input) (s : Session C)
      → Talks lower l s.id inputs s.link (session_loop f account lower l inputs s).1.link
  unfolding session_loop run_turns
  session_loop-Talks [] s = Talks.waits
  session_loop-Talks (i ∷ inputs) s =
      let turn = session_turn f account lower l i s in
      let follows = turn-Follows s i in
      elim (Bool-cases turn.0) [
        | inl e ↦ rw e (follows.stops inputs e)
        | inr e ↦ rw e (
            let d = (session_loop f account lower l inputs turn.1).1.link in
            follows.goes_on inputs d e (
              subst (λ id. Talks lower l id inputs turn.1.link d) follows.same_id
                (session_loop-Talks inputs turn.1)))
      ]
