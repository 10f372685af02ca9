-- ===== src/Terminal/Hosting/Leaving.antt =====
-- How the user leaves a chat of hostChat in cmd/cmd-chat/main.go.
use cmd_chat.Prelude.{
  Bool-cases, All, nat_eq, bytes_eq, Bytes, codes, ℕ, ◌≡◌, refl, ◌⊎◌, inl, inr, Bool, true, false,
  some, List, [], ◌∷◌, ◌++◌, arith,
}
use cmd_chat.Profile.Storage.{Files}
use cmd_chat.Chat.{Packet, Peer}
use cmd_chat.Chat.Room.{
  Event, sent, closed, announced, Log, keys, was_closed, close_link, close_all, disconnect,
}
use cmd_chat.Chat.Room.Relay.{was_closed-append}
use cmd_chat.Chat.Room.Attribution.{Adds, Adds-none, Adds-trans, close_link-Adds}
use cmd_chat.Terminal.{Station, Input, line_typed}
use cmd_chat.Terminal.Turns.{run_turns, run_turns-append}
use cmd_chat.Terminal.Text.{trim, split_command, command_of, quit}
use cmd_chat.Terminal.Text.Words.{BeginsWith, split_command-BeginsWith}
use cmd_chat.Terminal.Hosting.{quit_chat, obey, heed, take_line, host_turn, host_loop}

-- A connection is closed.
abbrev pub IsClosing : Event → Type 0
IsClosing (sent j p) = ⊥
IsClosing (closed j) = Unit
IsClosing (announced p left) = ⊥

close_all-Adds : (ks : List ℕ) (log : Log) → Adds IsClosing log (close_all ks log)
unfolding close_all
close_all-Adds [] log = Adds-none IsClosing log
close_all-Adds (k ∷ ks) log =
    Adds-trans IsClosing log (close_link k log) (close_all ks (close_link k log))
      (close_link-Adds IsClosing (λ _ _ _. true) (λ j. tt) k log)
      (close_all-Adds ks (close_link k log))

close_link_closes : (k : ℕ) (log : Log) → was_closed k (close_link k log) ≡ true
unfolding close_link was_closed
close_link_closes k log = elim (Bool-cases (was_closed k log)) [
  | inl e ↦ rw (e, e) refl
  | inr e ↦ rw (e, was_closed-append k log (closed k ∷ []), e) (ground arith)
]

close_link_keeps :
    (j k : ℕ) (log : Log) → was_closed j log ≡ true → was_closed j (close_link k log) ≡ true
unfolding close_link
close_link_keeps j k log h = elim (Bool-cases (was_closed k log)) [
  | inl e ↦ rw e h
  | inr e ↦ rw (e, was_closed-append j log (closed k ∷ []), h) refl
]

close_all_keeps :
    (j : ℕ) (ks : List ℕ) (log : Log)
    → was_closed j log ≡ true
    → was_closed j (close_all ks log) ≡ true
unfolding close_all
close_all_keeps j [] log h = h
close_all_keeps j (k ∷ ks) log h =
    close_all_keeps j ks (close_link k log) (close_link_keeps j k log h)

close_all_closes : (ks : List ℕ) (log : Log) → All (λ k. was_closed k (close_all ks log) ≡ true) ks
unfolding close_all
close_all_closes [] log = tt
close_all_closes (k ∷ ks) log = (
  close_all_keeps k ks (close_link k log) (close_link_closes k log),
  close_all_closes ks (close_link k log),
)

module _ (f : Files) (account : Bytes) (lower : ℕ → ℕ) (taken : Log → ℕ → Packet → Bool) where
  quit_word :
      (line : Bytes)
      → BeginsWith (codes "/quit") line ⊎ BeginsWith (codes "/exit") line
      → command_of (split_command lower (trim line)).0 ≡ some quit
  unfolding command_of
  quit_word line (inl b) = rw (split_command-BeginsWith lower _ _ line (ground arith) b) refl
  quit_word line (inr b) = rw (split_command-BeginsWith lower _ _ line (ground arith) b) refl

  -- A line that starts, after any blanks, with /quit or /exit in small or capital letters, alone or with
  -- a blank and anything behind it, ends the chat at once when it is typed while the chat goes on: every
  -- client's connection has been closed, and closing is all that the network sees of it; nothing is
  -- queued for a later chat, and the later inputs are unread.
  pub quits :
      (first : Peer) (before rest : List Input) (line : Bytes) (s : Station)
      → (host_loop f account lower taken first before s).0 ≡ false
      → BeginsWith (codes "/quit") line ⊎ BeginsWith (codes "/exit") line
      → let at = (host_loop f account lower taken first before s).1 in
        let r = host_loop f account lower taken first (before ++ (line_typed line ∷ rest)) s in
        (r.0 ≡ true)
        × (r.2 ≡ rest)
        × (r.1.peers ≡ [])
        × (r.1.left ≡ [])
        × All (λ k. was_closed k r.1.log ≡ true) (keys at.host.clients)
        × Adds IsClosing at.log r.1.log
  unfolding host_turn take_line heed obey quit_chat disconnect host_loop run_turns
  quits first before rest line s open_still h =
      rw
        (
          run_turns-append (host_turn f account lower taken first) before (line_typed line ∷ rest) s
              open_still,
          quit_word line h,
        )
        (
          refl,
          refl,
          refl,
          refl,
          close_all_closes (keys at.host.clients) at.log,
          close_all-Adds (keys at.host.clients) at.log,
        )
    where
      at : Station
      at = (host_loop f account lower taken first before s).1
