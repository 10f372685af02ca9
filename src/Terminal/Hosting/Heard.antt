-- ===== src/Terminal/Hosting/Heard.antt =====
-- Who hears what the host says.
use cmd_chat.Prelude.{
  ltb, if◌then◌else◌, Bool-cases, length, All, nat_eq, bytes_eq, Bytes, ℕ, ◌≡◌, refl, sym, ap, ◌∙◌,
  inl, inr, Bool, true, false, Option, none, some, List, [], ◌∷◌, ◌++◌,
}
use mathlib.Core.List.{append_assoc, append-nil}
use cmd_chat.Profile.{Preferences}
use cmd_chat.Profile.Storage.{Files, Store, load, stored_name}
use cmd_chat.Chat.{Packet, Peer, too_long, max_message_bytes}
use cmd_chat.Chat.Room.{Host, Log, say, broadcast, others, keys, was_closed}
use cmd_chat.Chat.Room.Relay.{sendings, AreOpen, send_all-open, was_closed-append}
use cmd_chat.Terminal.{Station, own_message, own_name, Shown, spoken}
use cmd_chat.Terminal.Text.{trim}
use cmd_chat.Terminal.Turns.{run_turns}
use cmd_chat.Terminal.Hosting.{say_line, heed, take_line, host_turn, host_loop}
use cmd_chat.Terminal.{line_typed}
use cmd_chat.Terminal.Hosting.Said.{IsSaid}
use cmd_chat.Terminal.Hosting.Stale.{typed}

abbrev pub is_long : Bytes → Bool
is_long line = ltb max_message_bytes (length (trim line))

-- One line to every one of the connections, unless it is too long.
abbrev pub message_to : Bytes → Bytes → Bytes → List ℕ → Log
message_to id name line ks =
    if is_long line then [] else sendings (own_message id name (trim line)) ks

abbrev pub messages : Bytes → Bytes → List Bytes → List ℕ → Log
messages id name [] ks = []
messages id name (line ∷ lines) ks = message_to id name line ks ++ messages id name lines ks

-- What the writer sees of the lines.
abbrev pub echoes : Bytes → List Bytes → List Shown
echoes name [] = []
echoes name (line ∷ lines) = spoken name (trim line) ∷ echoes name lines

others-none : (ks : List ℕ) → others none ks ≡ ks
unfolding others
others-none [] = refl
others-none (k ∷ ks) = ap (◌∷◌ k) (others-none ks)

sendings_open : (j : ℕ) (p : Packet) (ks : List ℕ) → was_closed j (sendings p ks) ≡ false
unfolding was_closed
sendings_open j p [] = refl
sendings_open j p (k ∷ ks) = sendings_open j p ks

AreOpen-sendings :
    (log : Log) (p : Packet) (ks js : List ℕ) → AreOpen log js → AreOpen (log ++ sendings p ks) js
AreOpen-sendings log p ks [] h = tt
AreOpen-sendings log p ks (j ∷ js) h = (
  was_closed-append j log (sendings p ks) ∙ rw h.0 (sendings_open j p ks),
  AreOpen-sendings log p ks js h.1,
)

-- The name stays what it is once it has been read.
again :
    (f : Files) (account : Bytes) (o : Option Preferences) (file : Option Bytes)
    → let s : Store = record { loaded = o; file = file } in
      (stored_name f account (stored_name f account s).1).0 ≡ (stored_name f account s).0
unfolding stored_name load
again f account none file = refl
again f account (some p) file = refl

stored_name-again :
    (f : Files) (account : Bytes) (s : Store)
    → (stored_name f account (stored_name f account s).1).0 ≡ (stored_name f account s).0
stored_name-again f account s = again f account s.loaded s.file

module _ (f : Files) (account : Bytes) (lower : ℕ → ℕ) (taken : Log → ℕ → Packet → Bool)
    (takes : (log : Log) (k : ℕ) (p : Packet) → taken log k p ≡ true) where
  -- What one line does.
  record Hears (line : Bytes) (s s' : Station) : Type 0 where
    log : s'.log ≡ s.log ++ message_to s.id (own_name f account s.desk).0 line (keys s.host.clients)
    screen :
        s'.desk.screen ≡ s.desk.screen ++ (spoken (own_name f account s.desk).0 (trim line) ∷ [])
    host : s'.host ≡ s.host
    id : s'.id ≡ s.id
    name : (own_name f account s'.desk).0 ≡ (own_name f account s.desk).0

  said_to_all :
      (h : Host) (id name line : Bytes) (log : Log)
      → AreOpen log (keys h.clients)
      → say taken h (own_message id name (trim line)) log
        ≡ log ++ message_to id name line (keys h.clients)
  unfolding say broadcast own_message too_long
  said_to_all h id name line log o = elim (Bool-cases (is_long line)) [
    | inl e ↦ rw e (sym (append-nil log))
    | inr e ↦
        rw (e, others-none (keys h.clients))
          (send_all-open taken takes (keys h.clients) _ log (rw e refl) o)
  ]

  say_line-Hears :
      (line : Bytes) (s : Station)
      → AreOpen s.log (keys s.host.clients)
      → Hears line s (say_line f account lower taken (trim line) s)
  unfolding say_line own_name
  say_line-Hears line s o = record {
    log = said_to_all s.host s.id (own_name f account s.desk).0 line s.log o;
    screen = refl;
    host = refl;
    id = refl;
    name = stored_name-again f account s.desk.store;
  }

  turn-Hears :
      (first : Peer) (line : Bytes) (s : Station)
      → IsSaid lower line
      → AreOpen s.log (keys s.host.clients)
      → ((host_turn f account lower taken first (line_typed line) s).0 ≡ false)
        × Hears line s (host_turn f account lower taken first (line_typed line) s).1
  unfolding host_turn take_line heed
  turn-Hears first line s said o = rw (said.0, said.1) (refl, say_line-Hears line s o)

  AreOpen-message_to :
      (id name line : Bytes) (log : Log) (ks : List ℕ)
      → AreOpen log ks
      → AreOpen (log ++ message_to id name line ks) ks
  AreOpen-message_to id name line log ks o = elim (Bool-cases (is_long line)) [
    | inl e ↦ rw (e, append-nil log) o
    | inr e ↦ rw e (AreOpen-sendings log (own_message id name (trim line)) ks ks o)
  ]

  Hears-messages :
      (line : Bytes) (lines : List Bytes) (s s' : Station)
      → Hears line s s'
      → (s'.log ++ messages s'.id (own_name f account s'.desk).0 lines (keys s'.host.clients)
          ≡ s.log
            ++ messages s.id (own_name f account s.desk).0 (line ∷ lines) (keys s.host.clients))
        × (s'.desk.screen ++ echoes (own_name f account s'.desk).0 lines
            ≡ s.desk.screen ++ echoes (own_name f account s.desk).0 (line ∷ lines))
  Hears-messages line lines s s' now =
      let name = (own_name f account s.desk).0 in
      (
        rw (now.log, now.id, now.name, now.host)
            (append_assoc s.log (message_to s.id name line (keys s.host.clients))
              (messages s.id name lines (keys s.host.clients))),
        rw (now.name, now.screen)
            (append_assoc s.desk.screen (spoken name (trim line) ∷ []) (echoes name lines)),
      )

  -- When the network takes everything and no client's connection has been closed, lines that are not
  -- empty and no commands leave the chat going on and add this to what the room sends: each line of
  -- at most 4096 bytes once to every client, in the order of typing, under the user's own ID and
  -- name, and nothing for a longer one. The user is shown every line as said, the longer ones too.
  pub all_heard :
      (first : Peer) (lines : List Bytes) (s : Station)
      → All (IsSaid lower) lines
      → AreOpen s.log (keys s.host.clients)
      → let r = host_loop f account lower taken first (typed lines) s in
        (r.0 ≡ false)
        × (r.1.log
            ≡ s.log ++ messages s.id (own_name f account s.desk).0 lines (keys s.host.clients))
        × (r.1.desk.screen ≡ s.desk.screen ++ echoes (own_name f account s.desk).0 lines)
  unfolding host_loop run_turns
  all_heard first [] s said o = (refl, sym (append-nil s.log), sym (append-nil s.desk.screen))
  all_heard first (line ∷ lines) s said o =
      let turned = turn-Hears first line s said.0 o in
      let now = turned.1 in
      let s' = (host_turn f account lower taken first (line_typed line) s).1 in
      let name = (own_name f account s.desk).0 in
      let later = all_heard first lines s' said.1 (
        rw (now.log, now.host) (AreOpen-message_to s.id name line s.log (keys s.host.clients) o)) in
      let joined = Hears-messages line lines s s' now in
      rw turned.0 (later.0, later.1 ∙ joined.0, later.2 ∙ joined.1)
