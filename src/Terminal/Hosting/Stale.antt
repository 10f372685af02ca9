-- ===== src/Terminal/Hosting/Stale.antt =====
-- A chat with somebody who has left before it began: while the station was the guest of another, a
-- peer came and went, and both events were queued.
use cmd_chat.Prelude.{
  Bool-cases, All, nat_eq, bytes_eq, Bytes, ℕ, ◌≡◌, refl, ◌∙◌, inl, inr, Bool, true, false, List,
  [], ◌∷◌,
}
use cmd_chat.Profile.Storage.{Files}
use cmd_chat.Chat.{Packet, Peer, too_long}
use cmd_chat.Chat.Room.{Log, say, broadcast, others, send_all}
use cmd_chat.Terminal.{Station, on_peer, own_message, own_name}
use cmd_chat.Terminal.Turns.{run_turns}
use cmd_chat.Terminal.Text.{trim}
use cmd_chat.Terminal.{Input, line_typed}
use cmd_chat.Terminal.Hosting.{say_line, heed, take_line, host_turn, host_loop, host_chat}
use cmd_chat.Terminal.Hosting.Said.{IsSaid}

abbrev pub typed : List Bytes → List Input
typed [] = []
typed (line ∷ lines) = line_typed line ∷ typed lines

module _ (f : Files) (account : Bytes) (lower : ℕ → ℕ) (taken : Log → ℕ → Packet → Bool) where
  -- Nothing was sent and nobody is there.
  record Unheard (s s' : Station) : Type 0 where
    log : s'.log ≡ s.log
    host : s'.host ≡ s.host
    left : s'.left ≡ s.left

  say_line-Unheard :
      (text : Bytes) (s : Station)
      → s.host.clients ≡ []
      → Unheard s (say_line f account lower taken text s)
  unfolding say_line say broadcast others send_all
  say_line-Unheard text s alone = record {
    log = elim (Bool-cases (too_long message)) [ inl e ↦ rw e refl | inr e ↦ rw (e, alone) refl ];
    host = refl;
    left = refl;
  }
    where
      message : Packet
      message = own_message s.id (own_name f account s.desk).0 text

  said_turn-Unheard :
      (first : Peer) (line : Bytes) (s : Station)
      → s.host.clients ≡ []
      → IsSaid lower line
      → ((host_turn f account lower taken first (line_typed line) s).0 ≡ false)
        × Unheard s (host_turn f account lower taken first (line_typed line) s).1
  unfolding host_turn take_line heed
  said_turn-Unheard first line s alone h =
      rw (h.0, h.1) (refl, say_line-Unheard (trim line) s alone)

  Unheard-trans : (s t u : Station) → Unheard s t → Unheard t u → Unheard s u
  Unheard-trans s t u a b = record {
    log = b.log ∙ a.log;
    host = b.host ∙ a.host;
    left = b.left ∙ a.left;
  }

  said_loop-Unheard :
      (first : Peer) (lines : List Bytes) (s : Station)
      → s.host.clients ≡ []
      → All (IsSaid lower) lines
      → ((host_loop f account lower taken first (typed lines) s).0 ≡ false)
        × Unheard s (host_loop f account lower taken first (typed lines) s).1
  unfolding host_loop run_turns
  said_loop-Unheard first [] s alone h = (refl, record { log = refl; host = refl; left = refl })
  said_loop-Unheard first (line ∷ lines) s alone h =
      let turn = host_turn f account lower taken first (line_typed line) s in
      let now = said_turn-Unheard first line s alone h.0 in
      let later = said_loop-Unheard first lines turn.1 (rw now.1.host alone) h.1 in
      rw now.0 (later.0, Unheard-trans s turn.1 _ now.1 later.1)

  -- A peer comes and goes while the station is elsewhere, and the room is empty: the chat that is
  -- then begun with that peer has dropped the departure, goes on through any lines that are typed
  -- for it, and sends none of them.
  pub stale_chat :
      (p : Peer) (lines : List Bytes) (s : Station)
      → s.host.clients ≡ []
      → All (IsSaid lower) lines
      → let r =
          host_chat f account lower taken p (typed lines) (on_peer p true (on_peer p false s)) in
        (r.0 ≡ false) × (r.1.log ≡ s.log) × (r.1.left ≡ [])
  unfolding host_chat on_peer
  stale_chat p lines s alone h =
      let r = said_loop-Unheard p lines _ alone h in (r.0, r.1.log, r.1.left)
