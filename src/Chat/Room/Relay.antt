-- ===== src/Chat/Room/Relay.antt =====
-- Who is sent what: over a network that takes everything, each open connection gets a packet once.
use cmd_chat.Prelude.{
  All, nat_eq, bytes_eq, ℕ, ◌≡◌, refl, sym, ◌∙◌, Bool, true, false, ◌||◌, List, [], ◌∷◌, ◌++◌,
  arith,
}
use mathlib.Core.List.{append_assoc, append-nil}
use cmd_chat.Chat.{Packet, too_long}
use cmd_chat.Chat.Room.{sent, closed, announced, Log, was_closed, send_to, send_or_close, send_all}

pub was_closed-append :
    (k : ℕ) (log new : Log) → was_closed k (log ++ new) ≡ (was_closed k log || was_closed k new)
unfolding was_closed
was_closed-append k [] new = refl
was_closed-append k (sent j p ∷ log) new = was_closed-append k log new
was_closed-append k (closed j ∷ log) new = ground (arith, was_closed-append k log new)
was_closed-append k (announced p left ∷ log) new = was_closed-append k log new

abbrev pub sendings : Packet → List ℕ → Log
sendings p [] = []
sendings p (k ∷ ks) = sent k p ∷ sendings p ks

-- Not one of them has been closed.
abbrev pub AreOpen : Log → List ℕ → Type 0
AreOpen log = All (λ k. was_closed k log ≡ false)

unsent : (j k : ℕ) (p : Packet) → was_closed j (sent k p ∷ []) ≡ false
unfolding was_closed
unsent j k p = refl

AreOpen-sent :
    (k : ℕ) (p : Packet) (log : Log) (ks : List ℕ)
    → AreOpen log ks
    → AreOpen (log ++ (sent k p ∷ [])) ks
AreOpen-sent k p log [] h = tt
AreOpen-sent k p log (j ∷ ks) h =
    (was_closed-append j log (sent k p ∷ []) ∙ rw h.0 (unsent j k p), AreOpen-sent k p log ks h.1)

module _ (taken : Log → ℕ → Packet → Bool)
    (takes : (log : Log) (k : ℕ) (p : Packet) → taken log k p ≡ true) where
  send_or_close-open :
      (k : ℕ) (p : Packet) (log : Log)
      → too_long p ≡ false
      → was_closed k log ≡ false
      → send_or_close taken k p log ≡ log ++ (sent k p ∷ [])
  unfolding send_or_close send_to
  send_or_close-open k p log short o = rw (short, o, takes log k p) refl

  pub send_all-open :
      (ks : List ℕ) (p : Packet) (log : Log)
      → too_long p ≡ false
      → AreOpen log ks
      → send_all taken ks p log ≡ log ++ sendings p ks
  unfolding send_all
  send_all-open [] p log short o = sym (append-nil log)
  send_all-open (k ∷ ks) p log short o = rw (send_or_close-open k p log short o.0) (
      send_all-open ks p (log ++ (sent k p ∷ [])) short (AreOpen-sent k p log ks o.1)
      ∙ append_assoc log (sent k p ∷ []) (sendings p ks))
