-- ===== src/Terminal/Guest/Wired.antt =====
-- The connection of internal/chat/chat.go as what chatSession asks for.
use cmd_chat.Prelude.{
  lt→ltb, length, Result, nat_eq, bytes_eq, Bytes, ok, err, ℕ, ◌<◌, ◌≡◌, refl, Bool, true, false,
}
use cmd_chat.E2ee.Wire.{Error}
use cmd_chat.E2ee.Crypto.{Crypto}
use cmd_chat.Profile.Storage.{Files}
use cmd_chat.Chat.{too_long, max_message_bytes}
use cmd_chat.Chat.Conn.{Conn, Libraries, send, rename}
use cmd_chat.Terminal.{send_failed, own_message, own_name, show}
use cmd_chat.Terminal.Text.{trim}
use cmd_chat.Terminal.{line_typed}
use cmd_chat.Terminal.Hosting.Said.{IsSaid}
use cmd_chat.Terminal.Guest.{Link, Session, send_line, heed, take_line, session_turn}

abbrev is_ok : {E A : Type 0} → Result E A → Bool
is_ok (ok a) = true
is_ok (err e) = false

module _ (c : Crypto) (l : Libraries) {W : Type 0} (write : Bytes → W → Result Error W) where
  unfoldable pub conn_link : Link (Conn W)
  conn_link = record {
    send = λ k p. (is_ok (send c l write k p).0, (send c l write k p).1);
    rename = λ k name. (rename c l write k name).1;
  }

  -- A line of more than 4096 bytes ends a guest's session: the connection has not been touched, and
  -- the user is told that the sending failed.
  pub long_line_ends :
      (f : Files) (account : Bytes) (lower : ℕ → ℕ) (line : Bytes) (s : Session (Conn W))
      → IsSaid lower line
      → max_message_bytes < length (trim line)
      → let r = session_turn f account lower conn_link (line_typed line) s in
        (r.0 ≡ true)
        × (r.1.link ≡ s.link)
        × (r.1.desk ≡ show send_failed (own_name f account s.desk).1)
  unfolding session_turn take_line heed send_line conn_link send too_long own_message
  long_line_ends f account lower line s said long =
      rw (said.0, said.1, lt→ltb max_message_bytes (length (trim line)) long) (refl, refl, refl)
