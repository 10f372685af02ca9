-- ===== src/Chat/Tests/Conn.antt =====
-- Connections at concrete inputs.
use cmd_chat.Prelude.{
  nat_eq, bytes_eq, Bytes, codes, ok, ◌≡◌, refl, false, some, [], ◌∷◌, ◌++◌, arith,
}
use cmd_chat.E2ee.Wire.Frames.{buffer_write}
use cmd_chat.E2ee.Crypto.Toy.{crypto, laws}
use cmd_chat.E2ee.Session.{Session}
use cmd_chat.E2ee.Session.Roundtrip.{Linked}
use cmd_chat.E2ee.Tests.Ratchet.{seed, peer}
use cmd_chat.E2ee.Tests.Session.{alice, bob, linked}
use cmd_chat.Chat.{too_long}
use cmd_chat.Chat.Conn.{Conn, send, receive}
use cmd_chat.Chat.Conn.Delivery.{Carried, Ends, receive-send}
use cmd_chat.Chat.Conn.Swallowed.{IsSettled, receive-IsSettled}
use cmd_chat.Chat.Tests.{libraries, says}

abbrev conn : Session → Conn Bytes
conn s = record {
  transport = [];
  reader = [];
  random = [];
  session = s;
  info = record { id = codes "cc-B"; public_key = []; nickname = []; version = 2 };
  peer = record { id = codes "cc-B"; name = []; first_contact = false; safety_number = [] };
  local_key = [];
  first_contact = false;
  stop = false;
}

ends : Ends crypto laws libraries seed peer (conn alice) (conn bob)
ends = record { linked = linked; first = omega arith; level = omega arith; near = omega arith }

carried : Carried crypto laws libraries (says (codes "hi")) ((3 ∷ codes "msg") ++ codes "hi")
unfolding too_long
carried = record {
  marshalled = refl;
  unmarshalled = refl;
  no_rekey = refl;
  no_ack = refl;
  within_limit = refl;
  small = omega arith;
}

receive-send_example :
    (frame : Bytes) × (sent got : Session) × (send crypto libraries buffer_write
        (conn alice)
        (says (codes "hi"))
      ≡ (ok tt, record (conn alice) { session = sent; transport = frame }))
    × (receive crypto libraries buffer_write 7 (record (conn bob) { reader = frame ++ (1 ∷ []) })
        ≡ some (ok (says (codes "hi")), record (conn bob) { session = got; reader = 1 ∷ [] }))
    × Linked crypto laws seed peer sent got
    × (got.ratchet.receive_count ≡ sent.ratchet.send_count)
receive-send_example =
    receive-send crypto laws libraries seed peer (conn alice) (conn bob) (says (codes "hi"))
      ((3 ∷ codes "msg") ++ codes "hi") (1 ∷ []) 7 ends carried

receive-IsSettled_example : IsSettled crypto libraries buffer_write (
    receive crypto libraries buffer_write 7 (record (conn bob) { reader = 0 ∷ 0 ∷ 0 ∷ 1 ∷ 5 ∷ [] }))
receive-IsSettled_example =
    receive-IsSettled crypto libraries buffer_write 7
      (record (conn bob) { reader = 0 ∷ 0 ∷ 0 ∷ 1 ∷ 5 ∷ [] })
