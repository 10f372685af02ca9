-- ===== src/Relay/Session/Pairing.antt =====
-- Waiting for the peer: what comes before the pairing is passed over, and no byte of the peer's
-- stream is lost.
use cmd_chat.Prelude.{
  length, length-append, All, Result, bytes_beq, nat_eq, bytes_eq, Bytes, codes, ok, ℕ, zero, suc,
  ◌+◌, ◌≤◌, ◌<◌, ◌≡◌, refl, sym, ap, ◌∙◌, true, false, Option, none, some, List, [], ◌∷◌, ◌++◌,
  arith,
}
use mathlib.Core.List.{append_assoc}
use cmd_chat.Relay.WebSocket.{Writer, op_binary, op_text}
use cmd_chat.Relay.WebSocket.Messages.{encode, length-encode}
use cmd_chat.Relay.WebSocket.Stream.{
  Stream, next_control, messages, concat, IsMessage, next_control_binaries, length-messages,
}
use cmd_chat.Relay.Session.{
  Error, Control, Session, Surroundings, on_control, await_loop, await_peer,
}

-- A turn: binary messages, then a control message.
abbrev pub Turn : Type 0
Turn = List Bytes × Bytes

-- What the relay sends in some turns, and what follows.
abbrev pub turns : List Turn → Bytes → Bytes
turns [] rest = rest
turns ((ms, t) ∷ ts) rest = messages op_binary ms (encode op_text [] t ++ turns ts rest)

abbrev pub binaries : List Turn → Bytes
binaries [] = []
binaries ((ms, t) ∷ ts) = concat ms ++ binaries ts

abbrev pub AreMessages : List Turn → Type 0
AreMessages = All (λ turn. All IsMessage turn.0 × IsMessage turn.1)

-- A message that awaitPeer passes over: no control message, or neither `paired` nor `error`.
abbrev pub IsPassedOver : Option Control → Type 0
IsPassedOver none = Unit
IsPassedOver (some msg) =
    (bytes_beq msg.kind (codes "paired") ≡ false) × (bytes_beq msg.kind (codes "error") ≡ false)

-- The session once the peer is there.
abbrev session_at : Bytes → Bytes → Control → Session
session_at rest pending msg = record {
  conn = record { incoming = rest; pending = pending; control = [] };
  peer_id = msg.peer;
}

module _ {W : Type 0} (writer : Writer W) (around : Surroundings) where
  length-turns : (ts : List Turn) (rest : Bytes) → length ts ≤ length (turns ts rest)
  length-turns [] rest = omega arith
  length-turns ((ms, t) ∷ ts) rest = omega (
    arith,
    length-turns ts rest,
    length-encode writer op_text [] t,
    length-append (encode op_text [] t) (turns ts rest),
    length-messages writer op_binary ms (encode op_text [] t ++ turns ts rest),
  )

  passed_over :
      (again : Result Error (Session × W)) (o : Option Control) (s : Stream) (w : W)
      → IsPassedOver o
      → on_control writer around again o s w ≡ again
  unfolding on_control
  passed_over again none s w h = refl
  passed_over again (some msg) s w h = rw (h.0, h.1) refl

  paired_up :
      (again : Result Error (Session × W)) (msg : Control) (s : Stream) (w : W)
      → bytes_beq msg.kind (codes "paired") ≡ true
      → on_control writer around again (some msg) s w
        ≡ ok (record { conn = s; peer_id = msg.peer }, w)
  unfolding on_control
  paired_up again msg s w h = rw h refl

  one_turn :
      (fuel turn : ℕ) (s s' : Stream) (raw : Bytes) (w w' : W)
      → around.is_late turn ≡ false
      → next_control writer s w ≡ ok (raw, s', w')
      → await_loop writer around (suc fuel) turn s w
        ≡ on_control writer around
            (await_loop writer around fuel (turn + 1) s' w')
            (around.decode_control raw)
            s'
            w'
  unfolding await_loop
  one_turn fuel turn s s' raw w w' early e = rw early (rw (e, await_loop) refl)

  await_loop-paired :
      (ts : List Turn) (ms : List Bytes) (t rest pending : Bytes) (fuel turn : ℕ) (w : W)
      (msg : Control)
      → ((i : ℕ) → around.is_late i ≡ false)
      → length ts < fuel
      → AreMessages ts
      → All (λ u. IsPassedOver (around.decode_control u.1)) ts
      → All IsMessage ms
      → IsMessage t
      → around.decode_control t ≡ some msg
      → bytes_beq msg.kind (codes "paired") ≡ true
      → await_loop writer around fuel turn
          (record {
            incoming = turns ts (messages op_binary ms (encode op_text [] t ++ rest));
            pending = pending;
            control = [];
          })
          w
        ≡ ok (
          record {
            conn = record {
              incoming = rest;
              pending = pending ++ (binaries ts ++ concat ms);
              control = [];
            };
            peer_id = msg.peer;
          },
          w,
        )
  await_loop-paired ts ms t rest pending zero turn w msg early f a over b i d k =
      absurd (omega (arith, f))
  await_loop-paired [] ms t rest pending (suc fuel) turn w msg early f a over b i d k =
      one_turn fuel turn _ _ t w w (early turn)
        (next_control_binaries writer ms t rest pending w b i)
      ∙ rw d (paired_up (await_loop writer around fuel (turn + 1) _ w) msg _ w k)
  await_loop-paired ((us, u) ∷ ts) ms t rest pending (suc fuel) turn w msg early f a over b i d k =
      one_turn fuel turn _ _ u w w (early turn) (
        next_control_binaries writer us u
          (turns ts (messages op_binary ms (encode op_text [] t ++ rest))) pending w a.0.0 a.0.1)
      ∙ (passed_over (await_loop writer around fuel (turn + 1) _ w) (around.decode_control u) _ w
            over.0
          ∙ (await_loop-paired ts ms t rest (pending ++ concat us) fuel (turn + 1) w msg early
                (omega (arith, f)) a.1 over.1 b i d k
              ∙ ap (λ (p : Bytes). ok (session_at rest p msg, w))
                  (append_assoc pending (concat us) (binaries ts ++ concat ms)
                    ∙ ap (λ (p : Bytes). pending ++ p)
                        (sym (append_assoc (concat us) (binaries ts) (concat ms))))))

  -- While the time is not up, awaitPeer passes over messages that are neither a pairing nor an error
  -- and ends with the pairing, under the ID that it names; the binary messages until then are
  -- pending, in order and whole, and what follows the pairing is still to be read.
  pub await_peer-paired :
      (ts : List Turn) (ms : List Bytes) (t rest pending : Bytes) (w : W) (msg : Control)
      → ((i : ℕ) → around.is_late i ≡ false)
      → AreMessages ts
      → All (λ u. IsPassedOver (around.decode_control u.1)) ts
      → All IsMessage ms
      → IsMessage t
      → around.decode_control t ≡ some msg
      → bytes_beq msg.kind (codes "paired") ≡ true
      → await_peer writer around
          (record {
            incoming = turns ts (messages op_binary ms (encode op_text [] t ++ rest));
            pending = pending;
            control = [];
          })
          w
        ≡ ok (
          record {
            conn = record {
              incoming = rest;
              pending = pending ++ (binaries ts ++ concat ms);
              control = [];
            };
            peer_id = msg.peer;
          },
          w,
        )
  unfolding await_peer
  await_peer-paired ts ms t rest pending w msg early a over b i d k =
      await_loop-paired ts ms t rest pending
        (length {A = Bytes} []
          + length (turns ts (messages op_binary ms (encode op_text [] t ++ rest)))
          + 1)
        0 w msg early
        (omega (arith, length-turns ts (messages op_binary ms (encode op_text [] t ++ rest)))) a
        over b i d k
