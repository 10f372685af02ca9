-- ===== src/Relay/WebSocket/Reception.antt =====
-- Write of internal/relay/websocket.go against a server that reads masked frames by RFC 6455.
use cmd_chat.Prelude.{
  length, All, Result, nat_eq, bytes_eq, Bytes, ok, ℕ, ◌≡◌, refl, sym, ap, ◌∙◌, some, List, [], ◌∷◌,
  ◌++◌, arith,
}
use mathlib.Core.List.{append-nil, append_assoc}
use cmd_chat.Relay.WebSocket.{
  Error, Writer, op_binary, apply_mask, client_header, write_frame, write,
}
use cmd_chat.Relay.WebSocket.Masking.{read_masked, read_masked-frame}
use cmd_chat.Relay.WebSocket.Chunks.{flatten, Chunk, send_all, write-Sent}

-- A stream of binary frames with the chunks that they carry, and nothing behind them.
abbrev pub Holds : Bytes → List Bytes → Type 0
Holds s [] = s ≡ []
Holds s (c ∷ cs) = (rest : Bytes) × (read_masked s ≡ ok ((op_binary, c), rest)) × Holds rest cs

-- A network that takes everything, and the masking key for what was sent so far.
abbrev pub network : (Bytes → Bytes) → Writer Bytes
network key = record { write = λ b sent. some (sent ++ b); mask = λ sent. some (key sent, sent) }

module _ (key : Bytes → Bytes) where
  abbrev frame : Bytes → Bytes → Bytes
  frame sent c = client_header op_binary (length c) ++ (key sent ++ apply_mask (key sent) 0 c)

  write_frame_lem :
      (c sent : Bytes) → write_frame (network key) op_binary c sent ≡ ok (sent ++ frame sent c)
  unfolding write_frame
  write_frame_lem c sent = refl

  first_held :
      (c sent rest : Bytes)
      → ((s : Bytes) → length (key s) ≡ 4)
      → Chunk c
      → read_masked (frame sent c ++ rest) ≡ ok ((op_binary, c), rest)
  first_held c sent rest k small =
      ap read_masked (
        append_assoc (client_header op_binary (length c)) (key sent ++ masked) rest
        ∙ ap (λ (b : Bytes). client_header op_binary (length c) ++ b)
            (append_assoc (key sent) masked rest))
      ∙ read_masked-frame op_binary (key sent) c rest (k sent) (omega (arith, small))
    where
      masked : Bytes
      masked = apply_mask (key sent) 0 c

  -- The outcome of Write: all of the text is counted, and the frames that carry it are sent.
  pub record Received (p sent : Bytes) (outcome : Result Error Bytes × ℕ) : Type 0 where
    pub stream : Bytes
    pub chunks : List Bytes
    pub ended : outcome ≡ (ok (sent ++ stream), length p)
    pub held : Holds stream chunks
    pub sizes : All Chunk chunks
    pub whole : flatten chunks ≡ p

  send_all-Holds :
      (cs : List Bytes) (sent : Bytes)
      → ((s : Bytes) → length (key s) ≡ 4)
      → All Chunk cs
      → (stream : Bytes) × (send_all (network key) cs sent ≡ ok (sent ++ stream)) × Holds stream cs
  send_all-Holds [] sent k h = ([], ap ok (sym (append-nil sent)), refl)
  send_all-Holds (c ∷ cs) sent k h =
      let (stream, e, held) = send_all-Holds cs (sent ++ frame sent c) k h.1 in
      (
        frame sent c ++ stream,
        rw (write_frame_lem c sent) (e ∙ ap ok (append_assoc sent (frame sent c) stream)),
        (stream, first_held c sent stream k h.0, held),
      )

  -- Over a network that takes everything Write sends a stream of frames under fresh masking keys that
  -- a server reads, by RFC 6455, as binary frames of 1 to 65536 bytes which carry the text, whole and
  -- in order, and reports the length of the text.
  pub write-Received :
      (p sent : Bytes)
      → ((s : Bytes) → length (key s) ≡ 4)
      → Received p sent (write (network key) p sent)
  write-Received p sent k =
      let cut = write-Sent (network key) p sent in
      let (stream, e, held) = send_all-Holds cut.chunks sent k cut.sizes in
      let went = cut.sent ∙ e in
      record {
        stream = stream;
        chunks = cut.chunks;
        ended = λ i. (went i, cut.count (sent ++ stream) went i);
        held = held;
        sizes = cut.sizes;
        whole = cut.whole;
      }
