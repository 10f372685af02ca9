-- ===== src/Relay/WebSocket/Chunks.antt =====
-- Write of internal/relay/websocket.go: what is sent is cut into frames, and none of it is lost.
use cmd_chat.Prelude.{
  ltb, if◌then◌else◌, Bool-cases, length, take, drop, take-append-drop, length-take, length-drop,
  All, length-eq-zero, drop-drop, ◌>>=◌, Result-cases, Result, nat_eq, bytes_eq, Bytes, ok, err, ℕ,
  zero, suc, ◌+◌, ◌-◌, ◌≤◌, ◌<◌, ◌≡◌, refl, sym, ap, ◌∙◌, inl, inr, List, [], ◌∷◌, ◌++◌, arith,
}
use cmd_chat.Relay.WebSocket.{
  Error, Writer, op_binary, max_frame_bytes, write_frame, write_loop, write,
}

abbrev pub flatten : List Bytes → Bytes
flatten [] = []
flatten (c ∷ cs) = c ++ flatten cs

-- A chunk of a frame.
abbrev pub Chunk : Bytes → Type 0
Chunk c = (0 < length c) × (length c ≤ max_frame_bytes)

module _ {W : Type 0} (writer : Writer W) where
  abbrev pub send_all : List Bytes → W → Result Error W
  send_all [] w = ok w
  send_all (c ∷ cs) w = write_frame writer op_binary c w >>= λ w'. send_all cs w'

  -- An outcome of the loop from an index on: the chunks of what is left.
  pub record Sent (p : Bytes) (from : ℕ) (w : W) (outcome : Result Error W × ℕ) : Type 0 where
    pub chunks : List Bytes
    pub whole : flatten chunks ≡ drop from p
    pub sizes : All Chunk chunks
    pub sent : outcome.0 ≡ send_all chunks w
    pub count : (w' : W) → outcome.0 ≡ ok w' → outcome.1 ≡ length p

  -- A chunk that was cut off in front of what the rest of the loop sends.
  first-Sent :
      (p : Bytes) (from end : ℕ) (w : W) (rest : W → Result Error W × ℕ)
      → from < end
      → end ≤ length p
      → end - from ≤ max_frame_bytes
      → ((w' : W) → Sent p end w' (rest w'))
      → Sent p from w (elim (write_frame writer op_binary (take (end - from) (drop from p)) w) [
        | err e ↦ (err e, from)
        | ok w' ↦ rest w'
      ])
  first-Sent p from end w rest l m n later =
      elim (Result-cases (write_frame writer op_binary c w)) [
        | inl (e, h) ↦ rw h (record {
          chunks = c ∷ (later w).chunks;
          whole = whole (later w).chunks (later w).whole;
          sizes = (size, (later w).sizes);
          sent = rw h refl;
          count = λ w' k. absurd (ground arith);
        })
        | inr (w', h) ↦ rw h (record {
          chunks = c ∷ (later w').chunks;
          whole = whole (later w').chunks (later w').whole;
          sizes = (size, (later w').sizes);
          sent = rw h (later w').sent;
          count = (later w').count;
        })
      ]
    where
      c : Bytes
      c = take (end - from) (drop from p)

      size : Chunk c
      size = omega (arith, length-take (end - from) (drop from p), length-drop from p)

      whole : (cs : List Bytes) → flatten cs ≡ drop end p → c ++ flatten cs ≡ drop from p
      whole cs e =
          let there : from + (end - from) ≡ end = omega (arith, l) in
          let behind : drop (end - from) (drop from p) ≡ drop end p =
            drop-drop from (end - from) p ∙ ap (λ (k : ℕ). drop k p) there in
          rw (e, ← behind) (take-append-drop (end - from) (drop from p))

  write_loop-Sent :
      (fuel : ℕ) (p : Bytes) (from : ℕ) (w : W)
      → from ≤ length p
      → length p - from < fuel
      → Sent p from w (write_loop writer fuel p from w)
  unfolding write_loop
  write_loop-Sent zero p from w l f = absurd (omega arith)
  write_loop-Sent (suc fuel) p from w l f = elim (Bool-cases (ltb from (length p))) [
    | inr done ↦
        let e : from ≡ length p = ground arith in
        rw done (record {
          chunks = [];
          whole = sym (length-eq-zero (drop from p) (omega (arith, length-drop from p)));
          sizes = tt;
          sent = refl;
          count = λ w' _. e;
        })
    | inl more ↦
        let end =
          if ltb (length p) (from + max_frame_bytes) then length p else from + max_frame_bytes in
        let forward : from < end = ground arith in
        let inside : end ≤ length p = ground arith in
        let short : end - from ≤ max_frame_bytes = ground arith in
        rw more (
          first-Sent p from end w (λ w'. write_loop writer fuel p end w') forward inside short
            (λ w'. write_loop-Sent fuel p end w' inside (omega (arith, forward, f))))
  ]

  -- Write cuts what it is given into chunks of 1 to 65536 bytes whose concatenation is all of it,
  -- and sends each as one binary frame, in order; when no frame fails, it reports the whole length.
  pub write-Sent : (p : Bytes) (w : W) → Sent p 0 w (write writer p w)
  unfolding write
  write-Sent p w = write_loop-Sent (length p + 1) p 0 w (omega arith) (omega arith)
