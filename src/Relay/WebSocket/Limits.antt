-- ===== src/Relay/WebSocket/Limits.antt =====
-- The loop of readFrame of internal/relay/websocket.go ends, and keeps to its limit.
use cmd_chat.Prelude.{
  ltb, leb, ◌==◌, if◌then◌else◌, Bool-cases, length, get_or, ◌>>=◌, ◌>>◌, refuse_if, or_fail,
  Result, nat_eq, bytes_eq, Bytes, ok, err, ℕ, zero, suc, ◌+◌, ◌%◌, ◌≤◌, ◌<◌, ◌≡◌, refl, inl, inr,
  Bool, true, false, Option, none, some, arith,
}
use cmd_chat.Relay.WebSocket.{
  Error, out_of_fuel, not_written, too_large, masked_frame, Frame, Assembly, Writer, nothing_yet,
  op_ping, op_pong, op_close, next_frame, max_frame_bytes, join, on_frame, read_loop, read_frame,
  write_frame, read_full, extend_length,
}
use cmd_chat.Relay.WebSocket.Frames.{next_frame_sound}

-- The model's own error.
abbrev pub is_fuel : Error → Bool
is_fuel out_of_fuel = true
is_fuel _ = false

-- An outcome of a step that is no lack of fuel.
abbrev Ends : {A : Type 0} → Result Error A → Type 0
Ends (ok a) = Unit
Ends (err e) = is_fuel e ≡ false

Ends-bind :
    {A B : Type 0} (m : Result Error A) (k : A → Result Error B)
    → Ends m
    → ((a : A) → Ends (k a))
    → Ends (m >>= k)
Ends-bind (ok a) k p q = q a
Ends-bind (err e) k p q = p

Ends-refuse_if :
    {B : Type 0} (t : Bool) (e : Error) (k : Result Error B)
    → is_fuel e ≡ false
    → Ends k
    → Ends (refuse_if t e >> k)
Ends-refuse_if true e k p q = p
Ends-refuse_if false e k p q = q

Ends-or_fail : {A : Type 0} (o : Option A) (e : Error) → is_fuel e ≡ false → Ends (or_fail o e)
Ends-or_fail none e p = p
Ends-or_fail (some a) e p = tt

read_full-Ends : (n : ℕ) (s : Bytes) → Ends (read_full n s)
unfolding read_full
read_full-Ends n s = ground arith

extend_length-Ends : (n : ℕ) (s : Bytes) → Ends (extend_length n s)
unfolding extend_length
extend_length-Ends n s = elim (Bool-cases (n == 126)) [
  | inl e ↦ rw e (Ends-bind (read_full 2 s) _ (read_full-Ends 2 s) (λ _. tt))
  | inr e ↦ elim (Bool-cases (n == 127)) [
    | inl e' ↦ rw (e, e') (Ends-bind (read_full 8 s) _ (read_full-Ends 8 s) (λ _. tt))
    | inr e' ↦ rw (e, e') tt
  ]
]

next_frame-Ends : (s : Bytes) → Ends (next_frame s)
unfolding next_frame
next_frame-Ends s = Ends-bind (read_full 2 s) _ (read_full-Ends 2 s) (λ (header, s1).
    Ends-bind (extend_length (get_or header 1 0 % 128) s1) _ (extend_length-Ends _ s1)
      (λ (size, s2). Ends-bind (or_fail size too_large) _ (Ends-or_fail size too_large refl) (λ n.
        Ends-refuse_if (ltb max_frame_bytes n) too_large _ refl (
          Ends-refuse_if (leb 128 (get_or header 1 0)) masked_frame _ refl
            (Ends-bind (read_full n s2) _ (read_full-Ends n s2) (λ _. tt))))))

join-Ends : (a : Assembly) (f : Frame) → Ends (join a f)
unfolding join
join-Ends a f = ground arith

join_sound :
    (a : Assembly) (f : Frame) {a' : Assembly}
    → join a f ≡ ok a'
    → length a'.assembled ≤ max_frame_bytes
unfolding join
join_sound a f {a'} h = ground arith

module _ {W : Type 0} (writer : Writer W) where
  write_frame-Ends : (op : ℕ) (b : Bytes) (w : W) → Ends (write_frame writer op b w)
  unfolding write_frame
  write_frame-Ends op b w =
      Ends-bind (or_fail (writer.mask w) not_written) _ (Ends-or_fail _ not_written refl)
        (λ _. Ends-or_fail _ not_written refl)

  -- An outcome of the loop: an error that is not the model's, or a message within the limit with
  -- less than `n` bytes of the stream left.
  pub Settled : ℕ → Result Error ((ℕ × Bytes) × Bytes × W) → Type 0
  Settled n (err e) = is_fuel e ≡ false
  Settled n (ok ((op, m), rest, w)) = (length m ≤ max_frame_bytes) × (length rest < n)

  Settled-bind :
      {A : Type 0} (n : ℕ) (m : Result Error A) (k : A → Result Error ((ℕ × Bytes) × Bytes × W))
      → Ends m
      → ((a : A) → m ≡ ok a → Settled n (k a))
      → Settled n (m >>= k)
  unfolding Settled
  Settled-bind n (err e) k p q = p
  Settled-bind n (ok a) k p q = q a refl

  data-Settled :
      (n : ℕ) (again : Assembly → W → Result Error ((ℕ × Bytes) × Bytes × W)) (stream : Bytes)
      (f : Frame) (a : Assembly) (w : W)
      → ((a : Assembly) (w : W) → Settled n (again a w))
      → length stream < n
      → length a.assembled ≤ max_frame_bytes
      → Settled n (if f.fin then ok ((a.first_opcode, a.assembled), stream, w) else again a w)
  unfolding Settled
  data-Settled n again stream f a w more l m = elim (Bool-cases f.fin) [
    | inl e ↦ rw e (m, l)
    | inr e ↦ rw e (more a w)
  ]

  on_frame-Settled :
      (n : ℕ) (again : Assembly → W → Result Error ((ℕ × Bytes) × Bytes × W)) (stream : Bytes)
      (a : Assembly) (f : Frame) (w : W)
      → ((a : Assembly) (w : W) → Settled n (again a w))
      → length stream < n
      → Settled n (on_frame writer again stream a f w)
  unfolding on_frame Settled
  on_frame-Settled n again stream a f w more l = elim (Bool-cases (f.op == op_ping)) [
    | inl e ↦ rw e (
        Settled-bind n (write_frame writer op_pong f.payload w) (again a)
          (write_frame-Ends op_pong f.payload w) (λ w' _. more a w'))
    | inr e ↦ elim (Bool-cases (f.op == op_pong)) [
      | inl e' ↦ rw (e, e') (more a w)
      | inr e' ↦ elim (Bool-cases (f.op == op_close)) [
        | inl e'' ↦ rw (e, e', e'') refl
        | inr e'' ↦
            rw (e, e', e'')
              (Settled-bind n (join a f) _ (join-Ends a f)
                (λ a' h. data-Settled n again stream f a' w more l (join_sound a f h)))
      ]
    ]
  ]

  read_loop-Settled :
      (fuel : ℕ) (a : Assembly) (stream : Bytes) (w : W) (n : ℕ)
      → length stream < fuel
      → length stream ≤ n
      → Settled n (read_loop writer fuel a stream w)
  unfolding read_loop
  read_loop-Settled zero a stream w n l m = absurd (omega arith)
  read_loop-Settled (suc fuel) a stream w n l m =
      Settled-bind n (next_frame stream) _ (next_frame-Ends stream) (λ (f, rest) h.
        let (less, _) = next_frame_sound stream h in
        on_frame-Settled n (λ a' w'. read_loop writer fuel a' rest w') rest a f w
          (λ a' w'. read_loop-Settled fuel a' rest w' n (omega (arith, less)) (omega (arith, less)))
          (omega (arith, less)))

  -- Whatever the server sends, readFrame ends without running out of fuel; a message that it gives
  -- is within the limit, and the stream has become shorter.
  pub read_frame-Settled :
      (stream : Bytes) (w : W) → Settled (length stream) (read_frame writer stream w)
  unfolding read_frame
  read_frame-Settled stream w =
      read_loop-Settled (length stream + 1) nothing_yet stream w (length stream) (omega arith)
        (omega arith)
