-- ===== src/Chat/Room/Attribution.antt =====
-- Whose words are sent: only those of the guest whose packet it was, to others, under its own ID.
use cmd_chat.Prelude.{
  ltb, ◌==◌, Bool-cases, length, All, All-append, bytes_beq, unequal, nat_eq, bytes_eq, Bytes,
  codes, ℕ, ◌≡◌, refl, sym, subst, ◌∙◌, ◌≢◌, inl, inr, Bool, false, not, ◌&&◌, ◌||◌, Option, none,
  some, List, [], ◌∷◌, ◌++◌, arith,
}
use mathlib.Core.List.{append_assoc, append-nil}
use cmd_chat.Chat.{Member, Packet, packet, display, too_long, max_message_bytes}
use cmd_chat.Prelude.Map.{lookup}
use cmd_chat.Chat.Room.Steps.{Guest, System, receive_packet}
use cmd_chat.Chat.Room.Invariant.{IsValid}
use cmd_chat.Chat.Room.{
  Event, sent, closed, announced, Log, Host, keys, was_closed, close_link, others, send_to,
  send_or_close, send_all, broadcast, system, send_roster, handle, rename_guest, relayed,
}

-- The log has grown by events of which a predicate holds.
abbrev pub Adds : (Event → Type 0) → Log → Log → Type 0
Adds P log log' = (new : Log) × (log' ≡ log ++ new) × All P new

-- A message that is sent on is what `text` says, from `id`, and does not go back to `k`.
abbrev pub IsAttributed : ℕ → Bytes → Bytes → Event → Type 0
IsAttributed k id text (sent j p) = p.kind ≡ codes "msg" → (p.from ≡ id) × (p.text ≡ text) × (j ≢ k)
IsAttributed k id text (closed j) = Unit
IsAttributed k id text (announced p left) = Unit

module _ (P : Event → Type 0) where
  pub Adds-none : (log : Log) → Adds P log log
  Adds-none log = ([], sym (append-nil log), tt)

  Adds-one : (log : Log) (e : Event) → P e → Adds P log (log ++ (e ∷ []))
  Adds-one log e p = (e ∷ [], refl, (p, tt))

  pub Adds-trans : (a b d : Log) → Adds P a b → Adds P b d → Adds P a d
  Adds-trans a b d (x, e, p) (y, f, q) =
      (x ++ y, f ∙ rw e (append_assoc a x y), All-append P x y p q)

  module _ (taken : Log → ℕ → Packet → Bool) (closable : (k : ℕ) → P (closed k)) where
    send_to-Adds :
        (k : ℕ) (p : Packet) (log : Log) → P (sent k p) → Adds P log (send_to taken k p log).1
    unfolding send_to
    send_to-Adds k p log h = elim (Bool-cases (too_long p || was_closed k log)) [
      | inl e ↦ rw e (Adds-none log)
      | inr e ↦ elim (Bool-cases (taken log k p)) [
        | inl f ↦ rw (e, f) (Adds-one log (sent k p) h)
        | inr f ↦ rw (e, f) (Adds-none log)
      ]
    ]

    pub close_link-Adds : (k : ℕ) (log : Log) → Adds P log (close_link k log)
    unfolding close_link
    close_link-Adds k log = elim (Bool-cases (was_closed k log)) [
      | inl e ↦ rw e (Adds-none log)
      | inr e ↦ rw e (Adds-one log (closed k) (closable k))
    ]

    send_or_close-Adds :
        (k : ℕ) (p : Packet) (log : Log) → P (sent k p) → Adds P log (send_or_close taken k p log)
    unfolding send_or_close
    send_or_close-Adds k p log h = elim (Bool-cases tried.0) [
      | inl e ↦ rw e (send_to-Adds k p log h)
      | inr e ↦ rw e (
          Adds-trans log tried.1 (close_link k tried.1) (send_to-Adds k p log h)
            (close_link-Adds k tried.1))
    ]
      where
        tried : Bool × Log
        tried = send_to taken k p log

    pub send_all-Adds :
        (ks : List ℕ) (p : Packet) (log : Log)
        → All (λ k. P (sent k p)) ks
        → Adds P log (send_all taken ks p log)
    unfolding send_all
    send_all-Adds [] p log h = Adds-none log
    send_all-Adds (k ∷ ks) p log h =
        Adds-trans log (send_or_close taken k p log) _ (send_or_close-Adds k p log h.0)
          (send_all-Adds ks p (send_or_close taken k p log) h.1)

pub everywhere : (P : ℕ → Type 0) (ks : List ℕ) → ((k : ℕ) → P k) → All P ks
everywhere P [] h = tt
everywhere P (k ∷ ks) h = (h k, everywhere P ks h)

others-apart : (k : ℕ) (ks : List ℕ) → All (λ j. j ≢ k) (others (some k) ks)
unfolding others
others-apart k [] = tt
others-apart k (j ∷ ks) = elim (Bool-cases (j == k)) [
  | inl e ↦ rw e (others-apart k ks)
  | inr e ↦ rw e ((λ same. ground arith), others-apart k ks)
]

module _ (taken : Log → ℕ → Packet → Bool) (k : ℕ) (id text : Bytes) where
  abbrev Fine : Event → Type 0
  Fine = IsAttributed k id text

  -- A packet of another kind than `msg` needs no attribution.
  notice : (p : Packet) → bytes_beq p.kind (codes "msg") ≡ false → (j : ℕ) → Fine (sent j p)
  notice p e j same = absurd (unequal p.kind (codes "msg") e same)

  broadcast-Adds :
      (h : Host) (p : Packet) (except : Option ℕ) (log : Log)
      → bytes_beq p.kind (codes "msg") ≡ false
      → Adds Fine log (broadcast taken h p except log)
  unfolding broadcast
  broadcast-Adds h p except log e =
      send_all-Adds Fine taken (λ _. tt) (others except (keys h.clients)) p log
        (everywhere (λ j. Fine (sent j p)) (others except (keys h.clients)) (notice p e))

  renamed-Adds :
      (h : Host) (m n : Member) (log : Log) → Adds Fine log (rename_guest taken h k m n log).1
  unfolding rename_guest system send_roster
  renamed-Adds h m n log = elim (Bool-cases (h.group && not (bytes_beq (display n) (display m)))) [
    | inr e ↦ rw e (Adds-none Fine log)
    | inl e ↦ rw e (
        Adds-trans Fine log (broadcast taken h' notice_packet none log) _
          (broadcast-Adds h' notice_packet none log refl)
          (broadcast-Adds h' _ none (broadcast taken h' notice_packet none log) refl))
  ]
    where
      h' : Host
      h' = (rename_guest taken h k m n log).0

      notice_packet : Packet
      notice_packet = record (packet (codes "system")) {
        text = display m ++ (codes " is now " ++ display n);
      }

relays-Adds :
    (taken : Log → ℕ → Packet → Bool) (h : Host) (k : ℕ) (m : Member) (p : Packet) (log : Log)
    → Adds (IsAttributed k m.id p.text) log (broadcast taken h (relayed m p) (some k) log)
unfolding broadcast relayed
relays-Adds taken h k m p log =
    send_all-Adds (IsAttributed k m.id p.text) taken (λ _. tt) (others (some k) (keys h.clients))
      (relayed m p) log
      (attributed (others (some k) (keys h.clients)) (others-apart k (keys h.clients)))
  where
    attributed :
        (ks : List ℕ)
        → All (λ j. j ≢ k) ks
        → All (λ j. IsAttributed k m.id p.text (sent j (relayed m p))) ks
    attributed [] a = tt
    attributed (j ∷ ks) a = ((λ _. (refl, refl, a.0)), attributed ks a.1)

handle-Adds :
    (is_graphic : ℕ → Bool) (taken : Log → ℕ → Packet → Bool) (h : Host) (k : ℕ) (m : Member)
    (p : Packet) (log : Log)
    → Adds (IsAttributed k m.id p.text) log (handle taken is_graphic h k m p log).2
unfolding handle
handle-Adds is_graphic taken h k m p log = elim (Bool-cases (bytes_beq p.kind (codes "nick"))) [
  | inl e ↦ rw e (renamed-Adds taken k m.id p.text h m _ log)
  | inr e ↦ elim (Bool-cases (bytes_beq p.kind (codes "msg"))) [
    | inr f ↦ rw (e, f) (Adds-none (IsAttributed k m.id p.text) log)
    | inl f ↦ elim (Bool-cases (ltb max_message_bytes (length p.text))) [
      | inl g ↦
          rw (e, f, g)
            (send_to-Adds (IsAttributed k m.id p.text) taken (λ _. tt) k refusal log
              (notice taken k m.id p.text refusal refl k))
      | inr g ↦ elim (Bool-cases h.group) [
        | inl o ↦ simp (e, f, g, o) (relays-Adds taken h k m p log)
        | inr o ↦ simp (e, f, g, o) (Adds-none (IsAttributed k m.id p.text) log)
      ]
    ]
  ]
]
  where
    refusal : Packet
    refusal = record (packet (codes "error")) { text = codes "message exceeds 4096 bytes" }

-- Whatever a guest sends, each message that the host sends for it says what the packet says, under
-- the ID that the guest's own connection proved, and goes to others than the guest.
pub receive_packet-Attributed :
    (is_graphic : ℕ → Bool) (taken : Log → ℕ → Packet → Bool) (s : System) (k : ℕ) (g : Guest)
    (p : Packet)
    → IsValid s
    → lookup k s.guests ≡ some g
    → Adds (IsAttributed k g.peer.id p.text) s.log (receive_packet is_graphic taken s k g p).log
unfolding receive_packet
receive_packet-Attributed is_graphic taken s k g p v there =
    subst
      (λ id. Adds (IsAttributed k id p.text) s.log (receive_packet is_graphic taken s k g p).log)
      (v.proven k g there) (handle-Adds is_graphic taken s.host k g.member p s.log)
