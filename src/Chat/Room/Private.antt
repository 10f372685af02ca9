-- ===== src/Chat/Room/Private.antt =====
-- A host with group chat turned off talks to one guest at a time.
use cmd_chat.Prelude.{
  ltb, if◌then◌else◌, Bool-cases, is_some, length, nat_eq, bytes_eq, ℕ, ◌+◌, ◌≤◌, ◌≡◌, ap, ◌∙◌, inl,
  inr, Bool, true, false, not, ◌&&◌, some, List, arith,
}
use cmd_chat.Prelude.Map.{lookup, insert, delete, IsMap, length-insert, length-delete}
use cmd_chat.Chat.{Member, Packet, Peer}
use cmd_chat.Chat.Room.{Host, Log, set_group, set_name, admits, enter, leave, greet}
use cmd_chat.Chat.Room.Steps.{
  Guest, System, first_member, arrive, receive_packet, depart, call_host, Step, arrives,
  packet_comes, departs, group_set, name_set, said, disconnected, Reach, here, next,
}
use cmd_chat.Chat.Room.Invariant.{IsValid, member_of, Reach-IsValid, handle-cases}
use cmd_chat.Chat.Room.Acts.{entered_keyed}
use cmd_chat.Chat.Room.View.{Reach-Refined}

abbrev pub HasAtMostOne : System → Type 0
HasAtMostOne s = length s.host.members ≤ 1

shorter : (k : ℕ) (ms : List (ℕ × Member)) → IsMap ms → length (delete k ms) ≤ length ms
shorter k ms keyed = at_most (is_some (lookup k ms)) (length-delete k ms keyed)
  where
    at_most : (b : Bool) {n r : ℕ} → n ≡ (if b then r + 1 else r) → r ≤ n
    at_most true e = omega (arith, e)
    at_most false e = omega (arith, e)

insert_le : (k : ℕ) (m : Member) (ms : List (ℕ × Member)) → length (insert k m ms) ≤ length ms + 1
insert_le k m ms = at_most (is_some (lookup k ms)) (length ms) (length-insert k m ms)
  where
    at_most : (b : Bool) {n : ℕ} (r : ℕ) → n ≡ (if b then r else r + 1) → n ≤ r + 1
    at_most true r e = omega (arith, e)
    at_most false r e = omega (arith, e)

alone :
    (h : Host) (k : ℕ) (m : Member)
    → h.group ≡ false
    → admits h ≡ true
    → length (enter h k m).members ≤ 1
unfolding admits enter
alone h k m off let_in =
    omega (arith, insert_le k m h.members, empty_then h.group (length h.members) off let_in)
  where
    empty_then : (g : Bool) (n : ℕ) → g ≡ false → not (not g && ltb 0 n) ≡ true → n ≡ 0
    empty_then g n e f = ground arith

module _ (is_graphic : ℕ → Bool) (taken : Log → ℕ → Packet → Bool) where
  -- A run along which group chat stays off.
  pub data Private (s : System) : System → Type 0 where
    begins : Private s s
    goes_on :
        {t u : System}
        → Private s t
        → t.host.group ≡ false
        → Step is_graphic taken t u
        → Private s u

  arrive-HasAtMostOne :
      (s : System) (k : ℕ) (peer : Peer)
      → s.host.group ≡ false
      → IsMap s.host.members
      → HasAtMostOne s
      → HasAtMostOne (arrive is_graphic taken s k peer)
  unfolding arrive leave
  arrive-HasAtMostOne s k peer off keyed few = elim (Bool-cases (admits s.host)) [
    | inr e ↦ rw e few
    | inl e ↦ elim (Bool-cases greeted.0) [
      | inl f ↦ rw (e, f) (alone s.host k m off e)
      | inr f ↦
          rw (e, f)
            (omega (
              arith,
              alone s.host k m off e,
              shorter k (enter s.host k m).members (entered_keyed s.host k m keyed),
            ))
    ]
  ]
    where
      m : Member
      m = first_member peer

      greeted : Bool × Log
      greeted = greet taken (enter s.host k m) k peer m s.log

  receive_packet-HasAtMostOne :
      (s : System) (k : ℕ) (g : Guest) (p : Packet)
      → lookup k s.host.members ≡ some g.member
      → HasAtMostOne s
      → HasAtMostOne (receive_packet is_graphic taken s k g p)
  unfolding receive_packet
  receive_packet-HasAtMostOne s k g p there few =
      elim (handle-cases is_graphic taken s.host k g.member p s.log) [
        | inl (n, log', same, e) ↦
            rw e (omega (arith, few, rw there at (length-insert k n s.host.members)))
        | inr (log', e) ↦ rw e few
      ]

  Step-HasAtMostOne :
      {s t : System}
      → Step is_graphic taken s t
      → IsValid s
      → IsMap s.host.members
      → s.host.group ≡ false
      → HasAtMostOne s
      → HasAtMostOne t
  unfolding depart call_host set_name set_group leave
  Step-HasAtMostOne (arrives s k peer new) v keyed off few =
      arrive-HasAtMostOne s k peer off keyed few
  Step-HasAtMostOne (packet_comes s k g p there) v keyed off few =
      receive_packet-HasAtMostOne s k g p (v.members k ∙ ap member_of there) few
  Step-HasAtMostOne (departs s k g there) v keyed off few =
      omega (arith, few, shorter k s.host.members keyed)
  Step-HasAtMostOne (group_set s b) v keyed off few = few
  Step-HasAtMostOne (name_set s name) v keyed off few = few
  Step-HasAtMostOne (said s p) v keyed off few = few
  Step-HasAtMostOne (disconnected s) v keyed off few = few

  reached : {s t : System} → Private s t → Reach is_graphic taken s t
  reached begins = here
  reached (goes_on r off st) = next (reached r) st

  -- A host that has at most one guest has at most one as long as group chat stays off.
  pub Private-HasAtMostOne :
      {s t : System}
      → Private s t
      → IsValid s
      → IsMap s.host.members
      → HasAtMostOne s
      → HasAtMostOne t
  Private-HasAtMostOne begins v keyed few = few
  Private-HasAtMostOne (goes_on r off st) v keyed few =
      Step-HasAtMostOne st (Reach-IsValid is_graphic taken v (reached r))
        (Reach-Refined is_graphic taken (reached r) v keyed).1 off
        (Private-HasAtMostOne r v keyed few)
