-- ===== src/Chat/Room/View.antt =====
-- The room that the host keeps is the abstract room of Acts, on which the steps of the host play.
use cmd_chat.Prelude.{
  if◌then◌else◌, Bool-cases, bytes_beq, nat_eq, bytes_eq, codes, ℕ, ◌≡◌, refl, sym, ap, ◌∙◌, inl,
  inr, Bool, true, false, not, none, some, arith,
}
use cmd_chat.Prelude.Map.{lookup, IsMap, IsMap-insert}
use cmd_chat.Profile.{clean_nickname}
use cmd_chat.Chat.{Member, Packet, Peer, packet}
use cmd_chat.Chat.Room.{Host, Log, set_group, set_name, admits, enter, greet, send_to}
use cmd_chat.Chat.Room.Steps.{
  Guest, System, first_member, arrive, receive_packet, depart, call_host, Step, arrives,
  packet_comes, departs, group_set, name_set, said, disconnected, Reach, here, next,
}
use cmd_chat.Chat.Room.Invariant.{
  IsValid, member_of, Reach-IsValid, handle-nick, handle-unnamed, renamed_to,
}
use cmd_chat.Chat.Room.Acts.{
  View, Act, comes, takes_name, goes, opens, nothing, play, view, entered-view, left-view,
  named-view, undone-view, entered_keyed, left_keyed, admits-play,
}

module _ (is_graphic : ℕ → Bool) (taken : Log → ℕ → Packet → Bool) where
  abbrev pub hello_of : Host → Packet
  hello_of h = record (packet (codes "hello")) { from = h.id; name = h.name; group = h.group }

  -- What a step of the host is in the room: whether a newcomer is greeted is up to the network.
  unfoldable pub act : {s t : System} → Step is_graphic taken s t → Act
  act (arrives s k peer new) = comes k peer.id peer.name (send_to taken k (hello_of s.host) s.log).0
  act (packet_comes s k g p there) =
      if bytes_beq p.kind (codes "nick")
      then takes_name k (clean_nickname is_graphic p.name)
      else nothing
  act (departs s k g there) = goes k
  act (group_set s b) = opens b
  act (name_set s name) = nothing
  act (said s p) = nothing
  act (disconnected s) = nothing

  -- The acts of a run, one after the other.
  unfoldable pub played : {s t : System} → Reach is_graphic taken s t → View → View
  played here v = v
  played (next r st) v = play (act st) (played r v)

  hello-greet :
      (s : System) (k : ℕ) (peer : Peer) (m : Member)
      → (greet taken (enter s.host k m) k peer m s.log).0
        ≡ (send_to taken k (hello_of s.host) s.log).0
  unfolding greet enter
  hello-greet s k peer m =
      greeted_first (send_to taken k (hello_of s.host) s.log).0 s.host.group _ _ _
    where
      greeted_first :
          (a g : Bool) (l m n : Log)
          → let r : Bool × Log = if not a then (false, l) else if g then (true, m) else (true, n) in
            r.0 ≡ a
      greeted_first a g l m n = ground arith

  arrive-Played :
      (s : System) (k : ℕ) (peer : Peer)
      → lookup k s.host.members ≡ none
      → IsMap s.host.members
      → (view (arrive is_graphic taken s k peer).host
          ≡ play
              (comes k peer.id peer.name (send_to taken k (hello_of s.host) s.log).0)
              (view s.host))
        × IsMap (arrive is_graphic taken s k peer).host.members
  unfolding arrive play first_member
  arrive-Played s k peer new keyed = elim (Bool-cases (admits s.host)) [
    | inr e ↦ (rw (sym (admits-play s.host), e) refl, rw e keyed)
    | inl e ↦ elim (Bool-cases (send_to taken k (hello_of s.host) s.log).0) [
      | inl f ↦ (
        rw (sym (admits-play s.host), e, hello-greet s k peer m, f) (entered-view s.host k m new),
        rw (e, hello-greet s k peer m, f) (entered_keyed s.host k m keyed),
      )
      | inr f ↦ (
        rw (sym (admits-play s.host), e, hello-greet s k peer m, f)
            (undone-view taken s.host k peer m greeted.1 keyed new),
        rw (e, hello-greet s k peer m, f)
            (left_keyed taken (enter s.host k m) k peer m greeted.1
              (entered_keyed s.host k m keyed)),
      )
    ]
  ]
    where
      m : Member
      m = first_member peer

      greeted : Bool × Log
      greeted = greet taken (enter s.host k m) k peer m s.log

  receive_packet-Played :
      (s : System) (k : ℕ) (g : Guest) (p : Packet)
      → lookup k s.host.members ≡ some g.member
      → IsMap s.host.members
      → (view (receive_packet is_graphic taken s k g p).host
          ≡ play
              (if bytes_beq p.kind (codes "nick")
                then takes_name k (clean_nickname is_graphic p.name)
                else nothing)
              (view s.host))
        × IsMap (receive_packet is_graphic taken s k g p).host.members
  unfolding receive_packet play
  receive_packet-Played s k g p there keyed = elim (Bool-cases (bytes_beq p.kind (codes "nick"))) [
    | inl e ↦
        let name = clean_nickname is_graphic p.name in
        let is = (handle-nick is_graphic taken s.host k g.member p s.log e).1 in
        simp (is, e)
          (
            named-view s.host k g.member name there,
            IsMap-insert k (renamed_to name g.member) s.host.members keyed,
          )
    | inr e ↦
        let is = (handle-unnamed is_graphic taken s.host k g.member p s.log e).1 in
        simp (is, e) (still (view s.host), keyed)
  ]
    where
      still : (v : View) → v ≡ play nothing v
      still v = refl

  act-Played :
      {s t : System} (st : Step is_graphic taken s t)
      → IsValid s
      → IsMap s.host.members
      → (view t.host ≡ play (act st) (view s.host)) × IsMap t.host.members
  unfolding act play view depart call_host set_name set_group
  act-Played (arrives s k peer new) v keyed =
      arrive-Played s k peer (v.members k ∙ ap member_of new) keyed
  act-Played (packet_comes s k g p there) v keyed =
      receive_packet-Played s k g p (v.members k ∙ ap member_of there) keyed
  act-Played (departs s k g there) v keyed = (
    left-view taken s.host k g.peer g.member g.member s.log keyed
        (v.members k ∙ ap member_of there),
    left_keyed taken s.host k g.peer g.member s.log keyed,
  )
  act-Played (group_set s b) v keyed = (refl, keyed)
  act-Played (name_set s name) v keyed = (refl, keyed)
  act-Played (said s p) v keyed = (refl, keyed)
  act-Played (disconnected s) v keyed = (refl, keyed)

  -- Whatever happens to a host, in any order, the room that it keeps is the one that the same acts make
  -- of the abstract room: a peer that comes enters under its proven ID and its name exactly if group
  -- chat is on or nobody is there, and it could be greeted; a `nick` changes the sender's name alone, to
  -- the cleaned one; who goes is no longer there; the switch is as it was set last; nothing else
  -- changes who is there, their number or the switch. And no connection stands twice.
  pub Reach-Refined :
      {s t : System} (r : Reach is_graphic taken s t)
      → IsValid s
      → IsMap s.host.members
      → (view t.host ≡ played r (view s.host)) × IsMap t.host.members
  unfolding played
  Reach-Refined here v keyed = (refl, keyed)
  Reach-Refined (next r st) v keyed =
      let (p, k) = Reach-Refined r v keyed in
      let (q, k') = act-Played st (Reach-IsValid is_graphic taken v r) k in
      (q ∙ ap (play (act st)) p, k')
