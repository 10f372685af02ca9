-- ===== src/Chat/Room/Invariant.antt =====
-- What holds of a room at all times.
use cmd_chat.Prelude.{
  ltb, Bool-cases, length, eq, bytes_beq, nat_eq, bytes_eq, Bytes, codes, ℕ, ◌≡◌, refl, sym, ap,
  subst, ◌∙◌, ◌⊎◌, inl, inr, Bool, true, false, Option, none, some, List,
}
use cmd_chat.Prelude.Map.{
  lookup, insert, delete, lookup-insert, lookup-delete, IsImage, IsImage-insert, IsImage-delete,
  IsImage-replace, IsImage-undo,
}
use cmd_chat.Profile.{clean_nickname}
use cmd_chat.Chat.{Member, Packet, Peer, max_message_bytes}
use cmd_chat.Chat.Room.{
  Host, Log, set_group, set_name, admits, enter, leave, greet, handle, rename_guest,
}
use cmd_chat.Chat.Room.Steps.{
  Guest, System, first_member, arrive, receive_packet, depart, call_host, Step, arrives,
  packet_comes, departs, group_set, name_set, said, disconnected, Reach, here, next,
}

abbrev pub member_of : Option Guest → Option Member
member_of none = none
member_of (some g) = some g.member

abbrev pub present : Option Guest → Option (Unit {0})
present none = none
present (some g) = some tt

abbrev pub AreProven : List (ℕ × Guest) → Type 0
AreProven guests = (k : ℕ) (g : Guest) → lookup k guests ≡ some g → g.member.id ≡ g.peer.id

-- The two maps of the host are the loops that run, and a loop's member has the ID that its
-- connection proved.
pub record IsValid (s : System) : Type 0 where
  pub members : IsImage member_of s.host.members s.guests
  pub clients : IsImage present s.host.clients s.guests
  pub proven : AreProven s.guests

some_injective {ℓ} : {A : Type ℓ} {a b : A} → some a ≡ some b → a ≡ b
some_injective h = cc

-- The guests as they are after one of them changed.
proven-insert :
    (k : ℕ) (g : Guest) (guests : List (ℕ × Guest))
    → g.member.id ≡ g.peer.id
    → AreProven guests
    → AreProven (insert k g guests)
proven-insert k g guests own others j f h = elim (Bool-cases (eq k j)) [
  | inl e ↦
      subst (λ (x : Guest). x.member.id ≡ x.peer.id)
        (some_injective (rw (lookup-insert k j g guests, e) at h)) own
  | inr e ↦ others j f (rw (lookup-insert k j g guests, e) at h)
]

proven-delete : (k : ℕ) (guests : List (ℕ × Guest)) → AreProven guests → AreProven (delete k guests)
proven-delete k guests others j f h = elim (Bool-cases (eq k j)) [
  | inl e ↦ absurd (cc (rw (lookup-delete k j guests, e) at h))
  | inr e ↦ others j f (rw (lookup-delete k j guests, e) at h)
]

-- A member under another name.
abbrev pub renamed_to : Bytes → Member → Member
renamed_to name m = record { id = m.id; name = name; host = false }

module _ (is_graphic : ℕ → Bool) (taken : Log → ℕ → Packet → Bool) where
  entered-IsValid :
      (s : System) (k : ℕ) (peer : Peer) (log : Log)
      → IsValid s
      → IsValid (record {
        host = enter s.host k (first_member peer);
        guests = insert k (record { peer = peer; member = first_member peer }) s.guests;
        log = log;
      })
  unfolding enter first_member
  entered-IsValid s k peer log v = record {
    members = IsImage-insert member_of k _ _ s.host.members s.guests refl v.members;
    clients = IsImage-insert present k tt _ s.host.clients s.guests refl v.clients;
    proven = proven-insert k _ s.guests refl v.proven;
  }

  left-IsValid :
      (s : System) (k : ℕ) (peer : Peer) (m : Member) (log log' : Log)
      → IsValid s
      → IsValid (record {
        host = (leave taken s.host k peer m log).0;
        guests = delete k s.guests;
        log = log';
      })
  unfolding leave
  left-IsValid s k peer m log log' v = record {
    members = IsImage-delete member_of k s.host.members s.guests refl v.members;
    clients = IsImage-delete present k s.host.clients s.guests refl v.clients;
    proven = proven-delete k s.guests v.proven;
  }

  -- A packet that is not a `nick` changes nothing but the log.
  pub handle-unnamed :
      (h : Host) (k : ℕ) (m : Member) (p : Packet) (log : Log)
      → bytes_beq p.kind (codes "nick") ≡ false
      → (log' : Log) × (handle taken is_graphic h k m p log ≡ (h, m, log'))
  unfolding handle
  handle-unnamed h k m p log e = elim (Bool-cases (bytes_beq p.kind (codes "msg"))) [
    | inr f ↦ (t.2, rw (e, f) refl)
    | inl f ↦ elim (Bool-cases (ltb max_message_bytes (length p.text))) [
      | inl g ↦ (t.2, rw (e, f, g) refl)
      | inr g ↦ elim (Bool-cases h.group) [
        | inl o ↦ (t.2, rw (e, f, g, o) refl)
        | inr o ↦ (t.2, rw (e, f, g, o) refl)
      ]
    ]
  ]
    where
      t : Host × Member × Log
      t = handle taken is_graphic h k m p log

  -- A `nick` gives the member the packet's name, cleaned, and keeps its ID.
  pub handle-nick :
      (h : Host) (k : ℕ) (m : Member) (p : Packet) (log : Log)
      → bytes_beq p.kind (codes "nick") ≡ true
      → let named = renamed_to (clean_nickname is_graphic p.name) m in
        (log' : Log) × (handle taken is_graphic h k m p log
          ≡ (record h { members = insert k named h.members }, named, log'))
  unfolding handle rename_guest
  handle-nick h k m p log e = ((handle taken is_graphic h k m p log).2, rw e refl)

  -- Handling a packet renames the guest or changes nothing but the log.
  pub handle-cases :
      (h : Host) (k : ℕ) (m : Member) (p : Packet) (log : Log)
      → ((m' : Member) × (log' : Log) × (m'.id ≡ m.id)
          × (handle taken is_graphic h k m p log
              ≡ (record h { members = insert k m' h.members }, m', log')))
        ⊎ ((log' : Log) × (handle taken is_graphic h k m p log ≡ (h, m, log')))
  handle-cases h k m p log = elim (Bool-cases (bytes_beq p.kind (codes "nick"))) [
    | inl e ↦
        let (log', is) = handle-nick h k m p log e in
        inl (renamed_to (clean_nickname is_graphic p.name) m, log', refl, is)
    | inr e ↦ inr (handle-unnamed h k m p log e)
  ]

  received-IsValid :
      (s : System) (k : ℕ) (g : Guest) (p : Packet)
      → lookup k s.guests ≡ some g
      → IsValid s
      → IsValid (receive_packet is_graphic taken s k g p)
  unfolding receive_packet
  received-IsValid s k g p there v = elim (handle-cases s.host k g.member p s.log) [
    | inl (m', log', same, e) ↦ rw e (record {
      members = IsImage-insert member_of k m' _ s.host.members s.guests refl v.members;
      clients =
          IsImage-replace present k _ s.host.clients s.guests (sym (ap present there)) v.clients;
      proven =
          proven-insert k (record g { member = m' }) s.guests (same ∙ v.proven k g there) v.proven;
    })
    | inr (log', e) ↦ rw e (record {
      members =
          IsImage-replace member_of k g s.host.members s.guests (sym (ap member_of there))
            v.members;
      clients =
          IsImage-replace present k g s.host.clients s.guests (sym (ap present there)) v.clients;
      proven = proven-insert k g s.guests (v.proven k g there) v.proven;
    })
  ]

  -- A connection that could not be greeted has left no trace in the two maps.
  turned_away-IsValid :
      (s : System) (k : ℕ) (peer : Peer) (m : Member) (log log' : Log)
      → lookup k s.guests ≡ none
      → IsValid s
      → IsValid (record {
        host = (leave taken (enter s.host k m) k peer m log).0;
        guests = s.guests;
        log = log';
      })
  unfolding leave enter
  turned_away-IsValid s k peer m log log' new v = record {
    members = IsImage-undo member_of k m s.host.members s.guests refl new v.members;
    clients = IsImage-undo present k tt s.host.clients s.guests refl new v.clients;
    proven = v.proven;
  }

  arrive-IsValid :
      (s : System) (k : ℕ) (peer : Peer)
      → lookup k s.guests ≡ none
      → IsValid s
      → IsValid (arrive is_graphic taken s k peer)
  unfolding arrive
  arrive-IsValid s k peer new v = elim (Bool-cases (admits s.host)) [
    | inr e ↦ rw e (record { members = v.members; clients = v.clients; proven = v.proven })
    | inl e ↦ elim (Bool-cases greeted.0) [
      | inl f ↦ rw (e, f) (entered-IsValid s k peer greeted.1 v)
      | inr f ↦
          rw (e, f)
            (turned_away-IsValid s k peer (first_member peer) greeted.1
              (leave taken (enter s.host k (first_member peer)) k peer (first_member peer)
                greeted.1).1
              new v)
    ]
  ]
    where
      greeted : Bool × Log
      greeted = greet taken (enter s.host k (first_member peer)) k peer (first_member peer) s.log

  Step-IsValid : {s t : System} → Step is_graphic taken s t → IsValid s → IsValid t
  unfolding depart call_host set_name set_group
  Step-IsValid (arrives s k peer new) v = arrive-IsValid s k peer new v
  Step-IsValid (packet_comes s k g p there) v = received-IsValid s k g p there v
  Step-IsValid (departs s k g there) v = left-IsValid s k g.peer g.member s.log _ v
  Step-IsValid (group_set s b) v = record {
    members = v.members;
    clients = v.clients;
    proven = v.proven;
  }
  Step-IsValid (name_set s name) v = record {
    members = v.members;
    clients = v.clients;
    proven = v.proven;
  }
  Step-IsValid (said s p) v = record { members = v.members; clients = v.clients; proven = v.proven }
  Step-IsValid (disconnected s) v = record {
    members = v.members;
    clients = v.clients;
    proven = v.proven;
  }

  -- However connections come and go, the clients and the members of the host are those whose loops
  -- run, each member with the ID that its connection proved.
  pub Reach-IsValid : {s t : System} → IsValid s → Reach is_graphic taken s t → IsValid t
  Reach-IsValid v here = v
  Reach-IsValid v (next r st) = Step-IsValid st (Reach-IsValid v r)
