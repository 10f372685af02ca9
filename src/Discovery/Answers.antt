-- ===== src/Discovery/Answers.antt =====
-- What Find of internal/discovery/discovery.go makes of the answers.
use cmd_chat.Prelude.{
  ◌==◌, if◌then◌else◌, Bool-cases, Option-cases, length, eq_refl, bytes_beq, bytes_beq_iff, nat_eq,
  bytes_eq, Bytes, codes, ℕ, ◌≡◌, refl, ap, inl, inr, Bool, true, false, Option, none, some, List,
  [], ◌∷◌,
}
use cmd_chat.Prelude.Map.{lookup, insert, lookup-insert}
use cmd_chat.Discovery.{Announcement, Packet, magic, was_seen, found, find_loop, find, serve}

-- The first answer that announces an ID.
abbrev pub first_answer : Bytes → List (Option Packet) → Option Announcement
first_answer id [] = none
first_answer id (d ∷ ds) = elim (found d) [
  | none ↦ first_answer id ds
  | some a ↦ if bytes_beq a.id id then some a else first_answer id ds
]

-- Once the ID is seen, nothing is taken.
find_loop_seen :
    (id : Bytes) (seen : List (Bytes × Bool)) (ds : List (Option Packet))
    → was_seen id seen ≡ true
    → find_loop id seen ds ≡ []
unfolding find_loop
find_loop_seen id seen [] h = refl
find_loop_seen id seen (d ∷ ds) h = elim (Option-cases (found d)) [
  | inl e ↦ rw (e, find_loop) (find_loop_seen id seen ds h)
  | inr (a, e) ↦ elim (Bool-cases (bytes_beq a.id id)) [
    | inr other ↦ rw (e, other, find_loop) (find_loop_seen id seen ds h)
    | inl same ↦
        let again : was_seen a.id seen ≡ true = rw ((bytes_beq_iff a.id id).0 same) h in
        rw (e, same, again, find_loop) (find_loop_seen id seen ds h)
  ]
]

find_loop_first :
    (id : Bytes) (seen : List (Bytes × Bool)) (ds : List (Option Packet))
    → was_seen id seen ≡ false
    → find_loop id seen ds ≡ elim (first_answer id ds) [ none ↦ [] | some a ↦ a ∷ [] ]
unfolding find_loop was_seen
find_loop_first id seen [] h = refl
find_loop_first id seen (d ∷ ds) h = elim (Option-cases (found d)) [
  | inl e ↦ rw (e, find_loop) (find_loop_first id seen ds h)
  | inr (a, e) ↦ elim (Bool-cases (bytes_beq a.id id)) [
    | inr other ↦ rw (e, other, find_loop) (find_loop_first id seen ds h)
    | inl same ↦
        let is_id : a.id ≡ id = (bytes_beq_iff a.id id).0 same in
        let fresh : was_seen a.id seen ≡ false = rw is_id h in
        let then_seen : was_seen id (insert a.id true seen) ≡ true =
          rw (was_seen, lookup-insert a.id id true seen, same) refl in
        rw (e, same, fresh, find_loop)
          (ap (◌∷◌ a) (find_loop_seen id (insert a.id true seen) ds then_seen))
  ]
]

-- Find gives the first answer that announces the ID that was asked for and nothing else, whatever
-- other datagrams arrive.
pub find_first :
    (id : Bytes) (ds : List (Option Packet))
    → find id ds ≡ elim (first_answer id ds) [ none ↦ [] | some a ↦ a ∷ [] ]
unfolding find was_seen lookup
find_first id ds = find_loop_first id [] ds refl

-- A host answers a question for its ID so that Find takes the answer: its announcement, with the
-- endpoint on the interface that faces the asker, if that is known.
pub find-serve :
    (join_host_port : Bytes → ℕ → Bytes) (a : Announcement) (host_ip : Bytes)
    → find a.id (
        serve join_host_port a host_ip (
          some (record {
            magic_text = magic;
            kind = codes "discover";
            announcement = none;
            id = a.id;
          }))
        ∷ [])
      ≡ (if length host_ip == 0 then a else record a { endpoint = join_host_port host_ip a.port })
        ∷ []
unfolding find find_loop found serve was_seen lookup
find-serve join_host_port a host_ip =
    let same : bytes_beq a.id a.id ≡ true = eq_refl a.id in
    elim (Bool-cases (length host_ip == 0)) [
      | inl e ↦ rw (e, same) (rw same refl)
      | inr e ↦ rw (e, same) (rw same refl)
    ]
