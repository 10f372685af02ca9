-- ===== src/Chat/Room/Members.antt =====
-- The list of the room: the host, then everyone in it in the order of their IDs.
use cmd_chat.Prelude.{
  Bool-cases, length, nat_eq, bytes_eq, ℕ, ◌+◌, ◌≡◌, refl, inl, inr, true, false, List, [], ◌∷◌,
  arith,
}
use mathlib.Core.List.{Perm}
use mathlib.Core.List.Perm
use cmd_chat.E2ee.Identity.{after, after_asym}
use cmd_chat.Chat.{Member}
use cmd_chat.Chat.Room.{Host, values, place, sort_members, members_of, count_of}

-- No ID stands before a smaller one.
abbrev pub IsOrdered : List Member → Type 0
IsOrdered [] = Unit
IsOrdered (m ∷ []) = Unit
IsOrdered (m ∷ n ∷ ms) = (after m.id n.id ≡ false) × IsOrdered (n ∷ ms)

IsOrdered-tail : (m : Member) (ms : List Member) → IsOrdered (m ∷ ms) → IsOrdered ms
IsOrdered-tail m [] h = tt
IsOrdered-tail m (n ∷ ms) h = h.1

place-perm : (m : Member) (ms : List Member) → Perm (place m ms) (m ∷ ms)
unfolding place
place-perm m [] = Perm.refl (m ∷ [])
place-perm m (n ∷ ms) = elim (Bool-cases (after m.id n.id)) [
  | inl e ↦ rw e (Perm.trans (Perm.cons n (place-perm m ms)) (Perm.swap m n ms))
  | inr e ↦ rw e (Perm.refl (m ∷ n ∷ ms))
]

-- What comes in front of a list that starts no smaller.
place-front :
    (n m : Member) (ms : List Member)
    → after n.id m.id ≡ false
    → IsOrdered (n ∷ ms)
    → IsOrdered (place m ms)
    → IsOrdered (n ∷ place m ms)
unfolding place
place-front n m [] e h g = (e, tt)
place-front n m (o ∷ ms) e h g = elim (Bool-cases (after m.id o.id)) [
  | inl f ↦ simp f (h.0, simp f at g)
  | inr f ↦ simp f (e, simp f at g)
]

place-IsOrdered : (m : Member) (ms : List Member) → IsOrdered ms → IsOrdered (place m ms)
unfolding place
place-IsOrdered m [] h = tt
place-IsOrdered m (n ∷ ms) h = elim (Bool-cases (after m.id n.id)) [
  | inl e ↦
      rw e (
        place-front n m ms (after_asym m.id n.id e) h
          (place-IsOrdered m ms (IsOrdered-tail n ms h)))
  | inr e ↦ rw e (e, h)
]

sort_members-Sorted : (ms : List Member) → Perm (sort_members ms) ms × IsOrdered (sort_members ms)
unfolding sort_members
sort_members-Sorted [] = (Perm.refl [], tt)
sort_members-Sorted (m ∷ ms) = sorted (sort_members-Sorted ms)
  where
    sorted :
        Perm (sort_members ms) ms × IsOrdered (sort_members ms)
        → Perm (place m (sort_members ms)) (m ∷ ms) × IsOrdered (place m (sort_members ms))
    sorted (p, o) = (
      Perm.trans (place-perm m (sort_members ms)) (Perm.cons m p),
      place-IsOrdered m (sort_members ms) o,
    )

length-place : (m : Member) (ms : List Member) → length (place m ms) ≡ length ms + 1
unfolding place
length-place m [] = refl
length-place m (n ∷ ms) = ground (arith, length-place m ms)

length-sort_members : (ms : List (ℕ × Member)) → length (sort_members (values ms)) ≡ length ms
unfolding sort_members
length-sort_members [] = refl
length-sort_members ((k, m) ∷ ms) =
    omega (arith, length-place m (sort_members (values ms)), length-sort_members ms)

-- Members lists the host first and then exactly those in the room, in the order of their IDs; it is
-- as long as Count says.
pub members_of-Roster :
    (h : Host)
    → (rest : List Member) × (members_of h
        ≡ record { id = h.id; name = h.name; host = true } ∷ rest)
      × Perm rest (values h.members)
      × IsOrdered rest
      × (length (members_of h) ≡ count_of h)
unfolding members_of count_of
members_of-Roster h =
    let (p, o) = sort_members-Sorted (values h.members) in
    (sort_members (values h.members), refl, p, o, omega (arith, length-sort_members h.members))
