-- ===== src/Phonebook/Tests.antt =====
-- The phonebook client at concrete inputs.
mod Directory
use cmd_chat.Prelude.{
  length, All, nat_eq, bytes_eq, codes, ◌+◌, ◌≤◌, ◌≡◌, refl, Bool, true, false, none, some, List,
  [], ◌∷◌, map,
}
use cmd_chat.Phonebook.{
  Candidate, Address, endpoint, insert_by_priority, sort_by_priority, gathered, gather_candidates,
  next_issued_at, valid_id, all_base32, is_base32, host_candidate, reflexive_candidates,
}
use cmd_chat.Phonebook.Candidates.{Sorted, count, gather_candidates-Sorted}
use cmd_chat.Phonebook.Clock.{stamps, Increasing, stamps-Increasing}

abbrev addresses : List Address
addresses =
    record { text = codes "10.0.0.2"; is_private = true }
    ∷ record { text = codes "2001:db8::2"; is_private = false }
    ∷ []

-- The public mapping stands first.
published :
    map
      (λ (c : Candidate). c.priority)
      (gather_candidates 80 addresses (some (endpoint (codes "192.0.2.1") 9))).0
    ≡ 200 ∷ 150 ∷ 100 ∷ []
unfolding gather_candidates gathered sort_by_priority insert_by_priority host_candidate
    reflexive_candidates
published = refl

stamped : stamps 5 (7 ∷ 7 ∷ 3 ∷ 20 ∷ []) ≡ 7 ∷ 8 ∷ 9 ∷ 20 ∷ []
unfolding next_issued_at
stamped = refl

an_id : valid_id (codes "cc-ABCDEFGHIJKLMN27") ≡ true
unfolding valid_id all_base32 is_base32
an_id = refl
