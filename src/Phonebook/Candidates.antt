-- ===== src/Phonebook/Candidates.antt =====
-- What GatherCandidates of internal/phonebook/candidates.go publishes.
use cmd_chat.Prelude.{
  All-drop, ltb, if◌then◌else◌, Bool-cases, length, take, drop, take-append-drop, length-take, All,
  All-take, nat_eq, bytes_eq, ℕ, zero, suc, ◌+◌, ◌≤◌, ◌≡◌, refl, sym, ap, ◌∙◌, inl, inr, Bool,
  Option, List, [], ◌∷◌, ◌++◌, arith,
}
use cmd_chat.Phonebook.{
  Candidate, Address, Mapping, insert_by_priority, sort_by_priority, candidate_cap, gathered,
  gather_candidates,
}

-- A list in which no candidate stands behind one of a lower priority.
abbrev pub Sorted : List Candidate → Type 0
Sorted [] = Unit
Sorted (c ∷ cs) = All (λ d. d.priority ≤ c.priority) cs × Sorted cs

insert-All :
    (P : Candidate → Type 0) (c : Candidate) (cs : List Candidate)
    → P c
    → All P cs
    → All P (insert_by_priority c cs)
unfolding insert_by_priority
insert-All P c [] p a = (p, tt)
insert-All P c (d ∷ ds) p a = elim (Bool-cases (ltb c.priority d.priority)) [
  | inl e ↦ rw e (a.0, insert-All P c ds p a.1)
  | inr e ↦ rw e (p, a)
]

weaken :
    (m n : ℕ) (cs : List Candidate)
    → m ≤ n
    → All (λ d. d.priority ≤ m) cs
    → All (λ d. d.priority ≤ n) cs
weaken m n [] l a = tt
weaken m n (c ∷ cs) l a = (omega (arith, l, a.0), weaken m n cs l a.1)

insert-Sorted : (c : Candidate) (cs : List Candidate) → Sorted cs → Sorted (insert_by_priority c cs)
unfolding insert_by_priority
insert-Sorted c [] s = (tt, tt)
insert-Sorted c (d ∷ ds) s = elim (Bool-cases (ltb c.priority d.priority)) [
  | inl e ↦
      let l : c.priority ≤ d.priority = ground arith in
      rw e (insert-All (λ x. x.priority ≤ d.priority) c ds l s.0, insert-Sorted c ds s.1)
  | inr e ↦
      let l : d.priority ≤ c.priority = ground arith in
      rw e ((l, weaken d.priority c.priority ds l s.0), s)
]

sort-Sorted : (cs : List Candidate) → Sorted (sort_by_priority cs)
unfolding sort_by_priority
sort-Sorted [] = tt
sort-Sorted (c ∷ cs) = insert-Sorted c (sort_by_priority cs) (sort-Sorted cs)

-- How often a test holds.
abbrev pub count : (Candidate → Bool) → List Candidate → ℕ
count p [] = 0
count p (c ∷ cs) = (if p c then 1 else 0) + count p cs

insert-count :
    (p : Candidate → Bool) (c : Candidate) (cs : List Candidate)
    → count p (insert_by_priority c cs) ≡ (if p c then 1 else 0) + count p cs
unfolding insert_by_priority
insert-count p c [] = refl
insert-count p c (d ∷ ds) = elim (Bool-cases (ltb c.priority d.priority)) [
  | inl e ↦ rw e (omega (arith, insert-count p c ds))
  | inr e ↦ rw e refl
]

sort-count :
    (p : Candidate → Bool) (cs : List Candidate) → count p (sort_by_priority cs) ≡ count p cs
unfolding sort_by_priority
sort-count p [] = refl
sort-count p (c ∷ cs) = insert-count p c (sort_by_priority cs) ∙ omega (arith, sort-count p cs)

count-append :
    (p : Candidate → Bool) (xs ys : List Candidate) → count p (xs ++ ys) ≡ count p xs + count p ys
count-append p [] ys = omega arith
count-append p (x ∷ xs) ys = omega (arith, count-append p xs ys)

split-Sorted :
    (n : ℕ) (cs : List Candidate)
    → Sorted cs
    → Sorted (take n cs) × All (λ k. All (λ d. d.priority ≤ k.priority) (drop n cs)) (take n cs)
split-Sorted zero cs s = (tt, tt)
split-Sorted (suc n) [] s = (tt, tt)
split-Sorted (suc n) (c ∷ cs) s =
    let (sorted, best) = split-Sorted n cs s.1 in
    ((All-take _ n cs s.0, sorted), (All-drop _ n cs s.0, best))

take_short : (n : ℕ) (cs : List Candidate) → length cs ≤ n → take n cs ≡ cs
take_short zero [] l = refl
take_short zero (c ∷ cs) l = absurd (omega arith)
take_short (suc n) [] l = refl
take_short (suc n) (c ∷ cs) l = ap (◌∷◌ c) (take_short n cs (omega arith))

published_lem :
    (tcp_port : ℕ) (addresses : List Address) (stun : Option Mapping)
    → (gather_candidates tcp_port addresses stun).0
      ≡ take candidate_cap (sort_by_priority (gathered tcp_port addresses stun))
unfolding gather_candidates
published_lem tcp_port addresses stun =
    let cs = sort_by_priority (gathered tcp_port addresses stun) in
    elim (Bool-cases (ltb candidate_cap (length cs))) [
      | inl e ↦ rw e refl
      | inr e ↦ rw e (sym (take_short candidate_cap cs (ground arith)))
    ]

-- GatherCandidates publishes at most 7 candidates, best first; those that it gathered and leaves
-- out are of no higher priority than any published one, and it loses and invents none.
pub gather_candidates-Sorted :
    (tcp_port : ℕ) (addresses : List Address) (stun : Option Mapping)
    → (let published = (gather_candidates tcp_port addresses stun).0 in
        (left_out : List Candidate) × (length published ≤ 7)
        × Sorted published
        × All (λ k. All (λ d. d.priority ≤ k.priority) left_out) published
        × ((p : Candidate → Bool)
            → count p published + count p left_out ≡ count p (gathered tcp_port addresses stun)))
gather_candidates-Sorted tcp_port addresses stun =
    let all = gathered tcp_port addresses stun in
    let cs = sort_by_priority all in
    let (sorted, best) = split-Sorted candidate_cap cs (sort-Sorted all) in
    rw (published_lem tcp_port addresses stun) (
      drop candidate_cap cs,
      omega (arith, length-take candidate_cap cs),
      sorted,
      best,
      λ p.
          sym (count-append p (take candidate_cap cs) (drop candidate_cap cs))
          ∙ (ap (count p) (take-append-drop candidate_cap cs) ∙ sort-count p all),
    )
