-- ===== src/E2ee/Handshake/Versions.antt =====
-- The versions on offer: containsVersion, selectVersion and the loops over the list in Initiate and
-- Respond of internal/e2ee/handshake.go.
use cmd_chat.Prelude.{
  ◌==◌, if◌then◌else◌, Bool-cases, All, nat_eq, bytes_eq, Bytes, ℕ, zero, suc, ◌≡◌, refl, ap, ◌↔◌,
  ◌⊎◌, inl, inr, Bool, true, false, Option, none, some, List, [], ◌∷◌, ◌++◌, arith,
}
use cmd_chat.E2ee.Wire.{Reader, read_u16, append_u16}

unfoldable pub contains_version : List ℕ → ℕ → Bool
contains_version [] v = false
contains_version (candidate ∷ list) v = if candidate == v then true else contains_version list v

unfoldable pub select_version : List ℕ → List ℕ → Option ℕ
select_version [] theirs = none
select_version (v ∷ ours) theirs =
    if contains_version theirs v then some v else select_version ours theirs

-- The loop that writes the list after `dst`.
unfoldable pub append_versions : Bytes → List ℕ → Bytes
append_versions dst [] = dst
append_versions dst (v ∷ vs) = append_versions (append_u16 dst v) vs

-- The loop that reads `count` versions.
unfoldable pub read_versions : ℕ → Reader → List ℕ × Reader
read_versions zero r = ([], r)
read_versions (suc count) r =
    let (v, r') = read_u16 r in let (vs, r'') = read_versions count r' in (v ∷ vs, r'')

-- Membership, as a proposition to compare the tests with.
abbrev pub Offers : List ℕ → ℕ → Type 0
Offers [] v = ⊥
Offers (x ∷ xs) v = (x ≡ v) ⊎ Offers xs v

pub contains_version_lem :
    (list : List ℕ) (v : ℕ) → (contains_version list v ≡ true) ↔ Offers list v
unfolding contains_version
contains_version_lem [] v = ground arith
contains_version_lem (x ∷ xs) v = ground (arith, contains_version_lem xs v)

-- The version chosen is one of ours that the peer offers, and the first such: what stands before it
-- in our list the peer does not offer.
pub select_version_sound :
    (ours theirs : List ℕ) {v : ℕ}
    → select_version ours theirs ≡ some v
    → (before rest : List ℕ) × (ours ≡ before ++ (v ∷ rest))
      × Offers theirs v
      × All (λ u. contains_version theirs u ≡ false) before
unfolding select_version
select_version_sound [] theirs h = absurd (ground arith)
select_version_sound (u ∷ ours) theirs {v} h = elim (Bool-cases (contains_version theirs u)) [
  | inl here ↦
      let e : u ≡ v = ground arith in
      ([], ours, ap (λ w. w ∷ ours) e, (contains_version_lem theirs v).0 (rw (← e) here), tt)
  | inr not_here ↦
      let (before, rest, e, offered, none_before) =
        select_version_sound ours theirs (ground arith) in
      (u ∷ before, rest, ap (◌∷◌ u) e, offered, (not_here, none_before))
]

pub Offers-append : (before rest : List ℕ) (v : ℕ) → Offers (before ++ (v ∷ rest)) v
Offers-append [] rest v = inl refl
Offers-append (u ∷ before) rest v = inr (Offers-append before rest v)
