-- ===== src/E2ee/Ratchet/Skipped.antt =====
-- The store of skipped message keys of internal/e2ee/ratchet.go: `skipped`, `order`, `remember` and
-- `forget`.
pub mod Bounds
pub mod Sound
use cmd_chat.Prelude.{
  ltb, if◌then◌else◌, length, eq, nat_beq, bytes_beq, bytes_beq_iff, Eq, Bytes, ok, ℕ, zero, ◌+◌,
  ◌-◌, ◌/◌, ◌≡◌, ap, ◌↔◌, Bool, true, ◌&&◌, Option, none, some, List, [], ◌∷◌, ◌++◌, arith,
}
use cmd_chat.Prelude.Map

-- `skippedKey`. The zero value, which says "none", is `none` where `receive` returns one.
pub record SkippedKey : Type 0 where
  pub ratchet_pub : Bytes
  pub n : ℕ

pub key_beq : SkippedKey → SkippedKey → Bool
key_beq a b = bytes_beq a.ratchet_pub b.ratchet_pub && nat_beq a.n b.n

pub key_beq_iff : (a b : SkippedKey) → (key_beq a b ≡ true) ↔ (a ≡ b)
unfolding key_beq
key_beq_iff a b = ground (arith, bytes_beq_iff a.ratchet_pub b.ratchet_pub)

instance abbrev pub skipped_key_eq : Eq SkippedKey
skipped_key_eq = record { is_equal = key_beq; is_equal_iff = key_beq_iff }

pub record Store : Type 0 where
  pub skipped : List (SkippedKey × Bytes)
  pub order : List SkippedKey

abbrev pub max_skip_store : ℕ
max_skip_store = 2000

abbrev pub empty : Store
empty = record { skipped = []; order = [] }

-- `r.skipped[k]`.
unfoldable pub find : SkippedKey → Store → Option Bytes
find k s = Map.lookup k s.skipped

-- The loop of `remember`: the oldest go while the store is too long.
unfoldable pub trim : List SkippedKey → List (SkippedKey × Bytes) → Store
trim [] skipped = record { skipped = skipped; order = [] }
trim (oldest ∷ order) skipped =
    let rest = trim order (Map.delete oldest skipped) in
    if ltb max_skip_store (length (oldest ∷ order))
    then rest
    else record { skipped = skipped; order = oldest ∷ order }

unfoldable pub remember : SkippedKey → Bytes → Store → Store
remember k message_key s =
    let order : List SkippedKey = elim (Map.lookup k s.skipped) [
      | none ↦ s.order ++ k ∷ []
      | some _ ↦ s.order
    ] in
    trim order (Map.insert k message_key s.skipped)

-- The loop of `forget`: the first entry of `order` with the key goes.
unfoldable pub remove_first : SkippedKey → List SkippedKey → List SkippedKey
remove_first k [] = []
remove_first k (j ∷ order) = if eq j k then order else j ∷ remove_first k order

unfoldable pub forget : SkippedKey → Store → Store
forget k s = elim (Map.lookup k s.skipped) [
  | none ↦ s
  | some _ ↦ record { skipped = Map.delete k s.skipped; order = remove_first k s.order }
]
