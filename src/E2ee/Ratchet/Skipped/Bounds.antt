-- ===== src/E2ee/Ratchet/Skipped/Bounds.antt =====
-- The store of skipped keys: `order` lists the keys that are held, once each, and is bounded.
use cmd_chat.Prelude.{
  ltb, if◌then◌else◌, Bool-cases, Option-cases, is_some, tests, length, eq, nat_eq, bytes_eq, Eq,
  Bytes, ◌≤◌, ◌≡◌, refl, ap, ◌∙◌, inl, inr, Bool, false, ◌||◌, none, List, [], ◌∷◌, ◌++◌, arith,
}
use cmd_chat.Prelude.Map
use cmd_chat.E2ee.Ratchet.Skipped.{
  SkippedKey, Store, empty, max_skip_store, find, trim, remember, remove_first, forget,
  skipped_key_eq, key_beq_iff,
}

module _ {ℓ} {A : Type ℓ} ⦃e : Eq A⦄ where
  -- Membership by the equality test.
  abbrev pub has : A → List A → Bool
  has k [] = false
  has k (j ∷ l) = eq j k || has k l

  abbrev pub Distinct : List A → Type 0
  Distinct [] = Unit
  Distinct (j ∷ l) = (has j l ≡ false) × Distinct l

  pub has-append : (k : A) (xs ys : List A) → has k (xs ++ ys) ≡ has k xs || has k ys
  has-append k [] ys = refl
  has-append k (x ∷ xs) ys = ground (arith, has-append k xs ys)

  pub Distinct-append_one :
      (xs : List A) (k : A) → Distinct xs → has k xs ≡ false → Distinct (xs ++ k ∷ [])
  Distinct-append_one [] k d h = (refl, tt)
  Distinct-append_one (x ∷ xs) k d h = ground (
    arith,
    has-append x xs (k ∷ []),
    Distinct-append_one xs k d.1,
    e.is_equal_iff k x,
    e.is_equal_iff x k,
  )

-- The keys of `order` are distinct, they are the keys of the map, and they are at most 2000.
pub record IsValid (s : Store) : Type 0 where
  pub distinct : Distinct s.order
  pub listed : (k : SkippedKey) → has k s.order ≡ is_some (Map.lookup k s.skipped)
  pub bounded : length s.order ≤ max_skip_store

pub empty-IsValid : IsValid empty
unfolding Map.lookup
empty-IsValid = record { distinct = tt; listed = λ k. refl; bounded = omega arith }

pub find-empty : (k : SkippedKey) → find k empty ≡ none
unfolding find Map.lookup
find-empty k = refl

trim-IsValid :
    (order : List SkippedKey) (m : List (SkippedKey × Bytes))
    → Distinct order
    → ((k : SkippedKey) → has k order ≡ is_some (Map.lookup k m))
    → IsValid (trim order m)
unfolding trim
trim-IsValid [] m d h = record { distinct = tt; listed = h; bounded = omega arith }
trim-IsValid (j ∷ order) m d h = elim (Bool-cases (ltb max_skip_store (length (j ∷ order)))) [
  | inl long ↦ rw long (trim-IsValid order (Map.delete j m) d.1 deleted)
  | inr short ↦ rw short (record { distinct = d; listed = h; bounded = omega (tests, short) })
]
  where
    deleted : (k : SkippedKey) → has k order ≡ is_some (Map.lookup k (Map.delete j m))
    deleted k = ground (arith, Map.lookup-delete j k m, key_beq_iff j k, h k, d.0)

remove_first-has :
    (k : SkippedKey) (order : List SkippedKey)
    → Distinct order
    → (j : SkippedKey) → has j (remove_first k order) ≡ (if eq k j then false else has j order)
unfolding remove_first
remove_first-has k [] d j = ground arith
remove_first-has k (i ∷ order) d j =
    ground
      (arith, remove_first-has k order d.1 j, key_beq_iff i k, key_beq_iff k j, key_beq_iff i j)

remove_first-Distinct :
    (k : SkippedKey) (order : List SkippedKey) → Distinct order → Distinct (remove_first k order)
unfolding remove_first
remove_first-Distinct k [] d = tt
remove_first-Distinct k (i ∷ order) d =
    ground (arith, remove_first-Distinct k order d.1, remove_first-has k order d.1 i)

length-remove_first-le :
    (k : SkippedKey) (order : List SkippedKey) → length (remove_first k order) ≤ length order
unfolding remove_first
length-remove_first-le k [] = omega arith
length-remove_first-le k (i ∷ order) = ground (arith, length-remove_first-le k order)

-- Storing a key keeps the store valid: the order and the map hold the same keys, at most 2000.
pub remember-IsValid :
    (k : SkippedKey) (v : Bytes) (s : Store) → IsValid s → IsValid (remember k v s)
unfolding remember
remember-IsValid k v s valid = elim (Option-cases (Map.lookup k s.skipped)) [
  | inl new ↦
      rw (new, remember)
        (trim-IsValid _ _
          (Distinct-append_one s.order k valid.distinct (valid.listed k ∙ ap is_some new))
          (λ j. ground (
            arith,
            has-append j s.order (k ∷ []),
            valid.listed j,
            Map.lookup-insert k j v s.skipped,
          )))
  | inr (w, old) ↦
      rw (old, remember)
        (trim-IsValid _ _ valid.distinct
          (λ j. ground (arith, valid.listed j, Map.lookup-insert k j v s.skipped, key_beq_iff k j)))
]

-- Deleting a key keeps the store valid.
pub forget-IsValid : (k : SkippedKey) (s : Store) → IsValid s → IsValid (forget k s)
unfolding forget
forget-IsValid k s valid = elim (Option-cases (Map.lookup k s.skipped)) [
  | inl missing ↦ rw (missing, forget) valid
  | inr (w, held) ↦
      rw (held, forget)
        (record {
          distinct = remove_first-Distinct k s.order valid.distinct;
          listed = λ j. ground (
            arith,
            remove_first-has k s.order valid.distinct j,
            valid.listed j,
            Map.lookup-delete k j s.skipped,
          );
          bounded = omega (arith, length-remove_first-le k s.order, valid.bounded);
        })
]

-- A used key is gone, and no other key is.
pub find-forget :
    (k j : SkippedKey) (s : Store) → find j (forget k s) ≡ (if eq k j then none else find j s)
unfolding forget find
find-forget k j s = ground (arith, Map.lookup-delete k j s.skipped, key_beq_iff k j)
