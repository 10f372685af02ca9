-- ===== src/E2ee/Ratchet/Skipped/Sound.antt =====
-- What the store of skipped keys holds was put there.
use cmd_chat.Prelude.{
  ltb, Bool-cases, length, Bytes, ◌≡◌, ◌⊎◌, inl, inr, some, List, [], ◌∷◌, ◌++◌, arith,
}
use cmd_chat.Prelude.Map
use cmd_chat.E2ee.Ratchet.Skipped.{
  SkippedKey, Store, find, trim, remember, max_skip_store, skipped_key_eq, key_beq_iff,
}

-- Whatever a trimmed store holds, the untrimmed one held.
trim_sound :
    (j : SkippedKey) (order : List SkippedKey) (m : List (SkippedKey × Bytes)) (w : Bytes)
    → find j (trim order m) ≡ some w
    → Map.lookup j m ≡ some w
unfolding trim find
trim_sound j [] m w h = h
trim_sound j (i ∷ order) m w h = elim (Bool-cases (ltb max_skip_store (length (i ∷ order)))) [
  | inl long ↦ ground (arith, trim_sound j order (Map.delete i m) w, Map.lookup-delete i j m)
  | inr short ↦ ground arith
]

-- Whatever is held after a key has been stored was held before or is that key.
pub remember_sound :
    (k j : SkippedKey) (v : Bytes) (s : Store) (w : Bytes)
    → find j (remember k v s) ≡ some w
    → ((k ≡ j) × (v ≡ w)) ⊎ (find j s ≡ some w)
unfolding remember find
remember_sound k j v s w h = ground (
  arith,
  trim_sound j (s.order ++ k ∷ []) (Map.insert k v s.skipped) w,
  trim_sound j s.order (Map.insert k v s.skipped) w,
  Map.lookup-insert k j v s.skipped,
  key_beq_iff k j,
)
