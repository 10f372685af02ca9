-- ===== src/Phonebook/Directory/Decimal.antt =====
-- The number that a decimal text stands for.
use cmd_chat.Prelude.{
  ◌==◌, length, nat_eq, bytes_eq, Bytes, ℕ, ◌+◌, ◌-◌, ◌*◌, ◌<◌, ◌≡◌, false, [], ◌∷◌, arith,
}

-- The number that a text of digits stands for, behind the digits that were read.
abbrev pub read_decimal : ℕ → Bytes → ℕ
read_decimal n [] = n
read_decimal n (d ∷ ds) = read_decimal (n * 10 + (d - 48)) ds

not_empty : (b : Bytes) (v : ℕ) → read_decimal 0 b ≡ v → (v == 0) ≡ false → 0 < length b
not_empty [] v h e = absurd (ground arith)
not_empty (d ∷ b) v h e = omega arith
