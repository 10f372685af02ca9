-- ===== src/Prelude/Equality.antt =====
-- Equality tests as an interface, with instances for numbers and byte strings.
use Prim.Native.Nat.{ℕ}
use mathlib.Core.Path.{◌≡◌, refl}
use mathlib.Core.Logic.{◌↔◌, ◌≢◌}
use mathlib.Core.Bool.{Bool, true, false, ◌&&◌}
use mathlib.Core.List.{List, [], ◌∷◌}
use native.Mathlib.Omega.{arith}
use cmd_chat.Prelude.Tests.{◌==◌}

pub record Eq {ℓ} (A : Type ℓ) : Type ℓ where
  pub is_equal : A → A → Bool
  pub is_equal_iff : (x y : A) → (is_equal x y ≡ true) ↔ (x ≡ y)

abbrev pub eq {ℓ} : {A : Type ℓ} ⦃e : Eq A⦄ → A → A → Bool
eq ⦃e⦄ = e.is_equal

pub eq_refl {ℓ} : {A : Type ℓ} ⦃e : Eq A⦄ (a : A) → eq a a ≡ true
eq_refl ⦃e⦄ a = (e.is_equal_iff a a).1 refl

abbrev pub nat_beq : ℕ → ℕ → Bool
nat_beq a b = a == b

pub nat_beq_iff : (a b : ℕ) → (nat_beq a b ≡ true) ↔ (a ≡ b)
nat_beq_iff a b = ground arith

abbrev pub bytes_beq : List ℕ → List ℕ → Bool
bytes_beq [] [] = true
bytes_beq (a ∷ x) (b ∷ y) = a == b && bytes_beq x y
bytes_beq _ _ = false

pub bytes_beq_iff : (x y : List ℕ) → (bytes_beq x y ≡ true) ↔ (x ≡ y)
bytes_beq_iff [] [] = ground arith
bytes_beq_iff [] (b ∷ y) = ground arith
bytes_beq_iff (a ∷ x) [] = ground arith
bytes_beq_iff (a ∷ x) (b ∷ y) = ground (arith, bytes_beq_iff x y)

pub unequal : (x y : List ℕ) → bytes_beq x y ≡ false → x ≢ y
unequal x y differ same = ground (arith, (bytes_beq_iff x y).1 same)

instance abbrev pub nat_eq : Eq ℕ
nat_eq = record { is_equal = nat_beq; is_equal_iff = nat_beq_iff }

instance abbrev pub bytes_eq : Eq (List ℕ)
bytes_eq = record { is_equal = bytes_beq; is_equal_iff = bytes_beq_iff }
