-- ===== src/Prelude/Xor.antt =====
-- The exclusive or of binary digits: what it does twice is undone.
use cmd_chat.Prelude.{
  nat_eq, bytes_eq, ℕ, zero, suc, ◌+◌, ◌*◌, ◌/◌, ◌%◌, ◌^◌, ◌≤◌, ◌<◌, ◌≡◌, refl, sym, ap, ◌∙◌, arith,
}
use native.Mathlib.Numerals.{unary_clauses}
use Prim.Native.Nat.{bit_xor, bit_xor-bitwise, digits, differ}

abbrev xor_on : ℕ → ℕ → ℕ → ℕ
xor_on = digits (λ b. b) differ

-- Any count of digits that is large enough will do.
xor_on-enough : (n m a b : ℕ) → a ≤ n → a ≤ m → xor_on n a b ≡ xor_on m a b
xor_on-enough zero zero a b h k = refl
xor_on-enough zero (suc m) zero b h k = refl
xor_on-enough zero (suc m) (suc a) b h k = absurd (omega arith)
xor_on-enough (suc n) zero zero b h k = refl
xor_on-enough (suc n) zero (suc a) b h k = absurd (omega arith)
xor_on-enough (suc n) (suc m) zero b h k = refl
xor_on-enough (suc n) (suc m) (suc a) b h k =
    ap (λ (x : ℕ). x * 2 + differ (suc a % 2) (b % 2))
      (xor_on-enough n m (suc a / 2) (b / 2) (omega (arith, h)) (omega (arith, k)))

xor_is : (a b : ℕ) → bit_xor a b ≡ xor_on a a b
xor_is a b = λ i. bit_xor-bitwise a b i

differ-twice : (x y : ℕ) → x < 2 → y < 2 → differ (differ x y) y ≡ x
differ-twice zero zero h k = refl
differ-twice zero (suc zero) h k = refl
differ-twice (suc zero) zero h k = refl
differ-twice (suc zero) (suc zero) h k = refl
differ-twice (suc (suc x)) y h k = absurd (omega arith)
differ-twice x (suc (suc y)) h k = absurd (omega arith)

differ-lt : (x y : ℕ) → x < 2 → y < 2 → differ x y < 2
differ-lt zero y h k = k
differ-lt (suc x) zero h k = h
differ-lt (suc zero) (suc zero) h k = omega arith
differ-lt (suc (suc x)) (suc y) h k = absurd (omega arith)
differ-lt (suc x) (suc (suc y)) h k = absurd (omega arith)

-- The lowest digit, and the others.
xor-step : (a b : ℕ) → bit_xor a b ≡ bit_xor (a / 2) (b / 2) * 2 + differ (a % 2) (b % 2)
xor-step zero b =
    xor_is zero b ∙ (omega arith ∙ ap (λ (x : ℕ). x * 2 + b % 2) (sym (xor_is 0 (b / 2))))
xor-step (suc a) b =
    xor_is (suc a) b
    ∙ ap (λ (x : ℕ). x * 2 + differ (suc a % 2) (b % 2))
        (xor_on-enough a (suc a / 2) (suc a / 2) (b / 2) (omega arith) (omega arith)
          ∙ sym (xor_is (suc a / 2) (b / 2)))

twice_on : (k a b : ℕ) → a ≤ k → b ≤ k → bit_xor (bit_xor a b) b ≡ a
twice_on zero zero zero h j = refl
twice_on zero (suc a) b h j = absurd (omega arith)
twice_on zero a (suc b) h j = absurd (omega arith)
twice_on (suc k) a b h j =
    let low = differ-lt (a % 2) (b % 2) (omega arith) (omega arith) in
    let x = bit_xor (a / 2) (b / 2) in
    let d = differ (a % 2) (b % 2) in
    let high : bit_xor a b / 2 ≡ x = omega (arith, xor-step a b, low) in
    let last : bit_xor a b % 2 ≡ d = omega (arith, xor-step a b, low) in
    let others : bit_xor x (b / 2) ≡ a / 2 =
      twice_on k (a / 2) (b / 2) (omega (arith, h)) (omega (arith, j)) in
    let digit : differ d (b % 2) ≡ a % 2 =
      differ-twice (a % 2) (b % 2) (omega arith) (omega arith) in
    xor-step (bit_xor a b) b ∙ (rw (high, last, others, digit) (omega arith))

pub xor-twice : (a b : ℕ) → bit_xor (bit_xor a b) b ≡ a
xor-twice a b = twice_on (a + b) a b (omega arith) (omega arith)

-- Numbers of so many digits stay within them.
pub xor-lt : (k a b : ℕ) → a < 2 ^ k → b < 2 ^ k → bit_xor a b < 2 ^ k
xor-lt zero zero zero h j = omega arith
xor-lt zero (suc a) b h j = absurd (omega arith)
xor-lt zero a (suc b) h j = absurd (omega arith)
xor-lt (suc k) a b h j =
    let low = differ-lt (a % 2) (b % 2) (omega arith) (omega arith) in
    let two : 2 ^ suc k ≡ 2 ^ k * 2 = simp unary_clauses in
    let high = xor-lt k (a / 2) (b / 2) (omega (arith, h, two)) (omega (arith, j, two)) in
    rw (xor-step a b) (omega (arith, high, low, two))
