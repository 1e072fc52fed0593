-- ===== src/Common/Xor.antt =====
-- `^` on numbers: a second exclusive or by the same number undoes the first.
use Prim.Native.Nat.{
  ℕ, zero, suc, ◌+◌, ◌*◌, ◌/◌, ◌%◌, ◌≤◌, ◌<◌, bit_xor, bit_xor-bitwise, differ, digits,
}
use mathlib.Core.Path.{◌≡◌, refl, ap, ◌∙◌}
use native.Mathlib.Omega.{arith}

-- More rounds than there are digits change nothing.
rounds_enough :
    (n m a b : ℕ) → a ≤ n → a ≤ m → digits (λ y. y) differ n a b ≡ digits (λ y. y) differ m a b
rounds_enough zero zero a b p q = refl
rounds_enough zero (suc m) zero b p q = refl
rounds_enough zero (suc m) (suc a) b p q = absurd (omega arith)
rounds_enough (suc n) zero zero b p q = refl
rounds_enough (suc n) zero (suc a) b p q = absurd (omega arith)
rounds_enough (suc n) (suc m) zero b p q = refl
rounds_enough (suc n) (suc m) (suc a) b p q =
    omega (arith, rounds_enough n m (suc a / 2) (b / 2) (omega arith) (omega arith))

zero-bit_xor : (b : ℕ) → bit_xor 0 b ≡ b
zero-bit_xor b = bit_xor-bitwise 0 b

differ_zero : (y : ℕ) → differ 0 y ≡ y
differ_zero y = refl

-- The lowest digit.
bit_xor_step : (a b : ℕ) → bit_xor a b ≡ bit_xor (a / 2) (b / 2) * 2 + differ (a % 2) (b % 2)
bit_xor_step zero b = omega (arith, zero-bit_xor b, zero-bit_xor (b / 2), differ_zero (b % 2))
bit_xor_step (suc a) b = omega (
  arith,
  bit_xor-bitwise (suc a) b,
  bit_xor-bitwise (suc a / 2) (b / 2),
  rounds_enough a (suc a / 2) (suc a / 2) (b / 2) (omega arith) (omega arith),
)

-- On digits below 2.
differ_digits : (x y : ℕ) → x < 2 → y < 2 → (differ x y < 2) × (differ (differ x y) y ≡ x)
differ_digits zero zero p q = (omega arith, refl)
differ_digits zero (suc zero) p q = (omega arith, refl)
differ_digits (suc zero) zero p q = (omega arith, refl)
differ_digits (suc zero) (suc zero) p q = (omega arith, refl)
differ_digits (suc (suc x)) y p q = absurd (omega arith)
differ_digits zero (suc (suc y)) p q = absurd (omega arith)
differ_digits (suc zero) (suc (suc y)) p q = absurd (omega arith)

bit_xor_undone : (n a b : ℕ) → a ≤ n → b ≤ n → bit_xor (bit_xor a b) b ≡ a
bit_xor_undone zero zero zero p q = refl
bit_xor_undone zero (suc a) b p q = absurd (omega arith)
bit_xor_undone zero zero (suc b) p q = absurd (omega arith)
bit_xor_undone (suc n) a b p q =
    let (bit, undone) = differ_digits (a % 2) (b % 2) (omega arith) (omega arith) in
    let x = bit_xor (a / 2) (b / 2) in
    let low = differ (a % 2) (b % 2) in
    let whole : bit_xor a b ≡ x * 2 + low = bit_xor_step a b in
    let half : bit_xor a b / 2 ≡ x = omega (arith, whole, bit) in
    let rest : bit_xor a b % 2 ≡ low = omega (arith, whole, bit) in
    let outer : bit_xor (bit_xor a b) b ≡ bit_xor x (b / 2) * 2 + differ low (b % 2) =
      bit_xor_step (bit_xor a b) b
      ∙ ap (λ (h : ℕ). bit_xor h (b / 2) * 2 + differ (bit_xor a b % 2) (b % 2)) half
      ∙ ap (λ (r : ℕ). bit_xor x (b / 2) * 2 + differ r (b % 2)) rest in
    omega (arith, outer, undone, bit_xor_undone n (a / 2) (b / 2) (omega arith) (omega arith))

pub bit_xor_twice : (a b : ℕ) → bit_xor (bit_xor a b) b ≡ a
bit_xor_twice a b = bit_xor_undone (a + b) a b (omega arith) (omega arith)
