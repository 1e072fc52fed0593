-- ===== src/Common/Bits.antt =====
-- `|` on numbers whose bits do not meet is addition.
use Prim.Native.Nat.{
  ℕ, zero, suc, ◌+◌, ◌*◌, ◌/◌, ◌^◌, ◌≤◌, ◌<◌, bit_or, bit_or-bitwise, digits, max,
}
use mathlib.Core.Path.{◌≡◌, ap, ◌∙◌}
use native.Mathlib.Nat.{pow-suc}
use native.Mathlib.Omega.{arith}

-- The definition behind the native operation, with `fuel` rounds: in each the lowest bits are joined.
disjoint_rounds :
    (fuel k high whole low : ℕ)
    → whole ≡ high * 2 ^ k
    → low < 2 ^ k
    → whole ≤ fuel
    → digits (λ rest. rest) max fuel whole low ≡ whole + low
disjoint_rounds zero k high zero low shape small enough =
    let same : low ≡ 0 + low = omega arith in same
disjoint_rounds zero k high (suc w) low shape small enough = absurd (omega arith)
disjoint_rounds (suc fuel) k high zero low shape small enough =
    let same : low ≡ 0 + low = omega arith in same
disjoint_rounds (suc fuel) zero high (suc w) low shape small enough = omega (
  arith,
  disjoint_rounds fuel 0 (suc w / 2) (suc w / 2) (low / 2) (omega arith) (omega arith)
      (omega arith),
)
disjoint_rounds (suc fuel) (suc k) high (suc w) low shape small enough =
    let power = pow-suc 2 k in
    let even : suc w ≡ 2 * (high * 2 ^ k) = omega (arith, shape, ap (λ (t : ℕ). high * t) power) in
    omega (
      arith,
      even,
      disjoint_rounds fuel k high (suc w / 2) (low / 2) (omega (arith, even)) (omega (arith, power))
          (omega arith),
    )

-- `whole` is a multiple of 2 ^ k, and `low` is below it.
pub bit_or_above :
    (k high low whole : ℕ) → whole ≡ high * 2 ^ k → low < 2 ^ k → bit_or whole low ≡ whole + low
bit_or_above k high low whole e h =
    bit_or-bitwise whole low ∙ disjoint_rounds whole k high whole low e h (omega arith)
