-- ===== src/Common/Decimal.antt =====
-- Decimal numbers: `%d` of fmt on the unsigned numbers that the program prints, and what strconv reads.
use Prim.Native.Nat.{ℕ, zero, suc, ◌+◌, ◌-◌, ◌*◌, ◌/◌, ◌%◌, ◌≤◌, ◌<◌}
use mathlib.Core.Path.{◌≡◌, refl, sym, ap, ◌∙◌}
use mathlib.Core.Bool.{Bool, true, false, ◌&&◌}
use mathlib.Core.Option.{Option, none, some}
use mathlib.Core.Logic.{inl, inr}
use mathlib.Core.List.{[], ◌∷◌, ◌++◌}
use native.Mathlib.Omega.{arith}
use aliyun_ahas.Common.Tests.{ltb, leb, if◌then◌else◌, Bool-cases}
use aliyun_ahas.Common.Texts.{Text, is_empty}

is_empty-append : (s : Text) (c : ℕ) → is_empty (s ++ (c ∷ [])) ≡ false
is_empty-append [] c = refl
is_empty-append (x ∷ s) c = refl

-- The digits of `n`, in at most `fuel + 1` rounds.
digits : ℕ → ℕ → Text
digits zero n = (b'0' + n) ∷ []
digits (suc fuel) n =
    let rest = digits fuel (n / 10) ++ ((b'0' + n % 10) ∷ []) in
    if ltb n 10 then (b'0' + n) ∷ [] else rest

unfoldable pub decimal : ℕ → Text
unfolding digits
decimal n = digits n n

unfoldable pub is_digit : ℕ → Bool
is_digit c = leb b'0' c && leb c b'9'

-- The value of a run of digits behind `acc`; `none` where a byte is no digit.
digits_value : ℕ → Text → Option ℕ
digits_value acc [] = some acc
digits_value acc (c ∷ s) =
    let rest = digits_value (acc * 10 + (c - b'0')) s in if is_digit c then rest else none

-- The number that strconv reads in digits without a sign; `none` is its syntax error.
unfoldable pub unsigned_value : Text → Option ℕ
unfolding digits_value is_digit
unsigned_value s = if is_empty s then none else digits_value 0 s

-- The same for a width: a value that reaches the bound ends the reading, before later bytes are looked at.
bounded_digits : ℕ → ℕ → Text → Option ℕ
bounded_digits bound acc [] = some acc
bounded_digits bound acc (c ∷ s) =
    let n = acc * 10 + (c - b'0') in
    let rest = bounded_digits bound n s in
    if is_digit c then if ltb n bound then rest else some bound else none

-- The number of `strconv.ParseUint`, with the bound for its range error; `none` is its syntax error.
unfoldable pub bounded_value : ℕ → Text → Option ℕ
unfolding bounded_digits is_digit
bounded_value bound s = if is_empty s then none else bounded_digits bound 0 s

digits_value-grows : (acc v : ℕ) (s : Text) → digits_value acc s ≡ some v → acc ≤ v
unfolding digits_value is_digit
digits_value-grows acc v [] e = ground arith
digits_value-grows acc v (c ∷ s) e = ground (arith, digits_value-grows (acc * 10 + (c - b'0')) v s)

bounded_digits-below :
    (bound acc v : ℕ) (s : Text)
    → v < bound
    → digits_value acc s ≡ some v
    → bounded_digits bound acc s ≡ some v
unfolding bounded_digits digits_value is_digit
bounded_digits-below bound acc v [] h e = e
bounded_digits-below bound acc v (c ∷ s) h e =
    let n = acc * 10 + (c - b'0') in
    ground (arith, bounded_digits-below bound n v s h, digits_value-grows n v s)

-- Below the bound nothing is lost.
pub bounded_value-below :
    (bound v : ℕ) (s : Text)
    → v < bound
    → unsigned_value s ≡ some v
    → bounded_value bound s ≡ some v
unfolding bounded_value unsigned_value
bounded_value-below bound v [] h e = absurd (ground arith)
bounded_value-below bound v (c ∷ s) h e = bounded_digits-below bound 0 v (c ∷ s) h e

unfoldable pub all_digits : Text → Bool
all_digits [] = true
all_digits (c ∷ s) = is_digit c && all_digits s

digits_value-append :
    (acc v d : ℕ) (s : Text)
    → d < 10
    → digits_value acc s ≡ some v
    → digits_value acc (s ++ ((b'0' + d) ∷ [])) ≡ some (v * 10 + d)
unfolding digits_value is_digit
digits_value-append acc v d [] h e = ground arith
digits_value-append acc v d (c ∷ s) h e =
    ground (arith, digits_value-append (acc * 10 + (c - b'0')) v d s)

digits_value-digits : (fuel n : ℕ) → n ≤ fuel → digits_value 0 (digits fuel n) ≡ some n
unfolding digits digits_value is_digit
digits_value-digits zero n h = ground arith
digits_value-digits (suc fuel) n h = elim (Bool-cases (ltb n 10)) [
  | inl small ↦ rw small (ground arith)
  | inr large ↦
      let upper = digits_value-digits fuel (n / 10) (ground arith) in
      let whole : n / 10 * 10 + n % 10 ≡ n = omega arith in
      rw large (
        digits_value-append 0 (n / 10) (n % 10) (digits fuel (n / 10)) (omega arith) upper
        ∙ ap some whole)
]

all_digits-append :
    (s : Text) (d : ℕ) → d < 10 → all_digits s ≡ true → all_digits (s ++ ((b'0' + d) ∷ [])) ≡ true
unfolding all_digits is_digit
all_digits-append [] d h e = ground arith
all_digits-append (c ∷ s) d h e = ground (arith, all_digits-append s d)

all_digits-digits : (fuel n : ℕ) → n ≤ fuel → all_digits (digits fuel n) ≡ true
unfolding digits all_digits is_digit
all_digits-digits zero n h = ground arith
all_digits-digits (suc fuel) n h = elim (Bool-cases (ltb n 10)) [
  | inl small ↦ rw small (ground arith)
  | inr large ↦ rw large (
      all_digits-append (digits fuel (n / 10)) (n % 10) (omega arith)
        (all_digits-digits fuel (n / 10) (ground arith)))
]

digits-some : (fuel n : ℕ) → is_empty (digits fuel n) ≡ false
unfolding digits
digits-some zero n = refl
digits-some (suc fuel) n = elim (Bool-cases (ltb n 10)) [
  | inl small ↦ rw small refl
  | inr large ↦ rw large (is_empty-append (digits fuel (n / 10)) _)
]

pub all_digits-decimal : (n : ℕ) → all_digits (decimal n) ≡ true
unfolding decimal
all_digits-decimal n = all_digits-digits n n (omega arith)

pub decimal-some : (n : ℕ) → is_empty (decimal n) ≡ false
unfolding decimal
decimal-some n = digits-some n n

-- What is printed is read back.
pub unsigned_value-decimal : (n : ℕ) → unsigned_value (decimal n) ≡ some n
unfolding unsigned_value decimal
unsigned_value-decimal n = rw (digits-some n n) (digits_value-digits n n (omega arith))

-- Two numbers that print alike are one.
pub decimal-injective : (m n : ℕ) → decimal m ≡ decimal n → m ≡ n
decimal-injective m n e =
    let same = sym (unsigned_value-decimal m) ∙ ap unsigned_value e ∙ unsigned_value-decimal n in cc
