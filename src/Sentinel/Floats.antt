-- ===== src/Sentinel/Floats.antt =====
-- What the rules and handlers do with a float64. The type and its operations are a parameter.
use aliyun_ahas.Common.{ℕ, Bool}
use aliyun_ahas.Common.Ints.{ℤ}

-- `of_int64` is `float64(n)`, `at_least_zero` is `x >= 0`, `above_zero` is `x > 0`, and `to_uint64` and
-- `to_int64` are the conversions back; `ten_thousand_times` is `x * 10000`.
pub record Floats : Type 1 where
  pub Float : Type 0
  pub minus_one : Float
  pub of_int64 : ℤ → Float
  pub at_least_zero : Float → Bool
  pub above_zero : Float → Bool
  pub ten_thousand_times : Float → Float
  pub to_uint64 : Float → ℕ
  pub to_int64 : Float → ℤ
