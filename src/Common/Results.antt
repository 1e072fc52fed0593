-- ===== src/Common/Results.antt =====
-- What a Go call gives: a value, an error with its message, a panic; `diverge` says that the fuel of a
-- modelled loop ran out, or that code from outside does not return.
use aliyun_ahas.Common.Texts.{Text}

pub data Result {ℓ} (A : Type ℓ) : Type ℓ where
  ok : A → Result A
  err : Text → Result A
  panic : Result A
  diverge : Result A
