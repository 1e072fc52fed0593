-- ===== src/Gateway/Wire.antt =====
-- encoding/binary's big-endian numbers, as gateway/protocol.go uses them: `PutUint32`, `PutUint64`,
-- `Uint32` and `Uint64`.
use aliyun_ahas.Common.{
  ℕ, zero, suc, ◌+◌, ◌*◌, ◌/◌, ◌%◌, ◌^◌, ◌<◌, ◌≡◌, refl, [], ◌∷◌, Text, length, arith,
}

-- The last `k` bytes of `v`, highest first.
unfoldable pub put_uint : ℕ → ℕ → Text
put_uint zero v = []
put_uint (suc k) v = (v / 256 ^ k % 256) ∷ put_uint k v

abbrev pub put_uint32 : ℕ → Text
put_uint32 = put_uint 4

abbrev pub put_uint64 : ℕ → Text
put_uint64 = put_uint 8

-- The number that bytes stand for, highest first, behind those read into `acc`.
uint_from : ℕ → Text → ℕ
uint_from acc [] = acc
uint_from acc (b ∷ bs) = uint_from (acc * 256 + b) bs

pub uint : Text → ℕ
uint bs = uint_from 0 bs

pub length-put_uint : (k v : ℕ) → length (put_uint k v) ≡ k
unfolding put_uint
length-put_uint zero v = refl
length-put_uint (suc k) v = omega (arith, length-put_uint k v)

-- A number below 2 ^ 32 is read back from its four bytes.
pub uint-put_uint32 : (v : ℕ) → v < 2 ^ 32 → uint (put_uint 4 v) ≡ v
unfolding uint uint_from put_uint
uint-put_uint32 v h = omega arith

-- A number below 2 ^ 64 is read back from its eight bytes.
pub uint-put_uint64 : (v : ℕ) → v < 2 ^ 64 → uint (put_uint 8 v) ≡ v
unfolding uint uint_from put_uint
uint-put_uint64 v h = omega arith
