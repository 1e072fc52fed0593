-- ===== src/Gateway/Ip.antt =====
-- `StringIpToUint64` of gateway/conn.go, with `strings.Split` and `strconv.Atoi` as it uses them.
pub mod Quad
mod Tests
use Prim.Native.Nat.{bit_or}
use aliyun_ahas.Common.{
  ℕ, ◌+◌, ◌-◌, ◌*◌, ◌%◌, ◌^◌, Text, List, [], ◌∷◌, ◌++◌, bounded_value, Bool, ◌&&◌, Option, none,
  some, ltb, leb, ◌==◌, if◌then◌else◌,
}

-- `strings.Split(s, sep)` for a separator of one byte; `part` is what the current part has so far.
split_from : ℕ → Text → Text → List Text
split_from sep part [] = part ∷ []
split_from sep part (c ∷ s) =
    let cut = part ∷ split_from sep [] s in
    let more = split_from sep (part ++ (c ∷ [])) s in if c == sep then cut else more

pub split : Text → ℕ → List Text
unfolding split_from
split s sep = split_from sep [] s

-- The 64 bits of the value of `strconv.Atoi`: 0 on a syntax error, the nearest bound on a range error, which comes
-- first where the digits in front of a bad byte do not fit 64 bits.
positive_bits : Option ℕ → ℕ
positive_bits none = 0
positive_bits (some n) = if ltb n (2 ^ 63) then n else 2 ^ 63 - 1

negative_bits : Option ℕ → ℕ
negative_bits none = 0
negative_bits (some n) = if leb n (2 ^ 63) then (2 ^ 64 - n) % 2 ^ 64 else 2 ^ 63

unfoldable pub atoi_bits : Text → ℕ
unfolding positive_bits negative_bits
atoi_bits [] = 0
atoi_bits (c ∷ s) =
    if c == b'-'
    then negative_bits (bounded_value (2 ^ 64) s)
    else if c == b'+'
    then positive_bits (bounded_value (2 ^ 64) s)
    else positive_bits (bounded_value (2 ^ 64) (c ∷ s))

-- `tmp << pos` on a uint64
shift_left : ℕ → ℕ → ℕ
shift_left v pos = if ltb pos 64 then v * 2 ^ pos % 2 ^ 64 else 0

-- The loop; `pos -= 8` wraps on a uint.
ip_loop : ℕ → ℕ → List Text → ℕ
unfolding shift_left
ip_loop ip pos [] = ip
ip_loop ip pos (seg ∷ segs) =
    ip_loop (bit_or ip (shift_left (atoi_bits seg) pos)) ((pos + 2 ^ 64 - 8) % 2 ^ 64) segs

-- `StringIpToUint64`
unfoldable pub string_ip_to_uint64 : Text → ℕ
unfolding split ip_loop atoi_bits
string_ip_to_uint64 ip = ip_loop 0 24 (split ip b'.')
