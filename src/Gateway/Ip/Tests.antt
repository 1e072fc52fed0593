-- ===== src/Gateway/Ip/Tests.antt =====
-- An address.
use aliyun_ahas.Common.{◌+◌, ◌-◌, ◌^◌, lit, bounded_value, ◌≡◌, refl}
use aliyun_ahas.Gateway.Ip.{string_ip_to_uint64, atoi_bits}

private_address : string_ip_to_uint64 (lit "192.168.0.1") ≡ 3232235521
unfolding string_ip_to_uint64 bounded_value
private_address = refl

-- Digits that do not fit are cut to the bound before the bad byte is seen.
long_address : atoi_bits (lit "99999999999999999999x") ≡ 2 ^ 63 - 1
unfolding atoi_bits bounded_value
long_address = refl

-- A part that is no number counts as 0, and a part too many is shifted out.
odd_address : string_ip_to_uint64 (lit "1.x.2.3.4") ≡ 16777216 + 512 + 3
unfolding string_ip_to_uint64 bounded_value
odd_address = refl
