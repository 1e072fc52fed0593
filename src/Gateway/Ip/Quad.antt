-- ===== src/Gateway/Ip/Quad.antt =====
-- The number of a dotted quad (gateway/conn.go).
use Prim.Native.Nat.{bit_or}
use aliyun_ahas.Common.{
  ℕ, ◌+◌, ◌*◌, ◌%◌, ◌^◌, ◌<◌, ◌≡◌, ◌∙◌, refl, ap, Text, [], ◌∷◌, ◌++◌, Bool, true, ◌&&◌, decimal,
  unsigned_value, is_digit, all_digits, all_digits-decimal, unsigned_value-decimal,
  bounded_value-below, some, lit, ◌==◌, append_assoc, append-nil, arith, not,
}
use aliyun_ahas.Common.Bits.{bit_or_above}
use aliyun_ahas.Gateway.Ip.{
  split, split_from, atoi_bits, positive_bits, ip_loop, string_ip_to_uint64,
}

has_no : ℕ → Text → Bool
has_no sep [] = true
has_no sep (c ∷ s) = not (c == sep) && has_no sep s

-- A part with no separator is cut off whole.
split_from-append :
    (sep : ℕ) (part xs rest : Text)
    → has_no sep xs ≡ true
    → split_from sep part (xs ++ (sep ∷ rest)) ≡ (part ++ xs) ∷ split_from sep [] rest
unfolding split_from has_no
split_from-append sep part [] rest h = ground (arith, append-nil part)
split_from-append sep part (c ∷ xs) rest h =
    ground (arith, append_assoc part (c ∷ []) xs, split_from-append sep (part ++ (c ∷ [])) xs rest)

split_from-last :
    (sep : ℕ) (part xs : Text) → has_no sep xs ≡ true → split_from sep part xs ≡ (part ++ xs) ∷ []
unfolding split_from has_no
split_from-last sep part [] h = rw append-nil
split_from-last sep part (c ∷ xs) h =
    ground (arith, append_assoc part (c ∷ []) xs, split_from-last sep (part ++ (c ∷ [])) xs)

all_digits-has_no : (s : Text) → all_digits s ≡ true → has_no b'.' s ≡ true
unfolding has_no all_digits is_digit
all_digits-has_no [] h = refl
all_digits-has_no (c ∷ s) h = ground (arith, all_digits-has_no s)

-- `Atoi` reads digits with no sign as they are.
atoi_digits :
    (s : Text) (n : ℕ)
    → all_digits s ≡ true
    → unsigned_value s ≡ some n
    → n < 2 ^ 63
    → atoi_bits s ≡ n
unfolding atoi_bits positive_bits all_digits is_digit
atoi_digits [] n h e small = absurd (unfold unsigned_value in ground arith)
atoi_digits (c ∷ s) n h e small =
    ground (arith, bounded_value-below (2 ^ 64) n (c ∷ s) (omega (arith, small)) e)

-- The digits of a byte hold no dot, and `Atoi` reads them back.
byte_facts : (n : ℕ) → n < 256 → (has_no b'.' (decimal n) ≡ true) × (atoi_bits (decimal n) ≡ n)
byte_facts n h =
    let plain = all_digits-decimal n in
    (
      all_digits-has_no (decimal n) plain,
      atoi_digits (decimal n) n plain (unsigned_value-decimal n) (omega arith),
    )

-- "a.b.c.d"
unfoldable pub dotted_quad : ℕ → ℕ → ℕ → ℕ → Text
dotted_quad a b c d =
    decimal a ++ (lit "." ++ (decimal b ++ (lit "." ++ (decimal c ++ (lit "." ++ decimal d)))))

split-dotted_quad :
    (a b c d : ℕ)
    → a < 256
    → b < 256
    → c < 256
    → d < 256
    → split (dotted_quad a b c d) b'.' ≡ decimal a ∷ decimal b ∷ decimal c ∷ decimal d ∷ []
unfolding split dotted_quad
split-dotted_quad a b c d ha hb hc hd =
    split_from-append _ [] _ _ (byte_facts a ha).0
    ∙ ap (λ z. decimal a ∷ z) (split_from-append _ [] _ _ (byte_facts b hb).0)
    ∙ ap (λ z. decimal a ∷ decimal b ∷ z) (split_from-append _ [] _ _ (byte_facts c hc).0)
    ∙ ap (λ z. decimal a ∷ decimal b ∷ decimal c ∷ z) (split_from-last _ [] _ (byte_facts d hd).0)

-- The shifted bytes do not meet, and none is cut off.
four_parts :
    (a b c d : ℕ)
    → a < 256
    → b < 256
    → c < 256
    → d < 256
    → bit_or
        (bit_or
          (bit_or (bit_or 0 (a * 2 ^ 24 % 2 ^ 64)) (b * 2 ^ 16 % 2 ^ 64))
          (c * 2 ^ 8 % 2 ^ 64))
        (d * 2 ^ 0 % 2 ^ 64)
      ≡ a * 2 ^ 24 + b * 2 ^ 16 + c * 2 ^ 8 + d
four_parts a b c d ha hb hc hd =
    let one = bit_or_above 32 0 (a * 2 ^ 24 % 2 ^ 64) 0 refl (omega arith) in
    let two =
      bit_or_above 24 a (b * 2 ^ 16 % 2 ^ 64) (0 + a * 2 ^ 24 % 2 ^ 64) (omega arith)
        (omega arith) in
    let three =
      bit_or_above 16 (a * 2 ^ 8 + b) (c * 2 ^ 8 % 2 ^ 64)
        (0 + a * 2 ^ 24 % 2 ^ 64 + b * 2 ^ 16 % 2 ^ 64) (omega arith) (omega arith) in
    let four =
      bit_or_above 8 (a * 2 ^ 16 + b * 2 ^ 8 + c) (d * 2 ^ 0 % 2 ^ 64)
        (0 + a * 2 ^ 24 % 2 ^ 64 + b * 2 ^ 16 % 2 ^ 64 + c * 2 ^ 8 % 2 ^ 64) (omega arith)
        (omega arith) in
    rw (one, two, three, four) (omega arith)

loop_quad :
    (a b c d : ℕ)
    → a < 256
    → b < 256
    → c < 256
    → d < 256
    → ip_loop 0 24 (decimal a ∷ decimal b ∷ decimal c ∷ decimal d ∷ [])
      ≡ a * 2 ^ 24 + b * 2 ^ 16 + c * 2 ^ 8 + d
unfolding ip_loop
loop_quad a b c d ha hb hc hd =
    rw ((byte_facts a ha).1, (byte_facts b hb).1, (byte_facts c hc).1, (byte_facts d hd).1)
      (four_parts a b c d ha hb hc hd)

-- The number of "a.b.c.d" has the four bytes in the order of the text.
pub string_ip_to_uint64-dotted_quad :
    (a b c d : ℕ)
    → a < 256
    → b < 256
    → c < 256
    → d < 256
    → string_ip_to_uint64 (dotted_quad a b c d) ≡ a * 2 ^ 24 + b * 2 ^ 16 + c * 2 ^ 8 + d
unfolding string_ip_to_uint64
string_ip_to_uint64-dotted_quad a b c d ha hb hc hd =
    ap (ip_loop 0 24) (split-dotted_quad a b c d ha hb hc hd) ∙ loop_quad a b c d ha hb hc hd
