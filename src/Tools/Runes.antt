-- ===== src/Tools/Runes.antt =====
-- The conversions `[]rune(s)` and `string(runes)` of Go, which tools/file.go uses: UTF-8, where a byte that is no
-- UTF-8 reads as U+FFFD.
mod Tests
use aliyun_ahas.Common.{
  ℕ, zero, suc, ◌+◌, ◌-◌, ◌*◌, ◌/◌, ◌%◌, ◌<◌, Text, List, [], ◌∷◌, ◌++◌, Bool, ◌&&◌, ltb, leb, ◌==◌,
  All, if◌then◌else◌, ◌≡◌, refl, sym, ap, ◌∙◌, append_assoc, arith,
}

between : ℕ → ℕ → ℕ → Bool
between low high c = leb low c && leb c high

abbrev rune_error : ℕ
rune_error = 0xfffd

-- The first rune of a text, and how many bytes it takes behind the first; `low` and `high` bound the second byte.
four_bytes : ℕ → ℕ → ℕ → Text → ℕ × ℕ
four_bytes low high a (b ∷ c ∷ d ∷ s) =
    if between low high b && (between 0x80 0xbf c && between 0x80 0xbf d)
    then ((a - 0xf0) * 262144 + (b - 0x80) * 4096 + (c - 0x80) * 64 + (d - 0x80), 3)
    else (rune_error, 0)
four_bytes low high a (b ∷ c ∷ []) = (rune_error, 0)
four_bytes low high a (b ∷ []) = (rune_error, 0)
four_bytes low high a [] = (rune_error, 0)

three_bytes : ℕ → ℕ → ℕ → Text → ℕ × ℕ
three_bytes low high a (b ∷ c ∷ s) =
    if between low high b && between 0x80 0xbf c
    then ((a - 0xe0) * 4096 + (b - 0x80) * 64 + (c - 0x80), 2)
    else (rune_error, 0)
three_bytes low high a (b ∷ []) = (rune_error, 0)
three_bytes low high a [] = (rune_error, 0)

two_bytes : ℕ → Text → ℕ × ℕ
two_bytes a (b ∷ s) =
    if between 0x80 0xbf b then ((a - 0xc0) * 64 + (b - 0x80), 1) else (rune_error, 0)
two_bytes a [] = (rune_error, 0)

several_bytes : ℕ → Text → ℕ × ℕ
unfolding between two_bytes three_bytes four_bytes
several_bytes a s =
    if between 0xc2 0xdf a
    then two_bytes a s
    else if between 0xe0 0xef a
    then three_bytes (if a == 0xe0 then 0xa0 else 0x80) (if a == 0xed then 0x9f else 0xbf) a s
    else if between 0xf0 0xf4 a
    then four_bytes (if a == 0xf0 then 0x90 else 0x80) (if a == 0xf4 then 0x8f else 0xbf) a s
    else (rune_error, 0)

first_rune : ℕ → Text → ℕ × ℕ
unfolding several_bytes
first_rune a s = if ltb a 0x80 then (a, 0) else several_bytes a s

-- `skip` bytes belong to a rune that is read already.
runes_from : ℕ → Text → List ℕ
runes_from skip [] = []
runes_from (suc skip) (a ∷ s) = runes_from skip s
runes_from zero (a ∷ s) = (first_rune a s).0 ∷ runes_from (first_rune a s).1 s

-- `[]rune(s)`
unfoldable pub runes : Text → List ℕ
unfolding runes_from first_rune
runes s = runes_from 0 s

two_of : ℕ → Text
two_of r = (0xc0 + r / 64) ∷ (0x80 + r % 64) ∷ []

three_of : ℕ → Text
three_of r = (0xe0 + r / 4096) ∷ (0x80 + r / 64 % 64) ∷ (0x80 + r % 64) ∷ []

four_of : ℕ → Text
four_of r =
    (0xf0 + r / 262144) ∷ (0x80 + r / 4096 % 64) ∷ (0x80 + r / 64 % 64) ∷ (0x80 + r % 64) ∷ []

-- The bytes of a rune; what is no Unicode scalar value is written as U+FFFD.
rune_bytes : ℕ → Text
unfolding two_of three_of four_of between
rune_bytes r =
    if ltb r 0x80
    then r ∷ []
    else if ltb r 0x800
    then two_of r
    else if between 0xd800 0xdfff r
    then three_of rune_error
    else if ltb r 0x10000
    then three_of r
    else if ltb r 0x110000
    then four_of r
    else three_of rune_error

-- `string(runes)`
unfoldable pub text_of_runes : List ℕ → Text
unfolding rune_bytes
text_of_runes [] = []
text_of_runes (r ∷ rs) = rune_bytes r ++ text_of_runes rs

abbrev pub IsAscii : Text → Type 0
IsAscii = All (λ c. c < 0x80)

-- The runes of an ASCII text are its bytes, and the other way round.
pub runes_of_ascii : (s : Text) → IsAscii s → runes s ≡ s
unfolding runes
runes_of_ascii [] h = refl
runes_of_ascii (c ∷ s) h = ground (arith, runes_of_ascii s h.1)

pub text_of_ascii : (s : Text) → IsAscii s → text_of_runes s ≡ s
unfolding text_of_runes
text_of_ascii [] h = refl
text_of_ascii (c ∷ s) h = ground (arith, text_of_ascii s h.1)

pub text_of_runes-append :
    (rs ts : List ℕ) → text_of_runes (rs ++ ts) ≡ text_of_runes rs ++ text_of_runes ts
unfolding text_of_runes
text_of_runes-append [] ts = refl
text_of_runes-append (r ∷ rs) ts =
    ap (λ t. rune_bytes r ++ t) (text_of_runes-append rs ts)
    ∙ sym (append_assoc (rune_bytes r) (text_of_runes rs) (text_of_runes ts))
