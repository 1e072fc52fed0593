-- ===== src/Tools/Runes/Tests.antt =====
-- Runs of the conversions on texts of one to four bytes for each rune.
use aliyun_ahas.Common.{[], ◌∷◌, ◌≡◌, refl}
use aliyun_ahas.Tools.Runes.{runes, text_of_runes}

reads_each_width :
    runes (0x61 ∷ 0xc3 ∷ 0xa9 ∷ 0xe2 ∷ 0x82 ∷ 0xac ∷ 0xf0 ∷ 0x9f ∷ 0x98 ∷ 0x80 ∷ [])
    ≡ 0x61 ∷ 0xe9 ∷ 0x20ac ∷ 0x1f600 ∷ []
unfolding runes
reads_each_width = refl

writes_each_width :
    text_of_runes (0x61 ∷ 0xe9 ∷ 0x20ac ∷ 0x1f600 ∷ [])
    ≡ 0x61 ∷ 0xc3 ∷ 0xa9 ∷ 0xe2 ∷ 0x82 ∷ 0xac ∷ 0xf0 ∷ 0x9f ∷ 0x98 ∷ 0x80 ∷ []
unfolding text_of_runes
writes_each_width = refl

-- A lone tail, an overlong form and a surrogate.
reads_errors :
    runes (0x80 ∷ 0xc0 ∷ 0xaf ∷ 0xed ∷ 0xa0 ∷ 0x80 ∷ 0x62 ∷ [])
    ≡ 0xfffd ∷ 0xfffd ∷ 0xfffd ∷ 0xfffd ∷ 0xfffd ∷ 0xfffd ∷ 0x62 ∷ []
unfolding runes
reads_errors = refl
