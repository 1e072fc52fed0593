-- ===== src/Tools/Gzip.antt =====
-- tools/file.go: `CompressByGzip` and `DecompressByGzip`. The package compress/gzip is a parameter.
-- A Go pair (value, error) is a pair with `none` for the nil error.
use aliyun_ahas.Common.{Text, [], ◌≡◌, Option, none, some, arith}

-- `write s`: what the buffer holds after `zw.Write(s)` and `zw.Close()`, and the error of `Write`.
-- `new_reader b`: the error of `gzip.NewReader` on the bytes `b`; `copy b`: what `io.Copy` reads from
-- that reader, and its error.
pub record Gzip : Type 0 where
  pub write : Text → Text × Option Text
  pub new_reader : Text → Option Text
  pub copy : Text → Text × Option Text

-- The package's promise: what its writer wrote its reader opens and gives back.
pub record IsInverse (gz : Gzip) : Type 0 where
  pub opens : (s b : Text) → gz.write s ≡ (b, none) → gz.new_reader b ≡ none
  pub gives_back : (s b : Text) → gz.write s ≡ (b, none) → gz.copy b ≡ (s, none)

abbrev unless_err : Text × Option Text → Text × Option Text
unless_err (s, none) = (s, none)
unless_err (s, some e) = ([], some e)

-- `CompressByGzip`
unfoldable pub compress_by_gzip : Gzip → Text → Text × Option Text
compress_by_gzip gz body = unless_err (gz.write body)

-- `DecompressByGzip`
unfoldable pub decompress_by_gzip : Gzip → Text → Text × Option Text
decompress_by_gzip gz body = elim (gz.new_reader body) [
  | some e ↦ ([], some e)
  | none ↦ unless_err (gz.copy body)
]

unless_err-eq_none : (r : Text × Option Text) {b : Text} → unless_err r ≡ (b, none) → r ≡ (b, none)
unless_err-eq_none (s, none) e = e
unless_err-eq_none (s, some x) e = ground arith

-- A body that was compressed with no error is got back.
pub decompress_by_gzip-compress_by_gzip :
    (gz : Gzip)
    → IsInverse gz
    → (s b : Text) → compress_by_gzip gz s ≡ (b, none)
    → decompress_by_gzip gz b ≡ (s, none)
unfolding compress_by_gzip decompress_by_gzip
decompress_by_gzip-compress_by_gzip gz inverse s b e =
    let written = unless_err-eq_none (gz.write s) e in
    rw (inverse.opens s b written, decompress_by_gzip) (rw (inverse.gives_back s b written))
