-- ===== src/Tools/File.antt =====
-- tools/file.go: sums and the test for a file. Files, json and md5 are parameters.
use aliyun_ahas.Common.{
  Text, lit, text_eq, text_eq_iff, [], Bool, true, false, Option, none, some, ◌≡◌, ◌↔◌,
  if◌then◌else◌, arith,
}

-- `Md5sum`, for the results of `os.Open` and `io.Copy`, which gives the content that was read; `hex_sum` is the
-- sum in hexadecimal.
unfoldable pub md5sum : (Text → Text) → Option Text → Text × Option Text → Text × Option Text
md5sum hex_sum (some e) copied = ([], some e)
md5sum hex_sum none (content, some e) = ([], some e)
md5sum hex_sum none (content, none) = (hex_sum content, none)

-- `Md5sumData`: `none` is nil, and what is there is given as the result of `json.Marshal`.
unfoldable pub md5sum_data : (Text → Text) → Option (Text × Option Text) → Text × Option Text
md5sum_data hex_sum none = ([], some (lit "md5 data is nill"))
md5sum_data hex_sum (some (bytes, some e)) = ([], some e)
md5sum_data hex_sum (some (bytes, none)) = (hex_sum bytes, none)

-- `IsExist`, for the error of `os.Stat` and what `os.IsExist` says of it.
unfoldable pub is_exist : (Text → Bool) → Option Text → Bool
is_exist says none = true
is_exist says (some e) = says e

-- `CheckMd5`: the value and the error.
unfoldable pub check_md5 : Text × Option Text → Text → Bool × Option Text
check_md5 (sum, some e) expected = (false, some e)
check_md5 (sum, none) expected =
    if text_eq sum expected then (true, none) else (false, some (lit "md5 not equal"))

-- The check gives true exactly where it gives no error, and that is where the file was read and its sum is the
-- one that is expected.
pub check_md5_iff :
    (hex_sum : Text → Text) (opened : Option Text) (copied : Text × Option Text) (expected : Text)
    → let r = check_md5 (md5sum hex_sum opened copied) expected in
      ((r.0 ≡ true) ↔ (r.1 ≡ none))
      × ((r.0 ≡ true) ↔ ((opened ≡ none) × (copied.1 ≡ none) × (hex_sum copied.0 ≡ expected)))
unfolding check_md5 md5sum
check_md5_iff hex_sum opened copied expected =
    let same = text_eq_iff (hex_sum copied.0) expected in
    ((λ e. ground arith, λ e. ground arith), (λ e. ground arith, λ h. ground arith))
