-- ===== src/Tools/Archive.antt =====
-- `DeCompressTgz` and `createFile` of tools/file.go. Tools/Disk has what they use of the package os; gzip and tar
-- are parameters: an archive is what their readers give.
pub mod Names
pub mod Steps
pub mod Creating
pub mod Inside
pub mod Contents
pub mod Escapes
pub mod Wide
pub mod Overwrites
mod Tests
use aliyun_ahas.Common.{
  ℕ, zero, suc, ◌-◌, Text, lit, List, [], ◌∷◌, ◌++◌, Bool, true, false, Option, none, some, Result,
  ok, err, panic, diverge, length, take, ltb, ◌==◌, if◌then◌else◌,
}
use aliyun_ahas.Common.Actions.{Act, ◌>>◌}
use aliyun_ahas.Tools.Runes.{runes, text_of_runes}
use aliyun_ahas.Tools.Disk.{Os, Disk, Location, mkdir_all, open_file, write_at}

-- What the tar reader gives for one header: its name, what `io.Copy` can write of the content, and its error.
pub record Entry : Type 0 where
  pub name : Text
  pub content : Text
  pub copy_error : Option Text

-- The errors of `os.Open` and of `gzip.NewReader`, the entries, and the error that `Next` gives behind them, which
-- is `none` for io.EOF.
pub record Archive : Type 0 where
  pub open_error : Option Text
  pub gzip_error : Option Text
  pub entries : List Entry
  pub next_error : Option Text

-- `strings.LastIndex(s, c)` for one byte; `none` is -1.
unfoldable pub last_index : ℕ → Text → Option ℕ
last_index c [] = none
last_index c (d ∷ s) = elim (last_index c s) [
  | some i ↦ some (suc i)
  | none ↦ if d == c then some 0 else none
]

zeros : ℕ → List ℕ
zeros zero = []
zeros (suc n) = 0 ∷ zeros n

-- `string([]rune(s)[0:n])`: the slice may reach beyond the runes, over zeros, up to the capacity `rune_cap` that
-- the conversion gives for a number of runes, and is a panic above it.
unfoldable pub rune_prefix : (ℕ → ℕ) → Text → Option ℕ → Result Text
unfolding zeros
rune_prefix rune_cap s none = panic
rune_prefix rune_cap s (some n) =
    let rs = runes s in
    if ltb (rune_cap (length rs)) n
    then panic
    else ok (text_of_runes (take n (rs ++ zeros (n - length rs))))

-- `fileName[len(fileName)-1:] == "/"`
abbrev pub ends_with_slash : Text → Bool
ends_with_slash [] = false
ends_with_slash (c ∷ []) = c == b'/'
ends_with_slash (c ∷ d ∷ s) = ends_with_slash (d ∷ s)

abbrev pub nil_or_err : Option Text → Result (Unit {0})
nil_or_err none = ok tt
nil_or_err (some e) = err e

module _ (os : Os) (rune_cap : ℕ → ℕ) where
  -- `io.Copy` to the file that was opened.
  copy_to : Entry → Result Location × Disk → Result (Unit {0}) × Disk
  copy_to x (ok l, d) = (nil_or_err x.copy_error, write_at l x.content d)
  copy_to x (err e, d) = (err e, d)
  copy_to x (panic, d) = (panic, d)
  copy_to x (diverge, d) = (diverge, d)

  pub fill_file : Text → Entry → Option Text × Disk → Result (Unit {0}) × Disk
  unfolding copy_to
  fill_file file_name x (some e, d) = (err e, d)
  fill_file file_name x (none, d) =
      if ends_with_slash file_name then (ok tt, d) else copy_to x (open_file os file_name d)

  in_dir : Text → Entry → Result Text → Act Disk (Unit {0})
  unfolding fill_file
  in_dir file_name x (ok dir) d = fill_file file_name x (mkdir_all os dir d)
  in_dir file_name x (err e) d = (err e, d)
  in_dir file_name x panic d = (panic, d)
  in_dir file_name x diverge d = (diverge, d)

  -- `createFile`
  unfoldable pub create_file : Text → Entry → Act Disk (Unit {0})
  unfolding in_dir
  create_file file_name x =
      in_dir file_name x (rune_prefix rune_cap file_name (last_index b'/' file_name))

  -- The loop over the headers.
  unfoldable pub unpack : Text → List Entry → Option Text → Act Disk (Unit {0})
  unpack dest [] next_error d = (nil_or_err next_error, d)
  unpack dest (x ∷ xs) next_error d =
      (create_file (dest ++ (b'/' ∷ x.name)) x >> unpack dest xs next_error) d

  unpack_readable : Text → Archive → Option Text → Act Disk (Unit {0})
  unpack_readable dest a none d = unpack dest a.entries a.next_error d
  unpack_readable dest a (some e) d = (ok tt, d)

  unpack_opened : Text → Archive → Option Text → Act Disk (Unit {0})
  unfolding unpack_readable
  unpack_opened dest a none d = unpack_readable dest a a.gzip_error d
  unpack_opened dest a (some e) d = (err e, d)

  -- `DeCompressTgz`; an error of `gzip.NewReader` gives nil.
  unfoldable pub de_compress_tgz : Text → Archive → Act Disk (Unit {0})
  unfolding unpack_opened
  de_compress_tgz dest a = unpack_opened dest a a.open_error
