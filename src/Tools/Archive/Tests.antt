-- ===== src/Tools/Archive/Tests.antt =====
-- Runs of the unpacking on a small disk, and the theorems at archives for it.
use aliyun_ahas.Common.{
  ℕ, ◌+◌, Text, lit, List, [], ◌∷◌, ◌++◌, Option, none, some, Result, ok, err, text_eq,
  if◌then◌else◌, ◌≡◌, ◌⊎◌, ◌≢◌, refl, arith,
}
use aliyun_ahas.Tools.Runes.{runes, text_of_runes}
use aliyun_ahas.Tools.Disk.{
  Os, Disk, Location, Node, directory, file, same_location, segments, walk, make_dirs, open_from,
  mkdir_all, open_file,
}
use aliyun_ahas.Tools.Archive.{
  Entry, Archive, create_file, unpack, de_compress_tgz, last_index, rune_prefix,
}
use aliyun_ahas.Tools.Archive.Steps.{IsThere}
use aliyun_ahas.Tools.Archive.Inside.{unpacked_inside}
use aliyun_ahas.Tools.Archive.Contents.{unpacked_contents}
use aliyun_ahas.Tools.Archive.Overwrites.{archive_above, parent_entry_overwrites}
use aliyun_ahas.Tools.Archive.Wide.{wide_path_fails}

abbrev machine : Os
machine = record { cwd = lit "w" ∷ []; denied = λ l. none; unwritable = λ l. none }

-- The directories /w and /w/o, the latter with a file, and a file beside it.
abbrev small_disk : Disk
small_disk p =
    if same_location [] p
    then some directory
    else if same_location (lit "w" ∷ []) p
    then some directory
    else if same_location (lit "o" ∷ lit "w" ∷ []) p
    then some directory
    else if same_location (lit "old" ∷ lit "o" ∷ lit "w" ∷ []) p
    then some (file (lit "long rest"))
    else if same_location (lit "hosts" ∷ lit "w" ∷ []) p
    then some (file (lit "mine"))
    else none

abbrev some_cap : ℕ → ℕ
some_cap n = n + 1

abbrev entry : Text → Text → Entry
entry name content = record { name = name; content = content; copy_error = none }

abbrev archive_of : List Entry → Archive
archive_of xs = record { open_error = none; gzip_error = none; entries = xs; next_error = none }

abbrev good : Archive
good =
    archive_of
      (entry (lit "d/") [] ∷ entry (lit "d/a") (lit "A") ∷ entry (lit "old") (lit "new") ∷ [])

abbrev bad : Archive
bad = archive_of (entry (lit "../hosts") (lit "theirs") ∷ [])

-- The name has four bytes in front of its separator, and two runes.
abbrev wide : Archive
wide = archive_of (entry (0xc3 ∷ 0xa9 ∷ 0xc3 ∷ 0xa9 ∷ b'/' ∷ b'a' ∷ []) (lit "A") ∷ [])

abbrev result : Archive → Result (Unit {0})
result a = (de_compress_tgz machine some_cap (lit "o") a small_disk).0

abbrev content_at : Archive → Location → Option Node
content_at a = (de_compress_tgz machine some_cap (lit "o") a small_disk).1

-- For a wide name the directory that is made has the name of the file, which cannot be opened then.
runs :
    (result good ≡ ok tt)
    × (content_at good (lit "a" ∷ lit "d" ∷ lit "o" ∷ lit "w" ∷ []) ≡ some (file (lit "A")))
    × (result bad ≡ ok tt)
    × (result wide ≡ err (lit "is a directory"))
unfolding de_compress_tgz unpack create_file mkdir_all open_file make_dirs open_from walk segments
    last_index rune_prefix runes text_of_runes same_location text_eq
runs = (refl, refl, refl, refl)

there : IsThere machine (lit "o") (lit "o" ∷ lit "w" ∷ []) small_disk
unfolding walk segments same_location text_eq
there = refl

unpacked_inside_example :
    ((p : Location)
      → (content_at good p ≡ small_disk p) ⊎ ((q : Location) × (p ≡ q ++ (lit "o" ∷ lit "w" ∷ []))))
    × ((p : Location) → small_disk p ≡ some directory → content_at good p ≡ some directory)
unfolding segments text_eq
unpacked_inside_example =
    unpacked_inside machine some_cap (lit "o") (lit "o" ∷ lit "w" ∷ []) good small_disk
      (λ k. omega arith) (omega arith)
      (
        (omega arith, (refl, (refl, tt))),
        ((omega arith, (refl, (refl, tt))), ((omega arith, (refl, tt)), tt)),
      )
      there

unpacked_contents_example :
    content_at good (lit "old" ∷ lit "o" ∷ lit "w" ∷ []) ≡ some (file (lit "newg rest"))
unfolding segments same_location text_eq
unpacked_contents_example =
    unpacked_contents machine some_cap (lit "o") (lit "o" ∷ lit "w" ∷ []) good
      (entry (lit "d/") [] ∷ entry (lit "d/a") (lit "A") ∷ []) [] (entry (lit "old") (lit "new"))
      small_disk (λ k. omega arith) (omega arith) there refl refl refl (omega arith)
      (λ e. cc, (λ e. cc, tt)) tt refl runs.0

parent_entry_overwrites_example :
    let r =
      de_compress_tgz machine some_cap
        (lit "o")
        (archive_above (lit "hosts") (lit "theirs"))
        small_disk in
    (r.0 ≡ ok tt)
    × (r.1 (lit "hosts" ∷ lit "w" ∷ []) ≡ some (file (lit "theirs")))
    × ((q : Location)
        → ◌≢◌ {A = Location} (lit "hosts" ∷ lit "w" ∷ []) (q ++ (lit "o" ∷ lit "w" ∷ [])))
unfolding last_index same_location text_eq
parent_entry_overwrites_example =
    parent_entry_overwrites machine some_cap (lit "o") (lit "o") (lit "hosts") (lit "theirs")
      (lit "mine") (lit "w" ∷ []) small_disk (λ k. omega arith) (omega arith) (omega arith) refl
      refl there refl refl refl refl refl refl (λ e. cc)

-- The path o/éé/a: six runes, and its last separator at index six.
abbrev wide_path : Text
wide_path = lit "o/" ++ (0xc3 ∷ 0xa9 ∷ 0xc3 ∷ 0xa9 ∷ lit "/a")

wide_path_fails_example :
    (create_file machine some_cap wide_path (entry (lit "a") (lit "A")) small_disk).0 ≢ ok tt
unfolding runes text_of_runes last_index
wide_path_fails_example =
    wide_path_fails machine some_cap wide_path (entry (lit "a") (lit "A")) small_disk 6 refl refl
      (omega arith) refl
