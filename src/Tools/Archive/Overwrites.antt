-- ===== src/Tools/Archive/Overwrites.antt =====
-- An archive that writes beside its directory, and that is unpacked with no error.
use aliyun_ahas.Common.{
  ℕ, ◌≤◌, Text, lit, List, [], ◌∷◌, ◌++◌, false, none, some, Result, ok, err, panic, diverge,
  is_empty, text_eq, take, ◌≡◌, ◌≢◌, refl, sym, ap, ◌∙◌, arith,
}
use aliyun_ahas.Common.Actions.{proceed}
use aliyun_ahas.Tools.Runes.{IsAscii}
use aliyun_ahas.Tools.Disk.{
  Os, Disk, Location, directory, file, segments, has_zero, mkdir_all, open_file, make_dirs,
  open_from, content_of, overwrite, stays, goes_up,
}
use aliyun_ahas.Tools.Archive.{
  Entry, Archive, de_compress_tgz, unpack_opened, unpack_readable, unpack, create_file, fill_file,
  copy_to, last_index, ends_with_slash, nil_or_err,
}
use aliyun_ahas.Tools.Archive.Names.{
  Cut, cut, segments-append, segments_of_one, append_last-injective,
}
use aliyun_ahas.Tools.Archive.Steps.{IsThere, create_file-Cut, mkdir_all-made, open_file-found}
use aliyun_ahas.Tools.Archive.Escapes.{name_above, parent_entry_escapes, ends_with_slash-named}
use aliyun_ahas.Tools.Archive.Creating.{ends_with_slash-append}

has_zero-both : (s t : Text) → has_zero s ≡ false → has_zero t ≡ false → has_zero (s ++ t) ≡ false
has_zero-both [] t h k = k
has_zero-both (c ∷ s) t h k = ground (arith, has_zero-both s t)

segments-name_above :
    (n : Text) → last_index b'/' n ≡ none → segments (name_above n) ≡ lit ".." ∷ n ∷ []
unfolding segments
segments-name_above n free =
    segments-append (lit "..") n ∙ ap (λ ss. segments (lit "..") ++ ss) (segments_of_one n free)

-- The directory of an entry "../n" is the one above.
front_above :
    (dest n : Text) (c : Cut dest (name_above n))
    → last_index b'/' n ≡ none
    → c.front ≡ lit ".." ∷ []
front_above dest n c free =
    (append_last-injective c.front (lit ".." ∷ []) c.last n
      (sym c.name_is ∙ segments-name_above n free)).0

make_dirs-above :
    (os : Os) (s : Text) (up : Location) (d : Disk)
    → d up ≡ some directory
    → make_dirs os (lit ".." ∷ []) (s ∷ up) d ≡ (none, d)
unfolding make_dirs text_eq
make_dirs-above os s up d there = rw there refl

open_from-above :
    (os : Os) (s n : Text) (up : Location) (d : Disk) (old : Text)
    → d up ≡ some directory
    → stays n ≡ false
    → goes_up n ≡ false
    → d (n ∷ up) ≡ some (file old)
    → os.unwritable (n ∷ up) ≡ none
    → open_from os (lit ".." ∷ n ∷ []) (s ∷ up) d ≡ (ok (n ∷ up), d)
unfolding open_from text_eq
open_from-above os s n up d old there moves level found writable =
    rw (there, moves, level, found, writable) refl

segments-above :
    (dir : Text) (ss : List Text) → segments dir ≡ ss ++ (lit ".." ∷ []) → is_empty dir ≡ false
unfolding segments
segments-above [] ss e = absurd (ground (arith, (append_last-injective [] ss [] (lit "..") e).1))
segments-above (c ∷ s) ss e = refl

abbrev pub entry_above : Text → Text → Entry
entry_above n content = record { name = name_above n; content = content; copy_error = none }

abbrev pub archive_above : Text → Text → Archive
archive_above n content = record {
  open_error = none;
  gzip_error = none;
  entries = entry_above n content ∷ [];
  next_error = none;
}

unpacked_one :
    (os : Os) (rune_cap : ℕ → ℕ) (dest : Text) (x : Entry) (d : Disk)
    → (create_file os rune_cap (dest ++ (b'/' ∷ x.name)) x d).0 ≡ ok tt
    → (de_compress_tgz os rune_cap dest
        (record { open_error = none; gzip_error = none; entries = x ∷ []; next_error = none })
        d).0
      ≡ ok tt
unfolding de_compress_tgz unpack_opened unpack_readable unpack
unpacked_one os rune_cap dest x d created =
    proceed-next (create_file os rune_cap (dest ++ (b'/' ∷ x.name)) x d) created
  where
    proceed-next :
        (r : Result (Unit {0}) × Disk)
        → r.0 ≡ ok tt
        → (proceed r (λ _ d. (nil_or_err none, d))).0 ≡ ok tt
    proceed-next (ok _, d) h = refl
    proceed-next (err e, d) h = absurd (ground arith)
    proceed-next (panic, d) h = absurd (ground arith)
    proceed-next (diverge, d) h = absurd (ground arith)

module _ (os : Os) (rune_cap : ℕ → ℕ) (dest s n content old : Text) (up : Location) (d : Disk)
    (grows : (k : ℕ) → k ≤ rune_cap k) (ascii : IsAscii dest) (ascii_name : IsAscii n)
    (plain : has_zero dest ≡ false) (plain_name : has_zero n ≡ false)
    (there : IsThere os dest (s ∷ up) d) (above : d up ≡ some directory)
    (found : d (n ∷ up) ≡ some (file old)) (writable : os.unwritable (n ∷ up) ≡ none)
    (named : last_index b'/' n ≡ none) (moves : stays n ≡ false) (level : goes_up n ≡ false) where
  abbrev path : Text
  path = dest ++ (b'/' ∷ name_above n)

  path-plain : has_zero path ≡ false
  path-plain = has_zero-both dest (b'/' ∷ name_above n) plain plain_name

  made_above : (c : Cut dest (name_above n)) → mkdir_all os (take c.index path) d ≡ (none, d)
  made_above c =
      let dir = take c.index path in
      let front = front_above dest n c named in
      let some_dir : is_empty dir ≡ false =
        segments-above dir (segments dest) (c.dir_is ∙ ap (λ ss. segments dest ++ ss) front) in
      mkdir_all-made os dest (name_above n) (s ∷ up) d c there some_dir
      ∙ ap (λ ss. make_dirs os ss (s ∷ up) d) front
      ∙ make_dirs-above os s up d above

  opened_above : open_file os path d ≡ (ok (n ∷ up), d)
  opened_above =
      open_file-found os dest (name_above n) (s ∷ up) d (cut dest (name_above n)) there path-plain
      ∙ ap (λ ss. open_from os ss (s ∷ up) d) (segments-name_above n named)
      ∙ open_from-above os s n up d old above moves level found writable

  created_above : (create_file os rune_cap path (entry_above n content) d).0 ≡ ok tt
  unfolding fill_file copy_to
  created_above =
      let c = cut dest (name_above n) in
      let x = entry_above n content in
      let is_file : ends_with_slash path ≡ false =
        ends_with_slash-append dest b'/' (name_above n)
        ∙ ends_with_slash-named b'/' n (ground arith) named in
      let run =
        create_file-Cut os rune_cap dest (name_above n) x d c grows ascii
          (omega arith, (omega arith, (omega arith, ascii_name)))
        ∙ ap (fill_file os rune_cap path x) (made_above c) in
      ap (λ (r : Result (Unit {0}) × Disk). r.0) run
      ∙ rw is_file (ap (λ (o : Result Location × Disk). (copy_to os rune_cap x o).0) opened_above)

  -- Above a directory that is there, with ASCII paths without zero bytes, an archive with the one entry "../n", for a
  -- file that stands there under a name other than the directory's and that may be written, is always unpacked with
  -- no error, and has written its content over that file, outside the directory.
  pub parent_entry_overwrites :
      n ≢ s
      → let r = de_compress_tgz os rune_cap dest (archive_above n content) d in
        (r.0 ≡ ok tt)
        × (r.1 (n ∷ up) ≡ some (file (overwrite content old)))
        × ((q : Location) → n ∷ up ≢ q ++ (s ∷ up))
  parent_entry_overwrites other =
      let fine : (de_compress_tgz os rune_cap dest (archive_above n content) d).0 ≡ ok tt =
        unpacked_one os rune_cap dest (entry_above n content) d created_above in
      let (wrote, outside) =
        parent_entry_escapes os rune_cap dest s n up (archive_above n content) [] []
          (entry_above n content) d grows ascii there refl refl refl
          ((omega arith, (omega arith, (omega arith, ascii_name))), tt) refl named moves level other
          tt tt fine in
      (fine, wrote ∙ ap (λ o. some (file (overwrite content (content_of o)))) found, outside)
