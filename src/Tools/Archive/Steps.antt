-- ===== src/Tools/Archive/Steps.antt =====
-- The calls of `createFile` for one entry, under a directory that is there.
use aliyun_ahas.Common.{
  ℕ, ◌≤◌, Text, lit, List, [], ◌∷◌, ◌++◌, false, none, some, err, take, is_empty, Bool-cases, ◌≡◌,
  ◌⊎◌, inl, inr, refl, sym, ap, ◌∙◌, arith,
}
use aliyun_ahas.Tools.Runes.{IsAscii}
use aliyun_ahas.Tools.Disk.{
  Os, Disk, Location, start, segments, walk, has_zero, mkdir_all, make_dirs, open_file, open_from,
}
use aliyun_ahas.Tools.Disk.Walks.{make_dirs-walk, open_from-walk}
use aliyun_ahas.Tools.Archive.{Entry, create_file, fill_file}
use aliyun_ahas.Tools.Archive.Names.{Cut, rune_prefix_of_ascii, segments-append}

-- The directory `dest` is there, at `loc`.
abbrev pub IsThere : Os → Text → Location → Disk → Type 0
IsThere os dest loc d = walk (segments dest) (start os (dest ++ lit "/")) d ≡ (none, loc)

start-append :
    (os : Os) (dest s t : Text) → start os (dest ++ (b'/' ∷ s)) ≡ start os (dest ++ (b'/' ∷ t))
start-append os [] s t = refl
start-append os (c ∷ dest) s t = refl

start-prefix : (os : Os) (s t : Text) → is_empty s ≡ false → start os (s ++ t) ≡ start os s
start-prefix os [] t h = absurd (ground arith)
start-prefix os (c ∷ s) t h = refl

IsAscii-append : (s t : Text) → IsAscii s → IsAscii t → IsAscii (s ++ t)
IsAscii-append [] t h k = k
IsAscii-append (c ∷ s) t h k = (h.0, IsAscii-append s t h.1 k)

-- `os.MkdirAll` gets the path in front of the last segment.
pub create_file-Cut :
    (os : Os) (rune_cap : ℕ → ℕ) (dest name : Text) (x : Entry) (d : Disk) (c : Cut dest name)
    → ((k : ℕ) → k ≤ rune_cap k)
    → IsAscii dest
    → IsAscii name
    → create_file os rune_cap (dest ++ (b'/' ∷ name)) x d
      ≡ fill_file os rune_cap
          (dest ++ (b'/' ∷ name))
          x
          (mkdir_all os (take c.index (dest ++ (b'/' ∷ name))) d)
unfolding create_file
create_file-Cut os rune_cap dest name x d c grows ascii ascii_name =
    let path = dest ++ (b'/' ∷ name) in
    let all_ascii : IsAscii path =
      IsAscii-append dest (b'/' ∷ name) ascii (omega arith, ascii_name) in
    rw
      (
        c.found,
        rune_prefix_of_ascii rune_cap path c.index grows all_ascii (omega (arith, c.within)),
      )
      refl

module _ (os : Os) (dest name : Text) (loc : Location) where
  pub mkdir_all-made :
      (d : Disk) (c : Cut dest name)
      → IsThere os dest loc d
      → is_empty (take c.index (dest ++ (b'/' ∷ name))) ≡ false
      → mkdir_all os (take c.index (dest ++ (b'/' ∷ name))) d ≡ make_dirs os c.front loc d
  unfolding mkdir_all
  mkdir_all-made d c there fine =
      let dir = take c.index (dest ++ (b'/' ∷ name)) in
      let begins : start os dir ≡ start os (dest ++ lit "/") =
        sym (start-prefix os dir (b'/' ∷ c.last) fine)
        ∙ ap (start os) (sym c.path_is)
        ∙ start-append os dest name [] in
      rw (fine, c.dir_is, begins)
        (make_dirs-walk os (segments dest) c.front (start os (dest ++ lit "/")) loc d there)

  -- The directory of the entry is made from `loc` on.
  pub mkdir_all-there :
      (d : Disk) (c : Cut dest name)
      → IsThere os dest loc d
      → ((e : Text) × (mkdir_all os (take c.index (dest ++ (b'/' ∷ name))) d ≡ (some e, d)))
        ⊎ (mkdir_all os (take c.index (dest ++ (b'/' ∷ name))) d ≡ make_dirs os c.front loc d)
  mkdir_all-there d c there =
      let dir = take c.index (dest ++ (b'/' ∷ name)) in
      elim (Bool-cases (is_empty dir)) [
        | inl bad ↦ inl (lit "no such file or directory", unfold mkdir_all in rw bad refl)
        | inr fine ↦ inr (mkdir_all-made d c there fine)
      ]

  open_at :
      (front : List Text) (last : Text) (d : Disk)
      → IsThere os dest loc d
      → open_from os (segments dest ++ (front ++ (last ∷ []))) (start os (dest ++ lit "/")) d
        ≡ open_from os (front ++ (last ∷ [])) loc d
  open_at [] last d there =
      open_from-walk os (segments dest) [] last (start os (dest ++ lit "/")) loc d there
  open_at (s ∷ front) last d there =
      open_from-walk os (segments dest) (front ++ (last ∷ [])) s (start os (dest ++ lit "/")) loc d
        there

  pub open_file-found :
      (d : Disk) (c : Cut dest name)
      → IsThere os dest loc d
      → has_zero (dest ++ (b'/' ∷ name)) ≡ false
      → open_file os (dest ++ (b'/' ∷ name)) d ≡ open_from os (segments name) loc d
  unfolding open_file
  open_file-found d c there fine =
      rw (fine, segments-append dest name, start-append os dest name [], c.name_is)
        (open_at c.front c.last d there)

  -- The file of the entry is opened from `loc` on.
  pub open_file-there :
      (d : Disk) (c : Cut dest name)
      → IsThere os dest loc d
      → ((e : Text) × (open_file os (dest ++ (b'/' ∷ name)) d ≡ (err e, d)))
        ⊎ (open_file os (dest ++ (b'/' ∷ name)) d ≡ open_from os (segments name) loc d)
  open_file-there d c there = elim (Bool-cases (has_zero (dest ++ (b'/' ∷ name)))) [
    | inl bad ↦ inl (lit "invalid argument", unfold open_file in rw bad refl)
    | inr fine ↦ inr (open_file-found d c there fine)
  ]
