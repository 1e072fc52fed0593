-- ===== src/Tools/Archive/Contents.antt =====
-- Which files an archive leaves.
use aliyun_ahas.Common.{
  ℕ, ◌≤◌, Text, List, [], ◌∷◌, ◌++◌, false, Option, none, some, Result, ok, err, panic, diverge,
  All, Bool-cases, ◌≡◌, ◌≢◌, inl, inr, refl, sym, ap, subst, ◌∙◌, arith,
}
use aliyun_ahas.Common.Actions.{Act, proceed}
use aliyun_ahas.Tools.Runes.{IsAscii}
use aliyun_ahas.Tools.Disk.{
  Os, Disk, Location, file, same_location, same_location_iff, segments, make_dirs, content_of,
  overwrite,
}
use aliyun_ahas.Tools.Disk.Tame.{Anywhere, Anywhere-IsClosed}
use aliyun_ahas.Tools.Disk.Opening.{
  locate, open_from-Opened, SameFile, SameFile-trans, SameFile-content, make_dirs-SameFile,
}
use aliyun_ahas.Tools.Archive.{
  Entry, Archive, create_file, unpack, unpack_readable, unpack_opened, de_compress_tgz,
  ends_with_slash,
}
use aliyun_ahas.Tools.Archive.Names.{cut}
use aliyun_ahas.Tools.Archive.Steps.{IsThere}
use aliyun_ahas.Tools.Archive.Creating.{Created, refused, only_dir, unopened, written}
use aliyun_ahas.Tools.Archive.Inside.{IsWithin, create_local, IsThere-next}

-- Where the file of an entry stands.
abbrev pub place_of : Location → Entry → Location
place_of loc x = locate (segments x.name) loc

same_location-ne : (l p : Location) → l ≢ p → same_location l p ≡ false
same_location-ne l p h = elim (Bool-cases (same_location l p)) [
  | inl same ↦ absurd (h ((same_location_iff l p).0 same))
  | inr other ↦ other
]

module _ (os : Os) (loc : Location) (front : List Text) (x : Entry) (d : Disk) where
  -- Another file is as before.
  Created-others :
      (r : Result (Unit {0}) × Disk) (p : Location)
      → Created os loc front x d r
      → r.0 ≡ ok tt
      → place_of loc x ≢ p
      → SameFile (d p) (r.1 p)
  Created-others r p (refused e h) fine other = absurd (ground arith)
  Created-others r p (only_dir h w) fine other = rw h (make_dirs-SameFile os front loc p d)
  Created-others r p (unopened h w) fine other = absurd (w fine)
  Created-others r p (written l d' e h) fine other =
      let d₁ = (make_dirs os front loc d).1 in
      let opened = open_from-Opened os (segments x.name) loc l d₁ d' e in
      let aside = same_location-ne (place_of loc x) p other in
      let kept : r.1 p ≡ d₁ p = rw (h, opened.place, aside) (opened.others p aside) in
      rw kept (make_dirs-SameFile os front loc p d)

  -- The file of the entry has its content, over what was there.
  Created-own :
      (r : Result (Unit {0}) × Disk)
      → Created os loc front x d r
      → r.0 ≡ ok tt
      → ends_with_slash (b'/' ∷ x.name) ≡ false
      → r.1 (place_of loc x) ≡ some (file (overwrite x.content (content_of (d (place_of loc x)))))
  Created-own r (refused e h) fine named = absurd (ground arith)
  Created-own r (only_dir h w) fine named = absurd (ground (arith, w fine))
  Created-own r (unopened h w) fine named = absurd (w fine)
  Created-own r (written l d' e h) fine named =
      let d₁ = (make_dirs os front loc d).1 in
      let p = place_of loc x in
      let opened = open_from-Opened os (segments x.name) loc l d₁ d' e in
      let same = (same_location_iff p p).1 refl in
      let there : d' p ≡ some (file opened.text) =
        subst (λ q. d' q ≡ some (file opened.text)) opened.place opened.at_place in
      let old : opened.text ≡ content_of (d p) =
        sym (SameFile-content (d p) (d₁ p) (make_dirs-SameFile os front loc p d) ∙ opened.kept) in
      rw (h, opened.place, same, there, old) refl

proceed-ok :
    (r : Result (Unit {0}) × Disk) (next : Act Disk (Unit {0}))
    → (proceed r (λ _. next)).0 ≡ ok tt
    → (r.0 ≡ ok tt) × (proceed r (λ _. next) ≡ next r.1)
proceed-ok (ok _, d) next h = (refl, refl)
proceed-ok (err e, d) next h = absurd (ground arith)
proceed-ok (panic, d) next h = absurd (ground arith)
proceed-ok (diverge, d) next h = absurd (ground arith)

module _ (os : Os) (rune_cap : ℕ → ℕ) (grows : (k : ℕ) → k ≤ rune_cap k) (dest : Text)
    (loc : Location) (ascii : IsAscii dest) where
  abbrev one : Entry → Act Disk (Unit {0})
  one x = create_file os rune_cap (dest ++ (b'/' ∷ x.name)) x

  anywhere : (x : Entry) → IsAscii x.name → IsWithin Anywhere x
  anywhere x h = (h, Anywhere-IsClosed (segments x.name))

  IsThere-on :
      (x : Entry) (d : Disk)
      → IsAscii x.name
      → IsThere os dest loc d
      → IsThere os dest loc (one x d).1
  IsThere-on x d h there =
      IsThere-next os rune_cap grows dest loc ascii Anywhere tt x d (anywhere x h) there

  one-others :
      (x : Entry) (d : Disk) (p : Location)
      → IsAscii x.name
      → IsThere os dest loc d
      → (one x d).0 ≡ ok tt
      → place_of loc x ≢ p
      → SameFile (d p) ((one x d).1 p)
  one-others x d p h there fine other =
      let c = cut dest x.name in
      let (created, closed) =
        create_local os rune_cap grows dest loc ascii Anywhere tt x d c (anywhere x h) there in
      Created-others os loc c.front x d (one x d) p created fine other

  one-own :
      (x : Entry) (d : Disk)
      → IsAscii x.name
      → IsThere os dest loc d
      → (one x d).0 ≡ ok tt
      → ends_with_slash (b'/' ∷ x.name) ≡ false
      → (one x d).1 (place_of loc x)
        ≡ some (file (overwrite x.content (content_of (d (place_of loc x)))))
  one-own x d h there fine named =
      let c = cut dest x.name in
      let (created, closed) =
        create_local os rune_cap grows dest loc ascii Anywhere tt x d c (anywhere x h) there in
      Created-own os loc c.front x d (one x d) created fine named

  unpack-others :
      (xs : List Entry) (next_error : Option Text) (d : Disk) (p : Location)
      → All (λ x. IsAscii x.name) xs
      → All (λ x. place_of loc x ≢ p) xs
      → IsThere os dest loc d
      → (unpack os rune_cap dest xs next_error d).0 ≡ ok tt
      → SameFile (d p) ((unpack os rune_cap dest xs next_error d).1 p)
  unfolding unpack
  unpack-others [] next_error d p h other there fine t = (λ e. e, λ e. e)
  unpack-others (x ∷ xs) next_error d p h other there fine t =
      let (first, rest) = proceed-ok (one x d) (unpack os rune_cap dest xs next_error) fine in
      let d' = (one x d).1 in
      rw rest (
        SameFile-trans (d p) (d' p) ((unpack os rune_cap dest xs next_error d').1 p)
          (one-others x d p h.0 there first other.0)
          (unpack-others xs next_error d' p h.1 other.1 (IsThere-on x d h.0 there)
            (sym (ap (λ r. r.0) rest) ∙ fine))
          t)

  -- The file of one entry among others.
  pub unpack-own :
      (xs ys : List Entry) (x : Entry) (next_error : Option Text) (d : Disk)
      → All (λ y. IsAscii y.name) (xs ++ (x ∷ ys))
      → All (λ y. place_of loc y ≢ place_of loc x) xs
      → All (λ y. place_of loc y ≢ place_of loc x) ys
      → ends_with_slash (b'/' ∷ x.name) ≡ false
      → IsThere os dest loc d
      → (unpack os rune_cap dest (xs ++ (x ∷ ys)) next_error d).0 ≡ ok tt
      → (unpack os rune_cap dest (xs ++ (x ∷ ys)) next_error d).1 (place_of loc x)
        ≡ some (file (overwrite x.content (content_of (d (place_of loc x)))))
  unfolding unpack
  unpack-own [] ys x next_error d h before behind named there fine =
      let (first, rest) = proceed-ok (one x d) (unpack os rune_cap dest ys next_error) fine in
      let d' = (one x d).1 in
      rw rest (
        (unpack-others ys next_error d' (place_of loc x) h.1 behind (IsThere-on x d h.0 there)
            (sym (ap (λ r. r.0) rest) ∙ fine)
            (overwrite x.content (content_of (d (place_of loc x))))).0
          (one-own x d h.0 there first named))
  unpack-own (y ∷ xs) ys x next_error d h before behind named there fine =
      let p = place_of loc x in
      let (first, rest) =
        proceed-ok (one y d) (unpack os rune_cap dest (xs ++ (x ∷ ys)) next_error) fine in
      let d' = (one y d).1 in
      let same = SameFile-content (d p) (d' p) (one-others y d p h.0 there first before.0) in
      rw (rest, same)
        (unpack-own xs ys x next_error d' h.1 before.1 behind named (IsThere-on y d h.0 there)
          (sym (ap (λ r. r.0) rest) ∙ fine))

-- Where `DeCompressTgz` gives nil for an archive that gzip can read, into a directory that is there, with ASCII
-- paths: an entry that is no directory, and whose file is that of no other entry, has its content there, written
-- from the start over what the file had before, of which a longer rest stays.
pub unpacked_contents :
    (os : Os) (rune_cap : ℕ → ℕ) (dest : Text) (loc : Location) (a : Archive) (xs ys : List Entry)
    (x : Entry) (d : Disk)
    → ((k : ℕ) → k ≤ rune_cap k)
    → IsAscii dest
    → IsThere os dest loc d
    → a.open_error ≡ none
    → a.gzip_error ≡ none
    → a.entries ≡ xs ++ (x ∷ ys)
    → All (λ y. IsAscii y.name) (xs ++ (x ∷ ys))
    → All (λ y. place_of loc y ≢ place_of loc x) xs
    → All (λ y. place_of loc y ≢ place_of loc x) ys
    → ends_with_slash (b'/' ∷ x.name) ≡ false
    → (de_compress_tgz os rune_cap dest a d).0 ≡ ok tt
    → (de_compress_tgz os rune_cap dest a d).1 (place_of loc x)
      ≡ some (file (overwrite x.content (content_of (d (place_of loc x)))))
unpacked_contents os rune_cap dest loc a xs ys x d grows ascii there opened readable entries h
      before behind named fine =
    let run : de_compress_tgz os rune_cap dest a d
        ≡ unpack os rune_cap dest (xs ++ (x ∷ ys)) a.next_error d =
      unfold de_compress_tgz unpack_opened unpack_readable in rw (opened, readable, entries) refl in
    rw run (
      unpack-own os rune_cap grows dest loc ascii xs ys x a.next_error d h before behind named there
        (sym (ap (λ r. r.0) run) ∙ fine))
