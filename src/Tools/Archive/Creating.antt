-- ===== src/Tools/Archive/Creating.antt =====
-- What `createFile` does for one entry under a directory that is there.
use aliyun_ahas.Common.{
  ℕ, ◌≤◌, Text, List, [], ◌∷◌, ◌++◌, true, Option, none, some, Result, ok, err, panic, diverge,
  take, Bool-cases, ◌≡◌, ◌⊎◌, inl, inr, refl, sym, ap, ◌∙◌, arith,
}
use aliyun_ahas.Tools.Runes.{IsAscii}
use aliyun_ahas.Tools.Disk.{
  Os, Disk, Location, segments, mkdir_all, make_dirs, open_file, open_from, write_at,
}
use aliyun_ahas.Tools.Archive.{Entry, create_file, fill_file, copy_to, ends_with_slash}
use aliyun_ahas.Tools.Archive.Names.{Cut}
use aliyun_ahas.Tools.Archive.Steps.{IsThere, create_file-Cut, mkdir_all-there, open_file-there}

-- The ways in which `createFile` goes, for an entry whose directory is made along `front`: what it returns, and the
-- disk that it leaves.
pub data Created (os : Os) (loc : Location) (front : List Text) (x : Entry) (d : Disk)
    : Result (Unit {0}) × Disk → Type 0 where
  refused : {r : Result (Unit {0}) × Disk} (e : Text) → r ≡ (err e, d) → Created os loc front x d r
  only_dir :
      {r : Result (Unit {0}) × Disk}
      → r.1 ≡ (make_dirs os front loc d).1
      → (r.0 ≡ ok tt → ends_with_slash (b'/' ∷ x.name) ≡ true)
      → Created os loc front x d r
  unopened :
      {r : Result (Unit {0}) × Disk}
      → r.1 ≡ (open_from os (segments x.name) loc (make_dirs os front loc d).1).1
      → (r.0 ≡ ok tt → ⊥)
      → Created os loc front x d r
  written :
      {r : Result (Unit {0}) × Disk} (l : Location) (d' : Disk)
      → open_from os (segments x.name) loc (make_dirs os front loc d).1 ≡ (ok l, d')
      → r.1 ≡ write_at l x.content d'
      → Created os loc front x d r

pub ends_with_slash-append :
    (s : Text) (c : ℕ) (t : Text) → ends_with_slash (s ++ (c ∷ t)) ≡ ends_with_slash (c ∷ t)
ends_with_slash-append [] c t = refl
ends_with_slash-append (a ∷ []) c t = refl
ends_with_slash-append (a ∷ b ∷ s) c t = ends_with_slash-append (b ∷ s) c t

module _ (os : Os) (rune_cap : ℕ → ℕ) (dest : Text) (loc : Location) (front : List Text) (x : Entry)
    (d : Disk) where
  copy_to-Created :
      (o : Result Location × Disk)
      → open_from os (segments x.name) loc (make_dirs os front loc d).1 ≡ o
      → Created os loc front x d (copy_to os rune_cap x o)
  unfolding copy_to
  copy_to-Created (ok l, d') e = written l d' e refl
  copy_to-Created (err s, d') e = unopened (ap (λ r. r.1) (sym e)) (λ h. ground arith)
  copy_to-Created (panic, d') e = unopened (ap (λ r. r.1) (sym e)) (λ h. ground arith)
  copy_to-Created (diverge, d') e = unopened (ap (λ r. r.1) (sym e)) (λ h. ground arith)

  fill_file-Created :
      (r : Option Text × Disk)
      → make_dirs os front loc d ≡ r
      → Cut dest x.name
      → IsThere os dest loc r.1
      → Created os loc front x d (fill_file os rune_cap (dest ++ (b'/' ∷ x.name)) x r)
  unfolding fill_file
  fill_file-Created (some e, d') h c there =
      only_dir (ap (λ r. r.1) (sym h)) (λ w. absurd (ground arith))
  fill_file-Created (none, d') h c there =
      let path = dest ++ (b'/' ∷ x.name) in
      elim (Bool-cases (ends_with_slash path)) [
        | inl slash ↦ rw slash (
            only_dir (ap (λ r. r.1) (sym h))
              (λ w. sym (ends_with_slash-append dest b'/' x.name) ∙ slash))
        | inr other ↦ rw other (opened (open_file-there os dest x.name loc d' c there))
      ]
    where
      opened :
          ((e : Text) × (open_file os (dest ++ (b'/' ∷ x.name)) d' ≡ (err e, d')))
            ⊎ (open_file os (dest ++ (b'/' ∷ x.name)) d' ≡ open_from os (segments x.name) loc d')
          → Created os loc front x d
              (copy_to os rune_cap x (open_file os (dest ++ (b'/' ∷ x.name)) d'))
      opened (inl (e, stopped)) =
          rw stopped (only_dir (ap (λ r. r.1) (sym h)) (λ w. absurd (ground arith)))
      opened (inr found) = rw found (
          copy_to-Created (open_from os (segments x.name) loc d')
            (ap (λ r. open_from os (segments x.name) loc r.1) h))

pub create_file-Created :
    (os : Os) (rune_cap : ℕ → ℕ) (dest : Text) (loc : Location) (x : Entry) (d : Disk)
    (c : Cut dest x.name)
    → ((k : ℕ) → k ≤ rune_cap k)
    → IsAscii dest
    → IsAscii x.name
    → IsThere os dest loc d
    → IsThere os dest loc (make_dirs os c.front loc d).1
    → Created os loc c.front x d (create_file os rune_cap (dest ++ (b'/' ∷ x.name)) x d)
create_file-Created os rune_cap dest loc x d c grows ascii ascii_name there still =
    let path = dest ++ (b'/' ∷ x.name) in
    rw (create_file-Cut os rune_cap dest x.name x d c grows ascii ascii_name)
      (made (mkdir_all-there os dest x.name loc d c there))
  where
    made :
        ((e : Text) × (mkdir_all os (take c.index (dest ++ (b'/' ∷ x.name))) d ≡ (some e, d)))
          ⊎ (mkdir_all os (take c.index (dest ++ (b'/' ∷ x.name))) d ≡ make_dirs os c.front loc d)
        → Created os loc c.front x d (
            fill_file os rune_cap
              (dest ++ (b'/' ∷ x.name))
              x
              (mkdir_all os (take c.index (dest ++ (b'/' ∷ x.name))) d))
    made (inl (e, h)) = rw h (unfold fill_file in refused e refl)
    made (inr h) = rw h (
        fill_file-Created os rune_cap dest loc c.front x d (make_dirs os c.front loc d) refl c
          still)
