-- ===== src/Tools/Archive/Wide.antt =====
-- Names with wide characters: `createFile` cuts the runes of a path by an index into its bytes.
use aliyun_ahas.Common.{
  ℕ, zero, suc, ◌-◌, ◌≤◌, Text, List, [], ◌∷◌, ◌++◌, append-nil, true, false, Option, none, some,
  Result, ok, err, panic, diverge, ltb, length, take, length-append, take_within, is_empty,
  Bool-cases, ◌≡◌, ◌≢◌, inl, inr, refl, sym, ap, subst, ◌∙◌, arith,
}
use aliyun_ahas.Tools.Runes.{runes, text_of_runes, text_of_runes-append}
use aliyun_ahas.Tools.Disk.{
  Os, Disk, Location, segments, start, has_zero, mkdir_all, make_dirs, open_file, open_from,
}
use aliyun_ahas.Tools.Disk.Directories.{
  make_dirs-directory, make_dirs-plain, plain_segments, open_from-directory,
}
use aliyun_ahas.Tools.Archive.Names.{segments-some}
use aliyun_ahas.Tools.Archive.{
  Entry, create_file, in_dir, fill_file, copy_to, rune_prefix, last_index, zeros, ends_with_slash,
}

has_zero-append : (s t : Text) → has_zero t ≡ true → has_zero (s ++ t) ≡ true
has_zero-append [] t h = h
has_zero-append (c ∷ s) t h = ground (arith, has_zero-append s t h)

has_zero-zeros : (k : ℕ) → has_zero (text_of_runes (zeros (suc k))) ≡ true
unfolding text_of_runes zeros
has_zero-zeros k = refl

length-zeros : (k : ℕ) → length (zeros k) ≡ k
unfolding zeros
length-zeros zero = refl
length-zeros (suc k) = omega (arith, length-zeros k)

segments-cons : (s : Text) → (t : Text) × (ss : List Text) × (segments s ≡ t ∷ ss)
segments-cons s = first (segments-some s)
  where
    first :
        ((front : List Text) × (last : Text) × (segments s ≡ front ++ (last ∷ [])))
        → (t : Text) × (ss : List Text) × (segments s ≡ t ∷ ss)
    first ([], last, e) = (last, [], e)
    first (t ∷ front, last, e) = (t, front ++ (last ∷ []), e)

-- A path that was made as a directory is not opened as a file.
made-not_opened :
    (os : Os) (path : Text) (d d' d'' : Disk) (p : Location)
    → mkdir_all os path d ≡ (none, d')
    → open_file os path d' ≢ (ok p, d'')
unfolding mkdir_all open_file
made-not_opened os path d d' d'' p made opened =
    let (t, ss, cut) = segments-cons path in
    elim (Bool-cases (is_empty path)) [
      | inl bad ↦ absurd (ground (arith, bad))
      | inr fine ↦ elim (Bool-cases (has_zero path)) [
        | inl bad ↦ absurd (ground (arith, bad))
        | inr plain ↦
            let made' : make_dirs os (t ∷ ss) (start os path) d ≡ (none, d') =
              ap (λ ts. make_dirs os ts (start os path) d) (sym cut) ∙ ground (arith, fine) in
            let opened' : open_from os (t ∷ ss) (start os path) d' ≡ (ok p, d'') =
              ap (λ ts. open_from os ts (start os path) d') (sym cut) ∙ ground (arith, plain) in
            open_from-directory os (t ∷ ss) (start os path) p d' d''
              (make_dirs-directory os t ss (start os path) d d' made') opened'
      ]
    ]

-- A path with a zero byte is not made.
mkdir_all-zero :
    (os : Os) (dir : Text) (d d' : Disk) → has_zero dir ≡ true → mkdir_all os dir d ≢ (none, d')
unfolding mkdir_all
mkdir_all-zero os dir d d' h made = elim (Bool-cases (is_empty dir)) [
  | inl bad ↦ absurd (ground (arith, bad))
  | inr fine ↦
      let made' : make_dirs os (segments dir) (start os dir) d ≡ (none, d') =
        ground (arith, fine) in
      let plain =
        plain_segments dir (make_dirs-plain os (segments dir) (start os dir) d d' made') in
      absurd (ground (arith, h, plain))
]

module _ (os : Os) (rune_cap : ℕ → ℕ) (path : Text) (x : Entry)
    (file_path : ends_with_slash path ≡ false) where
  copy_to-not_ok :
      (o : Result Location × Disk)
      → ((p : Location) (d : Disk) → o ≢ (ok p, d))
      → (copy_to os rune_cap x o).0 ≢ ok tt
  unfolding copy_to
  copy_to-not_ok (ok l, d) never e = never l d refl
  copy_to-not_ok (err s, d) never e = ground arith
  copy_to-not_ok (panic, d) never e = ground arith
  copy_to-not_ok (diverge, d) never e = ground arith

  fill_file-not_ok :
      (d : Disk) (r : Option Text × Disk)
      → mkdir_all os path d ≡ r
      → (fill_file os rune_cap path x r).0 ≢ ok tt
  unfolding fill_file
  fill_file-not_ok d (some e, d') h fine = ground arith
  fill_file-not_ok d (none, d') h fine =
      copy_to-not_ok (open_file os path d') (λ p d''. made-not_opened os path d d' d'' p h)
        (rw file_path at fine)

  refused_dir :
      (r : Option Text × Disk)
      → ((d' : Disk) → r ≢ (none, d'))
      → (fill_file os rune_cap path x r).0 ≢ ok tt
  unfolding fill_file
  refused_dir (some e, d') never fine = ground arith
  refused_dir (none, d') never fine = never d' refl

  -- The directory that is made where the index is `k` above the number of runes.
  dir-not_ok :
      (k : ℕ) (dir : Text) (d : Disk)
      → text_of_runes (runes path) ≡ path
      → text_of_runes (runes path ++ zeros k) ≡ dir
      → (in_dir os rune_cap path x (ok dir) d).0 ≢ ok tt
  unfolding in_dir zeros
  dir-not_ok zero dir d valid e fine =
      let same : dir ≡ path = sym e ∙ ap text_of_runes (append-nil (runes path)) ∙ valid in
      fill_file-not_ok d (mkdir_all os path d) refl
        (subst (λ t. (fill_file os rune_cap path x (mkdir_all os t d)).0 ≡ ok tt) same fine)
  dir-not_ok (suc k) dir d valid e fine =
      let zero_in : has_zero dir ≡ true =
        ap has_zero (sym e ∙ text_of_runes-append (runes path) (zeros (suc k)))
        ∙ has_zero-append (text_of_runes (runes path)) (text_of_runes (zeros (suc k)))
            (has_zero-zeros k) in
      refused_dir (mkdir_all os dir d) (λ d'. mkdir_all-zero os dir d d' zero_in) fine

create_file-prefix :
    (os : Os) (rune_cap : ℕ → ℕ) (path : Text) (x : Entry) (d : Disk) (i : ℕ) (r : Result Text)
    → last_index b'/' path ≡ some i
    → rune_prefix rune_cap path (some i) ≡ r
    → create_file os rune_cap path x d ≡ in_dir os rune_cap path x r d
unfolding create_file
create_file-prefix os rune_cap path x d i r found e =
    ap (λ t. in_dir os rune_cap path x (rune_prefix rune_cap path t) d) found
    ∙ ap (λ q. in_dir os rune_cap path x q d) e

panic-not_ok :
    (os : Os) (rune_cap : ℕ → ℕ) (path : Text) (x : Entry) (d : Disk)
    → (in_dir os rune_cap path x panic d).0 ≢ ok tt
unfolding in_dir
panic-not_ok os rune_cap path x d fine = ground arith

-- A path of a file, in valid UTF-8, whose last separator has a byte index that is not below the number of its runes, by wide
-- characters in front of it, is never unpacked: for it `createFile` fails or panics, in any state of the disk.
pub wide_path_fails :
    (os : Os) (rune_cap : ℕ → ℕ) (path : Text) (x : Entry) (d : Disk) (i : ℕ)
    → text_of_runes (runes path) ≡ path
    → last_index b'/' path ≡ some i
    → length (runes path) ≤ i
    → ends_with_slash path ≡ false
    → (create_file os rune_cap path x d).0 ≢ ok tt
wide_path_fails os rune_cap path x d i valid found wide file_path fine =
    let rs = runes path in
    let behind = zeros (i - length rs) in
    let whole : take i (rs ++ behind) ≡ rs ++ behind =
      (take_within i (rs ++ behind)
        (omega (arith, length-append rs behind, length-zeros (i - length rs)))).0 in
    let cut = λ (r : Result Text) (e : rune_prefix rune_cap path (some i) ≡ r).
      create_file-prefix os rune_cap path x d i r found e in
    elim (Bool-cases (ltb (rune_cap (length rs)) i)) [
      | inl beyond ↦
          let failed = cut panic (unfold rune_prefix in rw beyond refl) in
          panic-not_ok os rune_cap path x d
            (ap (λ (r : Result (Unit {0}) × Disk). r.0) (sym failed) ∙ fine)
      | inr within ↦
          dir-not_ok os rune_cap path x file_path (i - length rs) (text_of_runes (rs ++ behind)) d
            valid refl
            (ap (λ (r : Result (Unit {0}) × Disk). r.0)
                (sym (
                  cut (ok (text_of_runes (rs ++ behind)))
                    (unfold rune_prefix in rw within (ap (λ t. ok (text_of_runes t)) whole))))
              ∙ fine)
    ]
