-- ===== src/Tools/Archive/Escapes.antt =====
-- An entry whose name leads up.
use aliyun_ahas.Common.{
  is_empty, Option-cases, inl, inr, ℕ, ◌≤◌, Text, lit, List, [], ◌∷◌, ◌++◌, false, none, some, ok,
  All, text_eq, length, length-append, ◌≡◌, ◌≢◌, refl, sym, ap, subst, ◌∙◌, arith,
}
use aliyun_ahas.Tools.Runes.{IsAscii}
use aliyun_ahas.Tools.Disk.{
  Os, Disk, Location, file, segments, content_of, overwrite, stays, goes_up,
}
use aliyun_ahas.Tools.Archive.{Entry, Archive, de_compress_tgz, last_index, ends_with_slash}
use aliyun_ahas.Tools.Archive.Names.{segments-append, segments_of_one}
use aliyun_ahas.Tools.Archive.Steps.{IsThere}
use aliyun_ahas.Tools.Archive.Contents.{place_of, unpacked_contents}

pub ends_with_slash-named :
    (c : ℕ) (s : Text)
    → is_empty s ≡ false
    → last_index b'/' s ≡ none
    → ends_with_slash (c ∷ s) ≡ false
unfolding last_index
ends_with_slash-named c [] some_left free = absurd (ground arith)
ends_with_slash-named c (e ∷ []) some_left free = ground arith
ends_with_slash-named c (e ∷ e' ∷ s) some_left free =
    elim (Option-cases (last_index b'/' (e' ∷ s))) [
      | inl none_behind ↦ ends_with_slash-named e (e' ∷ s) refl none_behind
      | inr (i, found) ↦ absurd (ground arith)
    ]

abbrev pub name_above : Text → Text
name_above n = lit "../" ++ n

place_above :
    (s n : Text) (up : Location) (x : Entry)
    → x.name ≡ name_above n
    → last_index b'/' n ≡ none
    → stays n ≡ false
    → goes_up n ≡ false
    → place_of (s ∷ up) x ≡ n ∷ up
unfolding segments text_eq
place_above s n up x named free moves level =
    let split : segments x.name ≡ lit ".." ∷ n ∷ [] =
      ap segments named
      ∙ segments-append (lit "..") n
      ∙ ap (λ ss. segments (lit "..") ++ ss) (segments_of_one n free) in
    rw (split, moves, level) refl

not_under : (s n : Text) (up q : Location) → n ≢ s → n ∷ up ≢ q ++ (s ∷ up)
not_under s n up [] other e = other (cc)
not_under s n up (t ∷ q) other e = absurd (omega (arith, ap length e, length-append {0} q (s ∷ up)))

-- An archive is not kept to its directory: where `DeCompressTgz` gives nil for one that gzip can read, with ASCII
-- paths, an entry named "../n", for a name `n` of a file other than the directory's, whose file is that of no
-- other entry, has been written beside the directory, over what stood there.
pub parent_entry_escapes :
    (os : Os) (rune_cap : ℕ → ℕ) (dest s n : Text) (up : Location) (a : Archive)
    (xs ys : List Entry) (x : Entry) (d : Disk)
    → ((k : ℕ) → k ≤ rune_cap k)
    → IsAscii dest
    → IsThere os dest (s ∷ up) d
    → a.open_error ≡ none
    → a.gzip_error ≡ none
    → a.entries ≡ xs ++ (x ∷ ys)
    → All (λ y. IsAscii y.name) (xs ++ (x ∷ ys))
    → x.name ≡ name_above n
    → last_index b'/' n ≡ none
    → stays n ≡ false
    → goes_up n ≡ false
    → n ≢ s
    → All (λ y. place_of (s ∷ up) y ≢ n ∷ up) xs
    → All (λ y. place_of (s ∷ up) y ≢ n ∷ up) ys
    → (de_compress_tgz os rune_cap dest a d).0 ≡ ok tt
    → ((de_compress_tgz os rune_cap dest a d).1 (n ∷ up)
        ≡ some (file (overwrite x.content (content_of (d (n ∷ up))))))
      × ((q : Location) → n ∷ up ≢ q ++ (s ∷ up))
parent_entry_escapes os rune_cap dest s n up a xs ys x d grows ascii there opened readable entries h
      named free moves level other before behind fine =
    let place = place_above s n up x named free moves level in
    let d' = (de_compress_tgz os rune_cap dest a d).1 in
    let is_file : ends_with_slash (b'/' ∷ x.name) ≡ false =
      ap (λ t. ends_with_slash (b'/' ∷ t)) named
      ∙ ends_with_slash-named b'/' n (ground arith) free in
    (
      subst (λ p. d' p ≡ some (file (overwrite x.content (content_of (d p))))) place
          (unpacked_contents os rune_cap dest (s ∷ up) a xs ys x d grows ascii there opened readable
            entries h (subst (λ p. All (λ y. place_of (s ∷ up) y ≢ p) xs) (sym place) before)
            (subst (λ p. All (λ y. place_of (s ∷ up) y ≢ p) ys) (sym place) behind) is_file fine),
      λ q. not_under s n up q other,
    )
