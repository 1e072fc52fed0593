-- ===== src/Tools/Archive/Inside.antt =====
-- Where an archive is unpacked to.
use aliyun_ahas.Common.{
  ℕ, ◌≤◌, Text, lit, List, [], ◌∷◌, ◌++◌, Option, none, some, Result, ok, err, panic, diverge, All,
  ◌≡◌, ◌⊎◌, inr, refl, sym, subst,
}
use aliyun_ahas.Common.Actions.{Act, proceed}
use aliyun_ahas.Tools.Runes.{IsAscii}
use aliyun_ahas.Tools.Disk.{
  Os, Disk, Location, directory, file, start, segments, make_dirs, open_from, write_at, content_of,
  overwrite,
}
use aliyun_ahas.Tools.Disk.Tame.{
  NoneUp, Under, IsClosed, Under-IsClosed, IsTame, IsTame-refl, IsTame-trans, put-IsTame,
  make_dirs-IsTame, open_from-IsTame,
}
use aliyun_ahas.Tools.Disk.Walks.{walk-grows}
use aliyun_ahas.Tools.Disk.Opening.{locate-closed, open_from-Opened}
use aliyun_ahas.Tools.Archive.{
  Entry, Archive, create_file, unpack, unpack_readable, unpack_opened, de_compress_tgz,
}
use aliyun_ahas.Tools.Archive.Names.{Cut, cut}
use aliyun_ahas.Tools.Archive.Steps.{IsThere}
use aliyun_ahas.Tools.Archive.Creating.{
  Created, refused, only_dir, unopened, written, create_file-Created,
}

-- An ASCII name, none of whose segments is "..".
abbrev pub IsLocal : Entry → Type 0
IsLocal x = IsAscii x.name × NoneUp (segments x.name)

-- An ASCII name whose segments stay at locations with `P`.
abbrev pub IsWithin : (Location → Type 0) → Entry → Type 0
IsWithin P x = IsAscii x.name × IsClosed P (segments x.name)

IsClosed-front :
    (P : Location → Type 0) (front : List Text) (last : Text)
    → IsClosed P (front ++ (last ∷ []))
    → IsClosed P front
IsClosed-front P [] last h = tt
IsClosed-front P (s ∷ front) last h = (h.0, IsClosed-front P front last h.1)

module _ (os : Os) (loc : Location) (P : Location → Type 0) (begins : P loc) where
  written-IsTame :
      (x : Entry) (l : Location) (d d' : Disk)
      → IsClosed P (segments x.name)
      → open_from os (segments x.name) loc d ≡ (ok l, d')
      → IsTame P d (write_at l x.content d')
  written-IsTame x l d d' closed e =
      let opened = open_from-Opened os (segments x.name) loc l d d' e in
      let inside = locate-closed P (segments x.name) loc closed begins in
      let tame : IsTame P d d' =
        subst (λ r. IsTame P d r.1) e
          (open_from-IsTame P os (segments x.name) loc d closed begins) in
      IsTame-trans P d d' (write_at l x.content d') tame (
        put-IsTame P l d' (file (overwrite x.content (content_of (d' l))))
          (subst P (sym opened.place) inside) (inr (opened.text, opened.at_place)))

  Created-IsTame :
      (front : List Text) (x : Entry) (d : Disk) (r : Result (Unit {0}) × Disk)
      → IsClosed P front
      → IsClosed P (segments x.name)
      → Created os loc front x d r
      → IsTame P d r.1
  Created-IsTame front x d r closed name_closed (refused e h) = rw h (IsTame-refl P d)
  Created-IsTame front x d r closed name_closed (only_dir h w) =
      rw h (make_dirs-IsTame P os front loc d closed begins)
  Created-IsTame front x d r closed name_closed (unopened h w) =
      let d' = (make_dirs os front loc d).1 in
      rw h (
        IsTame-trans P d d' (open_from os (segments x.name) loc d').1
          (make_dirs-IsTame P os front loc d closed begins)
          (open_from-IsTame P os (segments x.name) loc d' name_closed begins))
  Created-IsTame front x d r closed name_closed (written l d' e h) =
      let d₁ = (make_dirs os front loc d).1 in
      rw h (
        IsTame-trans P d d₁ (write_at l x.content d')
          (make_dirs-IsTame P os front loc d closed begins)
          (written-IsTame x l d₁ d' name_closed e))

-- What holds for the entries of an archive, one by one.
module _ (os : Os) (rune_cap : ℕ → ℕ) (grows : (k : ℕ) → k ≤ rune_cap k) (dest : Text)
    (loc : Location) (ascii : IsAscii dest) (P : Location → Type 0) (begins : P loc) where
  IsThere-after : (d d' : Disk) → IsTame P d d' → IsThere os dest loc d → IsThere os dest loc d'
  IsThere-after d d' tame there =
      walk-grows (segments dest) (start os (dest ++ lit "/")) loc d d' tame.grows there

  pub create_local :
      (x : Entry) (d : Disk) (c : Cut dest x.name)
      → IsWithin P x
      → IsThere os dest loc d
      → Created os loc c.front x d (create_file os rune_cap (dest ++ (b'/' ∷ x.name)) x d)
        × IsClosed P c.front
  create_local x d c within there =
      let closed = IsClosed-front P c.front c.last (subst (IsClosed P) c.name_is within.1) in
      let tame = make_dirs-IsTame P os c.front loc d closed begins in
      (
        create_file-Created os rune_cap dest loc x d c grows ascii within.0 there
            (IsThere-after d (make_dirs os c.front loc d).1 tame there),
        closed,
      )

  create_file-IsTame :
      (x : Entry) (d : Disk)
      → IsWithin P x
      → IsThere os dest loc d
      → IsTame P d (create_file os rune_cap (dest ++ (b'/' ∷ x.name)) x d).1
  create_file-IsTame x d within there =
      let c = cut dest x.name in
      let (created, closed) = create_local x d c within there in
      Created-IsTame os loc P begins c.front x d
        (create_file os rune_cap (dest ++ (b'/' ∷ x.name)) x d) closed within.1 created

  pub IsThere-next :
      (x : Entry) (d : Disk)
      → IsWithin P x
      → IsThere os dest loc d
      → IsThere os dest loc (create_file os rune_cap (dest ++ (b'/' ∷ x.name)) x d).1
  IsThere-next x d within there =
      IsThere-after d (create_file os rune_cap (dest ++ (b'/' ∷ x.name)) x d).1
        (create_file-IsTame x d within there) there

  proceed-IsTame :
      (d : Disk) (r : Result (Unit {0}) × Disk) (next : Act Disk (Unit {0}))
      → IsTame P d r.1
      → IsTame P r.1 (next r.1).1
      → IsTame P d (proceed r (λ _. next)).1
  proceed-IsTame d (ok _, d') next t n = IsTame-trans P d d' (next d').1 t n
  proceed-IsTame d (err e, d') next t n = t
  proceed-IsTame d (panic, d') next t n = t
  proceed-IsTame d (diverge, d') next t n = t

  unpack-IsTame :
      (xs : List Entry) (next_error : Option Text) (d : Disk)
      → All (IsWithin P) xs
      → IsThere os dest loc d
      → IsTame P d (unpack os rune_cap dest xs next_error d).1
  unfolding unpack
  unpack-IsTame [] next_error d within there = IsTame-refl P d
  unpack-IsTame (x ∷ xs) next_error d within there =
      let r = create_file os rune_cap (dest ++ (b'/' ∷ x.name)) x d in
      proceed-IsTame d r (unpack os rune_cap dest xs next_error)
        (create_file-IsTame x d within.0 there)
        (unpack-IsTame xs next_error r.1 within.1 (IsThere-next x d within.0 there))

All-IsWithin : (loc : Location) (xs : List Entry) → All IsLocal xs → All (IsWithin (Under loc)) xs
All-IsWithin loc [] h = tt
All-IsWithin loc (x ∷ xs) h =
    ((h.0.0, Under-IsClosed loc (segments x.name) h.0.1), All-IsWithin loc xs h.1)

-- An archive whose names are ASCII and have no segment ".." changes nothing outside the directory that it is unpacked
-- to, which is there and has an ASCII path, and takes no directory away, whether it is unpacked to its end or stops
-- at an error.
pub unpacked_inside :
    (os : Os) (rune_cap : ℕ → ℕ) (dest : Text) (loc : Location) (a : Archive) (d : Disk)
    → ((k : ℕ) → k ≤ rune_cap k)
    → IsAscii dest
    → All IsLocal a.entries
    → IsThere os dest loc d
    → let d' = (de_compress_tgz os rune_cap dest a d).1 in
      ((p : Location) → (d' p ≡ d p) ⊎ ((q : Location) × (p ≡ q ++ loc)))
      × ((p : Location) → d p ≡ some directory → d' p ≡ some directory)
unfolding de_compress_tgz unpack_opened unpack_readable
unpacked_inside os rune_cap dest loc a d grows ascii local there =
    let tame = opened a.open_error in (tame.keeps, tame.grows)
  where
    readable : (e : Option Text) → IsTame (Under loc) d (unpack_readable os rune_cap dest a e d).1
    readable none =
        unpack-IsTame os rune_cap grows dest loc ascii (Under loc) ([], refl) a.entries a.next_error
          d (All-IsWithin loc a.entries local) there
    readable (some e) = IsTame-refl (Under loc) d

    opened : (e : Option Text) → IsTame (Under loc) d (unpack_opened os rune_cap dest a e d).1
    opened none = readable a.gzip_error
    opened (some e) = IsTame-refl (Under loc) d
