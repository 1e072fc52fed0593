-- ===== src/Tools/Disk/Directories.antt =====
-- Where directories were made, nothing is opened as a file.
use aliyun_ahas.Common.{
  ℕ, Text, List, [], ◌∷◌, All, false, Bool-cases, ◌==◌, inl, inr, Option, none, some, ok, ◌≡◌, ◌≢◌,
  refl, sym, ap, ◌∙◌, arith,
}
use aliyun_ahas.Tools.Disk.{
  Os, Disk, Location, Node, directory, file, same_location_iff, has_zero, segments, extend, step_to,
  make_dirs, make_node, make_named, make_new, and_then, open_from,
}
use aliyun_ahas.Tools.Disk.Opening.{locate, open_from-Opened}

make_new-directory :
    (e : Option Text) (l : Location) (d d' : Disk)
    → make_new e l d ≡ (none, d')
    → d' l ≡ some directory
unfolding make_new
make_new-directory (some x) l d d' h = absurd (ground arith)
make_new-directory none l d d' h =
    let same = (same_location_iff l l).1 refl in
    ap (λ (r : Option Text × Disk). r.1 l) (sym h) ∙ rw same refl

make_node-directory :
    (os : Os) (l : Location) (o : Option Node) (d d' : Disk)
    → d l ≡ o
    → make_node os l o d ≡ (none, d')
    → d' l ≡ some directory
unfolding make_node
make_node-directory os l (some directory) d d' e h =
    ap (λ (r : Option Text × Disk). r.1 l) (sym h) ∙ e
make_node-directory os l (some (file t)) d d' e h = absurd (ground arith)
make_node-directory os l none d d' e h = make_new-directory (os.denied l) l d d' h

-- A directory that was made has a name without zero bytes.
make_named-directory :
    (os : Os) (s : Text) (l : Location) (d d' : Disk)
    → make_named os s l d ≡ (none, d')
    → (d' l ≡ some directory) × (has_zero s ≡ false)
unfolding make_named
make_named-directory os s l d d' h = elim (Bool-cases (has_zero s)) [
  | inl bad ↦ absurd (ground (arith, h, bad))
  | inr fine ↦ (make_node-directory os l (d l) d d' refl (rw fine at h), fine)
]

and_then-none :
    (r : Option Text × Disk) (next : Disk → Option Text × Disk) (d' : Disk)
    → and_then r next ≡ (none, d')
    → (r ≡ (none, r.1)) × (next r.1 ≡ (none, d'))
and_then-none (some e, d) next d' h = absurd (ground arith)
and_then-none (none, d) next d' h = (refl, h)

-- Where the directories of a path are made, it leads to one.
pub make_dirs-directory :
    (os : Os) (s : Text) (ss : List Text) (l : Location) (d d' : Disk)
    → make_dirs os (s ∷ ss) l d ≡ (none, d')
    → d' (locate (s ∷ ss) l) ≡ some directory
unfolding make_dirs
make_dirs-directory os s [] l d d' h =
    let r = make_named os s (step_to s l) d in
    let (first, rest) = and_then-none r (λ d₁. (none, d₁)) d' h in
    ap (λ (q : Option Text × Disk). q.1 (step_to s l)) (sym rest)
    ∙ (make_named-directory os s (step_to s l) d r.1 first).0
make_dirs-directory os s (t ∷ ss) l d d' h =
    let r = make_named os s (step_to s l) d in
    let (first, rest) = and_then-none r (λ d₁. make_dirs os (t ∷ ss) (step_to s l) d₁) d' h in
    make_dirs-directory os t ss (step_to s l) r.1 d' rest

extended :
    (c : ℕ) (ss : List Text)
    → All (λ s. has_zero s ≡ false) (extend c ss)
    → ((c == 0) ≡ false) × All (λ s. has_zero s ≡ false) ss
unfolding extend
extended c [] h = (ground (arith, h.0), tt)
extended c (s ∷ ss) h = (ground (arith, h.0), (ground (arith, h.0), h.1))

-- Where the directories of a path are made, no name on it has a zero byte.
pub make_dirs-plain :
    (os : Os) (ss : List Text) (l : Location) (d d' : Disk)
    → make_dirs os ss l d ≡ (none, d')
    → All (λ s. has_zero s ≡ false) ss
unfolding make_dirs
make_dirs-plain os [] l d d' h = tt
make_dirs-plain os (s ∷ ss) l d d' h =
    let r = make_named os s (step_to s l) d in
    let (first, rest) = and_then-none r (λ d₁. make_dirs os ss (step_to s l) d₁) d' h in
    (
      (make_named-directory os s (step_to s l) d r.1 first).1,
      make_dirs-plain os ss (step_to s l) r.1 d' rest,
    )

-- A path whose names have no zero byte has none.
pub plain_segments :
    (path : Text) → All (λ s. has_zero s ≡ false) (segments path) → has_zero path ≡ false
unfolding segments
plain_segments [] h = refl
plain_segments (c ∷ s) h = elim (Bool-cases (c == b'/')) [
  | inl cut ↦
      let rest : All (λ s. has_zero s ≡ false) ([] ∷ segments s) = rw cut at h in
      ground (arith, cut, plain_segments s rest.1)
  | inr other ↦
      let rest : All (λ s. has_zero s ≡ false) (extend c (segments s)) = rw other at h in
      let (first, later) = extended c (segments s) rest in
      ground (arith, first, plain_segments s later)
]

-- A directory is not opened.
pub open_from-directory :
    (os : Os) (ss : List Text) (l p : Location) (d d' : Disk)
    → d (locate ss l) ≡ some directory
    → open_from os ss l d ≢ (ok p, d')
open_from-directory os ss l p d d' there h =
    let opened = open_from-Opened os ss l p d d' h in opened.no_dir there
