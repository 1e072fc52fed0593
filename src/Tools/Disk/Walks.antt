-- ===== src/Tools/Disk/Walks.antt =====
-- A walk through directories that are there goes on behind them.
use aliyun_ahas.Common.{
  Text, List, [], ◌∷◌, ◌++◌, Option, none, some, Bool-cases, false, inl, inr, ◌≡◌, refl, ap, arith,
}
use aliyun_ahas.Tools.Disk.{
  Os, Disk, Location, Node, directory, file, has_zero, step_to, walk, enter_node, enter_named,
  make_node, make_named, unless, make_dirs, open_from,
}

enters :
    (o : Option Node) (l : Location) (r : Option Text × Location) {l' : Location}
    → unless (enter_node o) (λ e. (some e, l)) r ≡ (none, l')
    → (o ≡ some directory) × (r ≡ (none, l'))
unfolding enter_node
enters (some directory) l r h = (refl, h)
enters (some (file t)) l r h = absurd (ground arith)
enters none l r h = absurd (ground arith)

-- Each directory on the way is there, and its name has no zero byte.
walk-enters :
    (s : Text) (o : Option Node) (l : Location) (r : Option Text × Location) {l' : Location}
    → unless (enter_named s o) (λ e. (some e, l)) r ≡ (none, l')
    → (o ≡ some directory) × (r ≡ (none, l')) × (has_zero s ≡ false)
unfolding enter_named
walk-enters s o l r h = elim (Bool-cases (has_zero s)) [
  | inl bad ↦ absurd (ground (arith, h, bad))
  | inr fine ↦ let (there, further) = enters o l r (rw fine at h) in (there, further, fine)
]

pub walk-grows :
    (ss : List Text) (l l' : Location) (d d' : Disk)
    → ((p : Location) → d p ≡ some directory → d' p ≡ some directory)
    → walk ss l d ≡ (none, l')
    → walk ss l d' ≡ (none, l')
unfolding walk enter_named enter_node
walk-grows [] l l' d d' grows h = h
walk-grows (s ∷ ss) l l' d d' grows h =
    let (there, further, named) = walk-enters s (d (step_to s l)) l (walk ss (step_to s l) d) h in
    rw (named, grows (step_to s l) there) (walk-grows ss (step_to s l) l' d d' grows further)

pub make_dirs-walk :
    (os : Os) (ss rest : List Text) (l l' : Location) (d : Disk)
    → walk ss l d ≡ (none, l')
    → make_dirs os (ss ++ rest) l d ≡ make_dirs os rest l' d
unfolding walk make_dirs make_named make_node
make_dirs-walk os [] rest l l' d h = ap (λ p. make_dirs os rest p d) (ap (λ r. r.1) h)
make_dirs-walk os (s ∷ ss) rest l l' d h =
    let (there, further, named) = walk-enters s (d (step_to s l)) l (walk ss (step_to s l) d) h in
    rw (named, there) (make_dirs-walk os ss rest (step_to s l) l' d further)

pub open_from-walk :
    (os : Os) (ss rest : List Text) (t : Text) (l l' : Location) (d : Disk)
    → walk ss l d ≡ (none, l')
    → open_from os (ss ++ (t ∷ rest)) l d ≡ open_from os (t ∷ rest) l' d
unfolding walk open_from
open_from-walk os [] rest t l l' d h = ap (λ p. open_from os (t ∷ rest) p d) (ap (λ r. r.1) h)
open_from-walk os (s ∷ []) rest t l l' d h =
    let (there, further, named) = walk-enters s (d (step_to s l)) l (none, step_to s l) h in
    rw there (open_from-walk os [] rest t (step_to s l) l' d further)
open_from-walk os (s ∷ s' ∷ ss) rest t l l' d h =
    let (there, further, named) =
      walk-enters s (d (step_to s l)) l (walk (s' ∷ ss) (step_to s l) d) h in
    rw there (open_from-walk os (s' ∷ ss) rest t (step_to s l) l' d further)
