-- ===== src/Tools/Disk/Tame.antt =====
-- What walks along paths leave alone: directories stay, and changes are kept to some locations.
use aliyun_ahas.Common.{
  Text, List, [], ◌∷◌, ◌++◌, false, Option, none, some, Result, err, All, Bool-cases, ◌≡◌, ◌⊎◌, inl,
  inr, refl, ap, subst, ◌∙◌,
}
use aliyun_ahas.Tools.Disk.{
  Os, Disk, Location, Node, directory, file, same_location, same_location_iff, put, stays, goes_up,
  has_zero, step_to, enter_node, make_node, make_named, make_new, and_then, unless, make_dirs,
  open_node, open_new, open_old, open_from,
}

-- No segment leads to the directory above.
abbrev pub NoneUp : List Text → Type 0
NoneUp = All (λ s. goes_up s ≡ false)

abbrev pub Under : Location → Location → Type 0
Under loc p = (q : Location) × (p ≡ q ++ loc)

abbrev pub Anywhere : Location → Type 0
Anywhere p = Unit {0}

-- The segments lead from locations with `P` to such locations.
abbrev pub IsClosed : (Location → Type 0) → List Text → Type 0
IsClosed P = All (λ s. (l : Location) → P l → P (step_to s l))

-- Directories stay, and nothing changes but at locations with `P`.
pub record IsTame (P : Location → Type 0) (d d' : Disk) : Type 0 where
  pub grows : (l : Location) → d l ≡ some directory → d' l ≡ some directory
  pub keeps : (p : Location) → (d' p ≡ d p) ⊎ P p

pub IsTame-refl : (P : Location → Type 0) (d : Disk) → IsTame P d d
IsTame-refl P d = record { grows = λ l h. h; keeps = λ p. inl refl }

keeps_trans : {P : Type 0} (a b c : Option Node) → (b ≡ a) ⊎ P → (c ≡ b) ⊎ P → (c ≡ a) ⊎ P
keeps_trans a b c (inr u) k = inr u
keeps_trans a b c (inl e) (inr u) = inr u
keeps_trans a b c (inl e) (inl e') = inl (e' ∙ e)

pub IsTame-trans :
    (P : Location → Type 0) (d d' d'' : Disk) → IsTame P d d' → IsTame P d' d'' → IsTame P d d''
IsTame-trans P d d' d'' t t' = record {
  grows = λ l h. t'.grows l (t.grows l h);
  keeps = λ p. keeps_trans (d p) (d' p) (d'' p) (t.keeps p) (t'.keeps p);
}

put-directory :
    (d : Disk) (l l' : Location) (n : Node)
    → ((d l ≡ none) ⊎ ((t : Text) × (d l ≡ some (file t))))
    → d l' ≡ some directory
    → put d l n l' ≡ some directory
put-directory d l l' n free there = elim (Bool-cases (same_location l l')) [
  | inl same ↦ absurd (clash free (ap d ((same_location_iff l l').0 same) ∙ there))
  | inr other ↦ rw other there
]
  where
    clash : ((d l ≡ none) ⊎ ((t : Text) × (d l ≡ some (file t)))) → d l ≡ some directory → ⊥
    clash (inl e) h = cc
    clash (inr (t, e)) h = cc

pub put-IsTame :
    (P : Location → Type 0) (l : Location) (d : Disk) (n : Node)
    → P l
    → ((d l ≡ none) ⊎ ((t : Text) × (d l ≡ some (file t))))
    → IsTame P d (put d l n)
put-IsTame P l d n inside free = record {
  grows = λ l' h. put-directory d l l' n free h;
  keeps = λ p. elim (Bool-cases (same_location l p)) [
    | inl same ↦ inr (subst P ((same_location_iff l p).0 same) inside)
    | inr other ↦ inl (rw other refl)
  ];
}

step_to-Under :
    (loc l : Location) (s : Text) → goes_up s ≡ false → Under loc l → Under loc (step_to s l)
step_to-Under loc l s level (q, under) = elim (Bool-cases (stays s)) [
  | inl same ↦ rw same (q, under)
  | inr moves ↦ rw (moves, level) (s ∷ q, ap (λ p. s ∷ p) under)
]

-- Segments that do not lead up stay under a location.
pub Under-IsClosed : (loc : Location) (ss : List Text) → NoneUp ss → IsClosed (Under loc) ss
Under-IsClosed loc [] level = tt
Under-IsClosed loc (s ∷ ss) level =
    (λ l u. step_to-Under loc l s level.0 u, Under-IsClosed loc ss level.1)

pub Anywhere-IsClosed : (ss : List Text) → IsClosed Anywhere ss
Anywhere-IsClosed [] = tt
Anywhere-IsClosed (s ∷ ss) = (λ l u. tt, Anywhere-IsClosed ss)

module _ (P : Location → Type 0) where
  make_new-IsTame :
      (e : Option Text) (l : Location) (d : Disk) → d l ≡ none → P l → IsTame P d (make_new e l d).1
  unfolding make_new
  make_new-IsTame (some x) l d free u = IsTame-refl P d
  make_new-IsTame none l d free u = put-IsTame P l d directory u (inl free)

  make_node-IsTame :
      (os : Os) (l : Location) (d : Disk) (o : Option Node)
      → d l ≡ o
      → P l
      → IsTame P d (make_node os l o d).1
  unfolding make_node
  make_node-IsTame os l d (some directory) e u = IsTame-refl P d
  make_node-IsTame os l d (some (file t)) e u = IsTame-refl P d
  make_node-IsTame os l d none e u = make_new-IsTame (os.denied l) l d e u

  make_named-IsTame :
      (os : Os) (s : Text) (l : Location) (d : Disk) → P l → IsTame P d (make_named os s l d).1
  unfolding make_named
  make_named-IsTame os s l d u = elim (Bool-cases (has_zero s)) [
    | inl bad ↦ rw bad (IsTame-refl P d)
    | inr fine ↦ rw fine (make_node-IsTame os l d (d l) refl u)
  ]

  and_then-IsTame :
      (d : Disk) (r : Option Text × Disk) (next : Disk → Option Text × Disk)
      → IsTame P d r.1
      → ((d' : Disk) → IsTame P d' (next d').1)
      → IsTame P d (and_then r next).1
  and_then-IsTame d (some e, d') next t h = t
  and_then-IsTame d (none, d') next t h = IsTame-trans P d d' (next d').1 t (h d')

  pub make_dirs-IsTame :
      (os : Os) (ss : List Text) (l : Location) (d : Disk)
      → IsClosed P ss
      → P l
      → IsTame P d (make_dirs os ss l d).1
  unfolding make_dirs
  make_dirs-IsTame os [] l d level u = IsTame-refl P d
  make_dirs-IsTame os (s ∷ ss) l d level u =
      let u' = level.0 l u in
      and_then-IsTame d (make_named os s (step_to s l) d) (λ d'. make_dirs os ss (step_to s l) d')
        (make_named-IsTame os s (step_to s l) d u')
        (λ d'. make_dirs-IsTame os ss (step_to s l) d' level.1 u')

  open_new-IsTame :
      (e : Option Text) (l : Location) (d : Disk) → d l ≡ none → P l → IsTame P d (open_new e l d).1
  unfolding open_new
  open_new-IsTame (some x) l d free u = IsTame-refl P d
  open_new-IsTame none l d free u = put-IsTame P l d (file []) u (inl free)

  open_old-IsTame : (e : Option Text) (l : Location) (d : Disk) → IsTame P d (open_old e l d).1
  unfolding open_old
  open_old-IsTame (some x) l d = IsTame-refl P d
  open_old-IsTame none l d = IsTame-refl P d

  open_node-IsTame :
      (os : Os) (l : Location) (d : Disk) (o : Option Node)
      → d l ≡ o
      → P l
      → IsTame P d (open_node os l o d).1
  unfolding open_node
  open_node-IsTame os l d (some directory) e u = IsTame-refl P d
  open_node-IsTame os l d (some (file t)) e u = open_old-IsTame (os.unwritable l) l d
  open_node-IsTame os l d none e u = open_new-IsTame (os.denied l) l d e u

  unless-IsTame :
      (d : Disk) (o : Option Text) (failed : Text → Result Location × Disk)
      (r : Result Location × Disk)
      → ((e : Text) → IsTame P d (failed e).1)
      → IsTame P d r.1
      → IsTame P d (unless o failed r).1
  unless-IsTame d (some e) failed r h t = h e
  unless-IsTame d none failed r h t = t

  pub open_from-IsTame :
      (os : Os) (ss : List Text) (l : Location) (d : Disk)
      → IsClosed P ss
      → P l
      → IsTame P d (open_from os ss l d).1
  unfolding open_from
  open_from-IsTame os [] l d level u = IsTame-refl P d
  open_from-IsTame os (s ∷ []) l d level u =
      open_node-IsTame os (step_to s l) d (d (step_to s l)) refl (level.0 l u)
  open_from-IsTame os (s ∷ t ∷ ss) l d level u =
      unless-IsTame d (enter_node (d (step_to s l))) (λ e. (err e, d))
        (open_from os (t ∷ ss) (step_to s l) d) (λ e. IsTame-refl P d)
        (open_from-IsTame os (t ∷ ss) (step_to s l) d level.1 (level.0 l u))
