-- ===== src/Tools/Disk/Opening.antt =====
-- Which file `os.OpenFile` opens, and what making directories and opening files does to the files that are there.
use aliyun_ahas.Common.{
  Text, List, [], ◌∷◌, ◌++◌, false, Option, none, some, Result, ok, err, Bool-cases, ◌≡◌, ◌≢◌, inl,
  inr, refl, sym, ap, ◌∙◌, arith,
}
use aliyun_ahas.Tools.Disk.{
  Os, Disk, Location, Node, directory, file, same_location, same_location_iff, put, has_zero,
  step_to, enter_node, make_node, make_named, make_new, and_then, unless, make_dirs, open_node,
  open_new, open_old, open_from, content_of,
}
use aliyun_ahas.Tools.Disk.Tame.{IsClosed}

-- The location that a path leads to.
abbrev pub locate : List Text → Location → Location
locate [] l = l
locate (s ∷ ss) l = locate ss (step_to s l)

pub locate-append :
    (ss ts : List Text) (l : Location) → locate (ss ++ ts) l ≡ locate ts (locate ss l)
locate-append [] ts l = refl
locate-append (s ∷ ss) ts l = locate-append ss ts (step_to s l)

pub locate-closed :
    (P : Location → Type 0) (ss : List Text) (l : Location) → IsClosed P ss → P l → P (locate ss l)
locate-closed P [] l closed u = u
locate-closed P (s ∷ ss) l closed u = locate-closed P ss (step_to s l) closed.1 (closed.0 l u)

-- What is a file stays one, with the same content, and nothing else becomes one.
abbrev pub SameFile : Option Node → Option Node → Type 0
SameFile a b =
    (t : Text) → (a ≡ some (file t) → b ≡ some (file t)) × (b ≡ some (file t) → a ≡ some (file t))

put-SameFile : (d : Disk) (l p : Location) → d l ≡ none → SameFile (d p) (put d l directory p)
put-SameFile d l p free t = elim (Bool-cases (same_location l p)) [
  | inl same ↦
      let free' : d p ≡ none = ap d (sym ((same_location_iff l p).0 same)) ∙ free in
      rw same (λ h. absurd (cc), λ h. absurd (ground arith))
  | inr other ↦ rw other (λ h. h, λ h. h)
]

make_new-SameFile :
    (x : Option Text) (l p : Location) (d : Disk)
    → d l ≡ none
    → SameFile (d p) ((make_new x l d).1 p)
unfolding make_new
make_new-SameFile (some x) l p d free t = (λ h. h, λ h. h)
make_new-SameFile none l p d free t = put-SameFile d l p free t

make_node-SameFile :
    (os : Os) (l p : Location) (d : Disk) (o : Option Node)
    → d l ≡ o
    → SameFile (d p) ((make_node os l o d).1 p)
unfolding make_node
make_node-SameFile os l p d (some directory) e t = (λ h. h, λ h. h)
make_node-SameFile os l p d (some (file s)) e t = (λ h. h, λ h. h)
make_node-SameFile os l p d none e t = make_new-SameFile (os.denied l) l p d e t

make_named-SameFile :
    (os : Os) (s : Text) (l p : Location) (d : Disk) → SameFile (d p) ((make_named os s l d).1 p)
unfolding make_named
make_named-SameFile os s l p d = elim (Bool-cases (has_zero s)) [
  | inl bad ↦ rw bad (λ t. (λ h. h, λ h. h))
  | inr fine ↦ rw fine (make_node-SameFile os l p d (d l) refl)
]

and_then-SameFile :
    (p : Location) (o : Option Node) (r : Option Text × Disk) (next : Disk → Option Text × Disk)
    → SameFile o (r.1 p)
    → ((d' : Disk) → SameFile (d' p) ((next d').1 p))
    → SameFile o ((and_then r next).1 p)
and_then-SameFile p o (some e, d') next same further t = same t
and_then-SameFile p o (none, d') next same further t =
    (λ h. (further d' t).0 ((same t).0 h), λ h. (same t).1 ((further d' t).1 h))

-- Making directories leaves the files as they are.
pub make_dirs-SameFile :
    (os : Os) (ss : List Text) (l p : Location) (d : Disk)
    → SameFile (d p) ((make_dirs os ss l d).1 p)
unfolding make_dirs
make_dirs-SameFile os [] l p d t = (λ h. h, λ h. h)
make_dirs-SameFile os (s ∷ ss) l p d t =
    and_then-SameFile p (d p) (make_named os s (step_to s l) d)
      (λ d'. make_dirs os ss (step_to s l) d') (make_named-SameFile os s (step_to s l) p d)
      (λ d'. make_dirs-SameFile os ss (step_to s l) p d') t

-- What a successful opening gives: the file at `l`, empty if it is new; all else is as before.
pub record Opened (l p : Location) (d d' : Disk) : Type 0 where
  pub place : p ≡ l
  pub text : Text
  pub at_place : d' p ≡ some (file text)
  pub kept : content_of (d l) ≡ text
  pub no_dir : d l ≢ some directory
  pub others : (q : Location) → same_location l q ≡ false → d' q ≡ d q

open_new-Opened :
    (e : Option Text) (l p : Location) (d d' : Disk)
    → d l ≡ none
    → open_new e l d ≡ (ok p, d')
    → Opened l p d d'
unfolding open_new
open_new-Opened (some x) l p d d' free h = absurd (ground arith)
open_new-Opened none l p d d' free h =
    let place : p ≡ l = ground arith in
    let made : d' ≡ put d l (file []) = ap (λ r. r.1) (sym h) in
    let same = (same_location_iff l l).1 refl in
    record {
      place = place;
      text = [];
      at_place = rw (place, made, same) refl;
      kept = rw free refl;
      no_dir = λ x. cc;
      others = λ q other. rw (made, other) refl;
    }

open_old-Opened :
    (x : Option Text) (l p : Location) (d d' : Disk) (t : Text)
    → d l ≡ some (file t)
    → open_old x l d ≡ (ok p, d')
    → Opened l p d d'
unfolding open_old
open_old-Opened (some x) l p d d' t e h = absurd (ground arith)
open_old-Opened none l p d d' t e h =
    let place : p ≡ l = ground arith in
    let made : d' ≡ d = ap (λ r. r.1) (sym h) in
    record {
      place = place;
      text = t;
      at_place = rw (made, place) e;
      kept = rw e refl;
      no_dir = λ x. cc;
      others = λ q other. rw made refl;
    }

open_node-Opened :
    (os : Os) (l p : Location) (d d' : Disk) (o : Option Node)
    → d l ≡ o
    → open_node os l o d ≡ (ok p, d')
    → Opened l p d d'
unfolding open_node
open_node-Opened os l p d d' (some directory) e h = absurd (ground arith)
open_node-Opened os l p d d' (some (file t)) e h = open_old-Opened (os.unwritable l) l p d d' t e h
open_node-Opened os l p d d' none e h = open_new-Opened (os.denied l) l p d d' e h

unless-enters :
    (o : Option Node) (r : Result Location × Disk) (p : Location) (d d' : Disk)
    → unless (enter_node o) (λ e. (err e, d)) r ≡ (ok p, d')
    → r ≡ (ok p, d')
unfolding enter_node
unless-enters (some directory) r p d d' h = h
unless-enters (some (file t)) r p d d' h = absurd (ground arith)
unless-enters none r p d d' h = absurd (ground arith)

pub open_from-Opened :
    (os : Os) (ss : List Text) (l p : Location) (d d' : Disk)
    → open_from os ss l d ≡ (ok p, d')
    → Opened (locate ss l) p d d'
unfolding open_from
open_from-Opened os [] l p d d' h = absurd (ground arith)
open_from-Opened os (s ∷ []) l p d d' h =
    open_node-Opened os (step_to s l) p d d' (d (step_to s l)) refl h
open_from-Opened os (s ∷ t ∷ ss) l p d d' h =
    open_from-Opened os (t ∷ ss) (step_to s l) p d d'
      (unless-enters (d (step_to s l)) (open_from os (t ∷ ss) (step_to s l) d) p d d' h)

pub SameFile-trans : (a b c : Option Node) → SameFile a b → SameFile b c → SameFile a c
SameFile-trans a b c first next t =
    (λ h. (next t).0 ((first t).0 h), λ h. (first t).1 ((next t).1 h))

-- The same file has the same content.
pub SameFile-content : (a b : Option Node) → SameFile a b → content_of a ≡ content_of b
SameFile-content (some (file t)) b same = sym (ap content_of ((same t).0 refl))
SameFile-content a (some (file t)) same = ap content_of ((same t).1 refl)
SameFile-content (some directory) (some directory) same = refl
SameFile-content (some directory) none same = refl
SameFile-content none (some directory) same = refl
SameFile-content none none same = refl
