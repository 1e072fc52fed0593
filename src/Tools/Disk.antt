-- ===== src/Tools/Disk.antt =====
-- What tools/file.go uses of the package os: a tree of directories and files without symbolic links, in which a
-- path is walked segment by segment. A location is the names on the way to it, the last one first.
pub mod Tame
pub mod Walks
pub mod Opening
pub mod Directories
use aliyun_ahas.Common.{
  ℕ, zero, suc, Text, lit, List, [], ◌∷◌, ◌++◌, Bool, true, false, ◌||◌, ◌&&◌, Option, none, some,
  Result, ok, err, is_empty, text_eq, text_eq_iff, length, drop, ◌==◌, if◌then◌else◌, ◌≡◌, ◌↔◌,
  refl, arith,
}

abbrev pub Location : Type 0
Location = List Text

pub data Node : Type 0 where
  directory : Node
  file : Text → Node

abbrev pub Disk : Type 0
Disk = Location → Option Node

-- The process: where relative paths start, where it may not make anything, and which files that are there it may not
-- write, with the errors that tell so.
pub record Os : Type 0 where
  pub cwd : Location
  pub denied : Location → Option Text
  pub unwritable : Location → Option Text

unfoldable pub same_location : Location → Location → Bool
same_location [] [] = true
same_location [] (t ∷ q) = false
same_location (s ∷ p) [] = false
same_location (s ∷ p) (t ∷ q) = text_eq s t && same_location p q

pub same_location_iff : (p q : Location) → (same_location p q ≡ true) ↔ (p ≡ q)
unfolding same_location
same_location_iff [] [] = (λ e. refl, λ e. refl)
same_location_iff [] (t ∷ q) = (λ e. ground arith, λ e. ground arith)
same_location_iff (s ∷ p) [] = (λ e. ground arith, λ e. ground arith)
same_location_iff (s ∷ p) (t ∷ q) =
    let (to, from) = same_location_iff p q in
    let (equal, same) = text_eq_iff s t in
    (λ e. ground (arith, to (ground arith), equal (ground arith)), λ e. ground (arith, from, same))

abbrev pub put : Disk → Location → Node → Disk
put d l n p = if same_location l p then some n else d p

unfoldable pub extend : ℕ → List Text → List Text
extend c [] = (c ∷ []) ∷ []
extend c (s ∷ ss) = (c ∷ s) ∷ ss

-- `strings.Split(path, "/")`
unfoldable pub segments : Text → List Text
unfolding extend
segments [] = [] ∷ []
segments (c ∷ s) = if c == b'/' then [] ∷ segments s else extend c (segments s)

abbrev pub stays : Text → Bool
stays s = is_empty s || text_eq s (lit ".")

abbrev pub goes_up : Text → Bool
goes_up s = text_eq s (lit "..")

abbrev pub parent : Location → Location
parent [] = []
parent (s ∷ l) = l

-- The location that a segment leads to.
abbrev pub step_to : Text → Location → Location
step_to s l = if stays s then l else if goes_up s then parent l else s ∷ l

abbrev pub start : Os → Text → Location
start os [] = os.cwd
start os (c ∷ s) = if c == b'/' then [] else os.cwd

-- A path with a zero byte cannot be opened, and a directory with one in its name cannot be made.
abbrev pub has_zero : Text → Bool
has_zero [] = false
has_zero (c ∷ s) = c == 0 || has_zero s

pub enter_node : Option Node → Option Text
enter_node (some directory) = none
enter_node (some (file t)) = some (lit "not a directory")
enter_node none = some (lit "no such file or directory")

-- `if err != nil { return ... }`
abbrev pub unless : {A : Type 0} → Option Text → (Text → A) → A → A
unless (some e) failed a = failed e
unless none failed a = a

-- A name with a zero byte is that of no node.
pub enter_named : Text → Option Node → Option Text
unfolding enter_node
enter_named s o = if has_zero s then some (lit "invalid argument") else enter_node o

-- The walk along a path to a directory that is there, with the error if it is not.
unfoldable pub walk : List Text → Location → Disk → Option Text × Location
unfolding enter_named
walk [] l d = (none, l)
walk (s ∷ ss) l d =
    unless (enter_named s (d (step_to s l))) (λ e. (some e, l)) (walk ss (step_to s l) d)

pub make_new : Option Text → Location → Disk → Option Text × Disk
make_new (some e) l d = (some e, d)
make_new none l d = (none, put d l directory)

pub make_node : Os → Location → Option Node → Disk → Option Text × Disk
unfolding make_new
make_node os l (some directory) d = (none, d)
make_node os l (some (file t)) d = (some (lit "not a directory"), d)
make_node os l none d = make_new (os.denied l) l d

abbrev pub and_then : Option Text × Disk → (Disk → Option Text × Disk) → Option Text × Disk
and_then (some e, d) next = (some e, d)
and_then (none, d) next = next d

-- The directory of one segment; `os.Mkdir` refuses a name with a zero byte.
pub make_named : Os → Text → Location → Disk → Option Text × Disk
unfolding make_node
make_named os s l d =
    if has_zero s then (some (lit "invalid argument"), d) else make_node os l (d l) d

unfoldable pub make_dirs : Os → List Text → Location → Disk → Option Text × Disk
unfolding make_named
make_dirs os [] l d = (none, d)
make_dirs os (s ∷ ss) l d =
    and_then (make_named os s (step_to s l) d) (λ d'. make_dirs os ss (step_to s l) d')

-- `os.MkdirAll`: it makes the parents first, also where a later segment is refused.
unfoldable pub mkdir_all : Os → Text → Disk → Option Text × Disk
mkdir_all os path d =
    if is_empty path
    then (some (lit "no such file or directory"), d)
    else make_dirs os (segments path) (start os path) d

pub open_new : Option Text → Location → Disk → Result Location × Disk
open_new (some e) l d = (err e, d)
open_new none l d = (ok l, put d l (file []))

pub open_old : Option Text → Location → Disk → Result Location × Disk
open_old (some e) l d = (err e, d)
open_old none l d = (ok l, d)

pub open_node : Os → Location → Option Node → Disk → Result Location × Disk
unfolding open_new open_old
open_node os l (some directory) d = (err (lit "is a directory"), d)
open_node os l (some (file t)) d = open_old (os.unwritable l) l d
open_node os l none d = open_new (os.denied l) l d

unfoldable pub open_from : Os → List Text → Location → Disk → Result Location × Disk
unfolding open_node enter_node
open_from os [] l d = (err (lit "is a directory"), d)
open_from os (s ∷ []) l d = open_node os (step_to s l) (d (step_to s l)) d
open_from os (s ∷ t ∷ ss) l d =
    unless (enter_node (d (step_to s l))) (λ e. (err e, d)) (open_from os (t ∷ ss) (step_to s l) d)

-- `os.OpenFile` with O_CREATE and O_WRONLY: a file that is there keeps its content.
unfoldable pub open_file : Os → Text → Disk → Result Location × Disk
open_file os path d =
    if has_zero path
    then (err (lit "invalid argument"), d)
    else open_from os (segments path) (start os path) d

abbrev pub content_of : Option Node → Text
content_of (some (file t)) = t
content_of (some directory) = []
content_of none = []

-- Bytes written from the start of a file: what is behind them stays.
abbrev pub overwrite : Text → Text → Text
overwrite written old = written ++ drop (length written) old

abbrev pub write_at : Location → Text → Disk → Disk
write_at l written d = put d l (file (overwrite written (content_of (d l))))
