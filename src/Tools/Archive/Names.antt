-- ===== src/Tools/Archive/Names.antt =====
-- The names of the files of an archive: which directory `createFile` makes for them.
use aliyun_ahas.Common.{
  ℕ, zero, suc, ◌-◌, ◌≤◌, ◌<◌, Text, List, [], ◌∷◌, ◌++◌, append_assoc, false, none, some, ok,
  length, take, ◌==◌, Bool-cases, Option-cases, inl, inr, ◌≡◌, refl, ap, ◌∙◌, sym, arith,
}
use aliyun_ahas.Tools.Runes.{IsAscii, runes_of_ascii, text_of_ascii}
use aliyun_ahas.Tools.Disk.{segments, extend}
use aliyun_ahas.Tools.Archive.{zeros, last_index, rune_prefix}

-- A path is split at a separator.
extend-append :
    (c : ℕ) (s : Text) (ss : List Text) → extend c (segments s ++ ss) ≡ extend c (segments s) ++ ss
unfolding extend segments
extend-append c [] ss = refl
extend-append c (d ∷ s) ss = elim (Bool-cases (d == b'/')) [
  | inl slash ↦ rw slash refl
  | inr other ↦ rw other (extend-extend (segments s))
]
  where
    extend-extend : (l : List Text) → extend c (extend d l ++ ss) ≡ extend c (extend d l) ++ ss
    extend-extend [] = refl
    extend-extend (t ∷ l) = refl

segments-suc_slash : (s : Text) → segments (b'/' ∷ s) ≡ [] ∷ segments s
unfolding segments
segments-suc_slash s = refl

segments-suc_other :
    (c : ℕ) (s : Text) → (c == b'/') ≡ false → segments (c ∷ s) ≡ extend c (segments s)
unfolding segments
segments-suc_other c s other = rw other refl

pub segments-append : (s t : Text) → segments (s ++ (b'/' ∷ t)) ≡ segments s ++ segments t
segments-append [] t = unfold segments in refl
segments-append (c ∷ s) t = elim (Bool-cases (c == b'/')) [
  | inl slash ↦
      let e : c ≡ b'/' = ground arith in
      rw (e, segments-suc_slash s, segments-suc_slash (s ++ (b'/' ∷ t)), segments-append s t) refl
  | inr other ↦
      rw
        (
          segments-suc_other c s other,
          segments-suc_other c (s ++ (b'/' ∷ t)) other,
          segments-append s t,
        )
        (extend-append c s (segments t))
]

pub segments_of_one : (s : Text) → last_index b'/' s ≡ none → segments s ≡ s ∷ []
unfolding segments last_index extend
segments_of_one [] h = refl
segments_of_one (c ∷ s) h = elim (Option-cases (last_index b'/' s)) [
  | inl none_behind ↦ ground (arith, segments_of_one s)
  | inr (i, e) ↦ absurd (ground arith)
]

-- Behind the last separator there is none.
pub last_index-some :
    (c : ℕ) (s : Text) (i : ℕ)
    → last_index c s ≡ some i
    → (last : Text) × (s ≡ take i s ++ (c ∷ last)) × (last_index c last ≡ none)
unfolding last_index
last_index-some c [] i h = absurd (ground arith)
last_index-some c (d ∷ s) zero h = elim (Option-cases (last_index c s)) [
  | inl e ↦ (s, ground arith, e)
  | inr (j, e) ↦ absurd (ground arith)
]
last_index-some c (d ∷ s) (suc i) h = elim (Option-cases (last_index c s)) [
  | inl e ↦ absurd (ground arith)
  | inr (j, e) ↦
      let (last, cut, free) = last_index-some c s i (ground arith) in
      (last, ap (λ t. d ∷ t) cut, free)
]

last_index-lt : (c : ℕ) (s : Text) (i : ℕ) → last_index c s ≡ some i → i < length s
unfolding last_index
last_index-lt c [] i h = absurd (ground arith)
last_index-lt c (d ∷ s) zero h = omega arith
last_index-lt c (d ∷ s) (suc i) h = elim (Option-cases (last_index c s)) [
  | inl e ↦ absurd (ground arith)
  | inr (j, e) ↦ omega (arith, last_index-lt c s i (ground arith))
]

IsAscii-take : (n : ℕ) (s : Text) → IsAscii s → IsAscii (take n s)
IsAscii-take zero s h = tt
IsAscii-take (suc n) [] h = tt
IsAscii-take (suc n) (c ∷ s) h = (h.0, IsAscii-take n s h.1)

take-append_within : (n : ℕ) (s t : Text) → n ≤ length s → take n (s ++ t) ≡ take n s
take-append_within zero s t h = refl
take-append_within (suc n) [] t h = absurd (omega arith)
take-append_within (suc n) (c ∷ s) t h = ap (λ r. c ∷ r) (take-append_within n s t (omega arith))

-- For an ASCII path, the runes up to an index are the bytes up to it.
pub rune_prefix_of_ascii :
    (rune_cap : ℕ → ℕ) (s : Text) (n : ℕ)
    → ((k : ℕ) → k ≤ rune_cap k)
    → IsAscii s
    → n ≤ length s
    → rune_prefix rune_cap s (some n) ≡ ok (take n s)
unfolding rune_prefix
rune_prefix_of_ascii rune_cap s n grows ascii h =
    rw
      (
        runes_of_ascii s ascii,
        take-append_within n s (zeros (n - length s)) h,
        text_of_ascii (take n s) (IsAscii-take n s ascii),
      )
      (ground (arith, grows (length s)))

-- The segments of a path are never none, and the last one can be told from the others.
pub segments-some :
    (s : Text) → (front : List Text) × (last : Text) × (segments s ≡ front ++ (last ∷ []))
unfolding segments extend
segments-some [] = ([], [], refl)
segments-some (c ∷ s) = attach (segments-some s)
  where
    attach :
        ((front : List Text) × (last : Text) × (segments s ≡ front ++ (last ∷ [])))
        → (front : List Text) × (last : Text) × (segments (c ∷ s) ≡ front ++ (last ∷ []))
    attach ([], last, e) = elim (Bool-cases (c == b'/')) [
      | inl slash ↦ ([] ∷ [], last, ground arith)
      | inr other ↦ ([], c ∷ last, ground arith)
    ]
    attach (t ∷ front, last, e) = elim (Bool-cases (c == b'/')) [
      | inl slash ↦ ([] ∷ t ∷ front, last, ground arith)
      | inr other ↦ ((c ∷ t) ∷ front, last, ground arith)
    ]

pub append_last-injective :
    {A : Type 0} (xs ys : List A) (x y : A) → xs ++ (x ∷ []) ≡ ys ++ (y ∷ []) → (xs ≡ ys) × (x ≡ y)
append_last-injective [] [] x y e = (refl, cc)
append_last-injective [] (z ∷ []) x y e = absurd (cc)
append_last-injective [] (z ∷ w ∷ ys) x y e = absurd (cc)
append_last-injective (z ∷ []) [] x y e = absurd (cc)
append_last-injective (z ∷ w ∷ xs) [] x y e = absurd (cc)
append_last-injective (z ∷ xs) (w ∷ ys) x y e =
    let (same, end) = append_last-injective xs ys x y (cc) in (cc, end)

-- Where `createFile` cuts the path of an entry: in front of the last segment.
pub record Cut (dest name : Text) : Type 0 where
  pub index : ℕ
  pub front : List Text
  pub last : Text
  pub found : last_index b'/' (dest ++ (b'/' ∷ name)) ≡ some index
  pub within : index < length (dest ++ (b'/' ∷ name))
  pub path_is : dest ++ (b'/' ∷ name) ≡ take index (dest ++ (b'/' ∷ name)) ++ (b'/' ∷ last)
  pub dir_is : segments (take index (dest ++ (b'/' ∷ name))) ≡ segments dest ++ front
  pub name_is : segments name ≡ front ++ (last ∷ [])

Cut-at :
    (dest name : Text) (i : ℕ) → last_index b'/' (dest ++ (b'/' ∷ name)) ≡ some i → Cut dest name
Cut-at dest name i h =
    let path = dest ++ (b'/' ∷ name) in
    let (last, path_is, free) = last_index-some b'/' path i h in
    let (front, end, name_is) = segments-some name in
    let by_last : segments path ≡ segments (take i path) ++ (last ∷ []) =
      ap segments path_is
      ∙ segments-append (take i path) last
      ∙ ap (λ ss. segments (take i path) ++ ss) (segments_of_one last free) in
    let by_name : segments path ≡ (segments dest ++ front) ++ (end ∷ []) =
      segments-append dest name
      ∙ ap (λ ss. segments dest ++ ss) name_is
      ∙ sym (append_assoc (segments dest) front (end ∷ [])) in
    let (dir_is, same) =
      append_last-injective (segments (take i path)) (segments dest ++ front) last end
        (sym by_last ∙ by_name) in
    record {
      index = i;
      front = front;
      last = last;
      found = h;
      within = last_index-lt b'/' path i h;
      path_is = path_is;
      dir_is = dir_is;
      name_is = name_is ∙ ap (λ t. front ++ (t ∷ [])) (sym same);
    }

last_index-of_slash :
    (dest name : Text) → (i : ℕ) × (last_index b'/' (dest ++ (b'/' ∷ name)) ≡ some i)
unfolding last_index
last_index-of_slash [] name = elim (Option-cases (last_index b'/' name)) [
  | inl e ↦ (0, rw e refl)
  | inr (i, e) ↦ (suc i, rw e refl)
]
last_index-of_slash (c ∷ dest) name =
    let (i, e) = last_index-of_slash dest name in (suc i, rw e refl)

pub cut : (dest name : Text) → Cut dest name
cut dest name = let (i, e) = last_index-of_slash dest name in Cut-at dest name i e
