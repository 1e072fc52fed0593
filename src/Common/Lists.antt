-- ===== src/Common/Lists.antt =====
-- Lists measured and cut by native numbers, under the library's names.
use Prim.Native.Nat.{ℕ, zero, suc, ◌+◌, ◌-◌, ◌≤◌}
use mathlib.Core.Logic.{◌⊎◌, inl, inr}
use mathlib.Core.Path.{◌≡◌, refl, sym, ap}
use mathlib.Core.List.{List, [], ◌∷◌, ◌++◌, append-nil}
use mathlib.Core.Option.{Option, none, some}
use native.Mathlib.Omega.{arith}

module _ {ℓ} {A : Type ℓ} where
  abbrev pub length : List A → ℕ
  length [] = 0
  length (x ∷ xs) = suc (length xs)

  abbrev pub get_elem? : List A → ℕ → Option A
  get_elem? [] i = none
  get_elem? (x ∷ xs) zero = some x
  get_elem? (x ∷ xs) (suc i) = get_elem? xs i

  abbrev pub take : ℕ → List A → List A
  take zero xs = []
  take (suc n) [] = []
  take (suc n) (x ∷ xs) = x ∷ take n xs

  abbrev pub drop : ℕ → List A → List A
  drop zero xs = xs
  drop (suc n) [] = []
  drop (suc n) (x ∷ xs) = drop n xs

  abbrev pub All {κ} : (A → Type κ) → List A → Type κ
  All P [] = Unit {κ}
  All P (x ∷ xs) = P x × All P xs

  pub length-append : (xs ys : List A) → length (xs ++ ys) ≡ length xs + length ys
  length-append [] ys = omega arith
  length-append (x ∷ xs) ys = omega (arith, length-append xs ys)

  pub take-append-drop : (n : ℕ) (xs : List A) → take n xs ++ drop n xs ≡ xs
  take-append-drop zero xs = refl
  take-append-drop (suc n) [] = refl
  take-append-drop (suc n) (x ∷ xs) = ap (λ t. x ∷ t) (take-append-drop n xs)

  -- Of two ways to cut a list in two, the one with the longer front goes on from the other.
  pub append-split :
      (xs ys us vs : List A)
      → xs ++ ys ≡ us ++ vs
      → length us ≤ length xs
      → (ds : List A) × (xs ≡ us ++ ds) × (vs ≡ ds ++ ys)
  append-split xs ys [] vs e h = (xs, refl, sym e)
  append-split [] ys (u ∷ us) vs e h = absurd (omega arith)
  append-split (x ∷ xs) ys (u ∷ us) vs e h =
      let (ds, p, q) = append-split xs ys us vs (cc) (omega arith) in (ds, cc, q)

  pub length-eq_zero : (xs : List A) → length xs ≡ 0 → xs ≡ []
  length-eq_zero [] h = refl
  length-eq_zero (x ∷ xs) h = absurd (omega arith)

  pub take_within : (n : ℕ) (s : List A) → length s ≤ n → (take n s ≡ s) × (drop n s ≡ [])
  take_within zero [] h = (refl, refl)
  take_within zero (c ∷ s) h = absurd (omega arith)
  take_within (suc n) [] h = (refl, refl)
  take_within (suc n) (c ∷ s) h =
      let (front, rest) = take_within n s (omega arith) in (ap (λ t. c ∷ t) front, rest)

  -- A whole block, or the last one, is cut off again.
  pub take_block :
      (n : ℕ) (s t : List A)
      → length s ≤ n
      → (length s ≡ n) ⊎ (t ≡ [])
      → (take n (s ++ t) ≡ s) × (drop n (s ++ t) ≡ t)
  take_block n s t h (inr e) =
      let (front, rest) = take_within n s h in rw (e, append-nil) (front, rest)
  take_block zero [] t h (inl e) = (refl, refl)
  take_block zero (c ∷ s) t h (inl e) = absurd (omega arith)
  take_block (suc n) [] t h (inl e) = absurd (omega arith)
  take_block (suc n) (c ∷ s) t h (inl e) =
      let (front, rest) = take_block n s t (omega arith) (inl (omega arith)) in
      (ap (λ r. c ∷ r) front, rest)

  pub length-take :
      (n : ℕ) (s : List A) → (length (take n s) ≤ n) × ((length (take n s) ≡ n) ⊎ (drop n s ≡ []))
  length-take zero s = (omega arith, inl refl)
  length-take (suc n) [] = (omega arith, inr refl)
  length-take (suc n) (c ∷ s) = further (length-take n s)
    where
      further :
          (length (take n s) ≤ n) × ((length (take n s) ≡ n) ⊎ (drop n s ≡ []))
          → (length (take (suc n) (c ∷ s)) ≤ suc n)
            × ((length (take (suc n) (c ∷ s)) ≡ suc n) ⊎ (drop (suc n) (c ∷ s) ≡ []))
      further (h, inl e) = (omega arith, inl (omega arith))
      further (h, inr e) = (omega arith, inr e)

  pub length-drop : (n : ℕ) (s : List A) → length (drop n s) ≡ length s - n
  length-drop zero s = omega arith
  length-drop (suc n) [] = omega arith
  length-drop (suc n) (c ∷ s) = omega (arith, length-drop n s)
