-- ===== src/Gateway/Ring/Rounds.antt =====
-- Rounds of `next` (gateway/ring.go).
use aliyun_ahas.Common.{
  ℕ, zero, suc, ◌+◌, ◌-◌, ◌%◌, ◌≤◌, ◌<◌, ◌≡◌, ◌∙◌, refl, sym, ap, List, [], ◌∷◌, some, ok, length,
  get_elem?, arith,
}
use aliyun_ahas.Gateway.Ring.{Ring, max_index, value_at, next}
use native.Mathlib.Nat.{mod-lt, mod-eq_of_lt, mod-add-mod, add-mod-mod, add-mod_right}

-- The number of calls until slot `j` of `n` is reached from index `i`.
abbrev wait_for : ℕ → ℕ → ℕ → ℕ
wait_for i j n = (j + n - (i + 1) % n) % n

wait_for_slot : (i j n : ℕ) → j < n → (i + wait_for i j n + 1) % n ≡ j
wait_for_slot i j n h =
    let around = j + n - (i + 1) % n in
    let turn : i + around % n + 1 ≡ (i + 1) + around % n = omega arith in
    let below : (i + 1) % n < n = mod-lt (i + 1) (omega arith) in
    let full : (i + 1) % n + around ≡ j + n = omega arith in
    ap (λ z. z % n) turn
    ∙ add-mod-mod (i + 1) around n
    ∙ sym (mod-add-mod (i + 1) n around)
    ∙ ap (λ z. z % n) full
    ∙ add-mod_right j n
    ∙ mod-eq_of_lt h

module _ {A : Type 0} where
  -- The ring after `k` calls.
  unfoldable pub after : ℕ → Ring A → Ring A
  after zero r = r
  after (suc k) r = after k (next r).1

  get_elem?-some : (xs : List A) (i : ℕ) → i < length xs → (v : A) × (get_elem? xs i ≡ some v)
  get_elem?-some [] i h = absurd (omega arith)
  get_elem?-some (x ∷ xs) zero h = (x, refl)
  get_elem?-some (x ∷ xs) (suc i) h = get_elem?-some xs i (omega arith)

  value_at-ok :
      (xs : List A) (i j : ℕ)
      → j < length xs
      → i % length xs ≡ j
      → (v : A) × (get_elem? xs j ≡ some v) × (value_at xs i ≡ ok v)
  unfolding value_at
  value_at-ok xs i j h e =
      let (v, here) = get_elem?-some xs j h in (v, here, ground (arith, here, e))

  after-index :
      (k : ℕ) (r : Ring A)
      → r.index + k ≤ max_index
      → ((after k r).index ≡ r.index + k) × ((after k r).values ≡ r.values)
  unfolding after next
  after-index zero r h = (omega arith, refl)
  after-index (suc k) r h = ground (arith, after-index k (record r { index = r.index + 1 }))

  next_below :
      (t : Ring A) {i : ℕ} {xs : List A}
      → t.index ≡ i
      → t.values ≡ xs
      → i < max_index
      → (next t).0 ≡ value_at xs (i + 1)
  unfolding next
  next_below t e same h = ground (arith, e, same)

  -- Where the index does not reach its bound on the way, as many calls as there are values give each
  -- value once more: for every slot there is a call among them that gives its value.
  pub round_visits_every_slot :
      (r : Ring A) (j : ℕ)
      → j < length r.values
      → r.index + length r.values ≤ max_index
      → (k : ℕ) × (v : A) × (k < length r.values)
        × (get_elem? r.values j ≡ some v)
        × ((next (after k r)).0 ≡ ok v)
  round_visits_every_slot r j h fits =
      let k = wait_for r.index j (length r.values) in
      let soon : k < length r.values = mod-lt _ (omega arith) in
      let (at, same) = after-index k r (omega arith) in
      let slot = wait_for_slot r.index j (length r.values) h in
      let (v, here, gives) = value_at-ok r.values (r.index + k + 1) j h slot in
      (k, v, soon, here, next_below (after k r) at same (omega arith) ∙ gives)

  -- Where the number of values divides the bound, as the pool's 2 divides 10000, the two calls around
  -- the reset both give the first value: the round is broken there.
  pub reset_repeats_first :
      (r : Ring A) (v : A) (vs : List A)
      → r.values ≡ v ∷ vs
      → max_index % length r.values ≡ 0
      → r.index + 1 ≡ max_index
      → ((next r).0 ≡ ok v) × ((next (next r).1).0 ≡ ok v)
  unfolding next
  reset_repeats_first r v vs e divides last = ground (arith, e, divides, last)
