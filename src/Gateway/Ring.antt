-- ===== src/Gateway/Ring.antt =====
-- gateway/ring.go: the round robin over the slots of the connection pool.
pub mod Rounds
pub mod Races
mod Tests
use aliyun_ahas.Common.{
  ℕ, ◌+◌, ◌%◌, ◌^◌, List, [], ◌∷◌, ◌++◌, Option, none, some, Result, ok, panic, length, get_elem?,
  ltb, ◌==◌, if◌then◌else◌,
}

-- `index` is a uint32.
pub record Ring (A : Type 0) : Type 0 where
  pub values : List A
  pub index : ℕ

abbrev pub max_index : ℕ
max_index = 10000

-- `atomic.AddUint32(&r.index, 1)` and the reset.
unfoldable pub advance : ℕ → ℕ
advance i = let i' = (i + 1) % 2 ^ 32 in if ltb max_index i' then 0 else i'

module _ {A : Type 0} where
  -- `newRing`
  unfoldable pub new_ring : Ring A
  new_ring = record { values = []; index = 0 }

  -- A nil value, `none`, is not added.
  unfoldable pub add : Ring A → Option A → Ring A
  add r none = r
  add r (some v) = record r { values = r.values ++ (v ∷ []) }

  abbrev or_panic : Option A → Result A
  or_panic none = panic
  or_panic (some v) = ok v

  -- `r.values[index % uint32(len(r.values))]`, which panics on an empty ring.
  pub value_at : List A → ℕ → Result A
  value_at values i =
      if length values == 0 then panic else or_panic (get_elem? values (i % length values))

  -- `next`, run by one goroutine at a time.
  unfoldable pub next : Ring A → Result A × Ring A
  unfolding value_at advance
  next r = let i = advance r.index in (value_at r.values i, record r { index = i })
